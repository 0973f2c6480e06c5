-- ===== src/Single/Pi/Resume.antt =====
-- What the anti-windup loop of the controller remembers while it is off.
use scdtr.Prelude.{◌≡◌, refl, true, false, List, [], ◌∷◌, arith}
use scdtr.Float.{Float, ◌⊕◌, ◌⊗◌, ◌⊖◌}
use scdtr.Single.Pi.{Controller, new_error, apply_deadzone, with_anti_windup, update}

module _ {F : Type 0} ⦃fl : Float F⦄ where
  -- The controller after updates at these inputs and references.
  unfoldable pub after : (F → F) → Controller F → List (F × F) → Controller F
  after f c [] = c
  after f c ((y, ref) ∷ samples) = after f (update c f y ref).0 samples

  after-off :
      (f : F → F) (c : Controller F) (samples : List (F × F))
      → c.use_anti_windup ≡ false
      → let c' = after f c samples in (c'.u_sat ≡ c.u_sat) × (c'.k_sat ≡ c.k_sat) × (c'.k_2 ≡ c.k_2)
  unfolding after update
  after-off f c [] off = (refl, refl, refl)
  after-off f c ((y, ref) ∷ samples) off =
      ground (arith, off, after-off f (update c f y ref).0 samples off)

  -- When anti-windup is switched off and on again, the integral of the next update is corrected by
  -- the saturated output of the last update before it was switched off, whatever the updates in
  -- between have done, against the output of the last of those.
  pub update-after :
      (f : F → F) (c : Controller F) (samples : List (F × F)) (y ref : F)
      → let c₁ = after f (with_anti_windup c false) samples in
        let c₂ = (update (with_anti_windup c₁ true) f y ref).0 in
        c₂.i ≡ c₁.i ⊕ c.k_2 ⊗ (new_error c₁ y ref ⊕ c₁.err) ⊕ c.k_sat ⊗ (c.u_sat ⊖ c₁.u)
  unfolding update apply_deadzone
  update-after f c samples y ref =
      let kept = after-off f (with_anti_windup c false) samples refl in ground (arith, kept)
