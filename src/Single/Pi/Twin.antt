-- ===== src/Single/Pi/Twin.antt =====
-- The controller of single_board against that of multiple_board, whose linear characteristic is a
-- variable.
use scdtr.Prelude.{◌≡◌, refl, ap, Bool, List, [], ◌∷◌}
use scdtr.Float.{Float}
use scdtr.Board.Pi
use scdtr.Single.Pi.{
  Controller, m_ff, b_ff, apply_saturation, apply_deadzone, get_feedforward, configure_features,
  update,
}

-- One thing done to a controller: an update at an input and a reference, or a choice of features.
pub data Event (F : Type 0) : Type 0 where
  sampled : (y ref : F) → Event F
  configured : (feedforward anti_windup deadzone : Bool) → Event F

module _ {F : Type 0} ⦃fl : Float F⦄ where
  -- The other board's controller with these settings and this history; its last input is `y`.
  abbrev pub twin : Controller F → F → Pi.Controller F
  twin c y = record {
    k_p = c.k_p;
    k_i = c.k_i;
    err = c.err;
    i = c.i;
    u = c.u;
    u_sat = c.u_sat;
    y = y;
    t = c.t;
    use_feedforward = c.use_feedforward;
    use_anti_windup = c.use_anti_windup;
    use_deadzone = c.use_deadzone;
    k_ff = c.b;
    m_ff = m_ff;
    b_ff = b_ff;
    k_sat = c.k_sat;
    sat_min = c.sat_min;
    sat_max = c.sat_max;
    deadzone_min = c.deadzone_min;
    deadzone_max = c.deadzone_max;
    k_2 = c.k_2;
  }

  -- The outputs of a run, with what the callback does to them.
  unfoldable pub outputs : (F → F) → Controller F → List (Event F) → List F
  outputs f c [] = []
  outputs f c (sampled y ref ∷ es) = let (c', out) = update c f y ref in out ∷ outputs f c' es
  outputs f c (configured ff aw dz ∷ es) = outputs f (configure_features c ff aw dz) es

  unfoldable pub outputs_twin : (F → F) → Pi.Controller F → List (Event F) → List F
  outputs_twin f c [] = []
  outputs_twin f c (sampled y ref ∷ es) =
      let (c', out) = Pi.update c f y ref in out ∷ outputs_twin f c' es
  outputs_twin f c (configured ff aw dz ∷ es) = outputs_twin f (Pi.configure_features c ff aw dz) es

  update-twin :
      (f : F → F) (c : Controller F) (y₀ y ref : F)
      → Pi.update (twin c y₀) f y ref ≡ (twin (update c f y ref).0 y, (update c f y ref).1)
  unfolding update Pi.update apply_saturation Pi.apply_saturation apply_deadzone Pi.apply_deadzone
      get_feedforward Pi.get_feedforward
  update-twin f c y₀ y ref = refl

  -- Over any sequence of updates and choices of features, the controller of a single board gives the
  -- outputs of the other board's controller that starts with the same settings, the same history and
  -- the linear characteristic that the single board has as constants.
  pub outputs-twin :
      (f : F → F) (c : Controller F) (y₀ : F) (es : List (Event F))
      → outputs f c es ≡ outputs_twin f (twin c y₀) es
  unfolding outputs outputs_twin configure_features Pi.configure_features
  outputs-twin f c y₀ [] = refl
  outputs-twin f c y₀ (sampled y ref ∷ es) =
      rw (update-twin f c y₀ y ref)
        (ap (λ os. (update c f y ref).1 ∷ os) (outputs-twin f (update c f y ref).0 y es))
  outputs-twin f c y₀ (configured ff aw dz ∷ es) =
      outputs-twin f (configure_features c ff aw dz) y₀ es
