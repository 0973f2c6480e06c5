-- ===== src/Board/Pi/Saturation.antt =====
-- With its anti-windup feature on, the controller never drives the LED out of its bounds.
use scdtr.Prelude.{◌≡◌, refl, true, false, arith}
use scdtr.Float.{Float, IsFloat, ◌⊕◌, lit_not_lt}
use scdtr.Board.Pi.{
  Controller, construct, configure_features, apply_saturation, new_error, proportional, integral,
  update,
}

module _ {F : Type 0} ⦃fl : Float F⦄ where
  -- No test finds a value outside; so NaN counts as within.
  pub record IsWithin (c : Controller F) (x : F) : Type 0 where
    pub not_above : fl.lt c.sat_max x ≡ false
    pub not_below : fl.lt x c.sat_min ≡ false

  -- The bounds are in order, anti-windup is on, and the last output was within them.
  pub record IsSaturated (c : Controller F) : Type 0 where
    pub ordered : fl.lt c.sat_max c.sat_min ≡ false
    pub on : c.use_anti_windup ≡ true
    pub last : IsWithin c c.u_sat

  module _ (laws : IsFloat F) where
    apply_saturation-IsWithin :
        (c : Controller F) (x : F)
        → fl.lt c.sat_max c.sat_min ≡ false
        → IsWithin c (apply_saturation c x)
    unfolding apply_saturation
    apply_saturation-IsWithin c x h =
        ground (arith, laws.lt_irrefl c.sat_max, laws.lt_irrefl c.sat_min)

    -- An update hands the callback a value within the bounds, remembers that value, keeps the
    -- invariant, and leaves the gains, the bounds and the feature flags alone.
    pub update-IsSaturated :
        (c : Controller F) (update_fcn : F → F) (y ref : F)
        → IsSaturated c
        → let (c', out) = update c update_fcn y ref in
          IsSaturated c'
          × IsWithin c c'.u_sat
          × (out ≡ update_fcn c'.u_sat)
          × (c'.sat_min ≡ c.sat_min)
          × (c'.sat_max ≡ c.sat_max)
          × (c'.k_2 ≡ c.k_2)
          × (c'.m_ff ≡ c.m_ff)
    unfolding update
    update-IsSaturated c update_fcn y ref v =
        let u = proportional c ref (new_error c y ref) ⊕ integral c (new_error c y ref) in
        let within = apply_saturation-IsWithin c u v.ordered in
        ground (arith, within, v.on, v.ordered)

    -- The controller as main.ino makes it: its bounds are those of the 8-bit output, and the
    -- invariant holds from the start.
    pub construct-IsSaturated :
        (k_p k_i t : F)
        → let c = configure_features (construct k_p k_i t) true true true in
          IsSaturated c × (c.sat_min ≡ fl.lit 0 1) × (c.sat_max ≡ fl.lit 255 1)
    unfolding construct configure_features
    construct-IsSaturated k_p k_i t = (
      record {
        ordered = lit_not_lt laws 0 255 (omega arith);
        on = refl;
        last = record {
          not_above = lit_not_lt laws 0 255 (omega arith);
          not_below = laws.lt_irrefl (fl.lit 0 1);
        };
      },
      refl,
      refl,
    )
