-- ===== src/Board/Pi.antt =====
-- pi.cpp and pi.hpp of multiple_board: the PI controller with its three features. The variables
-- behind the pointers `in`, `out` and `ref` are arguments and results. `SIMPLE_ANTI_WINDUP` is
-- false.
pub mod Saturation
use scdtr.Prelude.{ℕ, Bool, true, false, if◌then◌else◌}
use scdtr.Float.{Float, ◌⊕◌, ◌⊖◌, ◌⊗◌, ◌⊘◌}

pub record Controller (F : Type 0) : Type 0 where
  pub k_p : F
  pub k_i : F
  pub err : F
  pub i : F
  pub u : F
  pub u_sat : F
  pub y : F
  pub t : F
  pub use_feedforward : Bool
  pub use_anti_windup : Bool
  pub use_deadzone : Bool
  pub k_ff : F
  pub m_ff : F
  pub b_ff : F
  pub k_sat : F
  pub sat_min : F
  pub sat_max : F
  pub deadzone_min : F
  pub deadzone_max : F
  pub k_2 : F

module _ {F : Type 0} ⦃fl : Float F⦄ where
  -- The constructor at its default arguments behind the sampling time.
  unfoldable pub construct : F → F → F → Controller F
  construct k_p k_i t = record {
    k_p = k_p;
    k_i = k_i;
    err = fl.lit 0 1;
    i = fl.lit 0 1;
    u = fl.lit 0 1;
    u_sat = fl.lit 0 1;
    y = fl.lit 0 1;
    t = t;
    use_feedforward = false;
    use_anti_windup = false;
    use_deadzone = false;
    k_ff = fl.lit 5 10;
    m_ff = fl.lit 4330 10000;
    b_ff = fl.neg (fl.lit 46204 10000);
    k_sat = fl.lit 5 10;
    sat_min = fl.lit 0 1;
    sat_max = fl.lit 255 1;
    deadzone_min = fl.neg (fl.lit 3 1);
    deadzone_max = fl.lit 3 1;
    k_2 = k_i ⊗ t ⊘ fl.lit 2 1;
  }

  unfoldable pub configure_features : Controller F → Bool → Bool → Bool → Controller F
  configure_features c use_feedforward use_anti_windup use_deadzone = record c {
    use_feedforward = use_feedforward;
    use_anti_windup = use_anti_windup;
    use_deadzone = use_deadzone;
  }

  unfoldable pub apply_saturation : Controller F → F → F
  apply_saturation c output =
      if fl.lt c.sat_max output
      then c.sat_max
      else if fl.lt output c.sat_min
      then c.sat_min
      else output

  unfoldable pub apply_deadzone : Controller F → F → F
  apply_deadzone c error =
      if fl.lt c.deadzone_max error
      then error ⊖ c.deadzone_max
      else if fl.lt error c.deadzone_min
      then error ⊖ c.deadzone_min
      else fl.lit 0 1

  unfoldable pub get_feedforward : Controller F → F → F
  get_feedforward c y = (y ⊖ c.b_ff) ⊘ c.m_ff

  abbrev pub new_error : Controller F → F → F → F
  new_error c y_sampled ref_sampled =
      let err_new = ref_sampled ⊖ y_sampled in
      if c.use_deadzone then apply_deadzone c err_new else err_new

  abbrev pub proportional : Controller F → F → F → F
  proportional c ref_sampled err_new =
      let p_new = c.k_p ⊗ err_new in
      if c.use_feedforward then p_new ⊕ c.k_ff ⊗ get_feedforward c ref_sampled else p_new

  abbrev pub integral : Controller F → F → F
  integral c err_new =
      let i_new = c.i ⊕ c.k_2 ⊗ (err_new ⊕ c.err) in
      if c.use_anti_windup then i_new ⊕ c.k_sat ⊗ (c.u_sat ⊖ c.u) else i_new

  -- `update_fcn` is what the callback does to `*out`. The result is the controller and `*out`.
  unfoldable pub update : Controller F → (F → F) → F → F → Controller F × F
  update c update_fcn y_sampled ref_sampled =
      let err_new = new_error c y_sampled ref_sampled in
      let i_new = integral c err_new in
      let u_new = proportional c ref_sampled err_new ⊕ i_new in
      let u_sat_new = apply_saturation c u_new in
      (
        record c {
          y = y_sampled;
          err = err_new;
          i = i_new;
          u = u_new;
          u_sat = if c.use_anti_windup then u_sat_new else c.u_sat;
        },
        update_fcn (if c.use_anti_windup then u_sat_new else u_new),
      )

  unfoldable pub update_coefficients : Controller F → F → F → Controller F
  update_coefficients c k_p k_i = record c {
    k_p = k_p;
    k_i = k_i;
    k_2 = k_p ⊗ k_i ⊗ c.t ⊘ fl.lit 2 1;
    y = fl.lit 0 1;
    err = fl.lit 0 1;
    i = fl.lit 0 1;
  }

module _ {F : Type 0} where
  unfoldable pub update_feed_forward : Controller F → F → F → Controller F
  update_feed_forward c k o = record c { m_ff = k; b_ff = o }

  unfoldable pub set_anti_windup_sat : Controller F → F → F → Controller F
  set_anti_windup_sat c sat_min sat_max = record c { sat_min = sat_min; sat_max = sat_max }

  unfoldable pub set_error_deadzone : Controller F → F → F → Controller F
  set_error_deadzone c lo hi = record c { deadzone_min = lo; deadzone_max = hi }

  -- `useFeedforward`, `useAntiWindup` and `useErrorDeadzone`.
  abbrev with_feedforward : Controller F → Bool → Controller F
  with_feedforward c state = record c { use_feedforward = state }

  abbrev with_anti_windup : Controller F → Bool → Controller F
  with_anti_windup c state = record c { use_anti_windup = state }

  abbrev with_error_deadzone : Controller F → Bool → Controller F
  with_error_deadzone c state = record c { use_deadzone = state }
