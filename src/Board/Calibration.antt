-- ===== src/Board/Calibration.antt =====
-- calibration.cpp and utils.cpp: the measurements that nodes take in turn, and the gains computed
-- from them. The value that the sensor gives at a packet is an argument.
pub mod Measurement
pub mod Execute
pub mod Interleaved
use scdtr.Prelude.{
  ℕ, zero, suc, ◌+◌, Bool, true, false, ◌&&◌, Option, none, some, List, [], ◌∷◌, ltb, if◌then◌else◌,
  ◌==◌, length, get_elem?, set, map,
}
use scdtr.Float.{Float, ◌⊕◌, ◌⊖◌, ◌⊗◌, ◌⊘◌}
use scdtr.Board.Communication.{syn, ack, read_packet}

-- `STATE_EXT`, `STATE_ON` and `STATE_OFF`.
pub data Phase : Type 0 where
  state_ext state_on state_off : Phase

pub record Calibration (F : Type 0) : Type 0 where
  pub id : ℕ
  pub ready : Bool
  pub state : Phase
  pub y_ext : F
  pub y : List (List F)
  pub sample : ℕ
  pub sender : ℕ
  pub receiver : ℕ

-- A write to `Y[i][j]`.
abbrev pub set_at : {F : Type 0} → List (List F) → ℕ → ℕ → F → Option (List (List F))
set_at y i j x = elim (get_elem? y i) [
  | none ↦ none
  | some row ↦ if ltb j (length row) then some (set y i (set row j x)) else none
]

module _ {F : Type 0} ⦃fl : Float F⦄ where
  -- `getLDRValue` at a reading of the pin: the voltage divider, and the line that the sensor
  -- follows on a double logarithmic scale.
  pub convert_to_lux : F → F → F → F → F → F
  convert_to_lux v_in a b v_max r =
      let r_ldr = r ⊗ ((v_max ⊘ v_in) ⊖ fl.lit 1 1) in
      fl.pow (fl.lit 10 1) ((fl.log10 r_ldr ⊖ b) ⊘ a)

  -- A packet for a node that measures.
  abbrev pub measured : Calibration F → F → Option (Calibration F)
  measured c value = elim c.state [
    | state_ext ↦ some (record c { y_ext = value; ready = true })
    | state_on ↦ elim (set_at c.y c.sender c.sample value) [
      | none ↦ none
      | some y ↦ some (record c { y = y; state = state_off; ready = true })
    ]
    | state_off ↦ some (record c { state = state_on; ready = true })
  ]

  -- `onReceive`; `value` is what the sensor gives, `junk` what the packet array held before.
  unfoldable pub on_receive : Calibration F → List ℕ → List ℕ → F → Option (Calibration F)
  on_receive c junk bytes value = elim (read_packet (length bytes) bytes junk) [
    | none ↦ none
    | some r ↦
        if c.id == c.sender
        then some (if r.p_id == c.receiver && r.p_type == ack then record c { ready = true } else c)
        else if r.p_id == c.sender && r.p_type == syn
        then measured c value
        else some c
  ]

  abbrev sum_over : F → List F → F
  sum_over avg [] = avg
  sum_over avg (x ∷ xs) = sum_over (avg ⊕ x) xs

  pub average : List F → F
  average array = sum_over (fl.lit 0 1) array ⊘ fl.lit (length array) 1

  -- The loop of the regression over the samples: numerator and denominator.
  pub regression_from : F → F → List F → List F → F → F → F × F
  regression_from x_avg y_avg [] ys num den = (num, den)
  regression_from x_avg y_avg (x ∷ xs) [] num den = (num, den)
  regression_from x_avg y_avg (x ∷ xs) (y ∷ ys) num den =
      regression_from x_avg y_avg xs ys (num ⊕ (x ⊖ x_avg) ⊗ (y ⊖ y_avg))
        (den ⊕ (x ⊖ x_avg) ⊗ (x ⊖ x_avg))

  -- The gain from one node, by least squares over the samples of the duty.
  pub gain : List F → List F → F
  unfolding regression_from average
  gain x row =
      let (num, den) = regression_from (average x) (average row) x row (fl.lit 0 1) (fl.lit 0 1) in
      num ⊘ den ⊗ (fl.lit 255 1 ⊘ fl.lit 100 1)

  unfoldable pub gains : List F → List (List F) → List F
  unfolding gain
  gains x y = map (gain x) y
