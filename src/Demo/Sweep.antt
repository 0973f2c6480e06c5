-- ===== src/Demo/Sweep.antt =====
-- demos/sweep: sweep.ino and sweep_utils.cpp, the samples of the sensor over a range of duties. What
-- `analogRead` returns is a function of the duty and of the number of the sample. Waits has the
-- waits between samples. An `int` is a natural number: the sketch counts from 0 to 255.
pub mod Rows
pub mod Waits
use scdtr.Prelude.{
  ℕ, zero, suc, ◌+◌, Option, none, some, List, [], ◌∷◌, leb, if◌then◌else◌, tabulate,
}
use scdtr.Float.{Float, ◌⊖◌, ◌⊗◌, ◌⊘◌}

-- `RAW`, `VOLT` and `LUX`.
pub data Quantity : Type 0 where
  raw volt lux : Quantity

-- A value of the lamp, and what is printed for it.
pub record Row (F : Type 0) : Type 0 where
  pub out : ℕ
  pub printed : List F

module _ {F : Type 0} ⦃fl : Float F⦄ where
  -- `convertToLux` at its default arguments.
  abbrev pub convert_to_lux : F → F
  convert_to_lux v_in =
      let r_ldr = fl.lit 10000 1 ⊗ ((fl.lit 5 1 ⊘ v_in) ⊖ fl.lit 1 1) in
      fl.pow (fl.lit 10 1) ((fl.log10 r_ldr ⊖ fl.lit 48487 10000) ⊘ fl.neg (fl.lit 62995 100000))

  -- The `switch` over the unit.
  abbrev pub sample_value : Quantity → ℕ → F
  sample_value raw reading = fl.lit reading 1
  sample_value volt reading = fl.lit reading 1 ⊗ (fl.lit 5 1 ⊘ fl.lit 1023 1)
  sample_value lux reading = convert_to_lux (fl.lit reading 1 ⊗ (fl.lit 5 1 ⊘ fl.lit 1023 1))

  -- The samples at one value of the lamp.
  abbrev pub row_at : (ℕ → ℕ → ℕ) → ℕ → Quantity → ℕ → Row F
  row_at analog_read samples unit out = record {
    out = out;
    printed = tabulate samples (λ i. sample_value unit (analog_read out i));
  }

  -- The loop of `sweep` from `out` on; `none` if the fuel runs out, as with a step of 0.
  unfoldable pub sweep : (ℕ → ℕ → ℕ) → ℕ → ℕ → ℕ → ℕ → ℕ → Quantity → Option (List (Row F))
  sweep analog_read zero out max step samples unit = none
  sweep analog_read (suc fuel) out max step samples unit =
      let rest = sweep analog_read fuel (out + step) max step samples unit in
      if leb out max
      then (elim rest [
        | none ↦ none
        | some rows ↦ some (row_at analog_read samples unit out ∷ rows)
      ])
      else some []
