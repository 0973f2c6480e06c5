-- ===== src/Demo/Sweep/Rows.antt =====
-- Which values of the lamp a sweep goes through.
use scdtr.Prelude.{ℕ, zero, suc, ◌+◌, ◌≤◌, ◌<◌, ◌≡◌, some, List, [], ◌∷◌, arith, map}
use scdtr.Float.{Float}
use scdtr.Demo.Sweep.{Quantity, row_at, sweep}

-- So many values from `out` on, `step` apart.
abbrev pub duties : ℕ → ℕ → ℕ → List ℕ
duties zero out step = []
duties (suc n) out step = out ∷ duties n (out + step) step

-- The value that many steps on.
abbrev pub reached : ℕ → ℕ → ℕ → ℕ
reached zero out step = out
reached (suc n) out step = reached n (out + step) step

reached_mono : (n out step : ℕ) → out ≤ reached n out step
reached_mono zero out step = omega arith
reached_mono (suc n) out step = omega (arith, reached_mono n (out + step) step)

module _ {F : Type 0} ⦃fl : Float F⦄ where
  -- A sweep comes to its end, and samples at the values from its minimum on, one
  -- step apart, up to the last one that is not above the maximum: if that is `last` steps from the
  -- minimum, fuel for two turns more is enough.
  pub sweep_lem :
      (analog_read : ℕ → ℕ → ℕ) (last min max step samples : ℕ) (unit : Quantity)
      → reached last min step ≤ max
      → max < reached last min step + step
      → sweep {F = F} analog_read (suc (suc last)) min max step samples unit
        ≡ some (map (row_at analog_read samples unit) (duties (suc last) min step))
  unfolding sweep
  sweep_lem analog_read zero min max step samples unit low high = ground (arith, low, high)
  sweep_lem analog_read (suc last) min max step samples unit low high = ground (
    arith,
    low,
    reached_mono last (min + step) step,
    sweep_lem analog_read last (min + step) max step samples unit low high,
  )
