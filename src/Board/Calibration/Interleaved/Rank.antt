-- ===== src/Board/Calibration/Interleaved/Rank.antt =====
-- How far two nodes that calibrate are from the end.
use scdtr.Prelude.{
  ℕ, zero, suc, ◌+◌, ◌-◌, ◌<◌, ◌≡◌, ◌⊎◌, refl, ap, Bool, true, false, some, List, [], ◌∷◌, arith,
  length, get_elem?, if◌then◌else◌,
}
use scdtr.Float.{Float}
use scdtr.Board.Communication.{max_size}
use scdtr.Board.Calibration.Interleaved.{Hall}
use scdtr.Board.Calibration.Interleaved.Stages.{
  Stage, outside, outside_taken, outside_answered, top_behind, top, lit_behind, lit, taken,
  answered, dark, dark_taken, Mark, hall_at, IsMark,
}

-- The exchanges that are left: those of the samples, and those of a turn.
unfoldable pub turns : ℕ → ℕ
turns zero = 0
turns (suc n) = 16 + turns n

pub turns_step : (l m : ℕ) → m < l → turns (l - m) ≡ 16 + turns (l - suc m)
unfolding turns
turns_step l m h = let e : l - m ≡ suc (l - suc m) = omega arith in ap turns e

unfoldable pub left : Stage → ℕ
left outside = 11
left outside_taken = 10
left outside_answered = 9
left top_behind = 8
left top = 7
left lit_behind = 6
left lit = 5
left taken = 4
left answered = 3
left dark = 2
left dark_taken = 1

unfoldable pub is_at_top : Stage → Bool
is_at_top top = true
is_at_top _ = false

pub get_elem?-within :
    {A : Type 0} (xs : List A) (m : ℕ) → m < length xs → (x : A) × (get_elem? xs m ≡ some x)
get_elem?-within [] m h = absurd (omega arith)
get_elem?-within (x ∷ xs) zero h = (x, refl)
get_elem?-within (x ∷ xs) (suc m) h = get_elem?-within xs m (omega arith)

module _ {F : Type 0} ⦃fl : Float F⦄ (sense : ℕ → List F → F) (junk : List ℕ) (x : List F)
    (full : length junk ≡ max_size) where
  unfoldable pub rank : Mark F → ℕ
  unfolding turns left
  rank k = turns (length x - k.sample) + left k.stage - (if k.turn then 8 else 0)

  -- Where a step from `k` leads: a place of the kind, closer to the end, unless nothing has changed.
  pub record IsCloser (k : Mark F) (h : Hall F) : Type 0 where
    pub mark : Mark F
    pub shape : h ≡ hall_at sense x mark
    pub valid : IsMark sense x mark
    pub closer : (rank mark < rank k) ⊎ (h ≡ hall_at sense x k)
