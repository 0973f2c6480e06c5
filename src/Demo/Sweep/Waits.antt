-- ===== src/Demo/Sweep/Waits.antt =====
-- The waits of `sweep` in sweep.ino: between two samples the clock is read until the period is
-- over. The values that `micros` returns are an argument; `none` says that they are used up.
use mathlib.Core.Path.{subst}
use scdtr.Prelude.{
  ℕ, zero, suc, ◌+◌, ◌-◌, ◌%◌, ◌^◌, ◌≤◌, ◌≡◌, Option, none, some, List, [], ◌∷◌, ◌++◌, arith, ltb,
  if◌then◌else◌, Bool-cases, inl, inr, Option-cases,
}

-- The values of an `unsigned long`.
abbrev pub ulong_mod : ℕ
ulong_mod = 2 ^ 32

-- The time from one value of the clock to another, with its wrap-around.
abbrev pub elapsed : ℕ → ℕ → ℕ
elapsed last current = (current + ulong_mod - last) % ulong_mod

-- The `while` loop: the value of `current_micros` behind it, and what is left of the clock's values.
unfoldable pub wait : ℕ → ℕ → ℕ → List ℕ → Option (ℕ × List ℕ)
wait sample_period last current [] =
    if ltb (elapsed last current) sample_period then none else some (current, [])
wait sample_period last current (now ∷ micros) =
    let rest = wait sample_period last now micros in
    if ltb (elapsed last current) sample_period then rest else some (current, now ∷ micros)

-- The waits of `left` samples: `last_micros` behind each.
unfoldable pub waits : ℕ → ℕ → ℕ → ℕ → List ℕ → Option (List ℕ)
waits sample_period zero last current micros = some []
waits sample_period (suc left) last current micros = elim (wait sample_period last current micros) [
  | none ↦ none
  | some (now, micros') ↦ elim (waits sample_period left now now micros') [
    | none ↦ none
    | some times ↦ some (now ∷ times)
  ]
]

-- Each of these values of the clock is a period behind the one before it.
pub data Spaced (period : ℕ) : ℕ → List ℕ → Type 0 where
  done : {last : ℕ} → Spaced period last []
  later :
      {last now : ℕ} {times : List ℕ}
      → period ≤ elapsed last now
      → Spaced period now times
      → Spaced period last (now ∷ times)

wait-elapsed :
    (period last current now : ℕ) (micros left : List ℕ)
    → wait period last current micros ≡ some (now, left)
    → period ≤ elapsed last now
unfolding wait
wait-elapsed period last current now [] left e =
    elim (Bool-cases (ltb (elapsed last current) period)) [
      | inl early ↦ absurd (ground (arith, e, early))
      | inr late ↦ ground (arith, e, late)
    ]
wait-elapsed period last current now (m ∷ micros) left e =
    elim (Bool-cases (ltb (elapsed last current) period)) [
      | inl early ↦ wait-elapsed period last m now micros left (ground (arith, e, early))
      | inr late ↦ ground (arith, e, late)
    ]

-- Any two samples of a sweep that follow each other are at least a period apart, also where the clock
-- wraps; the first is a period behind the value that `last_micros` starts from.
pub waits-Spaced :
    (period left last current : ℕ) (micros times : List ℕ)
    → waits period left last current micros ≡ some times
    → Spaced period last times
unfolding waits
waits-Spaced period zero last current micros [] e = done
waits-Spaced period zero last current micros (t ∷ times) e = absurd (ground (arith, e))
waits-Spaced period (suc left) last current micros times e =
    elim (Option-cases (wait period last current micros)) [
      | inl stuck ↦ absurd (ground (arith, e, stuck))
      | inr ((now, micros'), got) ↦ elim (Option-cases (waits period left now now micros')) [
        | inl stuck ↦ absurd (ground (arith, e, got, stuck))
        | inr (times', rest) ↦
            let whole : now ∷ times' ≡ times = ground (arith, e, got, rest) in
            subst (Spaced period last) whole (
              later (wait-elapsed period last current now micros micros' got)
                (waits-Spaced period left now now micros' times' rest))
      ]
    ]

-- A wait is over when the clock has shown a value late enough.
pub wait-ends :
    (period last current : ℕ) (before after : List ℕ) (now : ℕ)
    → period ≤ elapsed last now
    → (r : ℕ × List ℕ) × (wait period last current (before ++ (now ∷ after)) ≡ some r)
unfolding wait
wait-ends period last current [] [] now h = elim (Bool-cases (ltb (elapsed last current) period)) [
  | inl early ↦ ((now, []), ground (arith, early, h))
  | inr late ↦ ((current, now ∷ []), ground (arith, late))
]
wait-ends period last current [] (m ∷ after) now h =
    elim (Bool-cases (ltb (elapsed last current) period)) [
      | inl early ↦ ((now, m ∷ after), ground (arith, early, h))
      | inr late ↦ ((current, now ∷ m ∷ after), ground (arith, late))
    ]
wait-ends period last current (b ∷ before) after now h =
    elim (Bool-cases (ltb (elapsed last current) period)) [
      | inl early ↦
          let (r, e) = wait-ends period last b before after now h in (r, ground (arith, early, e))
      | inr late ↦ ((current, b ∷ (before ++ (now ∷ after))), ground (arith, late))
    ]
