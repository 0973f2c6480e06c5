-- ===== src/Server/System/Period/Joined.antt =====
-- The answer to a request for the last minute is a list of values with a separator between them.
use mathlib.Core.List.{append-nil, append_assoc}
use scdtr.Prelude.{
  ℕ, ◌-◌, ◌≡◌, refl, sym, ap, ◌∙◌, inl, inr, none, some, List, [], ◌∷◌, ◌++◌, map, arith,
  if◌then◌else◌, length, length-append, get_elem?, take, Bool-cases, Option-cases,
}
use scdtr.Float.{Float}
use scdtr.Server.System.{Entry, System}
use scdtr.Server.System.Period.{
  separator, without_last_two, chosen, in_period, values_from, get_values_in_period,
}

-- Texts with the separator between them, and with the separator behind each.
abbrev pub joined : List (List ℕ) → List ℕ
joined [] = []
joined (x ∷ []) = x
joined (x ∷ y ∷ xs) = x ++ (separator ++ joined (y ∷ xs))

abbrev terminated : List (List ℕ) → List ℕ
terminated [] = []
terminated (x ∷ xs) = (x ++ separator) ++ terminated xs

terminated-joined :
    (x : List ℕ) (xs : List (List ℕ)) → terminated (x ∷ xs) ≡ joined (x ∷ xs) ++ separator
terminated-joined x [] = append-nil (x ++ separator)
terminated-joined x (y ∷ xs) =
    ap (◌++◌ (x ++ separator)) (terminated-joined y xs)
    ∙ sym (append_assoc (x ++ separator) (joined (y ∷ xs)) separator)
    ∙ ap (λ l. l ++ separator) (append_assoc x separator (joined (y ∷ xs)))

take-append_length : (xs ys : List ℕ) → take (length xs) (xs ++ ys) ≡ xs
take-append_length [] ys = refl
take-append_length (x ∷ xs) ys = ap (◌∷◌ x) (take-append_length xs ys)

without_last_two-terminated : (xs : List (List ℕ)) → without_last_two (terminated xs) ≡ joined xs
without_last_two-terminated [] = refl
without_last_two-terminated (x ∷ xs) =
    let text = joined (x ∷ xs) in
    let size : length (text ++ separator) - 2 ≡ length text =
      omega (arith, length-append text separator) in
    ap without_last_two (terminated-joined x xs)
    ∙ ap (λ k. take k (text ++ separator)) size
    ∙ take-append_length text separator

module _ {F : Type 0} ⦃fl : Float F⦄ where
  -- The entries of the span, in the order of the log.
  abbrev pub selected : ℕ → ℕ → List (Entry F) → List (Entry F)
  selected start end [] = []
  selected start end (e ∷ es) =
      if in_period start end e then e ∷ selected start end es else selected start end es

  abbrev pub texts : ℕ → List (Entry F) → List (List ℕ)
  texts var = map (λ e. fl.to_fixed (chosen var e))

  values_from_lem :
      (start end var : ℕ) (log : List (Entry F)) (response : List ℕ)
      → values_from start end var response log
        ≡ response ++ terminated (texts var (selected start end log))
  unfolding values_from
  values_from_lem start end var [] response = sym (append-nil response)
  values_from_lem start end var (e ∷ es) response = elim (Bool-cases (in_period start end e)) [
    | inl inside ↦ rw inside (
        values_from_lem start end var es _
        ∙ append_assoc response (fl.to_fixed (chosen var e) ++ separator) _)
    | inr outside ↦ rw outside (values_from_lem start end var es response)
  ]

  -- The answer holds exactly the values of the entries whose timestamps lie in the span, ends
  -- included, in the order of the log, with ", " between them; for an unknown node it is empty.
  pub get_values_in_period-joined :
      (s : System F) (id start end var : ℕ)
      → get_values_in_period s id start end var ≡ elim (get_elem? s.entries id) [
        | none ↦ []
        | some log ↦ joined (texts var (selected start end log))
      ]
  unfolding get_values_in_period
  get_values_in_period-joined s id start end var = elim (Option-cases (get_elem? s.entries id)) [
    | inl missing ↦ rw (missing, get_values_in_period)
    | inr (log, found) ↦
        rw (found, get_values_in_period)
          (ap without_last_two (values_from_lem start end var log [])
            ∙ without_last_two-terminated (texts var (selected start end log)))
  ]
