-- ===== src/Server/Request/Described.antt =====
-- The text of a stream as a description of its own: the words of the values that the flags ask for.
use mathlib.Core.List.{append_assoc, append-nil}
use scdtr.Prelude.{
  ℕ, ◌+◌, ◌*◌, ◌≡◌, refl, sym, ap, ◌∙◌, inl, inr, Bool, false, not, ◌&&◌, List, [], ◌∷◌, ◌++◌,
  get_or, if◌then◌else◌, Bool-cases,
}
use scdtr.Float.{Float}
use scdtr.Text.{to_string}
use scdtr.Server.System.{Entry, minus_one}
use scdtr.Server.Request.Update.{entry_text}

-- Words, with a space behind each.
abbrev pub spaced : List (List ℕ) → List ℕ
spaced [] = []
spaced (w ∷ ws) = w ++ (b' ' ∷ spaced ws)

spaced_append : (ws vs : List (List ℕ)) → spaced (ws ++ vs) ≡ spaced ws ++ spaced vs
spaced_append [] vs = refl
spaced_append (w ∷ ws) vs =
    ap (λ xs. w ++ (b' ' ∷ xs)) (spaced_append ws vs)
    ∙ sym (append_assoc w (b' ' ∷ spaced ws) (spaced vs))

module _ {F : Type 0} ⦃fl : Float F⦄ where
  -- The variables of a stream, with their values, in the order of their flags.
  abbrev variables : Entry F → List (ℕ × F)
  variables e = (b'l', e.lux) ∷ (b'd', e.duty_cycle) ∷ []

  -- Of the variables whose flags are those from `k` on: the ones that are asked for and known.
  abbrev asked : List Bool → ℕ → List (ℕ × F) → List (ℕ × F)
  asked flags k [] = []
  asked flags k (v ∷ vs) =
      let rest = asked flags (k + 1) vs in
      if get_or flags k false && not (fl.eq v.1 minus_one) then v ∷ rest else rest

  -- The letter, the variable, the node, the value and the time, for each value.
  abbrev value_words : ℕ → ℕ → List (ℕ × F) → List (List ℕ)
  value_words i timestamp [] = []
  value_words i timestamp ((var, value) ∷ vs) =
      (b'c' ∷ [])
      ∷ (var ∷ [])
      ∷ to_string i
      ∷ fl.to_string value
      ∷ to_string timestamp
      ∷ value_words i timestamp vs

  -- What an entry of node `i` has to say, the two flags of which are those from 2 i on.
  abbrev pub described : List Bool → ℕ → Entry F → List ℕ
  described flags i e = spaced (value_words i e.timestamp (asked flags (2 * i) (variables e)))

  pub entry_text-described :
      (flags : List Bool) (i : ℕ) (e : Entry F) → entry_text flags i e ≡ described flags i e
  entry_text-described flags i e =
      let both = sym (
        spaced_append (value_words i e.timestamp ((b'l', e.lux) ∷ []))
          (value_words i e.timestamp ((b'd', e.duty_cycle) ∷ []))) in
      let alone = append-nil (spaced (value_words i e.timestamp ((b'l', e.lux) ∷ []))) in
      elim (Bool-cases (get_or flags (2 * i) false)) [
        | inr a ↦ elim (Bool-cases (get_or flags (2 * i + 1) false)) [
          | inr b ↦ rw (a, b) refl
          | inl b ↦ elim (Bool-cases (fl.eq e.duty_cycle minus_one)) [
            | inl y ↦ rw (a, b, y) refl
            | inr y ↦ rw (a, b, y) refl
          ]
        ]
        | inl a ↦ elim (Bool-cases (get_or flags (2 * i + 1) false)) [
          | inr b ↦ elim (Bool-cases (fl.eq e.lux minus_one)) [
            | inl x ↦ rw (a, b, x) refl
            | inr x ↦ rw (a, b, x) alone
          ]
          | inl b ↦ elim (Bool-cases (fl.eq e.lux minus_one)) [
            | inl x ↦ elim (Bool-cases (fl.eq e.duty_cycle minus_one)) [
              | inl y ↦ rw (a, b, x, y) refl
              | inr y ↦ rw (a, b, x, y) refl
            ]
            | inr x ↦ elim (Bool-cases (fl.eq e.duty_cycle minus_one)) [
              | inl y ↦ rw (a, b, x, y) alone
              | inr y ↦ rw (a, b, x, y) both
            ]
          ]
        ]
      ]
