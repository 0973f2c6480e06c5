-- ===== src/Text/Words.antt =====
-- The words of a text.
use mathlib.Core.List.{append_assoc, append-nil}
use scdtr.Prelude.{
  ℕ, zero, suc, ◌+◌, ◌/◌, ◌%◌, ◌≤◌, ◌<◌, ◌≡◌, refl, sym, ap, ◌∙◌, inl, inr, Bool, true, false, List,
  [], ◌∷◌, ◌++◌, arith, ◌==◌, All, ltb, length, Bool-cases,
}
use scdtr.Text.{same_text, words_from, words, c_string, digits_from, to_string}

pub same_text_iff : (a b : List ℕ) → same_text a b ≡ true → a ≡ b
unfolding same_text
same_text_iff [] [] h = refl
same_text_iff [] (d ∷ ds) h = cc
same_text_iff (c ∷ cs) [] h = cc
same_text_iff (c ∷ cs) (d ∷ ds) h = ground (arith, same_text_iff cs ds)

pub same_text_refl : (a : List ℕ) → same_text a a ≡ true
unfolding same_text
same_text_refl [] = refl
same_text_refl (c ∷ cs) = ground (arith, same_text_refl cs)

-- No character of the word delimits.
abbrev pub IsWord : (ℕ → Bool) → List ℕ → Type 0
IsWord delimits = All (λ c. delimits c ≡ false)

module _ (delimits : ℕ → Bool) where
  words_from-word :
      (done word : List ℕ) (rest : List ℕ)
      → IsWord delimits word
      → words_from delimits done (word ++ rest) ≡ words_from delimits (done ++ word) rest
  unfolding words_from
  words_from-word done [] rest h = ap (λ w. words_from delimits w rest) (sym (append-nil done))
  words_from-word done (c ∷ word) rest h =
      rw (h.0, words_from)
        (words_from-word (done ++ (c ∷ [])) word rest h.1
          ∙ ap (λ w. words_from delimits w rest) (append_assoc done (c ∷ []) word))

  -- A word, a delimiter, and the rest.
  pub words-cons :
      (c d : ℕ) (word rest : List ℕ)
      → IsWord delimits (c ∷ word)
      → delimits d ≡ true
      → words delimits ((c ∷ word) ++ (d ∷ rest)) ≡ (c ∷ word) ∷ words delimits rest
  unfolding words words_from
  words-cons c d word rest h e = words_from-word [] (c ∷ word) (d ∷ rest) h ∙ rw (e, words_from)

  pub words-last :
      (c : ℕ) (word : List ℕ)
      → IsWord delimits (c ∷ word)
      → words delimits (c ∷ word) ≡ (c ∷ word) ∷ []
  unfolding words words_from
  words-last c word h =
      ap (words_from delimits []) (sym (append-nil (c ∷ word))) ∙ words_from-word [] (c ∷ word) [] h

-- A text with no NUL is the string that an array with it holds.
pub c_string-All : (text : List ℕ) → All (λ c. c == 0 ≡ false) text → c_string text ≡ text
unfolding c_string
c_string-All [] h = refl
c_string-All (c ∷ cs) h = rw (h.0, c_string) (ap (λ ds. c ∷ ds) (c_string-All cs h.1))

pub c_string-append :
    (text rest : List ℕ)
    → All (λ c. c == 0 ≡ false) text
    → c_string (text ++ rest) ≡ text ++ c_string rest
unfolding c_string
c_string-append [] rest h = refl
c_string-append (c ∷ cs) rest h =
    rw (h.0, c_string) (ap (λ ds. c ∷ ds) (c_string-append cs rest h.1))

pub c_string-cons :
    (c : ℕ) (rest : List ℕ) → c == 0 ≡ false → c_string (c ∷ rest) ≡ c ∷ c_string rest
unfolding c_string
c_string-cons c rest h = rw (h, c_string) refl

pub c_string-nul : (rest : List ℕ) → c_string (0 ∷ rest) ≡ []
unfolding c_string
c_string-nul rest = refl

module _ (delimits : ℕ → Bool) where
  pub words_nil : words delimits [] ≡ []
  unfolding words words_from
  words_nil = refl

  pub words-field :
      (word rest : List ℕ) (d : ℕ)
      → 0 < length word
      → IsWord delimits word
      → delimits d ≡ true
      → words delimits (word ++ (d ∷ rest)) ≡ word ∷ words delimits rest
  words-field [] rest d some_char h e = absurd (omega (arith, some_char))
  words-field (c ∷ word) rest d some_char h e = words-cons delimits c d word rest h e

  pub words-only :
      (word : List ℕ) → 0 < length word → IsWord delimits word → words delimits word ≡ word ∷ []
  words-only [] some_char h = absurd (omega (arith, some_char))
  words-only (c ∷ word) some_char h = words-last delimits c word h

-- The characters of a number are digits, and there is one at least.
module _ (P : ℕ → Type 0) (digit : (d : ℕ) → d < 10 → P (48 + d)) where
  digits_from-All : (fuel n : ℕ) (out : List ℕ) → All P out → All P (digits_from fuel n out)
  unfolding digits_from
  digits_from-All zero n out h = h
  digits_from-All (suc fuel) n out h = elim (Bool-cases (ltb n 10)) [
    | inl small ↦ rw (small, digits_from) (digit (n % 10) (omega arith), h)
    | inr large ↦
        rw (large, digits_from)
          (digits_from-All fuel (n / 10) ((48 + n % 10) ∷ out) (digit (n % 10) (omega arith), h))
  ]

  pub to_string-All : (n : ℕ) → All P (to_string n)
  unfolding to_string
  to_string-All n = digits_from-All 20 n [] tt

digits_from-longer : (fuel n : ℕ) (out : List ℕ) → length out ≤ length (digits_from fuel n out)
unfolding digits_from
digits_from-longer zero n out = omega arith
digits_from-longer (suc fuel) n out =
    ground (arith, digits_from-longer fuel (n / 10) ((48 + n % 10) ∷ out))

pub length-to_string : (n : ℕ) → 0 < length (to_string n)
unfolding to_string digits_from
length-to_string n = ground (arith, digits_from-longer 19 (n / 10) ((48 + n % 10) ∷ []))
