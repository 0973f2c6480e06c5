-- ===== src/Server/System/Saved/Values.antt =====
-- The saved files, read back.
use scdtr.Prelude.{
  ℕ, ◌<◌, ◌≡◌, refl, ap, ◌∙◌, Bool, false, List, [], ◌∷◌, ◌++◌, map, arith, ◌==◌, length, All,
  All-append, length-append,
}
use scdtr.Text.{words, to_string}
use scdtr.Text.Words.{IsWord, words_nil, words-field, words-only, to_string-All, length-to_string}
use scdtr.Server.System.{Entry}
use scdtr.Server.System.Saved.{comma, newline, line, lines}

abbrev pub is_comma : ℕ → Bool
is_comma c = c == comma

abbrev pub is_newline : ℕ → Bool
is_newline c = c == newline

-- A text that can stand between commas.
pub record IsField (text : List ℕ) : Type 0 where
  pub some_char : 0 < length text
  pub no_comma : IsWord is_comma text
  pub no_newline : IsWord is_newline text

to_string-IsField : (n : ℕ) → IsField (to_string n)
to_string-IsField n = record {
  some_char = length-to_string n;
  no_comma = to_string-All (λ c. is_comma c ≡ false) (λ d h. ground (arith, h)) n;
  no_newline = to_string-All (λ c. is_newline c ≡ false) (λ d h. ground (arith, h)) n;
}

-- Texts with a comma between each two.
abbrev joined : List ℕ → List (List ℕ) → List ℕ
joined text [] = text
joined text (next ∷ later) = text ++ (comma ∷ joined next later)

words-joined :
    (text : List ℕ) (later : List (List ℕ))
    → IsField text
    → All IsField later
    → words is_comma (joined text later) ≡ text ∷ later
words-joined text [] f fs = words-only is_comma text f.some_char f.no_comma
words-joined text (next ∷ later) f fs =
    words-field is_comma text (joined next later) comma f.some_char f.no_comma refl
    ∙ ap (λ ws. text ∷ ws) (words-joined next later fs.0 fs.1)

joined-line :
    (text : List ℕ) (later : List (List ℕ))
    → IsField text
    → All IsField later
    → IsWord is_newline (joined text later) × (0 < length (joined text later))
joined-line text [] f fs = (f.no_newline, f.some_char)
joined-line text (next ∷ later) f fs =
    let rest = joined-line next later fs.0 fs.1 in
    (
      All-append _ text (comma ∷ joined next later) f.no_newline (refl, rest.0),
      omega (arith, f.some_char, length-append text (comma ∷ joined next later)),
    )

module _ {F : Type 0} (show : F → List ℕ) where
  -- The texts of an entry.
  abbrev pub fields : Entry F → List (List ℕ)
  fields e =
      to_string e.timestamp
      ∷ show e.lux
      ∷ show e.duty_cycle
      ∷ show e.lux_reference
      ∷ show e.c_err
      ∷ show e.c_var
      ∷ []

  -- A saved file, split at its ends of lines and each line at its commas, gives the six values of
  -- every entry of the node, in the order of the log, if what is printed of a float has a character
  -- at least, and no comma and no end of line.
  pub lines-fields :
      (es : List (Entry F))
      → ((x : F) → IsField (show x))
      → map (words is_comma) (words is_newline (lines show es)) ≡ map fields es
  unfolding lines line
  lines-fields [] ok = ap (map (words is_comma)) (words_nil is_newline)
  lines-fields (e ∷ es) ok =
      let first = to_string-IsField e.timestamp in
      let later : List (List ℕ) =
        show e.lux ∷ show e.duty_cycle ∷ show e.lux_reference ∷ show e.c_err ∷ show e.c_var ∷ [] in
      let oks : All IsField later =
        (ok e.lux, (ok e.duty_cycle, (ok e.lux_reference, (ok e.c_err, (ok e.c_var, tt))))) in
      let (clean, some_char) = joined-line (to_string e.timestamp) later first oks in
      ap (map (words is_comma)) (
        words-field is_newline (joined (to_string e.timestamp) later) (lines show es) newline
          some_char clean refl)
      ∙ ap (λ w. w ∷ map (words is_comma) (words is_newline (lines show es)))
          (words-joined (to_string e.timestamp) later first oks)
      ∙ ap (λ ws. fields e ∷ ws) (lines-fields es ok)
