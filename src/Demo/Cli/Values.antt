-- ===== src/Demo/Cli/Values.antt =====
-- What the variables of the command line can hold, and which lines are a fault.
use mathlib.Core.Option.{some-injective}
use mathlib.Core.Path.{subst}
use scdtr.Prelude.{
  ℕ, ◌≡◌, refl, Bool, true, false, Option, none, some, List, [], ◌∷◌, arith, if◌then◌else◌,
  get_elem?,
}
use scdtr.Float.{Float}
use scdtr.Text.{same_text}
use scdtr.Demo.Cli.{
  Board, Reply, variables, reference_set, output_set, invalid_value, invalid_variable, not_found,
  list_word, set_word, reference_word, output_word, is_within, set_reference, set_output,
  set_variable, process_tokens, process_command,
}

module _ {F : Type 0} ⦃fl : Float F⦄ where
  -- A value that has been set, or the one from the start.
  pub data IsValue (hi : ℕ) (x : F) : Type 0 where
    initial : x ≡ fl.lit 0 1 → IsValue hi x
    within : is_within hi x ≡ true → IsValue hi x

  pub record IsBounded (b : Board F) : Type 0 where
    pub reference : IsValue 1000 b.reference
    pub output : IsValue 255 b.output

  -- A reply says what the board holds.
  pub data Says (b : Board F) : Reply F → Type 0 where
    all : Says b (variables b.reference b.output b.cycles)
    reference : Says b (reference_set b.reference)
    output : Says b (output_set b.output)
    bad_value : Says b invalid_value
    bad_variable : Says b invalid_variable
    unknown : Says b not_found

  -- What a command leaves.
  pub record IsAnswered (r : Board F × Reply F) : Type 0 where
    pub bounded : IsBounded r.0
    pub said : Says r.0 r.1

  reference_chosen :
      (b : Board F) (x : F) (t : Bool)
      → (t ≡ true → is_within 1000 x ≡ true)
      → IsBounded b
      → let r : Board F × Reply F =
          if t then (record b { reference = x }, reference_set x) else (b, invalid_value) in
        IsAnswered r
  reference_chosen b x true h v = record {
    bounded = record { reference = within (h refl); output = v.output };
    said = Says.reference;
  }
  reference_chosen b x false h v = record { bounded = v; said = bad_value }

  output_chosen :
      (b : Board F) (x : F) (t : Bool)
      → (t ≡ true → is_within 255 x ≡ true)
      → IsBounded b
      → let r : Board F × Reply F =
          if t then (record b { output = x }, output_set x) else (b, invalid_value) in
        IsAnswered r
  output_chosen b x true h v = record {
    bounded = record { reference = v.reference; output = within (h refl) };
    said = Says.output;
  }
  output_chosen b x false h v = record { bounded = v; said = bad_value }

  set_reference-IsAnswered :
      (b : Board F) (value : Option (List ℕ)) → IsBounded b → IsAnswered (set_reference b value)
  set_reference-IsAnswered b none v = record { bounded = v; said = bad_value }
  set_reference-IsAnswered b (some text) v =
      let x = fl.of_string text in reference_chosen b x (is_within 1000 x) (λ h. h) v

  set_output-IsAnswered :
      (b : Board F) (value : Option (List ℕ)) → IsBounded b → IsAnswered (set_output b value)
  set_output-IsAnswered b none v = record { bounded = v; said = bad_value }
  set_output-IsAnswered b (some text) v =
      let x = fl.of_string text in output_chosen b x (is_within 255 x) (λ h. h) v

  variable_chosen :
      (b : Board F) (t t' : Bool) (value : Option (List ℕ))
      → IsBounded b
      → let r : Board F × Reply F =
          if t
          then set_reference b value
          else if t'
          then set_output b value
          else (b, invalid_variable) in
        IsAnswered r
  variable_chosen b true t' value v = set_reference-IsAnswered b value v
  variable_chosen b false true value v = set_output-IsAnswered b value v
  variable_chosen b false false value v = record { bounded = v; said = bad_variable }

  set_variable-IsAnswered :
      (b : Board F) (params : List ℕ) (value : Option (List ℕ))
      → IsBounded b
      → IsAnswered (set_variable b params value)
  set_variable-IsAnswered b params value v =
      variable_chosen b (same_text params reference_word) (same_text params output_word) value v

  tokens_chosen :
      (b : Board F) (t t' : Bool) (rest : List (List ℕ)) (r : Board F × Reply F)
      → (if t
          then some (b, variables b.reference b.output b.cycles)
          else if t'
          then (elim (get_elem? rest 0) [
            | none ↦ none
            | some params ↦ some (set_variable b params (get_elem? rest 1))
          ])
          else some (b, not_found))
        ≡ some r
      → IsBounded b
      → IsAnswered r
  tokens_chosen b true t' rest r e v =
      subst IsAnswered (some-injective _ _ e) (record { bounded = v; said = all })
  tokens_chosen b false true [] r e v = absurd (ground (arith, e))
  tokens_chosen b false true (params ∷ rest) r e v =
      subst IsAnswered (some-injective _ _ e)
        (set_variable-IsAnswered b params (get_elem? (params ∷ rest) 1) v)
  tokens_chosen b false false rest r e v =
      subst IsAnswered (some-injective _ _ e) (record { bounded = v; said = unknown })

  process_tokens-IsAnswered :
      (b : Board F) (tokens : List (List ℕ)) (r : Board F × Reply F)
      → process_tokens b tokens ≡ some r
      → IsBounded b
      → IsAnswered r
  unfolding process_tokens
  process_tokens-IsAnswered b [] r e v = absurd (ground (arith, e))
  process_tokens-IsAnswered b (command ∷ rest) r e v =
      tokens_chosen b (same_text command list_word) (same_text command set_word) rest r e v

  -- Whatever a line makes of a board whose reference and output are 0 or within their bounds, it
  -- leaves such a board, and the reply tells the values that the board then has.
  pub process_command-IsAnswered :
      (b : Board F) (r : Board F × Reply F)
      → process_command b ≡ some r
      → IsBounded b
      → IsAnswered r
  unfolding process_command
  process_command-IsAnswered b r e v = process_tokens-IsAnswered b _ r e v
