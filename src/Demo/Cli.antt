-- ===== src/Demo/Cli.antt =====
-- demos/cli/cli.ino: a command line over the serial port. `readLine` is that of multiple_board but
-- for the echo of the line. `none` is the fault of `strcmp` on a null pointer, or an overflow of
-- `int`.
pub mod Values
use scdtr.Prelude.{
  ℕ, ◌+◌, ◌^◌, Bool, true, false, ◌&&◌, Option, none, some, List, [], ◌∷◌, ltb, if◌then◌else◌,
  get_elem?,
}
use scdtr.Float.{Float}
use scdtr.Text.{same_text, words, c_string}
use scdtr.Board.Main.Line.{CommandLine, read_line}
use scdtr.Board.Main.Command.{delimits}

-- The words of the commands.
abbrev pub list_word : List ℕ
list_word = b'l' ∷ b'i' ∷ b's' ∷ b't' ∷ []

abbrev pub set_word : List ℕ
set_word = b's' ∷ b'e' ∷ b't' ∷ []

abbrev pub reference_word : List ℕ
reference_word = b'r' ∷ b'e' ∷ b'f' ∷ b'e' ∷ b'r' ∷ b'e' ∷ b'n' ∷ b'c' ∷ b'e' ∷ []

abbrev pub output_word : List ℕ
output_word = b'o' ∷ b'u' ∷ b't' ∷ b'p' ∷ b'u' ∷ b't' ∷ []

pub record Board (F : Type 0) : Type 0 where
  pub reference : F
  pub output : F
  pub line : CommandLine
  pub cycles : ℕ

-- What a command prints.
pub data Reply (F : Type 0) : Type 0 where
  variables : (reference output : F) (cycles : ℕ) → Reply F
  reference_set output_set : F → Reply F
  invalid_value invalid_variable not_found : Reply F

module _ {F : Type 0} ⦃fl : Float F⦄ where
  -- Strictly between 0 and `hi`.
  abbrev pub is_within : ℕ → F → Bool
  is_within hi x = fl.lt (fl.lit 0 1) x && fl.lt x (fl.lit hi 1)

  abbrev pub set_reference : Board F → Option (List ℕ) → Board F × Reply F
  set_reference b none = (b, invalid_value)
  set_reference b (some value_str) =
      let new_reference = fl.of_string value_str in
      if is_within 1000 new_reference
      then (record b { reference = new_reference }, reference_set new_reference)
      else (b, invalid_value)

  abbrev pub set_output : Board F → Option (List ℕ) → Board F × Reply F
  set_output b none = (b, invalid_value)
  set_output b (some value_str) =
      let new_output = fl.of_string value_str in
      if is_within 255 new_output
      then (record b { output = new_output }, output_set new_output)
      else (b, invalid_value)

  abbrev pub set_variable : Board F → List ℕ → Option (List ℕ) → Board F × Reply F
  set_variable b params value_str =
      if same_text params reference_word
      then set_reference b value_str
      else if same_text params output_word
      then set_output b value_str
      else (b, invalid_variable)

  unfoldable pub process_tokens : Board F → List (List ℕ) → Option (Board F × Reply F)
  process_tokens b tokens = elim (get_elem? tokens 0) [
    | none ↦ none
    | some command ↦
        if same_text command list_word
        then some (b, variables b.reference b.output b.cycles)
        else if same_text command set_word
        then (elim (get_elem? tokens 1) [
          | none ↦ none
          | some params ↦ some (set_variable b params (get_elem? tokens 2))
        ])
        else some (b, not_found)
  ]

  unfoldable pub process_command : Board F → Option (Board F × Reply F)
  process_command b = process_tokens b (words delimits (c_string b.line.cmd_buffer))

  -- One round of `loop`, on what Serial holds: the board, what Serial still holds, and the reply.
  unfoldable pub loop : Board F → List ℕ → Option (Board F × List ℕ × Option (Reply F))
  loop b available =
      let r = read_line b.line available in
      let b' = record b { line = r.line } in
      if r.found
      then (elim (process_command b') [
        | none ↦ none
        | some (b'', reply) ↦ some (b'', r.available, some reply)
      ])
      else some (b', r.available, none)

module _ {F : Type 0} where
  -- The interrupt: `cycles` is an `int` of 16 bits.
  unfoldable pub tick : Board F → Option (Board F)
  tick b = if ltb (b.cycles + 1) (2 ^ 15) then some (record b { cycles = b.cycles + 1 }) else none
