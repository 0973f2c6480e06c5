-- ===== src/Single/Main.antt =====
-- main.ino and utils.cpp of single_board: the variables, the line commands, the timer interrupt and
-- the rounds of the loop. `readLine` is that of multiple_board, character for character.
pub mod Commands
pub mod Bounds
use scdtr.Prelude.{
  ℕ, ◌+◌, ◌-◌, ◌%◌, Bool, true, false, ◌&&◌, Option, none, some, List, [], ◌∷◌, ◌++◌, leb,
  if◌then◌else◌, get_elem?, replicate,
}
use scdtr.Float.{Float, ◌⊖◌, ◌⊗◌, ◌⊘◌}
use scdtr.Text.{same_text, words, c_string}
use scdtr.Board.{buffer_size, ulong_mod}
use scdtr.Board.Main.Line.{CommandLine, LineRead, read_line}
use scdtr.Board.Main.Command.{delimits}
use scdtr.Single.{status_delay, min_ref, max_ref, low_lux, high_lux}
use scdtr.Single.Pi.{
  Controller, construct, configure_features, with_feedforward, with_anti_windup,
  with_error_deadzone, update,
}

-- The words of the commands.
abbrev pub reference_word : List ℕ
reference_word = b'r' ∷ b'e' ∷ b'f' ∷ b'e' ∷ b'r' ∷ b'e' ∷ b'n' ∷ b'c' ∷ b'e' ∷ []

abbrev pub low_word : List ℕ
low_word = b'l' ∷ b'o' ∷ b'w' ∷ []

abbrev pub high_word : List ℕ
high_word = b'h' ∷ b'i' ∷ b'g' ∷ b'h' ∷ []

abbrev pub off_word : List ℕ
off_word = b'o' ∷ b'f' ∷ b'f' ∷ []

abbrev pub on_word : List ℕ
on_word = b'o' ∷ b'n' ∷ []

abbrev pub feedforward_word : List ℕ
feedforward_word = b'f' ∷ b'e' ∷ b'e' ∷ b'd' ∷ b'f' ∷ b'o' ∷ b'r' ∷ b'w' ∷ b'a' ∷ b'r' ∷ b'd' ∷ []

abbrev pub deadzone_word : List ℕ
deadzone_word = b'd' ∷ b'e' ∷ b'a' ∷ b'd' ∷ b'z' ∷ b'o' ∷ b'n' ∷ b'e' ∷ []

abbrev pub anti_windup_word : List ℕ
anti_windup_word = b'a' ∷ b'n' ∷ b't' ∷ b'i' ∷ b'_' ∷ b'w' ∷ b'i' ∷ b'n' ∷ b'd' ∷ b'u' ∷ b'p' ∷ []

pub record Node (F : Type 0) : Type 0 where
  pub reference : F
  pub ldr_in : F
  pub input : F
  pub output : F
  pub v_in : F
  pub line : CommandLine
  pub controller : Controller F
  pub use_feedforward : Bool
  pub current_millis : ℕ
  pub last_millis : ℕ

-- What goes out on Serial. The share of the output is printed as `floor(output) / 255.0`.
pub data Print (F : Type 0) : Type 0 where
  invalid_command : Print F
  variables : (reference output input : F) (use_feedforward : Bool) (current_millis : ℕ) → Print F

-- The value of a parameter that switches a feature.
abbrev pub on_off : List ℕ → Option Bool
on_off param =
    if same_text param on_word
    then some true
    else if same_text param off_word
    then some false
    else none

module _ {F : Type 0} ⦃fl : Float F⦄ where
  -- The globals' initial values and `setup`.
  unfoldable pub setup : Node F
  setup = record {
    reference = low_lux;
    ldr_in = fl.lit 0 1;
    input = fl.lit 0 1;
    output = fl.lit 0 1;
    v_in = fl.lit 0 1;
    line = record { cmd_buffer = replicate buffer_size 0; offset = 0 };
    controller =
        configure_features (construct (fl.lit 2051 1000) (fl.lit 1367462 10000) (fl.lit 30 1000))
          true true true;
    use_feedforward = true;
    current_millis = 0;
    last_millis = 0;
  }

  abbrev pub set_reference : Node F → List ℕ → Node F
  set_reference n param =
      let new_reference = fl.of_string param in
      if fl.lt min_ref new_reference && fl.lt new_reference max_ref
      then record n { reference = new_reference }
      else if same_text param low_word
      then record n { reference = low_lux }
      else if same_text param high_word
      then record n { reference = high_lux }
      else if same_text param off_word
      then record n { reference = fl.lit 0 1 }
      else n

  abbrev pub set_feedforward : Node F → List ℕ → Node F
  set_feedforward n param = elim (on_off param) [
    | none ↦ n
    | some state ↦ record n {
      use_feedforward = state;
      controller = with_feedforward n.controller state;
    }
  ]

  abbrev pub set_deadzone : Node F → List ℕ → Node F
  set_deadzone n param = elim (on_off param) [
    | none ↦ n
    | some state ↦ record n { controller = with_error_deadzone n.controller state }
  ]

  abbrev pub set_anti_windup : Node F → List ℕ → Node F
  set_anti_windup n param = elim (on_off param) [
    | none ↦ n
    | some state ↦ record n { controller = with_anti_windup n.controller state }
  ]

  -- A command with its parameter.
  abbrev pub process_setting : Node F → List ℕ → List ℕ → Node F × List (Print F)
  process_setting n command param =
      if same_text command reference_word
      then (set_reference n param, [])
      else if same_text command feedforward_word
      then (set_feedforward n param, [])
      else if same_text command deadzone_word
      then (set_deadzone n param, [])
      else if same_text command anti_windup_word
      then (set_anti_windup n param, [])
      else (n, invalid_command ∷ [])

  -- The branches of `processCommand`, by the words of the line; `none` is the fault of `strcmp` on
  -- the null pointer of a line with no word.
  unfoldable pub process_tokens : Node F → List (List ℕ) → Option (Node F × List (Print F))
  process_tokens n tokens = elim (get_elem? tokens 0) [
    | none ↦ none
    | some command ↦ elim (get_elem? tokens 1) [
      | none ↦ some (n, invalid_command ∷ [])
      | some param ↦ some (process_setting n command param)
    ]
  ]

  -- The buffer is not used again before it is filled again.
  unfoldable pub process_command : Node F → Option (Node F × List (Print F))
  process_command n = process_tokens n (words delimits (c_string n.line.cmd_buffer))

  -- `listVariables`, if the period is over.
  abbrev pub print_status : Node F → ℕ → Node F × List (Print F)
  print_status n now =
      if leb status_delay ((now + ulong_mod - n.last_millis) % ulong_mod)
      then (
        record n { current_millis = now; last_millis = now },
        variables n.reference n.output n.input n.use_feedforward now ∷ [],
      )
      else (record n { current_millis = now }, [])

  -- One round of `loop`, on what Serial holds, at a time: the node, what Serial still holds, and the
  -- prints.
  unfoldable pub loop : Node F → List ℕ → ℕ → Option (Node F × List ℕ × List (Print F))
  loop n available now =
      let r = read_line n.line available in
      let n' = record n { line = r.line } in
      elim (if r.found then process_command n' else some (n', [])) [
        | none ↦ none
        | some (n'', prints) ↦
            let (m, status) = print_status n'' now in some (m, r.available, prints ++ status)
      ]

  -- `convertToLux` at its default arguments.
  unfoldable pub convert_to_lux : F → F
  convert_to_lux v_in =
      let r_ldr = fl.lit 10000 1 ⊗ ((fl.lit 5 1 ⊘ v_in) ⊖ fl.lit 1 1) in
      fl.pow (fl.lit 10 1) ((fl.log10 r_ldr ⊖ fl.lit 48487 10000) ⊘ fl.neg (fl.lit 62995 100000))

  unfoldable pub write_to_led : F → F
  write_to_led output =
      let output' = if fl.le (fl.lit 0 1) output then output else fl.lit 0 1 in
      if fl.le output' (fl.lit 255 1) then output' else fl.lit 255 1

  -- The timer interrupt, at the value that `analogRead` returns.
  unfoldable pub timer_interrupt : Node F → ℕ → Node F
  timer_interrupt n reading =
      let ldr_in = fl.lit reading 1 in
      let v_in = ldr_in ⊗ (fl.lit 5 1 ⊘ fl.lit 1023 1) in
      let input = convert_to_lux v_in in
      let (c, output) = update n.controller write_to_led input n.reference in
      record n { ldr_in = ldr_in; v_in = v_in; input = input; controller = c; output = output }
