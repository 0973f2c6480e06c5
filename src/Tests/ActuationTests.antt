-- ===== src/Tests/ActuationTests.antt =====
-- The order "s 1 9" from a client to the nodes, on fixed-point numbers.
use scdtr.Prelude.{ℕ, ◌≡◌, refl, true, false, some, List, [], ◌∷◌, arith, replicate}
use scdtr.Prelude.Int.{pos}
use scdtr.Float.Milli.{Milli, milli_float, Milli-IsFloat}
use scdtr.Text.{is_space, words, words_from, stoi, atoi}
use scdtr.Board.{high_lux}
use scdtr.Board.Communication.{Shared, Message}
use scdtr.Board.Main.{Node, setup, receive}
use scdtr.Board.Main.Line.{CommandLine, read_line}
use scdtr.Board.Main.Command.{delimits, process_command}
use scdtr.Board.Main.Command.Agreement.{ordered}
use scdtr.Server.System.{System}
use scdtr.Server.Request.{Streams, reply, ack_text, with_crnl, valid_id, parse_request}
use scdtr.Actuation.{parse_request-ordered}

abbrev server : System Milli
server = record {
  nodes = 2;
  sample_period = pos 1000;
  start = 0;
  entries = [] ∷ [] ∷ [];
  lux_lower_bound = pos 0 ∷ pos 0 ∷ [];
  lux_external = pos 0 ∷ pos 0 ∷ [];
  occupancy = false ∷ false ∷ [];
  i2c_buffer = [];
}

abbrev streams : Streams
streams = record { timestamps = 0 ∷ 0 ∷ []; flags = false ∷ false ∷ false ∷ false ∷ [] }

abbrev shared_of : ℕ → Shared Milli
shared_of id = record {
  dev_id = id;
  reset = false;
  changed = false;
  ref = pos 33000;
  lower_bound = pos 33000;
  occupancy = false;
  distributed = true;
}

-- Node 1 in its main loop.
abbrev other : Node Milli
other = record (setup 1 700) { shared = shared_of 1 }

abbrev line : CommandLine
line = record { cmd_buffer = replicate 30 0; offset = 0 }

abbrev request : List ℕ
request = b's' ∷ b' ' ∷ b'1' ∷ b' ' ∷ b'9' ∷ []

abbrev tokens : List (List ℕ)
tokens = (b's' ∷ []) ∷ (b'1' ∷ []) ∷ (b'9' ∷ []) ∷ []

words-request : words is_space request ≡ tokens
unfolding words words_from is_space
words-request = refl

words-command : words delimits request ≡ tokens
unfolding words words_from
words-command = refl

stoi-nine : stoi (b'9' ∷ []) ≡ some (pos 9)
unfolding stoi
stoi-nine = refl

valid_id-one : valid_id 2 (b'1' ∷ []) ≡ some 1
unfolding valid_id stoi
valid_id-one = refl

parse_request-ordered_example :
    let r = read_line line (with_crnl request) in
    (parse_request server streams request 5
      ≡ some (record (reply server streams ack_text) { serial = with_crnl request ∷ [] }))
    × (r.found ≡ true)
    × ((m : Message) × (process_command (shared_of 0) r.line.cmd_buffer
          ≡ some (ordered (shared_of 0) 1 high_lux, m ∷ []))
        × (m.dest ≡ 1)
        × (receive other m.packet
            ≡ some (record other { shared = ordered other.shared 1 high_lux })))
unfolding atoi setup
parse_request-ordered_example =
    parse_request-ordered Milli-IsFloat server streams (shared_of 0) other line request (b'1' ∷ [])
      (b'9' ∷ []) b'1' 1 5 (pos 9) high_lux words-request words-command refl valid_id-one
      (omega arith) stoi-nine refl refl refl (refl, (refl, (refl, (refl, (refl, tt)))))
      (refl, (refl, (refl, (refl, (refl, tt))))) (omega arith) (omega arith) refl refl refl refl
      refl
