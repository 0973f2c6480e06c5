-- ===== src/Tests/SessionTests.antt =====
-- A client's session at a request for the last minute, with a short answer and with a long one.
use scdtr.Prelude.{
  ℕ, ◌+◌, ◌≡◌, refl, false, some, none, List, [], ◌∷◌, ◌++◌, arith, length, replicate,
}
use scdtr.Prelude.Int.{pos}
use scdtr.Float.Milli.{Milli, milli_float}
use scdtr.Text.{is_space, words, words_from, stoi}
use scdtr.Server.System.{Entry, System, millis}
use scdtr.Server.System.Period.{get_values_in_period, values_from}
use scdtr.Server.Request.{Streams, Answer, parse_request, reply, valid_id}
use scdtr.Server.Session.{session_read, msg_delimiter, session_read-line, session_read_overflow}

abbrev entry : Entry Milli
entry = record {
  timestamp = 10;
  lux = pos 40000;
  duty_cycle = pos 1000;
  lux_reference = pos 0;
  c_err = pos 0;
  c_var = pos 0;
}

-- One node with `n` equal entries.
abbrev logged : ℕ → System Milli
logged n = record {
  nodes = 1;
  sample_period = pos 1000;
  start = 0;
  entries = replicate n entry ∷ [];
  lux_lower_bound = pos 0 ∷ [];
  lux_external = pos 0 ∷ [];
  occupancy = false ∷ [];
  i2c_buffer = [];
}

abbrev streams : Streams
streams = record { timestamps = 0 ∷ []; flags = false ∷ false ∷ [] }

-- "b l 0", and another line behind it.
abbrev request : List ℕ
request = b'b' ∷ b' ' ∷ b'l' ∷ b' ' ∷ b'0' ∷ []

abbrev answer : ℕ → Answer Milli
answer n = reply (logged n) streams (get_values_in_period (logged n) 0 0 90 b'l')

answered : (n : ℕ) → parse_request (logged n) streams request 90 ≡ some (answer n)
unfolding parse_request words words_from is_space valid_id stoi millis
answered n = refl

session_read-line_example :
    (k : ℕ) × (session_read (logged 2) streams (request ++ (msg_delimiter ∷ b'r' ∷ [])) 90
      ≡ some (answer 2, (answer 2).response ++ (0 ∷ msg_delimiter ∷ replicate k 0)))
    × (length (answer 2).response + 2 + k ≡ 1023)
unfolding get_values_in_period values_from
session_read-line_example =
    session_read-line (logged 2) streams b'b' (b' ' ∷ b'l' ∷ b' ' ∷ b'0' ∷ []) (b'r' ∷ []) 90
      (answer 2) (refl, (refl, (refl, (refl, (refl, tt)))))
      (refl, (refl, (refl, (refl, (refl, tt))))) (answered 2) (omega arith)
      (
        refl,
        (refl, (refl, (refl, (refl, (refl, (refl, (refl, (refl, (refl, (refl, (refl, tt))))))))))),
      )

session_read_overflow_example :
    session_read (logged 171) streams (request ++ (msg_delimiter ∷ b'r' ∷ [])) 90 ≡ none
unfolding get_values_in_period values_from
session_read_overflow_example =
    session_read_overflow (logged 171) streams b'b' (b' ' ∷ b'l' ∷ b' ' ∷ b'0' ∷ []) (b'r' ∷ []) 90
      (answer 171) (refl, (refl, (refl, (refl, (refl, tt)))))
      (refl, (refl, (refl, (refl, (refl, tt))))) (answered 171) (omega arith)
