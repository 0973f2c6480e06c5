-- ===== src/Tests/LifecycleTests.antt =====
-- A session that is deleted twice: a client asks for a stream, and the connection is lost while a
-- write of the stream is outstanding.
use scdtr.Prelude.{ℕ, ◌+◌, ◌≡◌, refl, true, false, some, List, [], ◌∷◌, ◌++◌, arith, replicate}
use scdtr.Prelude.Int.{pos}
use scdtr.Prelude.Counting.{count}
use scdtr.Float.Milli.{Milli, milli_float}
use scdtr.Text.{to_string, is_space, words, words_from, c_string, stoi}
use scdtr.Server.System.{Entry, System, get_latest_entry}
use scdtr.Server.Request.{Streams, parse_request, reply, valid_id}
use scdtr.Server.Request.Update.{entry_text, stream_update, stream_from}
use scdtr.Server.Session.{session_read, handle_timer, put_response, msg_delimiter}
use scdtr.Server.Session.Lifecycle.{
  Operation, writing, streaming, waiting, Session, start, Reach, here, next, read, timed, failed,
  cancelled,
}
use scdtr.Server.Session.Lifecycle.Turns.{streams, IsTurn, Reach-IsTurn, deletions_lem}

abbrev entry : Entry Milli
entry = record {
  timestamp = 10;
  lux = pos 40000;
  duty_cycle = pos 1000;
  lux_reference = pos 0;
  c_err = pos 0;
  c_var = pos 0;
}

abbrev system : System Milli
system = record {
  nodes = 1;
  sample_period = pos 1000;
  start = 0;
  entries = (entry ∷ []) ∷ [];
  lux_lower_bound = pos 0 ∷ [];
  lux_external = pos 0 ∷ [];
  occupancy = false ∷ [];
  i2c_buffer = [];
}

-- "c l 0".
abbrev request : List ℕ
request = b'c' ∷ b' ' ∷ b'l' ∷ b' ' ∷ b'0' ∷ []

abbrev flagged : ℕ → Streams
flagged last = record { timestamps = last ∷ []; flags = true ∷ false ∷ [] }

abbrev sent : List ℕ → ℕ → List ℕ
sent text k = text ++ (0 ∷ msg_delimiter ∷ replicate k 0)

abbrev text : List ℕ
text = entry_text (true ∷ false ∷ []) 0 entry

asked :
    session_read system (start system).streams (request ++ (msg_delimiter ∷ [])) 90
    ≡ some (reply system (flagged 0) [], sent [] 1021)
unfolding session_read parse_request words words_from is_space valid_id stoi c_string put_response
asked = refl

updated : handle_timer system (flagged 0) ≡ some (flagged 10, some (sent text 1006))
unfolding handle_timer stream_update stream_from put_response c_string get_latest_entry to_string
updated = refl

-- The request is read, the timer fires, and the connection is lost.
abbrev streamed : Session Milli
streamed = record {
  system = system;
  streams = flagged 10;
  outstanding = streaming (sent text 1006) ∷ waiting ∷ writing (sent [] 1021) ∷ [];
  deletions = 0;
}

streamed-Reach : Reach (start system) streamed
streamed-Reach =
    next
      (next here (
        read [] (waiting ∷ []) (request ++ (msg_delimiter ∷ [])) 90 (reply system (flagged 0) [])
          (sent [] 1021) refl refl asked))
      (timed (writing (sent [] 1021) ∷ []) [] (flagged 10) (some (sent text 1006)) refl refl
        updated)

abbrev dead : ℕ → List Operation → Session Milli
dead n left = record { system = system; streams = flagged 10; outstanding = left; deletions = n }

Reach-IsTurn_example : IsTurn streamed
Reach-IsTurn_example = Reach-IsTurn system streamed-Reach refl

deletions_lem_example : ◌≡◌ {A = ℕ} 2 (1 + count streams streamed.outstanding)
deletions_lem_example =
    deletions_lem system streamed-Reach refl
      (failed (streaming (sent text 1006) ∷ waiting ∷ []) [] (writing (sent [] 1021)) refl refl)
      (omega arith)
      (next {t = dead 2 (waiting ∷ [])}
        (next here (failed [] (waiting ∷ []) (streaming (sent text 1006)) refl refl))
        (cancelled [] [] refl (omega arith)))
      refl
