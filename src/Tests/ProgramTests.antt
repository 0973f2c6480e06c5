-- ===== src/Tests/ProgramTests.antt =====
-- The server program from its start, with a client, and a stream of another client behind a reset.
use scdtr.Prelude.{◌≡◌, refl, true, false, [], ◌∷◌, arith, replicate}
use scdtr.Prelude.Int.{pos}
use scdtr.Float.Milli.{Milli, milli_float}
use scdtr.Server.System.{System, reset, construct, clear_logs}
use scdtr.Server.System.Invariant.{IsWellFormed}
use scdtr.Server.System.Invariant.Reset.{reset-empty}
use scdtr.Server.System.Timeline.{feed}
use scdtr.Server.Request.{Streams}
use scdtr.Server.Request.Update.{stream_update}
use scdtr.Server.Request.Silenced.{stream_update_silenced}
use scdtr.Server.Program.{Opening, Program, main, running}

abbrev opening : Opening
opening = record {
  serial_error = false;
  baud_error = false;
  fifo_error = false;
  assign_error = false;
}

abbrev empty : System Milli
empty = record {
  nodes = 2;
  sample_period = pos 100;
  start = 700;
  entries = [] ∷ [] ∷ [];
  lux_lower_bound = pos 0 ∷ pos 0 ∷ [];
  lux_external = pos 0 ∷ pos 0 ∷ [];
  occupancy = false ∷ false ∷ [];
  i2c_buffer = replicate 1024 0;
}

abbrev streams : Streams
streams = record { timestamps = 0 ∷ 0 ∷ []; flags = false ∷ false ∷ false ∷ false ∷ [] }

-- The program with one session.
abbrev program : Program Milli
program = record { system = empty; sessions = streams ∷ []; reading = true; accepting = true }

started : main 3 opening (pos 100) 700 ≡ running (record program { sessions = [] })
unfolding main construct reset clear_logs
started = refl

empty-IsWellFormed : IsWellFormed empty
empty-IsWellFormed = record {
  entries_length = refl;
  lower_bound_length = refl;
  external_length = refl;
  occupancy_length = refl;
  buffer_length = refl;
}

-- Streams that have seen the first second before the reset.
abbrev seen : Streams
seen = record { timestamps = 1000 ∷ 1200 ∷ []; flags = true ∷ true ∷ true ∷ true ∷ [] }

abbrev cleared : System Milli
cleared = record empty { start = 5000 }

stream_update_silenced_example :
    stream_update (feed cleared ((5300, 0 ∷ 5 ∷ 7 ∷ []) ∷ (5900, 1 ∷ 5 ∷ 7 ∷ []) ∷ [])) seen
    ≡ (seen, [])
stream_update_silenced_example =
    stream_update_silenced empty cleared seen 5000 1000
      ((5300, 0 ∷ 5 ∷ 7 ∷ []) ∷ (5900, 1 ∷ 5 ∷ 7 ∷ []) ∷ []) empty-IsWellFormed refl
      (omega arith, (omega arith, tt)) (reset-empty empty 5000 refl)
      (omega arith, (omega arith, omega arith)) (omega arith)
