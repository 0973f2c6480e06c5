-- ===== src/Tests/ServerTests.antt =====
-- The server's theorems at a small log and concrete requests, on fixed-point numbers.
use scdtr.Prelude.{
  ℕ, ◌+◌, ◌-◌, ◌*◌, ◌≡◌, refl, Bool, true, false, ◌&&◌, some, List, [], ◌∷◌, ◌++◌, map, arith, All,
  length, replicate, get_or, ltb, length-replicate,
}
use scdtr.Float.{◌⊗◌, ◌⊘◌}
use scdtr.Float.Milli.{Milli, milli_float, Milli-IsFloat}
use scdtr.Sniffer.{Level, Sniffer, run_reports, masked, init, bit_of}
use scdtr.Sniffer.Decoding.{IsByte, traffic}
use scdtr.Server.{recv_buffer}
use scdtr.Server.System.{
  Entry, System, get_latest_entry, get_lux, get_duty_cycle, get_lux_reference, get_timestamp,
  get_occupancy, get_lux_lower_bound, get_lux_external, millis, zero_f,
}
use scdtr.Server.System.Figures.{
  get_energy, get_comfort_error, get_comfort_variance, energy_node, energy_from, error_from,
  variance_from,
}
use scdtr.Server.System.Figures.Totals.{sum_logs, totals}
use scdtr.Server.System.Feed.{handle_read}
use scdtr.Server.System.Invariant.{IsWellFormed}
use scdtr.Server.System.Invariant.Reset.{reset-empty}
use scdtr.Server.System.Timeline.{feed, IsChronological, feed-reset-IsChronological}
use scdtr.Server.Request.{Streams, parse_request}
use scdtr.Server.Request.Update.{stream_update}
use scdtr.Server.Request.Sound.{IsFitting, IsServed, parse_request-IsServed}
use scdtr.Server.Request.Streaming.{texts, seen_of, stream_update_lem}
use scdtr.Telemetry.{Status, sent}
use scdtr.Telemetry.Stored.{handle_read-status}
use scdtr.Telemetry.Chain.{acked, on_bus, reads, feed-view}
use scdtr.Telemetry.Observed.{timed, run_reports-feed}
use scdtr.Board.Communication.{send_info}

abbrev num : ℕ → Milli
num n = milli_float.lit n 1

abbrev entry : ℕ → ℕ → Entry Milli
entry timestamp lux = record {
  timestamp = timestamp;
  lux = num lux;
  duty_cycle = num 1;
  lux_reference = num 50;
  c_err = num 0;
  c_var = num 0;
}

-- Node 0 has two entries, and node 1 has none.
abbrev small : System Milli
small = record {
  nodes = 2;
  sample_period = num 1;
  start = 100;
  entries = (entry 10 40 ∷ entry 2010 60 ∷ []) ∷ [] ∷ [];
  lux_lower_bound = num 30 ∷ num 30 ∷ [];
  lux_external = num 5 ∷ num 6 ∷ [];
  occupancy = false ∷ true ∷ [];
  i2c_buffer = replicate recv_buffer 0;
}

small-IsWellFormed : IsWellFormed small
small-IsWellFormed = record {
  entries_length = refl;
  lower_bound_length = refl;
  external_length = refl;
  occupancy_length = refl;
  buffer_length = length-replicate {A = ℕ} recv_buffer 0;
}

abbrev streams : Streams
streams = record { timestamps = 0 ∷ 0 ∷ []; flags = true ∷ false ∷ false ∷ true ∷ [] }

streams-IsFitting : IsFitting 2 streams
streams-IsFitting = record { timestamps_length = refl; flags_length = refl }

-- "g e T".
abbrev energy_request : List ℕ
energy_request = b'g' ∷ b' ' ∷ b'e' ∷ b' ' ∷ b'T' ∷ []

parse_request-IsServed_example : IsServed 2 (parse_request small streams energy_request 500)
parse_request-IsServed_example =
    parse_request-IsServed small streams small-IsWellFormed streams-IsFitting energy_request 500

stream_update_lem_example :
    let (st', response) = stream_update small streams in
    (response ≡ texts small streams.flags streams.timestamps 2 0)
    × (st'.flags ≡ streams.flags)
    × (length st'.timestamps ≡ 2)
    × (get_or st'.timestamps 0 0 ≡ seen_of small streams.flags 0 0)
stream_update_lem_example = stream_update_lem small streams 0 refl (omega arith)

totals_example :
    (get_energy small 0 true ≡ sum_logs (energy_from zero_f) small.entries)
    × (get_comfort_error small 0 true
        ≡ sum_logs (λ log. error_from zero_f log ⊘ milli_float.lit (length log) 1) small.entries)
    × (get_comfort_variance small 0 true
        ≡ sum_logs
            (λ log.
              variance_from zero_f log
              ⊘ (milli_float.lit (length log) 1 ⊗ milli_float.pow (num 1) (num 2)))
            small.entries)
totals_example = totals small 0 small-IsWellFormed

small_latest : get_latest_entry small 0 ≡ some (entry 2010 60)
unfolding get_latest_entry
small_latest = refl

small_energy : energy_node small 0 ≡ some (num 2)
unfolding energy_node energy_from
small_energy = refl

abbrev cleared : System Milli
cleared = record small {
  start = 700;
  entries = [] ∷ [] ∷ [];
  lux_lower_bound = zero_f ∷ zero_f ∷ [];
  lux_external = zero_f ∷ zero_f ∷ [];
  occupancy = false ∷ false ∷ [];
}

feed-reset-IsChronological_example :
    IsChronological (900 - 700) (feed cleared ((800, 1 ∷ 5 ∷ 3 ∷ []) ∷ (900, 0 ∷ 5 ∷ []) ∷ []))
feed-reset-IsChronological_example =
    feed-reset-IsChronological small cleared 700 ((800, 1 ∷ 5 ∷ 3 ∷ []) ∷ (900, 0 ∷ 5 ∷ []) ∷ [])
      small-IsWellFormed (reset-empty small 700 refl) (omega arith, (omega arith, omega arith))

abbrev status : Status Milli
status = record {
  dev_id = 1;
  dest = 0;
  lux = num 33;
  duty_cycle = milli_float.lit 1 2;
  lower_bound = num 30;
  ext = num 4;
  ref = num 35;
  occupancy = true;
}

handle_read-status_example :
    let s' = handle_read small 900 (sent status ++ (9 ∷ [])) in
    (get_lux s' 1 ≡ num 33)
    × (get_duty_cycle s' 1 ≡ milli_float.lit 1 2)
    × (get_lux_reference s' 1 ≡ num 35)
    × (get_timestamp s' 1 ≡ millis small 900)
    × (get_occupancy s' 1 ≡ true)
    × (get_lux_lower_bound s' 1 ≡ num 30)
    × (get_lux_external s' 1 ≡ num 4)
handle_read-status_example =
    handle_read-status Milli-IsFloat small 900 status (9 ∷ []) 1 small-IsWellFormed (omega arith)

feed-view_example :
    let s' = feed small (reads ((900, status) ∷ [])) in
    (get_lux s' 1 ≡ num 33)
    × (get_duty_cycle s' 1 ≡ milli_float.lit 1 2)
    × (get_lux_reference s' 1 ≡ num 35)
    × (get_occupancy s' 1 ≡ true)
    × (get_lux_lower_bound s' 1 ≡ num 30)
    × (get_lux_external s' 1 ≡ num 4)
feed-view_example =
    feed-view Milli-IsFloat small ((900, status) ∷ []) 1 small-IsWellFormed (omega arith, tt)

abbrev report : Level → ℕ
report l = 8 * bit_of l.scl + 4 * bit_of l.sda

below : List ℕ → Bool
below [] = true
below (b ∷ bs) = ltb b 256 && below bs

Bytes-below : (bs : List ℕ) → below bs ≡ true → All IsByte (acked bs)
unfolding below
Bytes-below [] h = tt
Bytes-below (b ∷ bs) h = (ground arith, Bytes-below bs (ground arith))

run_reports-feed_example :
    (n : Sniffer) × (run_reports 3 2 init (map report (traffic (on_bus status ∷ []))) ≡ some n)
    × (let s' = feed small (timed (900 ∷ []) n.written) in
        (get_lux s' 1 ≡ num 33)
        × (get_duty_cycle s' 1 ≡ milli_float.lit 1 2)
        × (get_lux_reference s' 1 ≡ num 35)
        × (get_occupancy s' 1 ≡ true)
        × (get_lux_lower_bound s' 1 ≡ num 30)
        × (get_lux_external s' 1 ≡ num 4))
unfolding masked send_info below
run_reports-feed_example =
    run_reports-feed Milli-IsFloat 3 2 (map report (traffic (on_bus status ∷ []))) small
      ((900, status) ∷ []) 1 refl ((Bytes-below (sent status) refl, omega arith), tt)
      small-IsWellFormed (omega arith, tt)
