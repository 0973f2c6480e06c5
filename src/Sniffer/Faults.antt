-- ===== src/Sniffer/Faults.antt =====
-- Where the sniffer's main loop leaves its array.
use scdtr.Prelude.{
  ℕ, ◌<◌, ◌≡◌, ap, ◌∙◌, Bool, true, false, List, ◌∷◌, ◌++◌, map, none, arith, length, All,
}
use scdtr.Sniffer.{Level, max_size, on_level, run, run_reports, masked}
use scdtr.Sniffer.Wave.{start_wave, bytes_wave}
use scdtr.Sniffer.Decoding.{idle, IsByte, start_run, bytes_overflow, run_reports-run}

-- After a start condition and more than 32 bytes, address included, the loop has written outside the
-- packet array, whatever the array held and whatever follows on the lines.
pub run_reports_overflow :
    (g_scl g_sda : ℕ) (reports : List ℕ) (rest : List Level) (packet : List ℕ)
    (written : List (List ℕ)) (bs : List (ℕ × Bool))
    → map (masked g_scl g_sda) reports ≡ start_wave ++ (bytes_wave bs ++ rest)
    → All IsByte bs
    → max_size < length bs
    → run_reports g_scl g_sda (idle false 0 0 packet 0 written) reports ≡ none
run_reports_overflow g_scl g_sda reports rest packet written bs lines h long =
    let s = idle false 0 0 packet 0 written in
    run_reports-run g_scl g_sda s reports
    ∙ ap (run s) lines
    ∙ start_run packet 0 written (bytes_wave bs ++ rest) false 0 0 0
    ∙ bytes_overflow packet 0 written rest false bs h (omega arith) (omega arith)

-- A start condition that a stop follows at once, with no byte between them, makes `size - 1` wrap and
-- the write read outside the packet array, whatever the array held and whatever follows.
pub run_reports_empty :
    (g_scl g_sda : ℕ) (reports : List ℕ) (rest : List Level) (packet : List ℕ)
    (written : List (List ℕ))
    → map (masked g_scl g_sda) reports ≡ start_wave ++ (record { scl = true; sda = true } ∷ rest)
    → run_reports g_scl g_sda (idle false 0 0 packet 0 written) reports ≡ none
unfolding run on_level
run_reports_empty g_scl g_sda reports rest packet written lines =
    let s = idle false 0 0 packet 0 written in
    run_reports-run g_scl g_sda s reports ∙ ap (run s) lines
