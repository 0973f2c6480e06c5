-- ===== src/Tests/SnifferTests.antt =====
-- The sniffer at pins 3 and 2, with another pin that is always high.
use scdtr.Prelude.{
  ℕ, ◌+◌, ◌*◌, ◌≡◌, refl, Bool, true, false, List, [], ◌∷◌, ◌++◌, map, some, none, arith, replicate,
}
use scdtr.Sniffer.{Level, Sniffer, run_reports, masked, init, bit_of}
use scdtr.Sniffer.Wave.{start_wave, bytes_wave}
use scdtr.Sniffer.Decoding.{Transaction, traffic, idle, run_reports-traffic}
use scdtr.Sniffer.Faults.{run_reports_overflow}

abbrev report : Level → ℕ
report l = 16 + 8 * bit_of l.scl + 4 * bit_of l.sda

-- A packet of three bytes to address 2, one that nobody answers, and a lone header.
abbrev seen : List Transaction
seen =
    ((2, false), (0, false) ∷ (15, false) ∷ (255, true) ∷ [])
    ∷ ((3, true), [])
    ∷ ((4, false), (1, false) ∷ (0, false) ∷ [])
    ∷ []

run_reports-traffic_example :
    (s : Sniffer) × (run_reports 3 2 init (map report (traffic seen)) ≡ some s)
    × (s.written ≡ (0 ∷ 15 ∷ 255 ∷ []) ∷ (1 ∷ 0 ∷ []) ∷ [])
unfolding masked
run_reports-traffic_example =
    run_reports-traffic 3 2 (map report (traffic seen)) seen refl (omega arith)

abbrev long_row : List (ℕ × Bool)
long_row = replicate 33 (7, false)

run_reports_overflow_example :
    run_reports 3 2
      (idle false 0 0 [] 0 [])
      (map report (start_wave ++ (bytes_wave long_row ++ [])))
    ≡ none
unfolding masked
run_reports_overflow_example =
    run_reports_overflow 3 2 (map report (start_wave ++ (bytes_wave long_row ++ []))) [] [] []
      long_row refl (omega arith) (omega arith)
