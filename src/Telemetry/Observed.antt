-- ===== src/Telemetry/Observed.antt =====
-- From the levels of the bus to the answers of the server.
use scdtr.Prelude.{ℕ, ◌<◌, ◌≡◌, refl, ap, ◌∙◌, some, List, [], ◌∷◌, map, All}
use scdtr.Float.{Float, IsFloat}
use scdtr.Sniffer.{Sniffer, run_reports, init, masked}
use scdtr.Sniffer.Decoding.{IsByte, traffic}
use scdtr.Server.System.{
  System, get_lux, get_duty_cycle, get_lux_reference, get_occupancy, get_lux_lower_bound,
  get_lux_external,
}
use scdtr.Server.System.Timeline.{feed}
use scdtr.Server.System.Invariant.{IsWellFormed}
use scdtr.Telemetry.{Status, sent}
use scdtr.Telemetry.Chain.{
  acked, on_bus, view, seen, reads, statuses, run_reports-statuses, feed-view,
}

-- Packets of the FIFO, each one read at a value of the clock.
abbrev pub timed : List ℕ → List (List ℕ) → List (ℕ × List ℕ)
timed [] packets = []
timed (c ∷ clocks) [] = []
timed (c ∷ clocks) (p ∷ packets) = (c, p) ∷ timed clocks packets

module _ {F : Type 0} ⦃fl : Float F⦄ where
  abbrev pub clocks : List (ℕ × Status F) → List ℕ
  clocks = map (λ p. p.0)

  timed-reads : (ms : List (ℕ × Status F)) → timed (clocks ms) (map sent (statuses ms)) ≡ reads ms
  timed-reads [] = refl
  timed-reads ((c, m) ∷ ms) = ap (λ rs. (c, sent m) ∷ rs) (timed-reads ms)

  -- If the watched pins carry the status packets of known nodes and nothing else, the sniffer
  -- decodes them without a fault; and once each packet that it has written has been one read of the
  -- FIFO, the server's answers about any node are the values of the last status that the node sent,
  -- or what they were before if it sent none.
  pub run_reports-feed :
      (laws : IsFloat F) (g_scl g_sda : ℕ) (reports : List ℕ) (s : System F)
      (ms : List (ℕ × Status F)) (j : ℕ)
      → map (masked g_scl g_sda) reports ≡ traffic (map on_bus (statuses ms))
      → All (λ m. All IsByte (acked (sent m)) × (m.dest < 128)) (statuses ms)
      → IsWellFormed s
      → All (λ m. m.dev_id < s.nodes) (statuses ms)
      → (n : Sniffer) × (run_reports g_scl g_sda init reports ≡ some n)
        × (let s' = feed s (timed (clocks ms) n.written) in
            let last = view (statuses ms) j in
            (get_lux s' j ≡ seen last (λ m. m.lux) (get_lux s j))
            × (get_duty_cycle s' j ≡ seen last (λ m. m.duty_cycle) (get_duty_cycle s j))
            × (get_lux_reference s' j ≡ seen last (λ m. m.ref) (get_lux_reference s j))
            × (get_occupancy s' j ≡ seen last (λ m. m.occupancy) (get_occupancy s j))
            × (get_lux_lower_bound s' j ≡ seen last (λ m. m.lower_bound) (get_lux_lower_bound s j))
            × (get_lux_external s' j ≡ seen last (λ m. m.ext) (get_lux_external s j)))
  run_reports-feed laws g_scl g_sda reports s ms j lines bytes v known =
      let (n, decoded, written) =
        run_reports-statuses g_scl g_sda reports (statuses ms) lines bytes in
      let same : timed (clocks ms) n.written ≡ reads ms =
        ap (timed (clocks ms)) written ∙ timed-reads ms in
      (n, decoded, rw same (feed-view laws s ms j v known))
