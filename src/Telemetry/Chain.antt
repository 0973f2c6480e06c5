-- ===== src/Telemetry/Chain.antt =====
-- A row of status packets on the bus, through the sniffer, into the server.
use scdtr.Prelude.{
  ℕ, ◌*◌, ◌<◌, ◌≡◌, refl, ap, ◌∙◌, Bool, true, false, ◌==◌, Option, none, some, List, [], ◌∷◌, map,
  arith, All, if◌then◌else◌,
}
use scdtr.Float.{Float, IsFloat}
use scdtr.Board.Communication.{send_info}
use scdtr.Sniffer.{Sniffer, run_reports, init, masked}
use scdtr.Sniffer.Decoding.{
  Transaction, Fits, IsByte, values, payloads, traffic, run_reports-traffic,
}
use scdtr.Server.System.{
  System, get_lux, get_duty_cycle, get_lux_reference, get_occupancy, get_lux_lower_bound,
  get_lux_external,
}
use scdtr.Server.System.Feed.{handle_read}
use scdtr.Server.System.Timeline.{feed}
use scdtr.Server.System.Invariant.{IsWellFormed, handle_read-IsWellFormed, handle_read-nodes}
use scdtr.Telemetry.{Status, sent}
use scdtr.Telemetry.Stored.{handle_read-status}

-- Bytes, each acknowledged.
abbrev pub acked : List ℕ → List (ℕ × Bool)
acked = map (λ b. (b, false))

values-acked : (bs : List ℕ) → values (acked bs) ≡ bs
values-acked [] = refl
values-acked (b ∷ bs) = ap (◌∷◌ b) (values-acked bs)

module _ {F : Type 0} ⦃fl : Float F⦄ where
  -- A status packet on the bus: the address with the write bit, then the packet, all acknowledged.
  abbrev pub on_bus : Status F → Transaction
  on_bus m = ((m.dest * 2, false), acked (sent m))

  -- The last status of a node.
  abbrev pub view : List (Status F) → ℕ → Option (Status F)
  view [] j = none
  view (m ∷ ms) j = elim (view ms j) [
    | none ↦ if j == m.dev_id then some m else none
    | some m' ↦ some m'
  ]

  abbrev pub seen : {A : Type 0} → Option (Status F) → (Status F → A) → A → A
  seen none field old = old
  seen (some m) field old = field m

  seen_step :
      {A : Type 0} (rest : Option (Status F)) (mine : Bool) (m : Status F) (field : Status F → A)
      (x new old : A)
      → x ≡ seen rest field new
      → new ≡ (if mine then field m else old)
      → x ≡ seen (elim rest [ none ↦ if mine then some m else none | some m' ↦ some m' ]) field old
  seen_step none true m field x new old e h = e ∙ h
  seen_step none false m field x new old e h = e ∙ h
  seen_step (some m') mine m field x new old e h = e

  -- Each packet is one read of the FIFO, at a value of the clock.
  abbrev pub reads : List (ℕ × Status F) → List (ℕ × List ℕ)
  reads = map (λ p. (p.0, sent p.1))

  abbrev pub statuses : List (ℕ × Status F) → List (Status F)
  statuses = map (λ p. p.1)

  payloads-on_bus : (ms : List (Status F)) → payloads (map on_bus ms) ≡ map sent ms
  unfolding send_info
  payloads-on_bus [] = refl
  payloads-on_bus (m ∷ ms) = ap (◌∷◌ (sent m)) (payloads-on_bus ms)

  Fits-on_bus : (m : Status F) → All IsByte (acked (sent m)) → m.dest < 128 → Fits (on_bus m)
  unfolding send_info
  Fits-on_bus m h small = (omega arith, h, omega arith)

  All-Fits :
      (ms : List (Status F))
      → All (λ m. All IsByte (acked (sent m)) × (m.dest < 128)) ms
      → All Fits (map on_bus ms)
  All-Fits [] h = tt
  All-Fits (m ∷ ms) h = (Fits-on_bus m h.0.0 h.0.1, All-Fits ms h.1)

  -- The packets that nodes send as statuses arrive in the FIFO whole, in order, and without a byte of
  -- anything else, if the watched pins carry nothing but their transactions.
  pub run_reports-statuses :
      (g_scl g_sda : ℕ) (reports : List ℕ) (ms : List (Status F))
      → map (masked g_scl g_sda) reports ≡ traffic (map on_bus ms)
      → All (λ m. All IsByte (acked (sent m)) × (m.dest < 128)) ms
      → (s : Sniffer) × (run_reports g_scl g_sda init reports ≡ some s) × (s.written ≡ map sent ms)
  run_reports-statuses g_scl g_sda reports ms lines h =
      let (s, e, w) =
        run_reports-traffic g_scl g_sda reports (map on_bus ms) lines (All-Fits ms h) in
      (s, e, w ∙ payloads-on_bus ms)

  module _ (laws : IsFloat F) where
    -- After any row of statuses of known nodes, each one read of the FIFO, the server's answers
    -- about a node are the values of the last status that the node sent, or what they were before
    -- if it sent none.
    pub feed-view :
        (s : System F) (ms : List (ℕ × Status F)) (j : ℕ)
        → IsWellFormed s
        → All (λ m. m.dev_id < s.nodes) (statuses ms)
        → let s' = feed s (reads ms) in
          let last = view (statuses ms) j in
          (get_lux s' j ≡ seen last (λ m. m.lux) (get_lux s j))
          × (get_duty_cycle s' j ≡ seen last (λ m. m.duty_cycle) (get_duty_cycle s j))
          × (get_lux_reference s' j ≡ seen last (λ m. m.ref) (get_lux_reference s j))
          × (get_occupancy s' j ≡ seen last (λ m. m.occupancy) (get_occupancy s j))
          × (get_lux_lower_bound s' j ≡ seen last (λ m. m.lower_bound) (get_lux_lower_bound s j))
          × (get_lux_external s' j ≡ seen last (λ m. m.ext) (get_lux_external s j))
    unfolding feed send_info
    feed-view s [] j v known = (refl, refl, refl, refl, refl, refl)
    feed-view s ((c, m) ∷ ms) j v (here, later) =
        let s₁ = handle_read s c (sent m) in
        let (lux, dc, ref, _, occ, lb, ext) = handle_read-status laws s c m [] j v here in
        let rest = view (statuses ms) j in
        let mine = j == m.dev_id in
        let (lux', dc', ref', occ', lb', ext') =
          feed-view s₁ ms j (handle_read-IsWellFormed s c (sent m) (omega arith) v)
            (rw (handle_read-nodes s c (sent m)) later) in
        (
          seen_step rest mine m _ _ _ _ lux' lux,
          seen_step rest mine m _ _ _ _ dc' dc,
          seen_step rest mine m _ _ _ _ ref' ref,
          seen_step rest mine m _ _ _ _ occ' occ,
          seen_step rest mine m _ _ _ _ lb' lb,
          seen_step rest mine m _ _ _ _ ext' ext,
        )
