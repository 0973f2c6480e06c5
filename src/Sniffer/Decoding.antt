-- ===== src/Sniffer/Decoding.antt =====
-- The sniffer against the bus: what the transactions on the lines make it write.
mod Bytes
pub use Bytes.{
  idle, reading, stored, last_ack, IsByte, values, start_run, bytes_run, bytes_overflow,
}
use mathlib.Core.List.{append_assoc, append-nil}
use native.Mathlib.Numerals.{add-one}
use scdtr.Prelude.{
  ℕ, zero, suc, ◌+◌, ◌-◌, ◌≤◌, ◌<◌, ◌≡◌, refl, sym, ap, ◌∙◌, inl, inr, Bool, true, false, List, [],
  ◌∷◌, ◌++◌, map, Option, none, some, arith, leb, if◌then◌else◌, length, take, drop, set, All,
  length-replicate, Bool-cases, Option-cases, replicate,
}
use scdtr.Sniffer.{
  Level, Sniffer, max_size, pred_size, write_packet, on_level, run, run_reports, masked, init,
}
use scdtr.Sniffer.Wave.{start_wave, stop_wave, bytes_wave, transaction}
use Bytes.{length-stored, stop_run}

stored-cons :
    (x : ℕ) (packet : List ℕ) (i : ℕ) (bs : List (ℕ × Bool))
    → stored (x ∷ packet) (i + 1) bs ≡ x ∷ stored packet i bs
stored-cons x packet i [] = refl
stored-cons x packet i ((b, a) ∷ bs) =
    ap (λ k. stored (set (x ∷ packet) k b) (i + 1 + 1) bs) (add-one i)
    ∙ stored-cons x (set packet i b) (i + 1) bs

take-stored :
    (packet : List ℕ) (bs : List (ℕ × Bool))
    → length bs ≤ length packet
    → take (length bs) (stored packet 0 bs) ≡ values bs
take-stored packet [] h = refl
take-stored [] (b ∷ bs) h = absurd (omega arith)
take-stored (x ∷ packet) ((b, a) ∷ bs) h =
    ap (take (suc (length bs))) (stored-cons b packet 0 bs)
    ∙ ap (◌∷◌ b) (take-stored packet bs (omega arith))

-- A transaction is an address byte and a payload, each byte with its answer on the data line.
abbrev pub Transaction : Type 0
Transaction = (ℕ × Bool) × List (ℕ × Bool)

abbrev pub wave : Transaction → List Level
wave (a, bs) = transaction (a ∷ bs)

-- What the packet array has room for.
abbrev pub Fits : Transaction → Type 0
Fits (a, bs) = IsByte a × All IsByte bs × (length bs < max_size)

-- What the sniffer is to write of it: the payload, if it has a header.
abbrev pub payload : Transaction → List (List ℕ)
payload (a, bs) = if leb 2 (length bs) then values bs ∷ [] else []

drop-stored :
    (packet : List ℕ) (a : ℕ × Bool) (bs : List (ℕ × Bool))
    → length bs < length packet
    → take (length bs) (drop 1 (stored packet 0 (a ∷ bs))) ≡ values bs
drop-stored [] a bs h = absurd (omega arith)
drop-stored (x ∷ packet) (b, a) bs h =
    ap (λ l. take (length bs) (drop 1 l)) (stored-cons b packet 0 bs)
    ∙ take-stored packet bs (omega arith)

write_packet-payload :
    (packet : List ℕ) (t : Transaction) (written : List (List ℕ))
    → length packet ≡ max_size
    → Fits t
    → write_packet (stored packet 0 (t.0 ∷ t.1)) (pred_size (suc (length t.1))) written
      ≡ some (written ++ payload t)
unfolding write_packet
write_packet-payload packet (a, bs) written full (ha, hs, room) =
    let size : pred_size (suc (length bs)) ≡ length bs = omega arith in
    rw size (elim (Bool-cases (leb 2 (length bs))) [
      | inl long ↦ ground (arith, drop-stored packet a bs)
      | inr short ↦ rw short (ap some (sym (append-nil written)))
    ])

-- One transaction, from idle to idle.
run-wave :
    (packet : List ℕ) (t : Transaction) (written : List (List ℕ)) (rest : List Level)
    → length packet ≡ max_size
    → Fits t
    → run (idle false 0 0 packet 0 written) (wave t ++ rest)
      ≡ run (idle false 0 0 (stored packet 0 (t.0 ∷ t.1)) 0 (written ++ payload t)) rest
run-wave packet (a, bs) written rest full fits =
    let all = a ∷ bs in
    ap (run (idle false 0 0 packet 0 written)) (
      append_assoc start_wave (bytes_wave all ++ stop_wave) rest
      ∙ ap (◌++◌ start_wave) (append_assoc (bytes_wave all) stop_wave rest))
    ∙ start_run packet 0 written (bytes_wave all ++ (stop_wave ++ rest)) false 0 0 0
    ∙ bytes_run packet 0 (suc (length bs)) written (stop_wave ++ rest) false all (fits.0, fits.1)
        (omega arith) (omega arith)
    ∙ stop_run (stored packet 0 all) (suc (length bs)) written rest (last_ack false all)
        (write_packet-payload packet (a, bs) written full fits)

abbrev pub traffic : List Transaction → List Level
traffic [] = []
traffic (t ∷ ts) = wave t ++ traffic ts

abbrev pub payloads : List Transaction → List (List ℕ)
payloads [] = []
payloads (t ∷ ts) = payload t ++ payloads ts

run-traffic :
    (ts : List Transaction) (packet : List ℕ) (written : List (List ℕ))
    → length packet ≡ max_size
    → All Fits ts
    → (s : Sniffer) × (run (idle false 0 0 packet 0 written) (traffic ts) ≡ some s)
      × (s.written ≡ written ++ payloads ts)
unfolding run
run-traffic [] packet written full fits =
    (idle false 0 0 packet 0 written, refl, sym (append-nil written))
run-traffic (t ∷ ts) packet written full fits =
    let (s, e, w) =
      run-traffic ts (stored packet 0 (t.0 ∷ t.1)) (written ++ payload t)
        (length-stored packet 0 (t.0 ∷ t.1) ∙ full) fits.1 in
    (
      s,
      run-wave packet t written (traffic ts) full fits.0 ∙ e,
      w ∙ append_assoc written (payload t) (payloads ts),
    )

pub run_reports-run :
    (g_scl g_sda : ℕ) (s : Sniffer) (reports : List ℕ)
    → run_reports g_scl g_sda s reports ≡ run s (map (masked g_scl g_sda) reports)
unfolding run_reports run
run_reports-run g_scl g_sda s [] = refl
run_reports-run g_scl g_sda s (r ∷ rs) = elim (Option-cases (on_level s (masked g_scl g_sda r))) [
  | inl e ↦ rw (e, run_reports, run)
  | inr (s', e) ↦ rw (e, run_reports, run) (run_reports-run g_scl g_sda s' rs)
]

-- Whatever other pins do, if the two watched pins carry the waveform of a list of transactions, each
-- of bytes below 256 and with a payload of at most 31 of them, then the sniffer never leaves its
-- array, and what it writes to the FIFO is exactly the payloads of two bytes or more, whole and in
-- order, acknowledged or not.
pub run_reports-traffic :
    (g_scl g_sda : ℕ) (reports : List ℕ) (ts : List Transaction)
    → map (masked g_scl g_sda) reports ≡ traffic ts
    → All Fits ts
    → (s : Sniffer) × (run_reports g_scl g_sda init reports ≡ some s) × (s.written ≡ payloads ts)
unfolding init
run_reports-traffic g_scl g_sda reports ts lines fits =
    let (s, e, w) =
      run-traffic ts (replicate max_size 0) [] (length-replicate {A = ℕ} max_size 0) fits in
    (s, run_reports-run g_scl g_sda init reports ∙ ap (run init) lines ∙ e, w)
