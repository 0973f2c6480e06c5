-- ===== src/Board/Communication/RoundTrip.antt =====
-- A consensus packet through `readPacket` and `readConsensus`.
use scdtr.Prelude.{
  ℕ, ◌≤◌, ◌≡◌, refl, sym, ap, ◌∙◌, Bool, some, List, ◌∷◌, ◌++◌, arith, if◌then◌else◌, length, drop,
}
use scdtr.Float.{Float, IsFloat}
use scdtr.Board.{n_nodes}
use scdtr.Board.Communication.{
  Received, max_size, header_size, con, ico, pack, send_consensus, read_packet, read_consensus,
  read_from,
}
use scdtr.Board.Communication.Arrays.{fill_packet_lem, length-pack, read_from-pack}

-- `readPacket`, given all that has arrived: the header is its first two bytes, and the array keeps
-- the rest behind them, over whatever it held.
pub read_packet-header :
    (id type : ℕ) (body junk : List ℕ)
    → length junk ≡ max_size
    → length (id ∷ type ∷ body) ≤ max_size
    → let sent = id ∷ type ∷ body in
      read_packet (length sent) sent junk
      ≡ some (record { p_id = id; p_type = type; packet = sent ++ drop (length sent) junk })
unfolding read_packet
read_packet-header id type body junk full room =
    let sent = id ∷ type ∷ body in
    ground (arith, fill_packet_lem (length sent) sent junk (omega arith) (omega arith))

module _ {F : Type 0} ⦃fl : Float F⦄ (laws : IsFloat F) where
  -- A node that receives a consensus packet, whatever its packet array held before, reads the sender,
  -- the type and the whole solution vector that were sent.
  pub read_consensus-send_consensus :
      (dev_id dest : ℕ) (start : Bool) (d_i : List F) (junk : List ℕ)
      → length d_i ≡ n_nodes
      → length junk ≡ max_size
      → let sent = (send_consensus dev_id dest start d_i).packet in
        (r : Received) × (read_packet (length sent) sent junk ≡ some r)
        × (r.p_id ≡ dev_id)
        × (r.p_type ≡ (if start then ico else con))
        × (read_consensus (drop header_size r.packet) ≡ some d_i)
  unfolding send_consensus read_consensus
  read_consensus-send_consensus dev_id dest start d_i junk two full =
      let type = if start then ico else con in
      let sent = dev_id ∷ type ∷ pack d_i in
      let tail = drop (length sent) junk in
      (
        record { p_id = dev_id; p_type = type; packet = sent ++ tail },
        read_packet-header dev_id type (pack d_i) junk full (omega (arith, length-pack d_i)),
        refl,
        refl,
        ap (λ k. read_from k 0 (pack d_i ++ tail)) (sym two)
            ∙ read_from-pack laws d_i 0 (pack d_i ++ tail) tail refl,
      )
