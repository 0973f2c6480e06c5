-- ===== src/Board/Calibration/Execute/Answers.antt =====
-- One exchange of `execute`: what the packet of the sender and its answer do.
use scdtr.Prelude.{
  ℕ, ◌≡◌, ◌≢◌, ◌<◌, true, false, some, List, [], set, get_elem?, length, arith, lt→ltb,
}
use scdtr.Float.{Float}
use scdtr.Board.Communication.{max_size, syn, ack, send_packet}
use scdtr.Board.Communication.RoundTrip.{read_packet-header}
use scdtr.Board.Calibration.{Calibration, state_ext, state_on, state_off, on_receive}
use scdtr.Board.Calibration.Execute.{exchange, turn}

module _ {F : Type 0} ⦃fl : Float F⦄ (sense : ℕ → List F → F) (junk : List ℕ)
    (full : length junk ≡ max_size) where
  -- The answer to a sender that waits for it.
  answered :
      (s : Calibration F) (value : F)
      → s.id ≡ s.sender
      → on_receive s junk (send_packet s.receiver s.sender ack).packet value
        ≡ some (record s { ready = true })
  unfolding on_receive send_packet
  answered s value turn =
      let read = read_packet-header s.receiver ack [] junk full (omega (arith, full)) in
      ground (arith, read, turn)

  -- A packet of the sender, by the phase of the node that measures.
  pub measured_dark :
      (r : Calibration F) (dest : ℕ) (value : F)
      → r.id ≢ r.sender
      → r.state ≡ state_off
      → on_receive r junk (send_packet r.sender dest syn).packet value
        ≡ some (record r { state = state_on; ready = true })
  unfolding on_receive send_packet
  measured_dark r dest value other off =
      let read = read_packet-header r.sender syn [] junk full (omega (arith, full)) in
      ground (arith, read, other, off)

  pub measured_external :
      (r : Calibration F) (dest : ℕ) (value : F)
      → r.id ≢ r.sender
      → r.state ≡ state_ext
      → on_receive r junk (send_packet r.sender dest syn).packet value
        ≡ some (record r { y_ext = value; ready = true })
  unfolding on_receive send_packet
  measured_external r dest value other ext =
      let read = read_packet-header r.sender syn [] junk full (omega (arith, full)) in
      ground (arith, read, other, ext)

  pub measured_lit :
      (r : Calibration F) (dest : ℕ) (value : F) (row : List F)
      → r.id ≢ r.sender
      → r.state ≡ state_on
      → get_elem? r.y r.sender ≡ some row
      → r.sample < length row
      → on_receive r junk (send_packet r.sender dest syn).packet value
        ≡ some (record r {
          y = set r.y r.sender (set row r.sample value);
          state = state_off;
          ready = true;
        })
  unfolding on_receive send_packet
  measured_lit r dest value row other on known room =
      let read = read_packet-header r.sender syn [] junk full (omega (arith, full)) in
      ground (arith, read, other, on, known, lt→ltb r.sample (length row) room)

  pub exchanged :
      (s r r' : Calibration F) (value : F)
      → s.id ≡ s.sender
      → r.sender ≡ s.sender
      → r.id ≡ s.receiver
      → on_receive r junk (send_packet r.sender s.receiver syn).packet value ≡ some r'
      → r'.ready ≡ true
      → exchange sense junk s r value
        ≡ some (record s { ready = false }, record r' { ready = false })
  unfolding exchange
  exchanged s r r' value turn same peer got ready =
      ground (arith, turn, same, peer, got, ready, answered s value turn)
