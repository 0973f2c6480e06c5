-- ===== src/Board/Calibration/Measurement.antt =====
-- What a node measures while another has its lamp on.
use scdtr.Prelude.{
  ℕ, ◌≡◌, ◌≢◌, ◌<◌, refl, true, false, ◌&&◌, some, List, [], ◌==◌, length, get_elem?, set, arith,
  lt→ltb, length-set, get_elem?-set_self, get_elem?-lt,
}
use scdtr.Float.{Float}
use scdtr.Board.Communication.{max_size, syn, send_packet}
use scdtr.Board.Communication.RoundTrip.{read_packet-header}
use scdtr.Board.Calibration.{Calibration, state_on, state_off, on_receive}

module _ {F : Type 0} ⦃fl : Float F⦄ (junk : List ℕ) (full : length junk ≡ max_size) where
  -- A packet with no body is what the node takes it for.
  on_receive-send_packet_lem :
      (c : Calibration F) (dev_id dest type : ℕ) (value : F)
      → c.id ≢ c.sender
      → (dev_id == c.sender && type == syn) ≡ false
      → on_receive c junk (send_packet dev_id dest type).packet value ≡ some c
  unfolding on_receive send_packet
  on_receive-send_packet_lem c dev_id dest type value other quiet =
      let read = read_packet-header dev_id type [] junk full (omega (arith, full)) in
      ground (arith, read, other, quiet)

  -- Two packets of the sender while its lamp goes on and off: the node keeps the value that the
  -- sensor gave at the first of them, in the row of the sender at the current sample, and nothing
  -- of the second, and it is then where it was, with an answer to give.
  pub on_receive-on_receive :
      (c : Calibration F) (dest : ℕ) (row : List F) (value later : F)
      → c.id ≢ c.sender
      → c.state ≡ state_on
      → get_elem? c.y c.sender ≡ some row
      → c.sample < length row
      → (c' : Calibration F) × (on_receive c junk (send_packet c.sender dest syn).packet value
          ≡ some c')
        × (c'.ready ≡ true)
        × (on_receive c' junk (send_packet c.sender dest syn).packet later
            ≡ some (record c { y = set c.y c.sender (set row c.sample value); ready = true }))
  unfolding on_receive send_packet
  on_receive-on_receive c dest row value later other on known room =
      let read = read_packet-header c.sender syn [] junk full (omega (arith, full)) in
      let small = lt→ltb c.sample (length row) room in
      let y = set c.y c.sender (set row c.sample value) in
      (
        record c { y = y; state = state_off; ready = true },
        ground (arith, read, other, on, known, small),
        refl,
        ground (arith, read, other, on),
      )

  -- If the sender's first packet of a turn comes twice, as it does when the answer is not there in
  -- time, the node takes the second one for the end of the turn, and the one that really ends it
  -- for the next first one: the value that stays in the row of the sender, at the current sample,
  -- is the one that the sensor gave with the lamp off, and the node is in the wrong phase.
  pub on_receive_repeated :
      (c : Calibration F) (dest : ℕ) (row : List F) (lit again dark : F)
      → c.id ≢ c.sender
      → c.state ≡ state_on
      → get_elem? c.y c.sender ≡ some row
      → c.sample < length row
      → let syn_packet = (send_packet c.sender dest syn).packet in
        (c₁ : Calibration F) × (c₂ : Calibration F) × (c₃ : Calibration F) × (on_receive c junk
            syn_packet lit
          ≡ some c₁)
        × (on_receive c₁ junk syn_packet again ≡ some c₂)
        × (on_receive c₂ junk syn_packet dark ≡ some c₃)
        × (get_elem? c₃.y c.sender ≡ some (set (set row c.sample lit) c.sample dark))
        × (c₃.state ≡ state_off)
  unfolding on_receive send_packet
  on_receive_repeated c dest row lit again dark other on known room =
      let read = read_packet-header c.sender syn [] junk full (omega (arith, full)) in
      let small = lt→ltb c.sample (length row) room in
      let row' = set row c.sample lit in
      let y = set c.y c.sender row' in
      let small' =
        lt→ltb c.sample (length row') (omega (arith, room, length-set row c.sample lit)) in
      let stored : get_elem? y c.sender ≡ some row' =
        get_elem?-set_self c.y c.sender row' (get_elem?-lt c.y c.sender known) in
      let y' = set y c.sender (set row' c.sample dark) in
      let stored' : get_elem? y' c.sender ≡ some (set row' c.sample dark) =
        get_elem?-set_self y c.sender _ (get_elem?-lt y c.sender stored) in
      (
        record c { y = y; state = state_off; ready = true },
        record c { y = y; state = state_on; ready = true },
        record c { y = y'; state = state_off; ready = true },
        ground (arith, read, other, on, known, small),
        ground (arith, read, other, on),
        ground (arith, read, other, stored, small'),
        stored',
        refl,
      )
