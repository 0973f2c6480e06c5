-- ===== src/Board/Consensus/Exchange.antt =====
-- `onReceive` and `getCopies` of consensus.cpp: how two nodes swap their best solutions. `Wire`
-- delivers a packet by calling the receiver's handler at once.
pub mod Protocol
use scdtr.Prelude.{
  ℕ, zero, suc, ◌+◌, ◌-◌, ◌≡◌, ◌≢◌, ◌<◌, Bool, true, false, not, ◌&&◌, ◌||◌, Option, none, some,
  List, [], ◌∷◌, if◌then◌else◌, ◌==◌, drop, length, ltb,
}
use scdtr.Float.{Float}
use scdtr.Board.{n_nodes}
use scdtr.Board.Communication.{
  header_size, ack, con, inf, send_packet, send_consensus, read_packet, read_consensus,
}
use scdtr.Board.Matrix.{sum, fill}

-- The variables of the exchange in one node. With two nodes the receiver is always the other one.
pub record Exchange (F : Type 0) : Type 0 where
  pub id : ℕ
  pub ready : Bool
  pub sender : ℕ
  pub receiver : ℕ
  pub d_copies : List F

module _ {F : Type 0} ⦃fl : Float F⦄ where
  -- What a packet that has been read does.
  abbrev take_packet : Exchange F → ℕ → ℕ → List ℕ → Option (Exchange F)
  take_packet e p_id p_type packet =
      if p_type == inf
      then some e
      else if e.id == e.sender
      then some (if p_id == e.receiver && p_type == ack then record e { ready = true } else e)
      else if p_id == e.sender && p_type == con
      then (elim (read_consensus (drop header_size packet)) [
        | none ↦ none
        | some d_tmp ↦ some (record e { d_copies = sum e.d_copies d_tmp n_nodes 1; ready = true })
      ])
      else some e

  -- The handler during an exchange; `junk` is what its packet array holds before.
  unfoldable pub on_receive : Exchange F → List ℕ → List ℕ → Option (Exchange F)
  on_receive e junk bytes = elim (read_packet (length bytes) bytes junk) [
    | none ↦ none
    | some r ↦ take_packet e r.p_id r.p_type r.packet
  ]

-- Both nodes.
pub record Pair (F : Type 0) : Type 0 where
  pub n0 : Exchange F
  pub n1 : Exchange F

module _ {F : Type 0} ⦃fl : Float F⦄ where
  -- A node goes on to the next sender.
  abbrev pub advance : Exchange F → Exchange F
  advance e = record e { ready = false; sender = e.sender + 1 }

  -- `getCopies` with two nodes, one step at a time, once both have installed the handler. The
  -- sender repeats its solution until it is `ready`, that is answered; `twice` says whether it may
  -- do so while the answer is on its way, and if not, the other node answers within the delay of
  -- the sender's loop.
  pub data Step (twice : Bool) (junk : List ℕ) (d0 d1 : List F) (p : Pair F) : Pair F → Type 0 where
    send_zero :
        (e : Exchange F)
        → p.n0.sender ≡ 0
        → p.n0.ready ≡ false
        → (twice || not p.n1.ready) ≡ true
        → on_receive p.n1 junk (send_consensus 0 1 false d0).packet ≡ some e
        → Step twice junk d0 d1 p (record p { n1 = e })
    send_one :
        (e : Exchange F)
        → p.n1.sender ≡ 1
        → p.n1.ready ≡ false
        → (twice || not p.n0.ready) ≡ true
        → on_receive p.n0 junk (send_consensus 1 0 false d1).packet ≡ some e
        → Step twice junk d0 d1 p (record p { n0 = e })
    answered_zero :
        p.n0.sender ≡ 0
        → p.n0.ready ≡ true
        → Step twice junk d0 d1 p (record p { n0 = advance p.n0 })
    answered_one :
        p.n1.sender ≡ 1
        → p.n1.ready ≡ true
        → Step twice junk d0 d1 p (record p { n1 = advance p.n1 })
    answer_zero :
        (e : Exchange F)
        → p.n0.sender ≡ 1
        → p.n0.ready ≡ true
        → on_receive p.n1 junk (send_packet 0 1 ack).packet ≡ some e
        → Step twice junk d0 d1 p (record { n0 = advance p.n0; n1 = e })
    answer_one :
        (e : Exchange F)
        → p.n1.sender ≡ 0
        → p.n1.ready ≡ true
        → on_receive p.n0 junk (send_packet 1 0 ack).packet ≡ some e
        → Step twice junk d0 d1 p (record { n0 = e; n1 = advance p.n1 })

  pub data Run (twice : Bool) (junk : List ℕ) (d0 d1 : List F) (p : Pair F) : Pair F → Type 0 where
    stay : Run twice junk d0 d1 p p
    after :
        {q r : Pair F}
        → Run twice junk d0 d1 p q
        → Step twice junk d0 d1 q r
        → Run twice junk d0 d1 p r

  -- A node at the start of `getCopies`.
  abbrev pub start : ℕ → Exchange F
  start id = record {
    id = id;
    ready = false;
    sender = 0;
    receiver = 1 - id;
    d_copies = fill (fl.lit 0 1) n_nodes 1;
  }

  abbrev pub start_pair : Pair F
  start_pair = record { n0 = start 0; n1 = start 1 }
