-- ===== src/Board/Calibration/Interleaved.antt =====
-- `execute` of calibration.cpp in two nodes that run on their own: every statement that the other
-- node can notice is a step of one of them, and the steps come in any order. A lamp is taken to
-- have settled when its node measures. A sender may repeat a packet, but not while the other node
-- has an answer to give.
pub mod Stages
pub mod Packets
pub mod Rank
pub mod Sender
pub mod Receiver
pub mod Moves
pub mod Fitted
pub mod Faults
pub mod Progress
pub mod Complete
use scdtr.Prelude.{
  ℕ, suc, ◌≢◌, ◌+◌, ◌-◌, ◌≡◌, Bool, true, false, not, ◌&&◌, ◌||◌, Option, none, some, List, [], ◌∷◌,
  if◌then◌else◌, ◌==◌, leb, length, get_elem?, set,
}
use scdtr.Float.{Float}
use scdtr.Board.{n_nodes}
use scdtr.Board.Communication.{syn, ack, send_packet}
use scdtr.Board.Calibration.{Calibration, state_ext, state_on, set_at, on_receive}

-- Where a node is in `execute`: in the exchange for the external illuminance, at the top of a turn of
-- its own, in the first or the second exchange of a turn, or behind the loops.
pub data Point : Type 0 where
  external start first second finished : Point

abbrev pub waits : Point → Bool
waits external = true
waits start = false
waits first = true
waits second = true
waits finished = false

pub record Actor (F : Type 0) : Type 0 where
  pub cal : Calibration F
  pub point : Point

-- Both nodes, and the duty of their lamps.
pub record Hall (F : Type 0) : Type 0 where
  pub n0 : Actor F
  pub n1 : Actor F
  pub lamps : List F

-- A node, by whether it is node 1.
abbrev pub number : Bool → ℕ
number false = 0
number true = 1

abbrev pub self : {F : Type 0} → Bool → Hall F → Actor F
self false h = h.n0
self true h = h.n1

abbrev pub peer : {F : Type 0} → Bool → Hall F → Actor F
peer false h = h.n1
peer true h = h.n0

abbrev pub place : {F : Type 0} → Bool → Actor F → Actor F → List F → Hall F
place false a b lamps = record { n0 = a; n1 = b; lamps = lamps }
place true a b lamps = record { n0 = b; n1 = a; lamps = lamps }

-- Whether it is a node's turn to send.
abbrev pub is_sender : {F : Type 0} → Actor F → Bool
is_sender a = a.cal.id == a.cal.sender

module _ {F : Type 0} (x : List F) where
  -- The top of a turn, for a node whose counters are set.
  abbrev pub at_top : Calibration F → Actor F
  at_top c = record {
    cal = c;
    point = if leb (length x) c.sample then finished else if c.id == c.sender then start else first;
  }

  -- What follows an exchange.
  unfoldable pub advance : Actor F → Actor F
  advance a = elim a.point [
    | external ↦ at_top (record (a.cal) { ready = false; state = state_on; sample = 0; sender = 0 })
    | start ↦ a
    | first ↦ record { cal = record (a.cal) { ready = false }; point = second }
    | second ↦
        if a.cal.sender + 1 == n_nodes
        then at_top (record (a.cal) { ready = false; sample = a.cal.sample + 1; sender = 0 })
        else at_top (record (a.cal) { ready = false; sender = a.cal.sender + 1 })
    | finished ↦ a
  ]

module _ {F : Type 0} ⦃fl : Float F⦄ (sense : ℕ → List F → F) where
  -- A node puts its lamp on and measures.
  unfoldable pub enter : List F → Actor F → List F → Option (Actor F × List F)
  enter x a lamps = elim (get_elem? x a.cal.sample) [
    | none ↦ none
    | some duty ↦
        let lit = set lamps a.cal.id duty in
        elim (set_at a.cal.y a.cal.sender a.cal.sample (sense a.cal.id lit)) [
          | none ↦ none
          | some y ↦ some (record { cal = record (a.cal) { y = y }; point = first }, lit)
        ]
  ]

  -- The lamps when a sender has its answer: behind the first exchange its own goes off.
  abbrev pub dimmed : Actor F → List F → List F
  dimmed a lamps = elim a.point [
    | external ↦ lamps
    | start ↦ lamps
    | first ↦ set lamps a.cal.id (fl.lit 0 1)
    | second ↦ lamps
    | finished ↦ lamps
  ]

  module _ (junk : List ℕ) (x : List F) where
    -- A packet of a node at the other one.
    abbrev pub delivered : Actor F → Actor F → ℕ → List F → Option (Calibration F)
    delivered a b type lamps =
        on_receive b.cal junk (send_packet a.cal.id b.cal.id type).packet (sense b.cal.id lamps)

    -- A step of one node; `b` says which.
    pub data Step (h : Hall F) : Hall F → Type 0 where
      enters :
          (b : Bool) (a : Actor F) (lamps : List F)
          → (self b h).point ≡ start
          → enter x (self b h) h.lamps ≡ some (a, lamps)
          → Step h (place b a (peer b h) lamps)
      sends :
          (b : Bool) (c : Calibration F)
          → (waits (self b h).point && is_sender (self b h)) ≡ true
          → (self b h).cal.ready ≡ false
          → (is_sender (peer b h) || not (peer b h).cal.ready) ≡ true
          → delivered (self b h) (peer b h) syn h.lamps ≡ some c
          → Step h (place b (self b h) (record (peer b h) { cal = c }) h.lamps)
      proceeds :
          (b : Bool)
          → (waits (self b h).point && is_sender (self b h)) ≡ true
          → (self b h).cal.ready ≡ true
          → Step h (place b (advance x (self b h)) (peer b h) (dimmed (self b h) h.lamps))
      answers :
          (b : Bool) (c : Calibration F)
          → (waits (self b h).point && not (is_sender (self b h))) ≡ true
          → (self b h).cal.ready ≡ true
          → delivered (self b h) (peer b h) ack h.lamps ≡ some c
          → Step h (place b (advance x (self b h)) (record (peer b h) { cal = c }) h.lamps)

    pub data Run (h : Hall F) : Hall F → Type 0 where
      stay : Run h h
      after : {g g' : Hall F} → Run h g → Step g g' → Run h g'

    -- A run with the number of its steps that change something; the others are packets that the
    -- other node ignores.
    pub data Changes (h : Hall F) : ℕ → Hall F → Type 0 where
      unmoved : Changes h 0 h
      changed : {n : ℕ} {g g' : Hall F} → Changes h n g → Step g g' → g' ≢ g → Changes h (suc n) g'
      ignored : {n : ℕ} {g g' : Hall F} → Changes h n g → Step g g' → g' ≡ g → Changes h n g'

    -- What a node would do next is an access outside a table or an array.
    pub data Fault (h : Hall F) : Type 0 where
      enter_fault :
          (b : Bool) → (self b h).point ≡ start → enter x (self b h) h.lamps ≡ none → Fault h
      send_fault :
          (b : Bool)
          → (waits (self b h).point && is_sender (self b h)) ≡ true
          → (self b h).cal.ready ≡ false
          → (is_sender (peer b h) || not (peer b h).cal.ready) ≡ true
          → delivered (self b h) (peer b h) syn h.lamps ≡ none
          → Fault h
      answer_fault :
          (b : Bool)
          → (waits (self b h).point && not (is_sender (self b h))) ≡ true
          → (self b h).cal.ready ≡ true
          → delivered (self b h) (peer b h) ack h.lamps ≡ none
          → Fault h

  -- Both nodes at the start, with the lamps off; the master has measured.
  abbrev pub begin_actor : ℕ → List (List F) → F → Actor F
  begin_actor id y y_ext = record {
    cal = record {
      id = id;
      ready = false;
      state = state_ext;
      y_ext = y_ext;
      y = y;
      sample = 0;
      sender = 0;
      receiver = 1 - id;
    };
    point = external;
  }

  abbrev pub begin_hall : List (List F) → List (List F) → F → Hall F
  begin_hall y0 y1 y_ext =
      let off = fl.lit 0 1 ∷ fl.lit 0 1 ∷ [] in
      record { n0 = begin_actor 0 y0 (sense 0 off); n1 = begin_actor 1 y1 y_ext; lamps = off }
