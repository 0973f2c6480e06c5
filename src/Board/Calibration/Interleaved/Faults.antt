-- ===== src/Board/Calibration/Interleaved/Faults.antt =====
-- What two nodes that calibrate do next is within their tables.
use mathlib.Core.Path.{subst}
use scdtr.Prelude.{ℕ, ◌≡◌, ◌≢◌, refl, sym, Bool, true, false, not, none, List, arith, length}
use scdtr.Float.{Float}
use scdtr.Board.Communication.{max_size, syn, ack}
use scdtr.Board.Calibration.Interleaved.{
  start, Actor, Hall, enter, delivered, Fault, enter_fault, send_fault, answer_fault,
}
use scdtr.Board.Calibration.Interleaved.Packets.{syn_lem, ack_lem, set_at-Holds}
use scdtr.Board.Calibration.Interleaved.Rank.{get_elem?-within}
use scdtr.Board.Calibration.Interleaved.Sender.{can_send, sender_can}
use scdtr.Board.Calibration.Interleaved.Receiver.{receiver_enters, receiver_sends}
use scdtr.Board.Calibration.Interleaved.Stages.{
  Stage, outside, top_behind, top, lit_behind, lit, dark, Mark, mark_of, lamps_at, sender_at,
  receiver_at, hall_at, IsMark, IsReached,
}

module _ {F : Type 0} ⦃fl : Float F⦄ (sense : ℕ → List F → F) (junk : List ℕ) (x : List F)
    (full : length junk ≡ max_size) where
  abbrev S : Mark F → Actor F
  S k = sender_at sense x k

  abbrev R : Mark F → Actor F
  R k = receiver_at sense x k

  enter_fits :
      (m : ℕ) (t : Bool) (g : Stage) (d : F) (s r : List (List F)) (e : F)
      → let k = mark_of m t g d s r e in
        IsMark sense x k → (S k).point ≡ start → enter sense x (S k) (lamps_at k) ≢ none
  unfolding enter
  enter_fits m t top_behind d s r e v p none_left =
      let (d', here) = get_elem?-within x m (ground (arith, p)) in
      let (y', at, _) = set_at-Holds sense x t t m d' s v.sender_table here in
      ground (arith, none_left, here, at)
  enter_fits m t top d s r e v p none_left =
      let (d', here) = get_elem?-within x m (ground (arith, p)) in
      let (y', at, _) = set_at-Holds sense x t t m d' s v.sender_table here in
      ground (arith, none_left, here, at)
  enter_fits m t _ d s r e v p none_left = absurd (ground (arith, p))

  send_fits :
      (m : ℕ) (t : Bool) (g : Stage) (d : F) (s r : List (List F)) (e : F)
      → let k = mark_of m t g d s r e in
        IsMark sense x k
        → can_send sense junk x full g ≡ true
        → delivered sense junk x (S k) (R k) syn (lamps_at k) ≢ none
  unfolding can_send
  send_fits m t lit d s r e v ok lost =
      let (y', at, _) = set_at-Holds sense x (not t) t m d r v.receiver_table (v.shown refl) in
      let k = mark_of m t lit d s r e in
      let got =
        syn_lem junk full (R k).cal (S k).cal.id (R k).cal.id (sense (R k).cal.id (lamps_at k)) in
      ground (arith, lost, got, at)
  send_fits m t outside d s r e v ok lost =
      let k = mark_of m t outside d s r e in
      let got =
        syn_lem junk full (R k).cal (S k).cal.id (R k).cal.id (sense (R k).cal.id (lamps_at k)) in
      ground (arith, lost, got)
  send_fits m t lit_behind d s r e v ok lost =
      let k = mark_of m t lit_behind d s r e in
      let got =
        syn_lem junk full (R k).cal (S k).cal.id (R k).cal.id (sense (R k).cal.id (lamps_at k)) in
      ground (arith, lost, got)
  send_fits m t dark d s r e v ok lost =
      let k = mark_of m t dark d s r e in
      let got =
        syn_lem junk full (R k).cal (S k).cal.id (R k).cal.id (sense (R k).cal.id (lamps_at k)) in
      ground (arith, lost, got)
  send_fits m t _ d s r e v ok lost = absurd (ground (arith, ok))

  answer_fits : (a b : Actor F) (lamps : List F) → delivered sense junk x a b ack lamps ≢ none
  answer_fits a b lamps lost =
      ground (arith, lost, ack_lem junk full b.cal a.cal.id b.cal.id (sense b.cal.id lamps))

  Fault-never :
      (m : ℕ) (t : Bool) (g : Stage) (d : F) (s r : List (List F)) (e : F)
      → IsMark sense x (mark_of m t g d s r e)
      → ¬ Fault sense junk x (hall_at sense x (mark_of m t g d s r e))
  Fault-never m false g d s r e v (enter_fault false p lost) = enter_fits m false g d s r e v p lost
  Fault-never m false g d s r e v (enter_fault true p lost) =
      receiver_enters sense junk x full (mark_of m false g d s r e) p
  Fault-never m true g d s r e v (enter_fault true p lost) = enter_fits m true g d s r e v p lost
  Fault-never m true g d s r e v (enter_fault false p lost) =
      receiver_enters sense junk x full (mark_of m true g d s r e) p
  Fault-never m false g d s r e v (send_fault false turn unready quiet lost) =
      send_fits m false g d s r e v
        (sender_can sense junk x full (mark_of m false g d s r e) (ground (arith, turn)) unready
          quiet)
        lost
  Fault-never m false g d s r e v (send_fault true turn unready quiet lost) =
      receiver_sends sense junk x full (mark_of m false g d s r e) turn unready
  Fault-never m true g d s r e v (send_fault true turn unready quiet lost) =
      send_fits m true g d s r e v
        (sender_can sense junk x full (mark_of m true g d s r e) (ground (arith, turn)) unready
          quiet)
        lost
  Fault-never m true g d s r e v (send_fault false turn unready quiet lost) =
      receiver_sends sense junk x full (mark_of m true g d s r e) turn unready
  Fault-never m false g d s r e v (answer_fault false turn ready lost) =
      answer_fits (S (mark_of m false g d s r e)) (R (mark_of m false g d s r e)) _ lost
  Fault-never m false g d s r e v (answer_fault true turn ready lost) =
      answer_fits (R (mark_of m false g d s r e)) (S (mark_of m false g d s r e)) _ lost
  Fault-never m true g d s r e v (answer_fault true turn ready lost) =
      answer_fits (S (mark_of m true g d s r e)) (R (mark_of m true g d s r e)) _ lost
  Fault-never m true g d s r e v (answer_fault false turn ready lost) =
      answer_fits (R (mark_of m true g d s r e)) (S (mark_of m true g d s r e)) _ lost

  pub IsReached-Fault : {h : Hall F} → IsReached sense x h → ¬ Fault sense junk x h
  IsReached-Fault w =
      let k = w.mark in
      subst (λ h. ¬ Fault sense junk x h) (sym w.shape)
        (Fault-never k.sample k.turn k.stage k.duty k.sent k.got k.y_ext w.valid)
