-- ===== src/Board/Calibration/Interleaved/Moves.antt =====
-- Every step of two nodes that calibrate leads from one stage to another.
use mathlib.Core.Path.{subst}
use scdtr.Prelude.{ℕ, ◌≡◌, Bool, true, false, List, arith, length}
use scdtr.Float.{Float}
use scdtr.Board.Communication.{max_size}
use scdtr.Board.Calibration.Interleaved.{
  Hall, Step, enters, sends, proceeds, answers, Run, stay, after,
}
use scdtr.Board.Calibration.Interleaved.Sender.{
  sender_can, sender_sends, sender_can_proceed, sender_proceeds, sender_enters,
}
use scdtr.Board.Calibration.Interleaved.Receiver.{
  receiver_enters, receiver_sends, receiver_can, receiver_proceeds, receiver_can_answer,
  receiver_answers,
}
use scdtr.Board.Calibration.Interleaved.Stages.{Stage, Mark, mark_of, hall_at, IsMark, IsReached}
use scdtr.Board.Calibration.Interleaved.Rank.{IsCloser}

module _ {F : Type 0} ⦃fl : Float F⦄ (sense : ℕ → List F → F) (junk : List ℕ) (x : List F)
    (full : length junk ≡ max_size) where
  step_from :
      (m : ℕ) (t : Bool) (g : Stage) (d : F) (s r : List (List F)) (e : F) {h : Hall F}
      → IsMark sense x (mark_of m t g d s r e)
      → Step sense junk x (hall_at sense x (mark_of m t g d s r e)) h
      → IsCloser sense junk x full (mark_of m t g d s r e) h
  step_from m false g d s r e v (enters false a lamps p got) =
      sender_enters sense junk x full m false g d s r e a lamps v p got
  step_from m false g d s r e v (enters true a lamps p got) =
      absurd (receiver_enters sense junk x full (mark_of m false g d s r e) p)
  step_from m false g d s r e v (sends false c turn unready quiet got) =
      sender_sends sense junk x full m false g d s r e c v
        (sender_can sense junk x full (mark_of m false g d s r e) (ground (arith, turn)) unready
          quiet)
        got
  step_from m false g d s r e v (sends true c turn unready quiet got) =
      absurd (receiver_sends sense junk x full (mark_of m false g d s r e) turn unready)
  step_from m false g d s r e v (proceeds false turn ready) =
      sender_proceeds sense junk x full m false g d s r e v (
        sender_can_proceed sense junk x full (mark_of m false g d s r e) (ground (arith, turn))
          ready)
  step_from m false g d s r e v (proceeds true turn ready) =
      receiver_proceeds sense junk x full m false g d s r e v
        (receiver_can sense junk x full (mark_of m false g d s r e) turn)
  step_from m false g d s r e v (answers false c turn ready got) = absurd (ground (arith, turn))
  step_from m false g d s r e v (answers true c turn ready got) =
      receiver_answers sense junk x full m false g d s r e c v
        (receiver_can_answer sense junk x full (mark_of m false g d s r e) turn ready) got
  step_from m true g d s r e v (enters true a lamps p got) =
      sender_enters sense junk x full m true g d s r e a lamps v p got
  step_from m true g d s r e v (enters false a lamps p got) =
      absurd (receiver_enters sense junk x full (mark_of m true g d s r e) p)
  step_from m true g d s r e v (sends true c turn unready quiet got) =
      sender_sends sense junk x full m true g d s r e c v
        (sender_can sense junk x full (mark_of m true g d s r e) (ground (arith, turn)) unready
          quiet)
        got
  step_from m true g d s r e v (sends false c turn unready quiet got) =
      absurd (receiver_sends sense junk x full (mark_of m true g d s r e) turn unready)
  step_from m true g d s r e v (proceeds true turn ready) =
      sender_proceeds sense junk x full m true g d s r e v (
        sender_can_proceed sense junk x full (mark_of m true g d s r e) (ground (arith, turn))
          ready)
  step_from m true g d s r e v (proceeds false turn ready) =
      receiver_proceeds sense junk x full m true g d s r e v
        (receiver_can sense junk x full (mark_of m true g d s r e) turn)
  step_from m true g d s r e v (answers true c turn ready got) = absurd (ground (arith, turn))
  step_from m true g d s r e v (answers false c turn ready got) =
      receiver_answers sense junk x full m true g d s r e c v
        (receiver_can_answer sense junk x full (mark_of m true g d s r e) turn ready) got

  pub Step-IsCloser :
      {h h' : Hall F} (k : Mark F)
      → h ≡ hall_at sense x k
      → IsMark sense x k
      → Step sense junk x h h'
      → IsCloser sense junk x full k h'
  Step-IsCloser {h} {h'} k shape v step =
      step_from k.sample k.turn k.stage k.duty k.sent k.got k.y_ext v
        (subst (λ p. Step sense junk x p h') shape step)

  pub Run-IsReached :
      {h h' : Hall F} → IsReached sense x h → Run sense junk x h h' → IsReached sense x h'
  Run-IsReached v stay = v
  Run-IsReached v (after run step) =
      let w = Run-IsReached v run in
      let c = Step-IsCloser w.mark w.shape w.valid step in
      record { mark = c.mark; shape = c.shape; valid = c.valid }
