-- ===== src/Board/Calibration/Interleaved/Receiver.antt =====
-- The moves of the node that waits for the other one's packets.
use scdtr.Prelude.{
  ℕ, inl, suc, ◌≡◌, ◌≢◌, refl, sym, ◌∙◌, Bool, true, false, not, ◌&&◌, some, List, arith,
  if◌then◌else◌, ◌==◌, length,
}
use scdtr.Float.{Float}
use scdtr.Board.Communication.{max_size, ack}
use scdtr.Board.Calibration.{Calibration}
use scdtr.Board.Calibration.Interleaved.{
  start, waits, Actor, place, is_sender, advance, dimmed, delivered,
}
use scdtr.Board.Calibration.Interleaved.Packets.{ack_lem}
use scdtr.Board.Calibration.Interleaved.Stages.{
  Stage, outside_taken, outside_answered, top_behind, top, lit_behind, lit, taken, answered,
  dark_taken, Mark, mark_of, lamps_at, all_off, sender_at, receiver_at, IsMark,
}
use scdtr.Board.Calibration.Interleaved.Rank.{turns_step, left, rank, IsCloser}

module _ {F : Type 0} ⦃fl : Float F⦄ (sense : ℕ → List F → F) (junk : List ℕ) (x : List F)
    (full : length junk ≡ max_size) where
  abbrev S : Mark F → Actor F
  S k = sender_at sense x k

  abbrev R : Mark F → Actor F
  R k = receiver_at sense x k

  pub receiver_enters : (k : Mark F) → (R k).point ≢ start
  receiver_enters k p = ground (arith, p)

  -- A node that is behind has its own answer.
  pub receiver_sends :
      (k : Mark F) → (waits (R k).point && is_sender (R k)) ≡ true → (R k).cal.ready ≢ false
  receiver_sends k w unready = ground (arith, w, unready)

  pub can_follow : Stage → Bool
  can_follow top_behind = true
  can_follow lit_behind = true
  can_follow _ = false

  pub receiver_can :
      (k : Mark F) → (waits (R k).point && is_sender (R k)) ≡ true → can_follow k.stage ≡ true
  unfolding can_follow
  receiver_can k w = ground (arith, w)

  pub receiver_proceeds :
      (m : ℕ) (t : Bool) (g : Stage) (d : F) (s r : List (List F)) (e : F)
      → let k = mark_of m t g d s r e in
        IsMark sense x k
        → can_follow g ≡ true
        → IsCloser sense junk x full k
            (place t (S k) (advance x (R k)) (dimmed sense (R k) (lamps_at k)))
  unfolding can_follow advance rank left
  receiver_proceeds m false top_behind d s r e v ok = record {
    mark = mark_of m false top d s r e;
    shape = ground (arith, v);
    valid = ground (arith, v);
    closer = inl (ground arith);
  }
  receiver_proceeds m false lit_behind d s r e v ok = record {
    mark = mark_of m false lit d s r e;
    shape = ground (arith, v);
    valid = ground (arith, v);
    closer = inl (ground arith);
  }
  receiver_proceeds m true top_behind d s r e v ok = record {
    mark = mark_of m true top d s r e;
    shape = ground (arith, v);
    valid = ground (arith, v);
    closer = inl (ground (arith, turns_step (length x) m (v.second_turn refl)));
  }
  receiver_proceeds m true lit_behind d s r e v ok = record {
    mark = mark_of m true lit d s r e;
    shape = ground (arith, v);
    valid = ground (arith, v);
    closer = inl (ground (arith, turns_step (length x) m (v.second_turn refl)));
  }
  receiver_proceeds m t _ d s r e v ok = absurd (ground (arith, ok))

  -- A node answers, and goes on.
  pub can_answer : Stage → Bool
  can_answer outside_taken = true
  can_answer taken = true
  can_answer dark_taken = true
  can_answer _ = false

  pub receiver_can_answer :
      (k : Mark F)
      → (waits (R k).point && not (is_sender (R k))) ≡ true
      → (R k).cal.ready ≡ true
      → can_answer k.stage ≡ true
  unfolding can_answer
  receiver_can_answer k w ready = ground (arith, w, ready)

  heard :
      (k : Mark F) (c : Calibration F)
      → delivered sense junk x (R k) (S k) ack (lamps_at k) ≡ some c
      → some c
        ≡ some (
            if (S k).cal.id == (S k).cal.sender && (R k).cal.id == (S k).cal.receiver
            then record ((S k).cal) { ready = true }
            else (S k).cal)
  heard k c got =
      sym got
      ∙ ack_lem junk full (S k).cal (R k).cal.id (S k).cal.id (sense (S k).cal.id (lamps_at k))

  pub receiver_answers :
      (m : ℕ) (t : Bool) (g : Stage) (d : F) (s r : List (List F)) (e : F) (c : Calibration F)
      → let k = mark_of m t g d s r e in
        IsMark sense x k
        → can_answer g ≡ true
        → delivered sense junk x (R k) (S k) ack (lamps_at k) ≡ some c
        → IsCloser sense junk x full k
            (place t (record (S k) { cal = c }) (advance x (R k)) (lamps_at k))
  unfolding can_answer advance rank left
  receiver_answers m false outside_taken d s r e c v ok got =
      let got' = heard (mark_of m false outside_taken d s r e) c got in
      record {
        mark = mark_of m false outside_answered d s r e;
        shape = ground (arith, got', v);
        valid = ground (arith, v);
        closer = inl (ground arith);
      }
  receiver_answers m true outside_taken d s r e c v ok got =
      absurd (ground (arith, (v.at_first refl).1))
  receiver_answers m false taken d s r e c v ok got =
      let got' = heard (mark_of m false taken d s r e) c got in
      record {
        mark = mark_of m false answered d s r e;
        shape = ground (arith, got');
        valid = ground (arith, v);
        closer = inl (ground arith);
      }
  receiver_answers m true taken d s r e c v ok got =
      let got' = heard (mark_of m true taken d s r e) c got in
      record {
        mark = mark_of m true answered d s r e;
        shape = ground (arith, got');
        valid = ground (arith, v);
        closer = inl (ground (arith, turns_step (length x) m (v.second_turn refl)));
      }
  receiver_answers m false dark_taken d s r e c v ok got =
      let got' = heard (mark_of m false dark_taken d s r e) c got in
      record {
        mark = mark_of m true top_behind d r s (sense 0 all_off);
        shape = ground (arith, got', v);
        valid = ground (arith, v);
        closer = inl (ground (arith, turns_step (length x) m (v.inside refl)));
      }
  receiver_answers m true dark_taken d s r e c v ok got =
      let got' = heard (mark_of m true dark_taken d s r e) c got in
      record {
        mark = mark_of (suc m) false top_behind d r s (sense 1 all_off);
        shape = ground (arith, got', v);
        valid = ground (arith, v);
        closer = inl (ground (arith, turns_step (length x) m (v.inside refl)));
      }
  receiver_answers m t _ d s r e c v ok got = absurd (ground (arith, ok))
