-- ===== src/Board/Calibration/Interleaved/Progress.antt =====
-- From every stage of an interleaved calibration but the last, a step leads closer to the end.
use scdtr.Prelude.{ℕ, suc, ◌<◌, ◌≡◌, refl, Bool, true, false, List, arith, length}
use scdtr.Float.{Float}
use scdtr.Board.Communication.{max_size}
use scdtr.Board.Calibration.Interleaved.{
  Hall, advance, enter, Step, enters, sends, proceeds, answers,
}
use scdtr.Board.Calibration.Interleaved.Packets.{syn_lem, ack_lem, set_at-Holds}
use scdtr.Board.Calibration.Interleaved.Stages.{
  Stage, outside, outside_taken, outside_answered, top_behind, top, lit_behind, lit, taken,
  answered, dark, dark_taken, Mark, mark_of, lamps_at, all_off, one_on, sender_at, receiver_at,
  hall_at, IsMark,
}
use scdtr.Board.Calibration.Interleaved.Rank.{turns_step, left, is_at_top, get_elem?-within, rank}

module _ {F : Type 0} ⦃fl : Float F⦄ (sense : ℕ → List F → F) (junk : List ℕ) (x : List F)
    (full : length junk ≡ max_size) where
  -- A step that brings both nodes closer to the end.
  pub record Progress (k : Mark F) : Type 0 where
    pub next : Mark F
    pub hall : Hall F
    pub step : Step sense junk x (hall_at sense x k) hall
    pub shape : hall ≡ hall_at sense x next
    pub valid : IsMark sense x next
    pub closer : rank sense junk x full next < rank sense junk x full k

  pub progress :
      (m : ℕ) (t : Bool) (g : Stage) (d : F) (s r : List (List F)) (e : F)
      → let k = mark_of m t g d s r e in
        IsMark sense x k → (is_at_top g ≡ true → m < length x) → Progress k
  unfolding rank left is_at_top advance enter
  progress m false outside d s r e v h = record {
    next = mark_of m false outside_taken d s r (sense 1 all_off);
    hall = _;
    step = sends false _ refl refl refl (
        syn_lem junk full (receiver_at sense x (mark_of m false outside d s r e)).cal 0 1
          (sense 1 all_off));
    shape = ground (arith, v);
    valid = ground (arith, v);
    closer = ground arith;
  }
  progress m false outside_taken d s r e v h = record {
    next = mark_of m false outside_answered d s r e;
    hall = _;
    step = answers true _ refl refl (
        ack_lem junk full (sender_at sense x (mark_of m false outside_taken d s r e)).cal 1 0
          (sense 0 all_off));
    shape = ground (arith, v);
    valid = ground (arith, v);
    closer = ground arith;
  }
  progress m false outside_answered d s r e v h = record {
    next = mark_of m false top d s r e;
    hall = _;
    step = proceeds false refl refl;
    shape = ground (arith, v);
    valid = ground (arith, v);
    closer = ground arith;
  }
  progress m false top_behind d s r e v h = record {
    next = mark_of m false top d s r e;
    hall = _;
    step = proceeds true refl refl;
    shape = ground (arith, v);
    valid = ground (arith, v);
    closer = ground arith;
  }
  progress m false lit_behind d s r e v h = record {
    next = mark_of m false lit d s r e;
    hall = _;
    step = proceeds true refl refl;
    shape = ground (arith, v);
    valid = ground (arith, v);
    closer = ground arith;
  }
  progress m false top d s r e v h =
      let (d', here) = get_elem?-within x m (h refl) in
      let (y', at, table) = set_at-Holds sense x false false m d' s v.sender_table here in
      record {
        next = mark_of m false lit d' y' r e;
        hall = _;
        step =
            enters false (sender_at sense x (mark_of m false lit d' y' r e)) (one_on false d')
              (ground (arith, h)) (ground (arith, here, at));
        shape = ground (arith, v);
        valid = ground (arith, v, here, table, h);
        closer = ground arith;
      }
  progress m false lit d s r e v h =
      let (y', at, table) = set_at-Holds sense x true false m d r v.receiver_table (v.shown refl) in
      let k = (mark_of m false lit d s r e) in
      let got = syn_lem junk full (receiver_at sense x k).cal 0 1 (sense 1 (lamps_at k)) in
      record {
        next = mark_of m false taken d s y' e;
        hall = _;
        step =
            sends false ((receiver_at sense x (mark_of m false taken d s y' e)).cal) refl refl refl
              (ground (arith, got, at));
        shape = ground (arith, v);
        valid = ground (arith, v, table);
        closer = ground arith;
      }
  progress m false taken d s r e v h =
      let k = (mark_of m false taken d s r e) in
      record {
        next = mark_of m false answered d s r e;
        hall = _;
        step =
            answers true _ refl refl
              (ack_lem junk full (sender_at sense x k).cal 1 0 (sense 0 (lamps_at k)));
        shape = ground (arith, v);
        valid = ground (arith, v);
        closer = ground arith;
      }
  progress m false answered d s r e v h = record {
    next = mark_of m false dark d s r e;
    hall = _;
    step = proceeds false refl refl;
    shape = ground (arith, v);
    valid = ground (arith, v);
    closer = ground arith;
  }
  progress m false dark d s r e v h =
      let k = (mark_of m false dark d s r e) in
      record {
        next = mark_of m false dark_taken d s r e;
        hall = _;
        step =
            sends false _ refl refl refl
              (syn_lem junk full (receiver_at sense x k).cal 0 1 (sense 1 (lamps_at k)));
        shape = ground (arith, v);
        valid = ground (arith, v);
        closer = ground arith;
      }
  progress m false dark_taken d s r e v h =
      let k = (mark_of m false dark_taken d s r e) in
      let fewer = turns_step (length x) m (v.inside refl) in
      record {
        next = mark_of m true top_behind d r s (sense 0 all_off);
        hall = _;
        step =
            answers true _ refl refl
              (ack_lem junk full (sender_at sense x k).cal 1 0 (sense 0 (lamps_at k)));
        shape = ground (arith, v);
        valid = ground (arith, v);
        closer = ground (arith, fewer);
      }
  progress m true outside d s r e v h = absurd (ground (arith, (v.at_first refl).1))
  progress m true outside_taken d s r e v h = absurd (ground (arith, (v.at_first refl).1))
  progress m true outside_answered d s r e v h = absurd (ground (arith, (v.at_first refl).1))
  progress m true top_behind d s r e v h = record {
    next = mark_of m true top d s r e;
    hall = _;
    step = proceeds false refl refl;
    shape = ground (arith, v);
    valid = ground (arith, v);
    closer = ground (arith, turns_step (length x) m (v.second_turn refl));
  }
  progress m true lit_behind d s r e v h = record {
    next = mark_of m true lit d s r e;
    hall = _;
    step = proceeds false refl refl;
    shape = ground (arith, v);
    valid = ground (arith, v);
    closer = ground (arith, turns_step (length x) m (v.second_turn refl));
  }
  progress m true top d s r e v h =
      let (d', here) = get_elem?-within x m (h refl) in
      let (y', at, table) = set_at-Holds sense x true true m d' s v.sender_table here in
      record {
        next = mark_of m true lit d' y' r e;
        hall = _;
        step =
            enters true (sender_at sense x (mark_of m true lit d' y' r e)) (one_on true d')
              (ground (arith, h)) (ground (arith, here, at));
        shape = ground (arith, v);
        valid = ground (arith, v, here, table, h);
        closer = ground (arith, turns_step (length x) m (v.second_turn refl));
      }
  progress m true lit d s r e v h =
      let (y', at, table) = set_at-Holds sense x false true m d r v.receiver_table (v.shown refl) in
      let k = (mark_of m true lit d s r e) in
      let got = syn_lem junk full (receiver_at sense x k).cal 1 0 (sense 0 (lamps_at k)) in
      record {
        next = mark_of m true taken d s y' e;
        hall = _;
        step =
            sends true ((receiver_at sense x (mark_of m true taken d s y' e)).cal) refl refl refl
              (ground (arith, got, at));
        shape = ground (arith, v);
        valid = ground (arith, v, table);
        closer = ground (arith, turns_step (length x) m (v.second_turn refl));
      }
  progress m true taken d s r e v h =
      let k = (mark_of m true taken d s r e) in
      record {
        next = mark_of m true answered d s r e;
        hall = _;
        step =
            answers false _ refl refl
              (ack_lem junk full (sender_at sense x k).cal 0 1 (sense 1 (lamps_at k)));
        shape = ground (arith, v);
        valid = ground (arith, v);
        closer = ground (arith, turns_step (length x) m (v.second_turn refl));
      }
  progress m true answered d s r e v h = record {
    next = mark_of m true dark d s r e;
    hall = _;
    step = proceeds true refl refl;
    shape = ground (arith, v);
    valid = ground (arith, v);
    closer = ground (arith, turns_step (length x) m (v.second_turn refl));
  }
  progress m true dark d s r e v h =
      let k = (mark_of m true dark d s r e) in
      record {
        next = mark_of m true dark_taken d s r e;
        hall = _;
        step =
            sends true _ refl refl refl
              (syn_lem junk full (receiver_at sense x k).cal 1 0 (sense 0 (lamps_at k)));
        shape = ground (arith, v);
        valid = ground (arith, v);
        closer = ground (arith, turns_step (length x) m (v.second_turn refl));
      }
  progress m true dark_taken d s r e v h =
      let k = (mark_of m true dark_taken d s r e) in
      let fewer = turns_step (length x) m (v.inside refl) in
      record {
        next = mark_of (suc m) false top_behind d r s (sense 1 all_off);
        hall = _;
        step =
            answers false _ refl refl
              (ack_lem junk full (sender_at sense x k).cal 0 1 (sense 1 (lamps_at k)));
        shape = ground (arith, v);
        valid = ground (arith, v);
        closer = ground (arith, fewer);
      }
