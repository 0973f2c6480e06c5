-- ===== src/Board/Calibration/Interleaved/Sender.antt =====
-- The moves of the node whose turn it is.
use scdtr.Prelude.{
  ℕ, ◌≡◌, refl, sym, ◌∙◌, Bool, true, false, not, ◌||◌, some, List, arith, if◌then◌else◌, ◌==◌,
  length, get_elem?, Option-cases, inl, inr,
}
use scdtr.Float.{Float}
use scdtr.Board.Communication.{max_size, syn}
use scdtr.Board.Calibration.{Calibration, measured}
use scdtr.Board.Calibration.Interleaved.{
  start, waits, Actor, place, is_sender, advance, enter, dimmed, delivered,
}
use scdtr.Board.Calibration.Interleaved.Packets.{syn_lem, get_elem?-lt, set_at-Holds}
use scdtr.Board.Calibration.Interleaved.Stages.{
  Stage, outside, outside_taken, outside_answered, top_behind, top, lit_behind, lit, taken,
  answered, dark, dark_taken, Mark, mark_of, lamps_at, all_off, sender_at, receiver_at, IsMark,
}
use scdtr.Board.Calibration.Interleaved.Rank.{turns_step, left, rank, IsCloser}

module _ {F : Type 0} ⦃fl : Float F⦄ (sense : ℕ → List F → F) (junk : List ℕ) (x : List F)
    (full : length junk ≡ max_size) where
  abbrev S : Mark F → Actor F
  S k = sender_at sense x k

  abbrev R : Mark F → Actor F
  R k = receiver_at sense x k

  unfoldable pub can_send : Stage → Bool
  can_send outside = true
  can_send lit_behind = true
  can_send lit = true
  can_send dark = true
  can_send _ = false

  pub sender_can :
      (k : Mark F)
      → waits (S k).point ≡ true
      → (S k).cal.ready ≡ false
      → (is_sender (R k) || not (R k).cal.ready) ≡ true
      → can_send k.stage ≡ true
  unfolding can_send
  sender_can k w unready quiet = ground (arith, w, unready, quiet)

  taken_in :
      (k : Mark F) (c : Calibration F)
      → delivered sense junk x (S k) (R k) syn (lamps_at k) ≡ some c
      → some c ≡ (
          if (R k).cal.id == (R k).cal.sender
          then some (R k).cal
          else if (S k).cal.id == (R k).cal.sender
          then measured (R k).cal (sense (R k).cal.id (lamps_at k))
          else some (R k).cal)
  taken_in k c got =
      sym got
      ∙ syn_lem junk full (R k).cal (S k).cal.id (R k).cal.id (sense (R k).cal.id (lamps_at k))

  pub sender_sends :
      (m : ℕ) (t : Bool) (g : Stage) (d : F) (s r : List (List F)) (e : F) (c : Calibration F)
      → let k = mark_of m t g d s r e in
        IsMark sense x k
        → can_send g ≡ true
        → delivered sense junk x (S k) (R k) syn (lamps_at k) ≡ some c
        → IsCloser sense junk x full k (place t (S k) (record (R k) { cal = c }) (lamps_at k))
  unfolding can_send rank left
  sender_sends m false outside d s r e c v ok got =
      let got' = taken_in (mark_of m false outside d s r e) c got in
      record {
        mark = mark_of m false outside_taken d s r (sense 1 all_off);
        shape = ground (arith, got');
        valid = ground (arith, v);
        closer = inl (ground arith);
      }
  sender_sends m true outside d s r e c v ok got = absurd (ground (arith, (v.at_first refl).1))
  sender_sends m false lit d s r e c v ok got =
      let (y', at, table) = set_at-Holds sense x true false m d r v.receiver_table (v.shown refl) in
      let got' = taken_in (mark_of m false lit d s r e) c got in
      record {
        mark = mark_of m false taken d s y' e;
        shape = ground (arith, got', at);
        valid = ground (arith, table);
        closer = inl (ground arith);
      }
  sender_sends m true lit d s r e c v ok got =
      let (y', at, table) = set_at-Holds sense x false true m d r v.receiver_table (v.shown refl) in
      let got' = taken_in (mark_of m true lit d s r e) c got in
      record {
        mark = mark_of m true taken d s y' e;
        shape = ground (arith, got', at);
        valid = ground (arith, table);
        closer = inl (ground (arith, turns_step (length x) m (v.second_turn refl)));
      }
  sender_sends m false lit_behind d s r e c v ok got =
      let got' = taken_in (mark_of m false lit_behind d s r e) c got in
      record {
        mark = mark_of m false lit_behind d s r e;
        shape = ground (arith, got');
        valid = ground (arith, v);
        closer = inr (ground (arith, got'));
      }
  sender_sends m true lit_behind d s r e c v ok got =
      let got' = taken_in (mark_of m true lit_behind d s r e) c got in
      record {
        mark = mark_of m true lit_behind d s r e;
        shape = ground (arith, got');
        valid = ground (arith, v);
        closer = inr (ground (arith, got'));
      }
  sender_sends m false dark d s r e c v ok got =
      let got' = taken_in (mark_of m false dark d s r e) c got in
      record {
        mark = mark_of m false dark_taken d s r e;
        shape = ground (arith, got');
        valid = ground (arith, v);
        closer = inl (ground arith);
      }
  sender_sends m true dark d s r e c v ok got =
      let got' = taken_in (mark_of m true dark d s r e) c got in
      record {
        mark = mark_of m true dark_taken d s r e;
        shape = ground (arith, got');
        valid = ground (arith, v);
        closer = inl (ground (arith, turns_step (length x) m (v.second_turn refl)));
      }
  sender_sends m t _ d s r e c v ok got = absurd (ground (arith, ok))

  -- A sender with its answer goes on.
  pub can_proceed : Stage → Bool
  can_proceed outside_answered = true
  can_proceed answered = true
  can_proceed _ = false

  pub sender_can_proceed :
      (k : Mark F) → waits (S k).point ≡ true → (S k).cal.ready ≡ true → can_proceed k.stage ≡ true
  unfolding can_proceed
  sender_can_proceed k w ready = ground (arith, w, ready)

  pub sender_proceeds :
      (m : ℕ) (t : Bool) (g : Stage) (d : F) (s r : List (List F)) (e : F)
      → let k = mark_of m t g d s r e in
        IsMark sense x k
        → can_proceed g ≡ true
        → IsCloser sense junk x full k
            (place t (advance x (S k)) (R k) (dimmed sense (S k) (lamps_at k)))
  unfolding can_proceed advance rank left
  sender_proceeds m false outside_answered d s r e v ok = record {
    mark = mark_of m false top d s r e;
    shape = ground (arith, v);
    valid = ground (arith, v);
    closer = inl (ground arith);
  }
  sender_proceeds m true outside_answered d s r e v ok =
      absurd (ground (arith, (v.at_first refl).1))
  sender_proceeds m false answered d s r e v ok = record {
    mark = mark_of m false dark d s r e;
    shape = ground arith;
    valid = ground (arith, v);
    closer = inl (ground arith);
  }
  sender_proceeds m true answered d s r e v ok = record {
    mark = mark_of m true dark d s r e;
    shape = ground arith;
    valid = ground (arith, v);
    closer = inl (ground (arith, turns_step (length x) m (v.second_turn refl)));
  }
  sender_proceeds m t _ d s r e v ok = absurd (ground (arith, ok))

  -- A node at the top of its turn puts its lamp on.
  pub sender_enters :
      (m : ℕ) (t : Bool) (g : Stage) (d : F) (s r : List (List F)) (e : F) (a : Actor F)
      (lamps : List F)
      → let k = mark_of m t g d s r e in
        IsMark sense x k
        → (S k).point ≡ start
        → enter sense x (S k) (lamps_at k) ≡ some (a, lamps)
        → IsCloser sense junk x full k (place t a (R k) lamps)
  unfolding enter rank left
  sender_enters m false top_behind d s r e a lamps v p e' = elim (Option-cases (get_elem? x m)) [
    | inl none_left ↦ absurd (ground (arith, e', none_left))
    | inr (d', here) ↦
        let (y', at, table) = set_at-Holds sense x false false m d' s v.sender_table here in
        record {
          mark = mark_of m false lit_behind d' y' r e;
          shape = ground (arith, e', here, at);
          valid = ground (arith, v, here, table, get_elem?-lt x m d' here);
          closer = inl (ground arith);
        }
  ]
  sender_enters m false top d s r e a lamps v p e' = elim (Option-cases (get_elem? x m)) [
    | inl none_left ↦ absurd (ground (arith, e', none_left))
    | inr (d', here) ↦
        let (y', at, table) = set_at-Holds sense x false false m d' s v.sender_table here in
        record {
          mark = mark_of m false lit d' y' r e;
          shape = ground (arith, e', here, at);
          valid = ground (arith, v, here, table, get_elem?-lt x m d' here);
          closer = inl (ground arith);
        }
  ]
  sender_enters m true top_behind d s r e a lamps v p e' = elim (Option-cases (get_elem? x m)) [
    | inl none_left ↦ absurd (ground (arith, e', none_left))
    | inr (d', here) ↦
        let (y', at, table) = set_at-Holds sense x true true m d' s v.sender_table here in
        record {
          mark = mark_of m true lit_behind d' y' r e;
          shape = ground (arith, e', here, at);
          valid = ground (arith, v, here, table, get_elem?-lt x m d' here);
          closer = inl (ground (arith, turns_step (length x) m (v.second_turn refl)));
        }
  ]
  sender_enters m true top d s r e a lamps v p e' = elim (Option-cases (get_elem? x m)) [
    | inl none_left ↦ absurd (ground (arith, e', none_left))
    | inr (d', here) ↦
        let (y', at, table) = set_at-Holds sense x true true m d' s v.sender_table here in
        record {
          mark = mark_of m true lit d' y' r e;
          shape = ground (arith, e', here, at);
          valid = ground (arith, v, here, table, get_elem?-lt x m d' here);
          closer = inl (ground (arith, turns_step (length x) m (v.second_turn refl)));
        }
  ]
  sender_enters m t _ d s r e a lamps v p e' = absurd (ground (arith, p))
