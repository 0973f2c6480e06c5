-- ===== src/Board/Calibration/Interleaved/Fitted.antt =====
-- The end of an interleaved calibration against `execute` on its fixed schedule.
use mathlib.Core.Path.{subst}
use scdtr.Prelude.{
  ℕ, ◌≡◌, refl, sym, ap, ◌∙◌, Bool, true, false, some, List, [], ◌∷◌, arith, length,
}
use scdtr.Float.{Float}
use scdtr.Board.Communication.{max_size}
use scdtr.Board.Calibration.Execute.{fit, execute}
use scdtr.Board.Calibration.Execute.Rows.{IsTable, filled, length-map}
use scdtr.Board.Calibration.Execute.Tables.{fitted, execute-fitted}
use scdtr.Board.Calibration.Interleaved.{Hall, finished, number, begin_hall, Run}
use scdtr.Board.Calibration.Interleaved.Moves.{Run-IsReached}
use scdtr.Board.Calibration.Interleaved.Stages.{
  Stage, Mark, outside, top, IsMark, hall_at, mark_of, all_off, values, one_on, IsFilled, IsReached,
}

module _ {F : Type 0} ⦃fl : Float F⦄ (sense : ℕ → List F → F) (junk : List ℕ) (x : List F)
    (full : length junk ≡ max_size) where
  -- The place at the start.
  abbrev pub begin_mark : List F → List F → List F → List F → F → Mark F
  begin_mark a0 b0 a1 b1 y_ext =
      mark_of 0 false outside (fl.lit 0 1) (a0 ∷ b0 ∷ []) (a1 ∷ b1 ∷ []) y_ext

  pub begin-IsMark :
      (a0 b0 a1 b1 : List F) (y_ext : F)
      → length a0 ≡ length x
      → length b0 ≡ length x
      → length a1 ≡ length x
      → length b1 ≡ length x
      → IsMark sense x (begin_mark a0 b0 a1 b1 y_ext)
  begin-IsMark a0 b0 a1 b1 y_ext e0 e1 e2 e3 =
      let size = λ (b t : Bool). length-map (λ d. sense (number b) (one_on t d)) x in
      record {
        bounded = omega arith;
        inside = λ e. absurd (ground (arith, e));
        at_first = λ e. (refl, refl);
        earlier = λ e. absurd (ground (arith, e));
        second_turn = λ e. absurd (ground (arith, e));
        shown = λ e. absurd (ground (arith, e));
        measured = λ e. absurd (ground (arith, e));
        sender_table = record {
          row0 = a0;
          row1 = b0;
          rows = refl;
          size0 = e0 ∙ sym (size false false);
          size1 = e1 ∙ sym (size false true);
          filled0 = refl;
          filled1 = refl;
        };
        receiver_table = record {
          row0 = a1;
          row1 = b1;
          rows = refl;
          size0 = e2 ∙ sym (size true false);
          size1 = e3 ∙ sym (size true true);
          filled0 = refl;
          filled1 = refl;
        };
      }

  pub begin-IsReached :
      (a0 b0 a1 b1 : List F) (y_ext : F)
      → length a0 ≡ length x
      → length b0 ≡ length x
      → length a1 ≡ length x
      → length b1 ≡ length x
      → IsReached sense x (begin_hall sense (a0 ∷ b0 ∷ []) (a1 ∷ b1 ∷ []) y_ext)
  begin-IsReached a0 b0 a1 b1 y_ext e0 e1 e2 e3 = record {
    mark = begin_mark a0 b0 a1 b1 y_ext;
    shape = refl;
    valid = begin-IsMark a0 b0 a1 b1 y_ext e0 e1 e2 e3;
  }

  whole_table :
      (b : Bool) (y : List (List F))
      → IsFilled sense x b (length x) (length x) y
      → y ≡ values sense b false x ∷ values sense b true x ∷ []
  whole_table b y v =
      let t : IsTable (values sense b false x) (values sense b true x) (length x) y = record {
        a = v.row0;
        b = v.row1;
        rows = v.rows;
        size0 = v.size0;
        size1 = v.size1;
        filled0 = v.filled0;
        filled1 = v.filled1;
      } in
      filled _ _ _ y t (length-map _ x) (length-map _ x)

  ends_at_top :
      (m : ℕ) (t : Bool) (g : Stage) (d : F) (s r : List (List F)) (e : F)
      → let k = mark_of m t g d s r e in
        IsMark sense x k
        → (hall_at sense x k).n0.point ≡ finished
        → (hall_at sense x k).n1.point ≡ finished
        → k ≡ mark_of (length x) false top d s r e
  ends_at_top m true g d s r e v p p' = absurd (ground (arith, p, p', v.second_turn refl))
  ends_at_top m false g d s r e v p p' = ground (arith, p, p', v.bounded)

  -- What the nodes are left with when both are through.
  Ended : Hall F → Type 0
  Ended h =
      (fit sense junk x h.n0.cal ≡ fitted sense 0 x)
      × (fit sense junk x h.n1.cal ≡ fitted sense 1 x)
      × (h.lamps ≡ all_off)

  ended_lem :
      (d : F) (s r : List (List F)) (e : F)
      → let k = mark_of (length x) false top d s r e in IsMark sense x k → Ended (hall_at sense x k)
  unfolding Ended
  ended_lem d s r e v =
      let first = whole_table false s v.sender_table in
      let second = whole_table true r v.receiver_table in
      (ground (arith, first), ground (arith, second, v.measured refl), refl)

  IsReached-Ended :
      (h : Hall F) → IsReached sense x h → h.n0.point ≡ finished → h.n1.point ≡ finished → Ended h
  IsReached-Ended h v p p' =
      let k = v.mark in
      let over =
        ends_at_top k.sample k.turn k.stage k.duty k.sent k.got k.y_ext v.valid
          (ap (λ g. g.n0.point) (sym v.shape) ∙ p) (ap (λ g. g.n1.point) (sym v.shape) ∙ p') in
      subst Ended (sym v.shape) (
        subst (λ q. Ended (hall_at sense x q)) (sym over)
          (ended_lem k.duty k.sent k.got k.y_ext (subst (IsMark sense x) over v.valid)))

  -- Two nodes that calibrate on their own, in whatever order their steps come and however often a
  -- sender repeats a packet, if it does not while the other node has an answer to give: when both
  -- are through, the lamps are off, and the nodes are left with what `execute` gives on its fixed
  -- schedule, which is the external illuminance that each senses and the gains fitted to either
  -- lamp alone. The tables have a row for either lamp and a place for each duty.
  pub interleaved_fitted :
      (a0 b0 a1 b1 : List F) (y_ext : F) (h : Hall F)
      → length a0 ≡ length x
      → length b0 ≡ length x
      → length a1 ≡ length x
      → length b1 ≡ length x
      → Run sense junk x (begin_hall sense (a0 ∷ b0 ∷ []) (a1 ∷ b1 ∷ []) y_ext) h
      → h.n0.point ≡ finished
      → h.n1.point ≡ finished
      → (h.lamps ≡ all_off)
        × (execute sense junk x (a0 ∷ b0 ∷ []) (a1 ∷ b1 ∷ []) y_ext
            ≡ some (fit sense junk x h.n0.cal, fit sense junk x h.n1.cal))
        × (fit sense junk x h.n0.cal ≡ fitted sense 0 x)
        × (fit sense junk x h.n1.cal ≡ fitted sense 1 x)
  unfolding Ended
  interleaved_fitted a0 b0 a1 b1 y_ext h e0 e1 e2 e3 run p p' =
      let reached =
        Run-IsReached sense junk x full (begin-IsReached a0 b0 a1 b1 y_ext e0 e1 e2 e3) run in
      let (fit0, fit1, dark) = IsReached-Ended h reached p p' in
      let fixed = execute-fitted sense junk full x a0 b0 a1 b1 y_ext e0 e1 e2 e3 in
      (
        dark,
        fixed
            ∙ ap (λ f. some (f, fitted sense 1 x)) (sym fit0)
            ∙ ap (λ f. some (fit sense junk x h.n0.cal, f)) (sym fit1),
        fit0,
        fit1,
      )
