-- ===== src/Board/Calibration/Interleaved/Complete.antt =====
-- An interleaved calibration can always go on, up to its end.
use mathlib.Core.Path.{subst}
use scdtr.Prelude.{
  ℕ, zero, suc, ◌<◌, ◌≤◌, ◌+◌, ◌-◌, ◌*◌, ◌∙◌, ◌≡◌, refl, sym, Bool, true, false, List, [], ◌∷◌,
  arith, length, leb, Bool-cases, inl, inr, ◌&&◌,
}
use scdtr.Float.{Float}
use scdtr.Board.Communication.{max_size}
use scdtr.Board.Calibration.Interleaved.{
  Hall, finished, begin_hall, Step, Run, stay, after, Changes, unmoved, changed, ignored, Fault,
}
use scdtr.Board.Calibration.Interleaved.Fitted.{begin-IsReached, begin_mark, begin-IsMark}
use scdtr.Board.Calibration.Interleaved.Moves.{Step-IsCloser, Run-IsReached}
use scdtr.Board.Calibration.Interleaved.Faults.{IsReached-Fault}
use scdtr.Board.Calibration.Interleaved.Stages.{Stage, Mark, mark_of, hall_at, IsMark}
use scdtr.Board.Calibration.Interleaved.Rank.{turns, left, is_at_top, rank}
use scdtr.Board.Calibration.Interleaved.Progress.{Progress, progress}

module _ {F : Type 0} ⦃fl : Float F⦄ (sense : ℕ → List F → F) (junk : List ℕ) (x : List F)
    (full : length junk ≡ max_size) where
  onward :
      (k : Mark F)
      → IsMark sense x k
      → (is_at_top k.stage ≡ true → k.sample < length x)
      → Progress sense junk x full k
  onward k v h = progress sense junk x full k.sample k.turn k.stage k.duty k.sent k.got k.y_ext v h

  through :
      (m : ℕ) (t : Bool) (g : Stage) (d : F) (s r : List (List F)) (e : F)
      → let k = mark_of m t g d s r e in
        IsMark sense x k
        → is_at_top g ≡ true
        → leb (length x) m ≡ true
        → ((hall_at sense x k).n0.point ≡ finished) × ((hall_at sense x k).n1.point ≡ finished)
  unfolding is_at_top
  through m false g d s r e v at over = (ground (arith, at, over), ground (arith, at, over))
  through m true g d s r e v at over = absurd (ground (arith, v.second_turn refl, over))

  joined : {f g h : Hall F} → Run sense junk x f g → Run sense junk x g h → Run sense junk x f h
  joined run stay = run
  joined run (after later step) = after (joined run later) step

  -- A run to the end, from a place.
  Through : Hall F → Type 0
  Through h =
      (h' : Hall F) × Run sense junk x h h' × (h'.n0.point ≡ finished) × (h'.n1.point ≡ finished)

  runs_out :
      (n : ℕ) (k : Mark F)
      → IsMark sense x k
      → rank sense junk x full k < n
      → Through (hall_at sense x k)
  unfolding Through
  runs_out zero k v small = absurd (omega arith)
  runs_out (suc n) k v small = elim (Bool-cases (is_at_top k.stage && leb (length x) k.sample)) [
    | inl over ↦
        let (p, p') =
          through k.sample k.turn k.stage k.duty k.sent k.got k.y_ext v (ground (arith, over))
            (ground (arith, over)) in
        (hall_at sense x k, stay, p, p')
    | inr going ↦
        let q = onward k v (λ at. ground (arith, at, going)) in
        let (h', run, p, p') = runs_out n q.next q.valid (omega (arith, q.closer)) in
        (
          h',
          joined (after stay (subst (Step sense junk x (hall_at sense x k)) q.shape q.step)) run,
          p,
          p',
        )
  ]

  -- Wherever an interleaved calibration has come to, its run can be continued to its end.
  pub interleaved_continues :
      (a0 b0 a1 b1 : List F) (y_ext : F) (h : Hall F)
      → length a0 ≡ length x
      → length b0 ≡ length x
      → length a1 ≡ length x
      → length b1 ≡ length x
      → Run sense junk x (begin_hall sense (a0 ∷ b0 ∷ []) (a1 ∷ b1 ∷ []) y_ext) h
      → (h' : Hall F) × Run sense junk x h h' × (h'.n0.point ≡ finished) × (h'.n1.point ≡ finished)
  unfolding Through
  interleaved_continues a0 b0 a1 b1 y_ext h e0 e1 e2 e3 run =
      let v =
        Run-IsReached sense junk x full
          (begin-IsReached sense junk x full a0 b0 a1 b1 y_ext e0 e1 e2 e3) run in
      subst Through (sym v.shape)
        (runs_out (suc (rank sense junk x full v.mark)) v.mark v.valid (omega arith))

  run_of : {g h : Hall F} {n : ℕ} → Changes sense junk x g n h → Run sense junk x g h
  run_of unmoved = stay
  run_of (changed c step new) = after (run_of c) step
  run_of (ignored c step same) = after (run_of c) step

  -- Each change uses up some of what is left.
  record IsSpent (n total : ℕ) (h : Hall F) : Type 0 where
    place : Mark F
    shape : h ≡ hall_at sense x place
    valid : IsMark sense x place
    spent : n + rank sense junk x full place ≤ total

  spend :
      {g h : Hall F} {n total : ℕ}
      → IsSpent 0 total g
      → Changes sense junk x g n h
      → IsSpent n total h
  spend w unmoved = w
  spend {n = suc n} w (changed c step new) =
      let w' = spend w c in
      let r = Step-IsCloser sense junk x full w'.place w'.shape w'.valid step in
      record {
        place = r.mark;
        shape = r.shape;
        valid = r.valid;
        spent = elim r.closer [
          | inl less ↦ omega (arith, less, w'.spent)
          | inr same ↦ absurd (new (same ∙ sym w'.shape))
        ];
      }
  spend w (ignored c step same) =
      let w' = spend w c in
      record { place = w'.place; shape = same ∙ w'.shape; valid = w'.valid; spent = w'.spent }

  turns_lem : (n : ℕ) → turns n ≡ 16 * n
  unfolding turns
  turns_lem zero = refl
  turns_lem (suc n) = omega (arith, turns_lem n)

  begin-IsSpent :
      (a0 b0 a1 b1 : List F) (y_ext : F)
      → length a0 ≡ length x
      → length b0 ≡ length x
      → length a1 ≡ length x
      → length b1 ≡ length x
      → IsSpent 0 (16 * length x + 11) (begin_hall sense (a0 ∷ b0 ∷ []) (a1 ∷ b1 ∷ []) y_ext)
  unfolding rank left
  begin-IsSpent a0 b0 a1 b1 y_ext e0 e1 e2 e3 = record {
    place = begin_mark sense junk x full a0 b0 a1 b1 y_ext;
    shape = refl;
    valid = begin-IsMark sense junk x full a0 b0 a1 b1 y_ext e0 e1 e2 e3;
    spent = omega (arith, turns_lem (length x - 0));
  }

  -- An interleaved calibration, with a row for either lamp and a place for each duty in the tables
  -- of both nodes, at any moment: no more than 16 changes for each duty and 11 have been made, where
  -- the steps that do not count are packets that the other node ignores; nothing that a node may do
  -- next is an access outside a table; and its run can be continued until both nodes are through. So
  -- a run that goes on as long as something can still change ends with both nodes through.
  pub interleaved_completes :
      (a0 b0 a1 b1 : List F) (y_ext : F) (n : ℕ) (h : Hall F)
      → length a0 ≡ length x
      → length b0 ≡ length x
      → length a1 ≡ length x
      → length b1 ≡ length x
      → Changes sense junk x (begin_hall sense (a0 ∷ b0 ∷ []) (a1 ∷ b1 ∷ []) y_ext) n h
      → (n ≤ 16 * length x + 11)
        × ¬ Fault sense junk x h
        × ((h' : Hall F) × Run sense junk x h h'
            × (h'.n0.point ≡ finished)
            × (h'.n1.point ≡ finished))
  interleaved_completes a0 b0 a1 b1 y_ext n h e0 e1 e2 e3 c =
      let w = spend (begin-IsSpent a0 b0 a1 b1 y_ext e0 e1 e2 e3) c in
      (
        omega (arith, w.spent),
        IsReached-Fault sense junk x full
            (record { mark = w.place; shape = w.shape; valid = w.valid }),
        interleaved_continues a0 b0 a1 b1 y_ext h e0 e1 e2 e3 (run_of c),
      )
