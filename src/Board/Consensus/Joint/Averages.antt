-- ===== src/Board/Consensus/Joint/Averages.antt =====
-- Both nodes' iterations: they get to the end, and they agree on the averages.
use scdtr.Prelude.{ℕ, false, suc, ◌≡◌, refl, sym, ap, ◌∙◌, List, [], ◌∷◌, length, All, arith}
use scdtr.Float.{Float, IsFloat, ◌⊕◌}
use scdtr.Board.{n_nodes}
use scdtr.Board.Communication.{max_size}
use scdtr.Board.Matrix.{at}
use scdtr.Board.Consensus.{
  Problem, Best, Candidate, update_best, update_all, candidates, best_of, next_average,
}
use scdtr.Board.Consensus.Exchange.{Pair, Run, start_pair}
use scdtr.Board.Consensus.Exchange.Protocol.{received, exchange_copies, complete-Run}
use scdtr.Board.Consensus.Joint.{Solver, begin, solution, iterate, Joint, started, iterated}

module _ {F : Type 0} ⦃fl : Float F⦄ where
  update_best-length :
      (p : Problem F) (best : Best F) (c : Candidate F)
      → length c.d_i ≡ n_nodes
      → length best.d_i_best ≡ n_nodes
      → length (update_best p best c).d_i_best ≡ n_nodes
  unfolding update_best
  update_best-length p best c h two = ground (arith, h, two)

  update_all-length :
      (p : Problem F) (best : Best F) (cs : List (Candidate F))
      → All (λ c. length c.d_i ≡ n_nodes) cs
      → length best.d_i_best ≡ n_nodes
      → length (update_all p best cs).d_i_best ≡ n_nodes
  unfolding update_all
  update_all-length p best [] h two = two
  update_all-length p best (c ∷ cs) h two =
      update_all-length p (update_best p best c) cs h.1 (update_best-length p best c h.0 two)

  pub solution-length : (s : Solver F) → length s.d_i_best ≡ n_nodes → length (solution s) ≡ n_nodes
  unfolding best_of candidates
  solution-length s two =
      update_all-length s.problem _ (candidates s.problem)
        (refl, (refl, (refl, (refl, (refl, (refl, tt)))))) two

  -- The averages that two nodes compute are the same, if the order in which two floats are added to 0
  -- does not matter.
  averages_agree :
      (d0 d1 : List F)
      → ((x y : F) → (fl.lit 0 1 ⊕ x) ⊕ y ≡ (fl.lit 0 1 ⊕ y) ⊕ x)
      → next_average (received d0 d1 d1) d0 ≡ next_average (received d0 d1 d0) d1
  unfolding next_average
  averages_agree d0 d1 swap = ground (arith, swap (at d1 0) (at d0 0), swap (at d1 1) (at d0 1))

  module _ (laws : IsFloat F) (junk : List ℕ) (full : length junk ≡ max_size) (l0 l1 o0 o1 : F)
      (k0 k1 : List F) where
    abbrev pub zero_start : Solver F
    zero_start = begin 0 l0 k0 o0

    abbrev pub one_start : Solver F
    one_start = begin 1 l1 k1 o1

    Joint-length :
        {n : ℕ} {s t : Solver F}
        → Joint junk zero_start one_start n s t
        → (length s.d_i_best ≡ n_nodes) × (length t.d_i_best ≡ n_nodes)
    Joint-length started = (refl, refl)
    Joint-length (iterated {n} {s} {t} q j run end0 end1) =
        let (two0, two1) = Joint-length j in (solution-length s two0, solution-length t two1)

    -- The copies that an iteration leaves, whatever its run.
    pub Joint-copies :
        {n : ℕ} {s t : Solver F} (q : Pair F)
        → Joint junk zero_start one_start n s t
        → Run false junk (solution s) (solution t) start_pair q
        → q.n0.sender ≡ 2
        → q.n1.sender ≡ 2
        → (q.n0.d_copies ≡ received (solution s) (solution t) (solution t))
          × (q.n1.d_copies ≡ received (solution s) (solution t) (solution s))
    Joint-copies {n} {s} {t} q j run end0 end1 =
        let (two0, two1) = Joint-length j in
        exchange_copies (solution s) (solution t) laws junk full (solution-length s two0)
          (solution-length t two1) q run end0 end1

    -- After any number of iterations, in whatever order the packets of each exchange come, as long as
    -- no node sends again while an answer is on its way: both nodes go on with the same averages. The
    -- order in which two floats are added to 0 must not matter.
    pub joint_averages :
        {n : ℕ} {s t : Solver F}
        → ((x y : F) → (fl.lit 0 1 ⊕ x) ⊕ y ≡ (fl.lit 0 1 ⊕ y) ⊕ x)
        → Joint junk zero_start one_start n s t
        → s.problem.d_i_avg ≡ t.problem.d_i_avg
    joint_averages swap started = refl
    joint_averages swap (iterated {n} {s} {t} q j run end0 end1) =
        let d0 = solution s in
        let d1 = solution t in
        let (c0, c1) = Joint-copies q j run end0 end1 in
        ap (λ c. next_average c d0) c0
        ∙ averages_agree d0 d1 swap
        ∙ ap (λ c. next_average c d1) (sym c1)

    -- Another iteration.
    pub joint_next :
        {n : ℕ} {s t : Solver F}
        → Joint junk zero_start one_start n s t
        → Joint junk zero_start one_start
            (suc n)
            (iterate s (received (solution s) (solution t) (solution t)))
            (iterate t (received (solution s) (solution t) (solution s)))
    joint_next {n} {s} {t} j =
        let (two0, two1) = Joint-length j in
        let run =
          complete-Run (solution s) (solution t) laws junk full (solution-length s two0)
            (solution-length t two1) in
        iterated _ j run refl refl
