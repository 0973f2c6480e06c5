-- ===== src/Board/Consensus/Joint/Together.antt =====
-- What two nodes compute together, and what `solve` returns in each of them.
use scdtr.Prelude.{ℕ, zero, suc, ◌≡◌, refl, sym, ap, ◌∙◌, List, [], ◌∷◌, ◌++◌, length}
use scdtr.Float.{Float, IsFloat}
use scdtr.Board.Communication.{max_size}
use scdtr.Board.Consensus.{dot, solve_from, solve}
use scdtr.Board.Consensus.Exchange.Protocol.{received}
use scdtr.Board.Consensus.Joint.{Solver, begin, solution, iterate, Joint, started, iterated}
use scdtr.Board.Consensus.Joint.Averages.{Joint-copies, joint_next}

module _ {F : Type 0} ⦃fl : Float F⦄ where
  -- A node after iterations with these copies.
  iterates : Solver F → List (List F) → Solver F
  iterates s [] = s
  iterates s (c ∷ cs) = iterates (iterate s c) cs

  iterates-append :
      (s : Solver F) (cs : List (List F)) (c : List F)
      → iterates s (cs ++ (c ∷ [])) ≡ iterate (iterates s cs) c
  unfolding iterates
  iterates-append s [] c = refl
  iterates-append s (d ∷ cs) c = iterates-append (iterate s d) cs c

  solve_from-iterates :
      (s : Solver F) (cs : List (List F))
      → solve_from s.problem s.d_i_best cs ≡ (iterates s cs).d_i_best
  unfolding solve_from iterates
  solve_from-iterates s [] = refl
  solve_from-iterates s (c ∷ cs) = solve_from-iterates (iterate s c) cs

  -- What node 0 has from node 1 in an iteration, and node 1 from node 0.
  abbrev pub from_one : Solver F × Solver F → List F
  from_one (s, t) = received (solution s) (solution t) (solution t)

  abbrev pub from_zero : Solver F × Solver F → List F
  from_zero (s, t) = received (solution s) (solution t) (solution s)

  -- Both nodes after `n` iterations in which each has the solution of the other, once.
  unfoldable pub together : Solver F → Solver F → ℕ → Solver F × Solver F
  together a b zero = (a, b)
  together a b (suc n) =
      let p = together a b n in (iterate p.0 (from_one p), iterate p.1 (from_zero p))

  -- What node 0 has had in these iterations, and node 1.
  unfoldable pub copies_zero : Solver F → Solver F → ℕ → List (List F)
  copies_zero a b zero = []
  copies_zero a b (suc n) = copies_zero a b n ++ (from_one (together a b n) ∷ [])

  unfoldable pub copies_one : Solver F → Solver F → ℕ → List (List F)
  copies_one a b zero = []
  copies_one a b (suc n) = copies_one a b n ++ (from_zero (together a b n) ∷ [])

  iterates-copies_zero :
      (a b : Solver F) (n : ℕ) → iterates a (copies_zero a b n) ≡ (together a b n).0
  unfolding iterates together copies_zero
  iterates-copies_zero a b zero = refl
  iterates-copies_zero a b (suc n) =
      let p = together a b n in
      iterates-append a (copies_zero a b n) (from_one p)
      ∙ ap (λ s. iterate s (from_one p)) (iterates-copies_zero a b n)

  iterates-copies_one :
      (a b : Solver F) (n : ℕ) → iterates b (copies_one a b n) ≡ (together a b n).1
  unfolding iterates together copies_one
  iterates-copies_one a b zero = refl
  iterates-copies_one a b (suc n) =
      let p = together a b n in
      iterates-append b (copies_one a b n) (from_zero p)
      ∙ ap (λ s. iterate s (from_zero p)) (iterates-copies_one a b n)

  module _ (laws : IsFloat F) (junk : List ℕ) (full : length junk ≡ max_size) (l0 l1 o0 o1 : F)
      (k0 k1 : List F) where
    abbrev a : Solver F
    a = begin 0 l0 k0 o0

    abbrev b : Solver F
    b = begin 1 l1 k1 o1

    -- The order of the packets makes no difference.
    joint_unique :
        {n : ℕ} {s t : Solver F}
        → Joint junk a b n s t
        → (s ≡ (together a b n).0) × (t ≡ (together a b n).1)
    unfolding together
    joint_unique started = (refl, refl)
    joint_unique (iterated {n} {s} {t} q j run end0 end1) =
        let (c0, c1) = Joint-copies laws junk full l0 l1 o0 o1 k0 k1 q j run end0 end1 in
        let (e, e') = joint_unique j in
        let p = together a b n in
        (
          ap (iterate s) c0
              ∙ ap (λ x. iterate x (from_one (x, t))) e
              ∙ ap (λ y. iterate p.0 (from_one (p.0, y))) e',
          ap (iterate t) c1
              ∙ ap (λ x. iterate t (from_zero (x, t))) e
              ∙ ap (λ y. iterate y (from_zero (p.0, y))) e',
        )

    -- Two nodes that solve together get through any number of iterations, as long as no node sends
    -- again while an answer is on its way, and end up where each has had the solution of the other
    -- once in every iteration.
    pub joint_reaches : (n : ℕ) → Joint junk a b n (together a b n).0 (together a b n).1
    unfolding together
    joint_reaches zero = started
    joint_reaches (suc n) = joint_next laws junk full l0 l1 o0 o1 k0 k1 (joint_reaches n)

    -- However the packets of the exchanges were ordered in `n` iterations of two nodes that solve
    -- together, as long as no node sent again while an answer was on its way: what either node then
    -- has is what `solve` returns in it, if every copy is the solution of the other node in that
    -- iteration.
    pub joint_solve :
        (n : ℕ) (s t : Solver F)
        → Joint junk a b n s t
        → (solve 0 l0 k0 o0 (copies_zero a b n) ≡ (dot k0 s.d_i_best, s.d_i_best))
          × (solve 1 l1 k1 o1 (copies_one a b n) ≡ (dot k1 t.d_i_best, t.d_i_best))
    unfolding solve
    joint_solve n s t j =
        let (e, e') = joint_unique j in
        (
          ap (λ d. (dot k0 d, d))
              (solve_from-iterates a (copies_zero a b n)
                ∙ ap (λ r. r.d_i_best) (iterates-copies_zero a b n ∙ sym e)),
          ap (λ d. (dot k1 d, d))
              (solve_from-iterates b (copies_one a b n)
                ∙ ap (λ r. r.d_i_best) (iterates-copies_one a b n ∙ sym e')),
        )
