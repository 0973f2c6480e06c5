-- ===== src/Board/Consensus/Optimum.antt =====
-- What the updates of the best solution make of the candidates of an iteration.
pub mod Closed
pub mod Least
use mathlib.Core.Path.{subst}
use scdtr.Prelude.{
  ℕ, zero, suc, ◌<◌, ◌≡◌, refl, sym, ap, ◌⊎◌, inl, inr, Bool, true, false, ◌&&◌, List, [], ◌∷◌,
  ◌++◌, arith, All, Bool-cases, replicate,
}
use scdtr.Float.{Float, IsFloat, lit_not_lt}
use scdtr.Board.{n_nodes, max_dc}
use scdtr.Board.Matrix.{at, copy}
use scdtr.Board.Consensus.{
  Problem, Best, Candidate, cost_function, check_constraints, update_best, update_all, best_of,
  candidates, next_average, next_multipliers, solve_from, solve, dot,
}

module _ {F : Type 0} ⦃fl : Float F⦄ where
  -- A feasible candidate that costs less than `cost`.
  abbrev pub is_better : Problem F → F → Candidate F → Bool
  is_better p cost c =
      check_constraints p c.d_i c.check_linear && fl.lt (cost_function p c.d_i) cost

  -- The best solution is the one that the updates started from, or a feasible candidate at its cost.
  pub data IsFrom (p : Problem F) (start : Best F) (cs : List (Candidate F)) : Best F → Type 0 where
    unchanged : IsFrom p start cs start
    chosen :
        (before after : List (Candidate F)) (c : Candidate F)
        → cs ≡ before ++ (c ∷ after)
        → check_constraints p c.d_i c.check_linear ≡ true
        → IsFrom p start cs
            (record { d_i_best = copy c.d_i n_nodes 1; cost_best = cost_function p c.d_i })

  module _ (laws : IsFloat F) (p : Problem F) where
    not_better :
        (x cost cost' : F) → fl.lt cost' cost ≡ true → fl.lt x cost ≡ false → fl.lt x cost' ≡ false
    not_better x cost cost' below h = elim (Bool-cases (fl.lt x cost')) [
      | inl e ↦ absurd (ground (arith, h, laws.lt_trans x cost' cost e below))
      | inr e ↦ e
    ]

    -- An update never raises the cost, and the candidate is then not better.
    update_best-better :
        (best : Best F) (c : Candidate F) → is_better p (update_best p best c).cost_best c ≡ false
    unfolding update_best
    update_best-better best c = ground (arith, laws.lt_irrefl (cost_function p c.d_i))

    update_best-keeps :
        (best : Best F) (c c' : Candidate F)
        → is_better p best.cost_best c' ≡ false
        → is_better p (update_best p best c).cost_best c' ≡ false
    unfolding update_best
    update_best-keeps best c c' h =
        ground
          (arith, h, not_better (cost_function p c'.d_i) best.cost_best (cost_function p c.d_i))

    update_all-keeps :
        (best : Best F) (cs : List (Candidate F)) (c : Candidate F)
        → is_better p best.cost_best c ≡ false
        → is_better p (update_all p best cs).cost_best c ≡ false
    unfolding update_all
    update_all-keeps best [] c h = h
    update_all-keeps best (c' ∷ cs) c h =
        update_all-keeps (update_best p best c') cs c (update_best-keeps best c' c h)

    update_all-better :
        (best : Best F) (cs : List (Candidate F))
        → All (λ c. is_better p (update_all p best cs).cost_best c ≡ false) cs
    unfolding update_all
    update_all-better best [] = tt
    update_all-better best (c ∷ cs) = (
      update_all-keeps (update_best p best c) cs c (update_best-better best c),
      update_all-better (update_best p best c) cs,
    )

    IsFrom-later :
        {start : Best F} {cs : List (Candidate F)} (c : Candidate F) {b : Best F}
        → IsFrom p start cs b
        → IsFrom p start (c ∷ cs) b
    IsFrom-later c unchanged = unchanged
    IsFrom-later c (chosen before after c' e h) =
        chosen (c ∷ before) after c' (ap (λ ds. c ∷ ds) e) h

    abbrev taken : Candidate F → Best F
    taken c = record { d_i_best = copy c.d_i n_nodes 1; cost_best = cost_function p c.d_i }

    update_best-cases :
        (best : Best F) (c : Candidate F)
        → (update_best p best c ≡ best)
          ⊎ ((update_best p best c ≡ taken c) × (check_constraints p c.d_i c.check_linear ≡ true))
    unfolding update_best
    update_best-cases best c = elim (Bool-cases (check_constraints p c.d_i c.check_linear)) [
      | inl e ↦ elim (Bool-cases (fl.lt (cost_function p c.d_i) best.cost_best)) [
        | inl e' ↦ inr (rw (e, e', update_best) refl, e)
        | inr e' ↦ inl (rw (e, e', update_best) refl)
      ]
      | inr e ↦ inl (rw (e, update_best) refl)
    ]

    IsFrom-chosen :
        {start : Best F} {cs : List (Candidate F)} (c : Candidate F) {b : Best F}
        → check_constraints p c.d_i c.check_linear ≡ true
        → IsFrom p (taken c) cs b
        → IsFrom p start (c ∷ cs) b
    IsFrom-chosen {start} {cs} c h unchanged = chosen [] cs c refl h
    IsFrom-chosen c h (chosen before after c' e h') =
        chosen (c ∷ before) after c' (ap (λ ds. c ∷ ds) e) h'

    update_all-IsFrom :
        (best : Best F) (cs : List (Candidate F)) → IsFrom p best cs (update_all p best cs)
    unfolding update_all
    update_all-IsFrom best [] = unchanged
    update_all-IsFrom best (c ∷ cs) = elim (update_best-cases best c) [
      | inl e ↦
          subst (λ b. IsFrom p best (c ∷ cs) (update_all p b cs)) (sym e)
            (IsFrom-later c (update_all-IsFrom best cs))
      | inr (e, h) ↦
          subst (λ b. IsFrom p best (c ∷ cs) (update_all p b cs)) (sym e)
            (IsFrom-chosen c h (update_all-IsFrom (taken c) cs))
    ]

    -- The six candidates of an iteration: the best solution is the one of the iteration before, at an
    -- infinite cost, or a candidate that meets its constraints, at its cost; and no candidate that
    -- meets its constraints costs less.
    pub best_of-candidates :
        (d_i_best : List F)
        → IsFrom p
            (record { d_i_best = d_i_best; cost_best = fl.infinity })
            (candidates p)
            (best_of p d_i_best)
          × All (λ c. is_better p (best_of p d_i_best).cost_best c ≡ false) (candidates p)
    unfolding best_of
    best_of-candidates d_i_best =
        let start : Best F = record { d_i_best = d_i_best; cost_best = fl.infinity } in
        (update_all-IsFrom start (candidates p), update_all-better start (candidates p))

  -- A duty cycle in per cent.
  pub record IsDutyCycle (x : F) : Type 0 where
    pub not_above : fl.lt max_dc x ≡ false
    pub not_below : fl.lt x (fl.lit 0 1) ≡ false

  at-copy : (d : List F) (i : ℕ) → i < 2 → at (copy d n_nodes 1) i ≡ at d i
  at-copy [] i h = refl
  at-copy (x ∷ []) i h = refl
  at-copy (x ∷ y ∷ d) zero h = refl
  at-copy (x ∷ y ∷ d) (suc zero) h = refl
  at-copy (x ∷ y ∷ d) (suc (suc i)) h = absurd (omega arith)

  at-zeros : (i : ℕ) → at (replicate n_nodes (fl.lit 0 1)) i ≡ fl.lit 0 1
  at-zeros zero = refl
  at-zeros (suc zero) = refl
  at-zeros (suc (suc i)) = refl

  check_constraints-IsDutyCycle :
      (p : Problem F) (d : List F) (linear : Bool)
      → check_constraints p d linear ≡ true
      → IsDutyCycle (at d p.id)
  unfolding check_constraints
  check_constraints-IsDutyCycle p d linear h = ground (arith, h)

  IsFrom-IsDutyCycle :
      (p : Problem F) {start : Best F} {cs : List (Candidate F)} {b : Best F}
      → p.id < 2
      → IsDutyCycle (at start.d_i_best p.id)
      → IsFrom p start cs b
      → IsDutyCycle (at b.d_i_best p.id)
  IsFrom-IsDutyCycle p small v unchanged = v
  IsFrom-IsDutyCycle p small v (chosen before after c e h) =
      subst IsDutyCycle (sym (at-copy c.d_i p.id small))
        (check_constraints-IsDutyCycle p c.d_i c.check_linear h)

  solve_from-IsDutyCycle :
      (laws : IsFloat F) (p : Problem F) (d_i_best : List F) (copies : List (List F))
      → p.id < 2
      → IsDutyCycle (at d_i_best p.id)
      → IsDutyCycle (at (solve_from p d_i_best copies) p.id)
  unfolding solve_from
  solve_from-IsDutyCycle laws p d_i_best [] small v = v
  solve_from-IsDutyCycle laws p d_i_best (d_copies ∷ later) small v =
      let best = (best_of p d_i_best).d_i_best in
      let d_i_avg = next_average d_copies best in
      solve_from-IsDutyCycle laws
        (record p { y_i = next_multipliers p best d_i_avg; d_i_avg = d_i_avg }) best later small
        (IsFrom-IsDutyCycle p small v (best_of-candidates laws p d_i_best).0)

  -- Whatever copies the other node sends, in any number of iterations: the node's own duty cycle in
  -- the solution is between 0 and 100, and the new reference is the product of the gains and the
  -- solution.
  pub solve-IsDutyCycle :
      (laws : IsFloat F) (id : ℕ) (l : F) (k_i : List F) (o : F) (copies : List (List F))
      → id < 2
      → let (reference, solution) = solve id l k_i o copies in
        IsDutyCycle (at solution id) × (reference ≡ dot k_i solution)
  unfolding solve
  solve-IsDutyCycle laws id l k_i o copies small =
      let first : IsDutyCycle (at (replicate n_nodes (fl.lit 0 1)) id) =
        subst IsDutyCycle (sym (at-zeros id)) (record {
          not_above = lit_not_lt laws 0 100 (omega arith);
          not_below = laws.lt_irrefl (fl.lit 0 1);
        }) in
      (solve_from-IsDutyCycle laws _ (replicate n_nodes (fl.lit 0 1)) copies small first, refl)
