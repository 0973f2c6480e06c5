-- ===== src/Board/Consensus/Optimum/Closed.antt =====
-- The optimum of an iteration as a description of its own, for two nodes and without a vector: the
-- two components of each of the six solutions, what they cost, and when they are allowed.
use scdtr.Prelude.{
  ℕ, zero, suc, ◌<◌, ◌≡◌, refl, Bool, true, false, not, ◌&&◌, ◌||◌, List, [], ◌∷◌, ◌++◌, map, arith,
  ◌==◌, if◌then◌else◌,
}
use scdtr.Float.{Float, ◌⊕◌, ◌⊖◌, ◌⊗◌, ◌⊘◌}
use scdtr.Board.{max_dc}
use scdtr.Board.Matrix.{at}
use scdtr.Board.Consensus.{Problem, Best, Candidate, cost_function, check_constraints, candidates}

-- The duty cycles of nodes 0 and 1, and whether the linear constraint is to be checked for them.
pub record Duties (F : Type 0) : Type 0 where
  pub first : F
  pub second : F
  pub checked : Bool

module _ {F : Type 0} ⦃fl : Float F⦄ where
  module _ (p : Problem F) where
    abbrev k : ℕ → F
    k j = at p.k_i j

    abbrev avg : ℕ → F
    avg j = at p.d_i_avg j

    abbrev y : ℕ → F
    y j = at p.y_i j

    -- 0 + a + b.
    abbrev plus : F → F → F
    plus a b = fl.lit 0 1 ⊕ a ⊕ b

    abbrev own : F → F → F
    own a b = if p.id == 0 then a else b

    -- q/2 ‖d‖² + c d_i + y (d - average) + rho/2 ‖d - average‖².
    abbrev pub price : F → F → F
    price a b =
        p.q_i ⊘ fl.lit 2 1 ⊗ plus (a ⊗ a) (b ⊗ b)
        ⊕ own a b ⊗ p.c_i
        ⊕ plus (a ⊗ y 0) (b ⊗ y 1)
        ⊖ plus (avg 0 ⊗ y 0) (avg 1 ⊗ y 1)
        ⊕ p.rho ⊘ fl.lit 2 1 ⊗ plus ((a ⊖ avg 0) ⊗ (a ⊖ avg 0)) ((b ⊖ avg 1) ⊗ (b ⊖ avg 1))

    -- The own duty cycle is between 0 and 100, and the illuminance is not below what is wanted.
    abbrev pub is_allowed : Duties F → Bool
    is_allowed d =
        not (fl.lt max_dc (own d.first d.second))
        && not (fl.lt (own d.first d.second) (fl.lit 0 1))
        && (not d.checked || not (fl.lt (plus (k 0 ⊗ d.first) (k 1 ⊗ d.second)) (p.l ⊖ p.o)))

    abbrev weight : ℕ → F
    weight j = fl.lit 1 1 ⊘ (if j == p.id then p.rho ⊕ p.q_i else p.rho)

    abbrev z : ℕ → F
    z j = p.rho ⊗ avg j ⊖ y j ⊖ (if j == p.id then p.c_i else fl.lit 0 1)

    abbrev k_r : ℕ → F
    k_r j = if j == p.id then fl.lit 0 1 else k j

    abbrev n : F
    n = plus (k 0 ⊗ k 0 ⊗ weight 0) (k 1 ⊗ k 1 ⊗ weight 1)

    abbrev g : F
    g = (p.rho ⊕ p.q_i) ⊘ (n ⊗ (p.rho ⊕ p.q_i) ⊖ k p.id ⊗ k p.id)

    abbrev norm : F
    norm = plus (k_r 0 ⊗ k_r 0) (k_r 1 ⊗ k_r 1)

    abbrev scaled : F → F → F
    scaled a b = fl.lit 0 1 ⊕ a ⊗ b

    -- The components of the unconstrained solution.
    abbrev free : ℕ → F
    free j = weight j ⊗ z j

    abbrev linear : ℕ → F
    linear j =
        free j
        ⊖ scaled (k j ⊗ weight j) ((p.o ⊖ p.l ⊕ k 0 ⊗ z 0 ⊗ weight 0 ⊕ k 1 ⊗ z 1 ⊗ weight 1) ⊘ n)

    abbrev fixed : F → ℕ → F
    fixed x j = if j == p.id then x else free j

    abbrev shift : ℕ → F
    shift j = scaled (k j) (plus (z 0 ⊗ k_r 0) (z 1 ⊗ k_r 1) ⊘ p.rho)

    abbrev linear_low : ℕ → F
    linear_low j =
        free j
        ⊕ scaled
            (if j == p.id then norm ⊗ z j ⊘ (p.rho ⊕ p.q_i) else scaled (k j) (p.l ⊖ p.o) ⊖ shift j)
            (g ⊘ p.rho)

    abbrev linear_high : ℕ → F
    linear_high j =
        free j
        ⊕ scaled
            (if j == p.id
              then max_dc ⊗ norm ⊖ norm ⊗ z j ⊘ (p.rho ⊕ p.q_i)
              else scaled (k j) (p.l ⊖ p.o) ⊖ scaled (k j) (max_dc ⊗ k p.id) ⊖ shift j)
            (g ⊘ p.rho)

    abbrev duties : (ℕ → F) → Bool → Duties F
    duties d checked = record { first = d 0; second = d 1; checked = checked }

    -- Unconstrained; on the linear boundary; with the own duty cycle at 0 and at 100; and on the
    -- linear boundary with it at 0 and at 100. The linear constraint is checked where the solution
    -- is not on its boundary.
    abbrev pub closed_forms : List (Duties F)
    closed_forms =
        duties free true
        ∷ duties linear false
        ∷ duties (fixed (fl.lit 0 1)) true
        ∷ duties (fixed max_dc) true
        ∷ duties linear_low false
        ∷ duties linear_high false
        ∷ []

    -- The solution of the iteration before at an infinite cost, or one that is allowed at its cost.
    pub data IsSolution (start : List F) : Best F → Type 0 where
      kept : IsSolution start (record { d_i_best = start; cost_best = fl.infinity })
      found :
          (before after : List (Duties F)) (d : Duties F)
          → closed_forms ≡ before ++ (d ∷ after)
          → is_allowed d ≡ true
          → IsSolution start
              (record { d_i_best = d.first ∷ d.second ∷ []; cost_best = price d.first d.second })

  abbrev pub candidate : Duties F → Candidate F
  candidate d = record { d_i = d.first ∷ d.second ∷ []; check_linear = d.checked }

  pub candidates-closed :
      (i : ℕ) (p : Problem F)
      → i < 2
      → let q = record p { id = i } in candidates q ≡ map candidate (closed_forms q)
  unfolding candidates
  candidates-closed zero p small = refl
  candidates-closed (suc zero) p small = refl
  candidates-closed (suc (suc i)) p small = absurd (omega arith)

  pub cost_function-price :
      (i : ℕ) (p : Problem F) (a b : F)
      → i < 2
      → let q = record p { id = i } in cost_function q (a ∷ b ∷ []) ≡ price q a b
  unfolding cost_function
  cost_function-price zero p a b small = refl
  cost_function-price (suc zero) p a b small = refl
  cost_function-price (suc (suc i)) p a b small = absurd (omega arith)

  pub check_constraints-allowed :
      (i : ℕ) (p : Problem F) (d : Duties F)
      → i < 2
      → let q = record p { id = i } in
        check_constraints q (candidate d).d_i d.checked ≡ is_allowed q d
  unfolding check_constraints
  check_constraints-allowed zero p d small = ground arith
  check_constraints-allowed (suc zero) p d small = ground arith
  check_constraints-allowed (suc (suc i)) p d small = absurd (omega arith)
