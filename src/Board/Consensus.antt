-- ===== src/Board/Consensus.antt =====
-- consensus.cpp: the optimisation that a node runs in a round of distributed control. The copies that
-- the other node sends in an iteration enter as an argument; Exchange has their exchange.
pub mod Optimum
pub mod Exchange
pub mod Joint
use scdtr.Prelude.{
  ℕ, zero, suc, ◌+◌, ◌*◌, Bool, true, false, not, ◌&&◌, ◌||◌, List, [], ◌∷◌, if◌then◌else◌, ◌==◌,
  get_or, set, tabulate, replicate,
}
use scdtr.Float.{Float, ◌⊕◌, ◌⊖◌, ◌⊗◌, ◌⊘◌}
use scdtr.Board.{n_nodes, max_dc}
use scdtr.Board.Matrix.{at, sum, sub, mul, elem_mul, copy}

-- `ITERATIONS`.
abbrev pub iterations : ℕ
iterations = 25

-- What an iteration keeps fixed: the node, its gains, its bounds and its costs, and the average and
-- the multipliers that it starts from.
pub record Problem (F : Type 0) : Type 0 where
  pub id : ℕ
  pub k_i : List F
  pub l : F
  pub o : F
  pub d_i_avg : List F
  pub q_i : F
  pub c_i : F
  pub y_i : List F
  pub rho : F

pub record Best (F : Type 0) : Type 0 where
  pub d_i_best : List F
  pub cost_best : F

-- A candidate, and whether the linear constraint is checked for it.
pub record Candidate (F : Type 0) : Type 0 where
  pub d_i : List F
  pub check_linear : Bool

module _ {F : Type 0} ⦃fl : Float F⦄ where
  abbrev pub rho_value : F
  rho_value = fl.lit 1 100

  -- The product of two vectors.
  abbrev pub dot : List F → List F → F
  dot a b = at (mul a b 1 n_nodes 1) 0

  -- A vector by a scalar: `mul` with the scalar as a 1 × 1 matrix.
  abbrev pub scale : List F → F → List F
  scale a x = mul a (x ∷ []) n_nodes 1 1

  unfoldable pub cost_function : Problem F → List F → F
  cost_function p d_i =
      let a = p.q_i ⊘ fl.lit 2 1 ⊗ dot d_i d_i in
      let b = at d_i p.id ⊗ p.c_i in
      let c = dot d_i p.y_i in
      let d = dot p.d_i_avg p.y_i in
      let difference = sub d_i p.d_i_avg n_nodes 1 in
      let e = p.rho ⊘ fl.lit 2 1 ⊗ dot difference difference in a ⊕ b ⊕ c ⊖ d ⊕ e

  unfoldable pub check_constraints : Problem F → List F → Bool → Bool
  check_constraints p d_i check_linear =
      if fl.lt max_dc (at d_i p.id) || fl.lt (at d_i p.id) (fl.lit 0 1)
      then false
      else if check_linear && fl.lt (dot p.k_i d_i) (p.l ⊖ p.o)
      then false
      else true

  unfoldable pub update_best : Problem F → Best F → Candidate F → Best F
  update_best p best c =
      if check_constraints p c.d_i c.check_linear
      then (if fl.lt (cost_function p c.d_i) best.cost_best
          then record { d_i_best = copy c.d_i n_nodes 1; cost_best = cost_function p c.d_i }
          else best)
      else best

  -- The values that `solve` computes before its loop.
  abbrev r_i : Problem F → List F
  r_i p = tabulate n_nodes (λ j. if j == p.id then p.rho ⊕ p.q_i else p.rho)

  abbrev p_i : Problem F → List F
  p_i p = tabulate n_nodes (λ j. fl.lit 1 1 ⊘ at (r_i p) j)

  abbrev k_i_r : Problem F → List F
  k_i_r p = tabulate n_nodes (λ j. if j == p.id then fl.lit 0 1 else at p.k_i j)

  -- A sum of `f j` over the nodes from `j` on, on top of `acc`.
  abbrev sum_from : ℕ → ℕ → F → (ℕ → F) → F
  sum_from zero j acc f = acc
  sum_from (suc left) j acc f = sum_from left (j + 1) (acc ⊕ f j) f

  abbrev n_i : Problem F → F
  n_i p = sum_from n_nodes 0 (fl.lit 0 1) (λ j. (at p.k_i j ⊗ at p.k_i j) ⊗ at (p_i p) j)

  abbrev g_i : Problem F → F
  g_i p = (p.rho ⊕ p.q_i) ⊘ (n_i p ⊗ (p.rho ⊕ p.q_i) ⊖ at p.k_i p.id ⊗ at p.k_i p.id)

  abbrev k_r_squared : Problem F → F
  k_r_squared p = sum_from n_nodes 0 (fl.lit 0 1) (λ j. at (k_i_r p) j ⊗ at (k_i_r p) j)

  abbrev z_i : Problem F → List F
  z_i p =
      tabulate n_nodes
        (λ j. p.rho ⊗ at p.d_i_avg j ⊖ at p.y_i j ⊖ (if j == p.id then p.c_i else fl.lit 0 1))

  -- Unconstrained.
  abbrev d_0 : Problem F → List F
  d_0 p = elem_mul (p_i p) (z_i p) n_nodes 1

  -- On the linear boundary.
  abbrev d_1 : Problem F → List F
  d_1 p =
      let aux_1 =
        sum_from n_nodes 0 (p.o ⊖ p.l) (λ j. at p.k_i j ⊗ at (z_i p) j ⊗ at (p_i p) j) ⊘ n_i p in
      sub (d_0 p) (scale (elem_mul p.k_i (p_i p) n_nodes 1) aux_1) n_nodes 1

  -- On the boundaries at 0 and at 100 %.
  abbrev d_at : Problem F → F → List F
  d_at p x = tabulate n_nodes (λ j. if j == p.id then x else at (d_0 p) j)

  abbrev aux_m_1 : Problem F → List F
  aux_m_1 p = scale p.k_i (dot (z_i p) (k_i_r p) ⊘ p.rho)

  -- On the linear boundary and at 0.
  abbrev d_4 : Problem F → List F
  d_4 p =
      let aux =
        set (sub (scale p.k_i (p.l ⊖ p.o)) (aux_m_1 p) n_nodes 1) p.id
          ((k_r_squared p ⊗ at (z_i p) p.id) ⊘ (p.rho ⊕ p.q_i)) in
      sum (d_0 p) (scale aux (g_i p ⊘ p.rho)) n_nodes 1

  -- On the linear boundary and at 100 %.
  abbrev d_5 : Problem F → List F
  d_5 p =
      let aux_m_2 = scale p.k_i (max_dc ⊗ at p.k_i p.id) in
      let aux =
        set (sub (sub (scale p.k_i (p.l ⊖ p.o)) aux_m_2 n_nodes 1) (aux_m_1 p) n_nodes 1) p.id
          (max_dc ⊗ k_r_squared p ⊖ k_r_squared p ⊗ at (z_i p) p.id ⊘ (p.rho ⊕ p.q_i)) in
      sum (d_0 p) (scale aux (g_i p ⊘ p.rho)) n_nodes 1

  unfoldable pub candidates : Problem F → List (Candidate F)
  candidates p =
      record { d_i = d_0 p; check_linear = true }
      ∷ record { d_i = d_1 p; check_linear = false }
      ∷ record { d_i = d_at p (fl.lit 0 1); check_linear = true }
      ∷ record { d_i = d_at p max_dc; check_linear = true }
      ∷ record { d_i = d_4 p; check_linear = false }
      ∷ record { d_i = d_5 p; check_linear = false }
      ∷ []

  pub update_all : Problem F → Best F → List (Candidate F) → Best F
  update_all p best [] = best
  update_all p best (c ∷ cs) = update_all p (update_best p best c) cs

  -- The six updates of an iteration, from the best solution of the one before.
  unfoldable pub best_of : Problem F → List F → Best F
  unfolding update_all
  best_of p d_i_best =
      update_all p (record { d_i_best = d_i_best; cost_best = fl.infinity }) (candidates p)

  -- The averages and the multipliers after an iteration, with the copies received.
  unfoldable pub next_average : List F → List F → List F
  next_average d_copies d_i_best =
      tabulate n_nodes (λ j. (at d_copies j ⊕ at d_i_best j) ⊘ fl.lit n_nodes 1)

  unfoldable pub next_multipliers : Problem F → List F → List F → List F
  next_multipliers p d_i_best d_i_avg =
      sum p.y_i (scale (sub d_i_best d_i_avg n_nodes 1) p.rho) n_nodes 1

  -- The loop of `solve`, over the copies that each iteration receives.
  pub solve_from : Problem F → List F → List (List F) → List F
  solve_from p d_i_best [] = d_i_best
  solve_from p d_i_best (d_copies ∷ later) =
      let best = (best_of p d_i_best).d_i_best in
      let d_i_avg = next_average d_copies best in
      solve_from (record p { y_i = next_multipliers p best d_i_avg; d_i_avg = d_i_avg }) best later

  -- `solve`, with the constants of the cost: the new reference, and the solution it comes from.
  -- The call of `onComplete` behind each iteration is `sendInfo`, which reads and writes none of these
  -- variables: `do_consensus` of Main makes the calls.
  unfoldable pub solve : ℕ → F → List F → F → List (List F) → F × List F
  unfolding solve_from
  solve id l k_i o copies =
      let zeros = replicate n_nodes (fl.lit 0 1) in
      let d_i_best =
        solve_from
          (record {
            id = id;
            k_i = k_i;
            l = l;
            o = o;
            d_i_avg = zeros;
            q_i = fl.lit 0 1;
            c_i = fl.lit 1 1;
            y_i = zeros;
            rho = rho_value;
          })
          zeros copies in
      (dot k_i d_i_best, d_i_best)
