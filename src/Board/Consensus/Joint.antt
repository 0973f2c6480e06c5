-- ===== src/Board/Consensus/Joint.antt =====
-- `solve` of consensus.cpp in both nodes at once, with `getCopies` in each iteration as a run of the
-- exchange.
pub mod Averages
pub mod Together
use scdtr.Prelude.{ℕ, zero, suc, ◌≡◌, false, List, [], ◌∷◌, replicate}
use scdtr.Float.{Float}
use scdtr.Board.{n_nodes}
use scdtr.Board.Consensus.{
  Problem, rho_value, dot, best_of, next_average, next_multipliers, solve_from,
}
use scdtr.Board.Consensus.Exchange.{Pair, Run, start_pair}

-- A node between two iterations.
pub record Solver (F : Type 0) : Type 0 where
  pub problem : Problem F
  pub d_i_best : List F

module _ {F : Type 0} ⦃fl : Float F⦄ where
  -- A node at the start of `solve`.
  abbrev pub begin : ℕ → F → List F → F → Solver F
  begin id l k_i o = record {
    problem = record {
      id = id;
      k_i = k_i;
      l = l;
      o = o;
      d_i_avg = replicate n_nodes (fl.lit 0 1);
      q_i = fl.lit 0 1;
      c_i = fl.lit 1 1;
      y_i = replicate n_nodes (fl.lit 0 1);
      rho = rho_value;
    };
    d_i_best = replicate n_nodes (fl.lit 0 1);
  }

  -- What a node sends in an iteration.
  abbrev pub solution : Solver F → List F
  solution s = (best_of s.problem s.d_i_best).d_i_best

  -- The rest of an iteration, with the copies that have come.
  abbrev pub iterate : Solver F → List F → Solver F
  iterate s d_copies =
      let d_i_avg = next_average d_copies (solution s) in
      record {
        problem = record (s.problem) {
          y_i = next_multipliers s.problem (solution s) d_i_avg;
          d_i_avg = d_i_avg;
        };
        d_i_best = solution s;
      }

  -- Both nodes after some iterations, from two starts: each iteration runs the exchange until both
  -- nodes have been through all senders.
  pub data Joint (junk : List ℕ) (a b : Solver F) : ℕ → Solver F → Solver F → Type 0 where
    started : Joint junk a b zero a b
    iterated :
        {n : ℕ} {s t : Solver F} (q : Pair F)
        → Joint junk a b n s t
        → Run false junk (solution s) (solution t) start_pair q
        → q.n0.sender ≡ 2
        → q.n1.sender ≡ 2
        → Joint junk a b (suc n) (iterate s q.n0.d_copies) (iterate t q.n1.d_copies)
