-- ===== src/Tests/ConsensusTests.antt =====
-- The consensus theorems at a concrete problem and exchange, on fixed-point numbers.
use scdtr.Prelude.{ℕ, ◌≡◌, ◌&&◌, refl, true, false, List, [], ◌∷◌, arith, All, replicate}
use scdtr.Float.Milli.{Milli, milli_float, Milli-IsFloat}
use scdtr.Board.Matrix.{at, sum}
use scdtr.Board.Consensus.{Problem, best_of, solve, dot}
use scdtr.Board.Consensus.Exchange.{Pair, Run, start_pair}
use scdtr.Board.Consensus.Exchange.Protocol.{received, complete-Run, exchange_twice}
use scdtr.Board.Consensus.Joint.{Solver, begin, solution, iterate, started, iterated}
use scdtr.Board.Consensus.Joint.Averages.{solution-length, joint_averages}
use scdtr.Board.Consensus.Joint.Together.{
  together, copies_zero, copies_one, joint_reaches, joint_solve,
}
use scdtr.Board.Consensus.Optimum.{IsDutyCycle, solve-IsDutyCycle}
use scdtr.Board.Consensus.Optimum.Closed.{IsSolution, is_allowed, price, closed_forms}
use scdtr.Board.Consensus.Optimum.Least.{best_of-optimum}

abbrev num : ℕ → Milli
num n = milli_float.lit n 1

abbrev junk : List ℕ
junk = replicate 32 1

abbrev problem : Problem Milli
problem = record {
  id = 1;
  k_i = num 1 ∷ num 2 ∷ [];
  l = num 60;
  o = num 10;
  d_i_avg = num 10 ∷ num 20 ∷ [];
  q_i = num 0;
  c_i = num 1;
  y_i = num 0 ∷ num 0 ∷ [];
  rho = num 1;
}

best_of-optimum_example :
    IsSolution problem (num 0 ∷ num 0 ∷ []) (best_of problem (num 0 ∷ num 0 ∷ []))
    × All
        (λ d.
          (is_allowed problem d
            && milli_float.lt
                (price problem d.first d.second)
                (best_of problem (num 0 ∷ num 0 ∷ [])).cost_best)
          ≡ false)
        (closed_forms problem)
best_of-optimum_example = best_of-optimum Milli-IsFloat problem (num 0 ∷ num 0 ∷ []) (omega arith)

solve-IsDutyCycle_example :
    let (reference, solution) =
      solve 1 (num 60) (num 1 ∷ num 2 ∷ []) (num 10) ((num 10 ∷ num 20 ∷ []) ∷ []) in
    IsDutyCycle (at solution 1) × (reference ≡ dot (num 1 ∷ num 2 ∷ []) solution)
solve-IsDutyCycle_example =
    solve-IsDutyCycle Milli-IsFloat 1 (num 60) (num 1 ∷ num 2 ∷ []) (num 10)
      ((num 10 ∷ num 20 ∷ []) ∷ []) (omega arith)

abbrev first : List Milli
first = num 10 ∷ num 20 ∷ []

abbrev second : List Milli
second = num 30 ∷ num 40 ∷ []

exchange_twice_example :
    (q : Pair Milli) × Run true junk first second start_pair q
    × (q.n0.sender ≡ 2)
    × (q.n1.sender ≡ 2)
    × (q.n1.d_copies ≡ sum (received first second first) first 2 1)
exchange_twice_example = exchange_twice first second Milli-IsFloat junk refl refl refl

-- Two nodes through one exchange.
abbrev gains : List Milli
gains = num 1 ∷ num 2 ∷ []

abbrev zero_start : Solver Milli
zero_start = begin 0 (num 60) gains (num 10)

abbrev one_start : Solver Milli
one_start = begin 1 (num 40) gains (num 5)

swap :
    (x y : Milli)
    → milli_float.add (milli_float.add (num 0) x) y ≡ milli_float.add (milli_float.add (num 0) y) x
swap x y = ground arith

joint_averages_example :
    (iterate zero_start
      (received (solution zero_start) (solution one_start) (solution one_start))).problem.d_i_avg
    ≡ (iterate one_start
        (received (solution zero_start) (solution one_start) (solution zero_start))).problem.d_i_avg
joint_averages_example =
    joint_averages Milli-IsFloat junk refl (num 60) (num 40) (num 10) (num 5) gains gains swap (
      iterated _ started
        (complete-Run (solution zero_start) (solution one_start) Milli-IsFloat junk refl
          (solution-length zero_start refl) (solution-length one_start refl))
        refl refl)

joint_solve_example :
    let (s, t) = together zero_start one_start 25 in
    (solve 0 (num 60) gains (num 10) (copies_zero zero_start one_start 25)
      ≡ (dot gains s.d_i_best, s.d_i_best))
    × (solve 1 (num 40) gains (num 5) (copies_one zero_start one_start 25)
        ≡ (dot gains t.d_i_best, t.d_i_best))
joint_solve_example =
    joint_solve Milli-IsFloat junk refl (num 60) (num 40) (num 10) (num 5) gains gains 25
      (together zero_start one_start 25).0 (together zero_start one_start 25).1
      (joint_reaches Milli-IsFloat junk refl (num 60) (num 40) (num 10) (num 5) gains gains 25)
