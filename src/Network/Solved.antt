-- ===== src/Network/Solved.antt =====
-- A change of the bounds in both nodes: the round in which they solve together.
use scdtr.Prelude.{ℕ, ◌≡◌, ◌<◌, true, false, List, arith, length}
use scdtr.Float.{Float, IsFloat}
use scdtr.Board.Communication.{max_size}
use scdtr.Board.Main.{Node, Outcome, control, communication, update_state}
use scdtr.Board.Main.Completed.{do_consensus-kept, solving_node}
use scdtr.Board.Matrix.{at}
use scdtr.Board.Consensus.{iterations, dot, solve}
use scdtr.Board.Consensus.Optimum.{IsDutyCycle, solve-IsDutyCycle}
use scdtr.Board.Consensus.Joint.{Solver, begin, Joint}
use scdtr.Board.Consensus.Joint.Together.{copies_zero, copies_one, joint_solve}
use scdtr.Network.{Network, round}

module _ {F : Type 0} ⦃fl : Float F⦄ where
  -- A node at the start of `solve`, with its own bound, gains and external illuminance.
  abbrev pub solver : ℕ → Node F → Solver F
  solver id n = begin id n.lower_bound n.k_i n.ext

  -- What the solution of a node gives to a round.
  abbrev pub solved : Node F → Solver F → Outcome F → Outcome F
  solved n s w = record w { solution = dot n.k_i s.d_i_best }

  -- A node that has a change to react to, with distributed control.
  pub record IsChanged (n : Node F) : Type 0 where
    pub controlling : n.state ≡ control
    pub quiet : n.reset ≡ false
    pub marked : n.changed ≡ true
    pub mode : n.distributed ≡ true

  -- A node `n'` that has solved with the settings of `n` and these copies.
  pub record IsSolved (id : ℕ) (copies : List (List F)) (n n' : Node F) : Type 0 where
    pub controlling : n'.state ≡ control
    pub listening : n'.handler ≡ communication
    pub reference : n'.ref ≡ (solve id n.lower_bound n.k_i n.ext copies).0
    pub duty : IsDutyCycle (at (solve id n.lower_bound n.k_i n.ext copies).1 id)
    pub rest : n'.shared ≡ record (n.shared) { changed = false; ref = n'.ref }
    pub controller_kept : n'.controller ≡ n.controller
    pub start_kept : n'.start_millis ≡ n.start_millis

  update_state-IsSolved :
      (laws : IsFloat F) (id : ℕ) (copies : List (List F)) (n : Node F) (s : Solver F)
      (w : Outcome F)
      → id < 2
      → IsChanged n
      → solve id n.lower_bound n.k_i n.ext copies ≡ (dot n.k_i s.d_i_best, s.d_i_best)
      → IsSolved id copies n (update_state n (solved n s w))
  unfolding update_state
  update_state-IsSolved laws id copies n s w small v e =
      let (t, kept) = do_consensus-kept (solving_node n) (solved n s w) in
      let duty = (solve-IsDutyCycle laws id n.lower_bound n.k_i n.ext copies small).0 in
      ground (arith, v, e, duty, kept)

  -- A round of two nodes that have a change to react to, with control in the hands of both, in
  -- which they solve together in 25 iterations, in whatever order the packets come, as long as no
  -- node sends again while an answer is on its way: behind it each node controls to the reference
  -- that `solve` gives it from its own bound, gains and external illuminance, if every copy that it
  -- has is the solution of the other node in that iteration; its own duty cycle in that solution is
  -- between 0 and 100; and of the shared variables only the reference and the mark have changed.
  pub both_solve :
      (laws : IsFloat F) (junk : List ℕ) (net : Network F) (s t : Solver F) (w0 w1 : Outcome F)
      → length junk ≡ max_size
      → IsChanged net.master
      → IsChanged net.other
      → Joint junk (solver 0 net.master) (solver 1 net.other) iterations s t
      → let a = solver 0 net.master in
        let b = solver 1 net.other in
        let net' = round net (solved net.master s w0) (solved net.other t w1) in
        IsSolved 0 (copies_zero a b iterations) net.master net'.master
        × IsSolved 1 (copies_one a b iterations) net.other net'.other
  unfolding round
  both_solve laws junk net s t w0 w1 full v0 v1 j =
      let m = net.master in
      let o = net.other in
      let (e, e') =
        joint_solve laws junk full m.lower_bound o.lower_bound m.ext o.ext m.k_i o.k_i iterations s
          t j in
      (
        update_state-IsSolved laws 0 _ m s w0 (omega arith) v0 e,
        update_state-IsSolved laws 1 _ o t w1 (omega arith) v1 e',
      )
