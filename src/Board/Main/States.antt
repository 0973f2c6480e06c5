-- ===== src/Board/Main/States.antt =====
-- The node's state machine over the rounds of the main loop.
use scdtr.Prelude.{ℕ, ◌≡◌, ◌≢◌, refl, true, false, not, arith, if◌then◌else◌}
use scdtr.Float.{Float}
use scdtr.Board.{low_lux, distributed_default}
use scdtr.Board.Main.{
  Node, Outcome, control, consensus, communication, setup, calibrate, update_state, send_status,
  timer_interrupt,
}
use scdtr.Board.Main.Completed.{do_consensus-kept, solving_node}
use scdtr.Board.Pi.{update_feed_forward}
use scdtr.Board.Main.Led.{Step, Reach, timer, packet, loop, status, here, next}

module _ {F : Type 0} ⦃fl : Float F⦄ where
  -- Between the rounds of the loop.
  pub record IsSettled (n : Node F) : Type 0 where
    pub not_solving : n.state ≢ consensus
    pub listening : n.handler ≡ communication

  Step-IsSettled : {n n' : Node F} → Step n n' → IsSettled n → IsSettled n'
  unfolding timer_interrupt update_state calibrate send_status
  Step-IsSettled (timer lux) v = ground arith
  Step-IsSettled (packet bytes s e) v = record {
    not_solving = v.not_solving;
    listening = v.listening;
  }
  Step-IsSettled {n} (loop w) v =
      let (t, kept) = do_consensus-kept (solving_node n) w in ground (arith, kept)
  Step-IsSettled (status now) v = ground arith

  -- Between the rounds of the loop a node is never in the consensus state, and its I2C handler is the
  -- one that takes orders: every exchange that installs another puts it back.
  pub Reach-IsSettled : (id now : ℕ) {n : Node F} → Reach (setup id now) n → IsSettled n
  unfolding setup
  Reach-IsSettled id now here = record { not_solving = λ e. cc; listening = refl }
  Reach-IsSettled id now (next r st) = Step-IsSettled st (Reach-IsSettled id now r)

  -- Two rounds of the loop after a reset, in whatever state it found the node: it is calibrated anew,
  -- back in the control state, distributed, with the low reference and bound, on a new clock.
  pub update_state_reset :
      (n : Node F) (w w' : Outcome F)
      → n.reset ≡ true
      → let n' = update_state (update_state n w) w' in
        (n'.state ≡ control)
        × (n'.reset ≡ false)
        × (n'.k_i ≡ w'.k)
        × (n'.ext ≡ w'.o)
        × (n'.controller.b_ff ≡ w'.o)
        × (n'.ref ≡ low_lux)
        × (n'.lower_bound ≡ low_lux)
        × (n'.distributed ≡ distributed_default)
        × (n'.start_millis ≡ w'.now)
        × (n'.changed ≡ n.changed)
  unfolding update_state calibrate update_feed_forward
  update_state_reset n w w' e = ground arith

  -- A change of the bounds, seen in the control state with no reset pending: it is taken once, the
  -- reference becomes the consensus solution exactly if control is distributed, and nothing else of
  -- the shared variables moves.
  pub update_state_changed :
      (n : Node F) (w : Outcome F)
      → n.reset ≡ false
      → n.state ≡ control
      → n.changed ≡ true
      → let n' = update_state n w in
        (n'.state ≡ control)
        × (n'.shared ≡ record (n.shared) {
          changed = false;
          ref = if n.distributed then w.solution else n.ref;
        })
        × (n'.controller ≡ n.controller)
        × (update_state n' w ≡ n')
  unfolding update_state
  update_state_changed n w quiet st e =
      let (t, kept) = do_consensus-kept (solving_node n) w in ground (arith, kept)

  -- Occupancy says whether the lower bound is above the low setting.
  abbrev pub IsConsistent : Node F → Type 0
  IsConsistent n = n.occupancy ≡ not (fl.le n.lower_bound low_lux)

  -- A reset puts the bound down and leaves the occupancy: an occupied desk is reported as occupied at
  -- the bound of an empty one.
  pub reset_inconsistent :
      (n : Node F) (w : Outcome F)
      → fl.le low_lux low_lux ≡ true
      → n.reset ≡ true
      → n.occupancy ≡ true
      → ¬ IsConsistent (update_state n w)
  unfolding update_state
  reset_inconsistent n w low e occupied h = ground arith
