-- ===== src/Board/Main.antt =====
-- main.ino of multiple_board: the node's variables, its state machine, the timer interrupt and the
-- command line of the master. What the blocking exchanges (calibration, consensus) measure or compute
-- enters as an argument.
pub mod Line
pub mod Completed
pub mod Command
pub mod Led
pub mod States
pub mod Missed
pub mod Interrupted
use scdtr.Prelude.{
  ℕ, zero, suc, ◌+◌, ◌-◌, ◌%◌, Bool, true, false, not, ◌&&◌, ◌||◌, Option, none, some, List, [],
  ◌∷◌, ◌++◌, ltb, leb, ◌==◌, if◌then◌else◌, get_or, set, replicate,
}
use scdtr.Float.{Float, ◌⊗◌, ◌⊘◌}
use scdtr.Board.{
  n_nodes, master, distributed_default, status_delay, buffer_size, ulong_mod, low_lux,
}
use scdtr.Board.Communication.{Shared, Message, send_info, on_receive}
use scdtr.Board.Pi.{Controller, construct, configure_features, update, update_feed_forward}

-- `CONTROL`, `CALIBRATION` and `CONSENSUS`.
pub data State : Type 0 where
  control calibration consensus : State

-- Which `onReceive` the I2C interrupt calls.
pub data Handler : Type 0 where
  communication calibrating solving : Handler

pub record Node (F : Type 0) : Type 0 where
  pub shared : Shared F
  pub open shared use *
  pub k_i : List F
  pub ext : F
  pub lux : F
  pub out : F
  pub controller : Controller F
  pub state : State
  pub handler : Handler
  pub start_millis : ℕ
  pub last_millis : ℕ

-- What the blocking exchanges of one round would give, and the clock. `completions` are the values
-- of `millis` at the calls of `onComplete` that `Consensus::solve` makes, one behind each of its
-- iterations.
pub record Outcome (F : Type 0) : Type 0 where
  pub k : List F
  pub o : F
  pub solution : F
  pub completions : List ℕ
  pub now : ℕ

module _ {F : Type 0} ⦃fl : Float F⦄ where
  -- The globals' initial values and `setup`; the id comes from the EEPROM.
  unfoldable pub setup : ℕ → ℕ → Node F
  setup id now = record {
    shared = record {
      dev_id = id;
      reset = false;
      changed = false;
      ref = low_lux;
      lower_bound = low_lux;
      occupancy = false;
      distributed = distributed_default;
    };
    k_i = replicate n_nodes (fl.lit 0 1);
    ext = fl.lit 0 1;
    lux = fl.lit 0 1;
    out = fl.lit 0 1;
    controller =
        configure_features (construct (fl.lit 2051 1000) (fl.lit 1507462 10000) (fl.lit 30 1000))
          true true true;
    state = control;
    handler = communication;
    start_millis = now;
    last_millis = 0;
  }

  -- `calibrate`, with the row of gains and the external illuminance that `Calibration::execute`
  -- leaves.
  unfoldable pub calibrate : Node F → List F → F → Node F
  calibrate n k o = record n {
    k_i = k;
    ext = o;
    controller =
        update_feed_forward n.controller
          (get_or k n.dev_id (fl.lit 0 1) ⊘ fl.lit 255 1 ⊗ fl.lit 100 1) o;
    handler = communication;
  }

  -- The packet that `sendInfo` broadcasts, if the period is over.
  unfoldable pub send_status : Node F → ℕ → Node F × List Message
  send_status n now =
      let current_millis = (now + ulong_mod - n.start_millis) % ulong_mod in
      if leb status_delay ((current_millis + ulong_mod - n.last_millis) % ulong_mod)
      then (
        record n { last_millis = current_millis },
        send_info n.dev_id ((n.dev_id + 1) % n_nodes) n.lux (n.out ⊘ fl.lit 255 1) n.lower_bound
              n.ext n.ref n.occupancy
            ∷ [],
      )
      else (n, [])

  -- The calls of `onComplete`, which is `sendInfo`, at these values of the clock: the node, and the
  -- statuses that it broadcasts.
  unfoldable pub complete : Node F → List ℕ → Node F × List Message
  unfolding send_status
  complete n [] = (n, [])
  complete n (now ∷ later) =
      let (n', messages) = send_status n now in
      let (done, rest) = complete n' later in (done, messages ++ rest)

  -- `doConsensus`, with the reference that `Consensus::solve` returns: what its calls of
  -- `onComplete` change is changed before the reference is stored.
  unfoldable pub do_consensus : Node F → Outcome F → Node F
  unfolding complete
  do_consensus n w =
      let n' = (complete n w.completions).0 in
      record n' { shared = record (n'.shared) { ref = w.solution }; handler = communication }

  on_change : Node F → Outcome F → Node F
  on_change n w =
      let n' = record n { shared = record (n.shared) { changed = false } } in
      record (if n.distributed then do_consensus (record n' { state = consensus }) w else n') {
        state = control;
      }

  unfoldable pub update_state : Node F → Outcome F → Node F
  unfolding on_change
  update_state n w =
      if n.reset
      then record n {
        shared = record (n.shared) {
          reset = false;
          ref = low_lux;
          lower_bound = low_lux;
          distributed = distributed_default;
        };
        state = calibration;
      }
      else (elim n.state [
        | control ↦ if n.changed then on_change n w else n
        | calibration ↦ record (calibrate n w.k w.o) { start_millis = w.now; state = control }
        | consensus ↦ n
      ])

  -- The statuses that a round broadcasts from within the consensus.
  unfoldable pub update_messages : Node F → Outcome F → List Message
  unfolding complete
  update_messages n w = if n.reset then [] else (elim n.state [
    | control ↦
        if n.changed && n.distributed
        then (complete
            (record n { shared = record (n.shared) { changed = false }; state = consensus })
            w.completions).1
        else []
    | calibration ↦ []
    | consensus ↦ []
  ])

  -- A packet at a node, by the handler that it has installed: what comes while it calibrates or
  -- solves goes to the exchange and leaves the node's variables as they are.
  unfoldable pub receive : Node F → List ℕ → Option (Node F)
  receive n packet = elim n.handler [
    | communication ↦ (elim (on_receive n.shared packet) [
      | none ↦ none
      | some s ↦ some (record n { shared = s })
    ])
    | calibrating ↦ some n
    | solving ↦ some n
  ]

  -- The value that `writeToLed` leaves in `out` and writes to the pin.
  unfoldable pub write_to_led : F → F
  write_to_led out =
      let out' = if fl.le (fl.lit 0 1) out then out else fl.lit 255 1 in
      if fl.le out' (fl.lit 255 1) then out' else fl.lit 0 1

  -- The timer interrupt, at a sampled illuminance.
  unfoldable pub timer_interrupt : Node F → F → Node F
  timer_interrupt n lux = elim n.state [
    | control ↦
        let (c, out) = update n.controller write_to_led lux n.ref in
        record n { lux = lux; controller = c; out = out }
    | calibration ↦ n
    | consensus ↦ n
  ]
