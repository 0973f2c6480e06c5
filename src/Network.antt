-- ===== src/Network.antt =====
-- Two nodes of multiple_board/main on one bus, between the rounds of their loops: what the master
-- does with a line of its serial port, and what its messages do to the other node.
pub mod Recalibrated
pub mod Solved
pub mod Views
pub mod Reported
use scdtr.Prelude.{ℕ, Option, none, some, List, [], ◌∷◌, map, ◌==◌, if◌then◌else◌}
use scdtr.Float.{Float}
use scdtr.Board.Communication.{Message}
use scdtr.Board.Main.{Node, Outcome, update_state, update_messages, send_status, receive}
use scdtr.Board.Main.Command.{process_command}
use scdtr.Board.Calibration.Execute.{Fit}

pub record Network (F : Type 0) : Type 0 where
  pub master : Node F
  pub other : Node F

module _ {F : Type 0} ⦃fl : Float F⦄ where
  -- A message reaches the node that it names, and what that node does with it is up to the handler
  -- that it has installed.
  abbrev pub deliver_one : Network F → Message → Option (Network F)
  deliver_one net m =
      if m.dest == 1
      then (elim (receive net.other m.packet) [
        | none ↦ none
        | some n ↦ some (record net { other = n })
      ])
      else some net

  pub deliver : Network F → List Message → Option (Network F)
  deliver net [] = some net
  deliver net (m ∷ ms) = elim (deliver_one net m) [ none ↦ none | some net' ↦ deliver net' ms ]

  unfoldable pub command : Network F → List ℕ → Option (Network F)
  unfolding deliver
  command net cmd_buffer = elim (process_command net.master.shared cmd_buffer) [
    | none ↦ none
    | some (s, messages) ↦
        deliver (record net { master = record (net.master) { shared = s } }) messages
  ]

  -- A round of the loop in both nodes.
  unfoldable pub round : Network F → Outcome F → Outcome F → Network F
  round net w w' = record { master = update_state net.master w; other = update_state net.other w' }

  -- What a calibration gives to a round.
  abbrev pub calibrated : Fit F → F → ℕ → Outcome F
  calibrated f solution now = record {
    k = f.k_i;
    o = f.o_i;
    solution = solution;
    completions = [];
    now = now;
  }

  -- The packets of the statuses that a node broadcasts while it solves, read at this clock.
  abbrev pub reported_solving : ℕ → Node F → Outcome F → List (ℕ × List ℕ)
  reported_solving clock n w = map (λ m. (clock, m.packet)) (update_messages n w)

  -- The packets of a node's status, as reads of the FIFO at a value of the server's clock.
  abbrev pub reported : ℕ → Node F → ℕ → List (ℕ × List ℕ)
  reported clock n now = map (λ m. (clock, m.packet)) (send_status n now).1
