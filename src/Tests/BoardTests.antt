-- ===== src/Tests/BoardTests.antt =====
-- The firmware's theorems at concrete nodes, packets and lines, on fixed-point numbers.
use scdtr.Prelude.{
  ℕ, ◌≡◌, refl, true, false, some, List, [], ◌∷◌, ◌++◌, arith, length, drop, take, replicate,
}
use scdtr.Float.Milli.{Milli, milli_float, Milli-IsFloat}
use scdtr.Board.Communication.{
  Shared, Message, Received, send_consensus, read_packet, read_consensus, header_size, con,
}
use scdtr.Board.Communication.RoundTrip.{read_consensus-send_consensus}
use scdtr.Board.Pi.{
  Controller, construct, configure_features, update, apply_saturation, apply_deadzone,
  get_feedforward,
}
use scdtr.Board.Main.{Node, Outcome, setup, receive, update_state, timer_interrupt}
use scdtr.Board.Main.Led.{Reach, here, next, loop, IsDriven, Reach-IsDriven, timer_interrupt_exact}
use scdtr.Board.Main.Interrupted
use scdtr.Board.Main.Interrupted.{
  Loop, begin, with_shared, outside, cleared, test, clear, IsHeard, Reach-IsHeard,
}
use scdtr.Board.Communication.{order_bound}
use scdtr.Board.Communication.Orders.{on_receive-send_consensus}
use scdtr.Board.Main.Line.{read_line, IsLine, read_line-IsLine}
use scdtr.Text.{same_text, words, words_from, c_string, atoi}
use scdtr.Prelude.Int.{pos}
use scdtr.Board.Main.Command.{process_command, delimits, to_int16}
use scdtr.Board.Main.Command.Agreement.{ordered, process_command-order}

abbrev num : ℕ → Milli
num n = milli_float.lit n 1

abbrev node_one : Shared Milli
node_one = record {
  dev_id = 1;
  reset = false;
  changed = false;
  ref = num 30;
  lower_bound = num 30;
  occupancy = false;
  distributed = false;
}

abbrev node_zero : Shared Milli
node_zero = record node_one { dev_id = 0 }

abbrev junk : List ℕ
junk = replicate 32 1

abbrev shares : List Milli
shares = num 5 ∷ num 80 ∷ []

read_consensus-send_consensus_example :
    let sent = (send_consensus 1 0 false shares).packet in
    (r : Received) × (read_packet (length sent) sent junk ≡ some r)
    × (r.p_id ≡ 1)
    × (r.p_type ≡ con)
    × (read_consensus (drop header_size r.packet) ≡ some shares)
read_consensus-send_consensus_example =
    read_consensus-send_consensus Milli-IsFloat 1 0 false shares junk refl refl

abbrev led : Controller Milli
led = configure_features (construct (num 2) (num 150) (milli_float.lit 30 1000)) true true true

abbrev round : Outcome Milli
round = record { k = num 1 ∷ num 0 ∷ []; o = num 3; solution = num 42; completions = []; now = 70 }

abbrev started : Node Milli
started = setup 1 50

ran : Reach started (update_state started round)
ran = next here (loop round)

Reach-IsDriven_example : IsDriven (update_state started round)
Reach-IsDriven_example = Reach-IsDriven Milli-IsFloat 1 50 ran

timer_interrupt_exact_example :
    let n' = timer_interrupt started (num 20) in (n'.out ≡ n'.controller.u_sat) × (n'.lux ≡ num 20)
unfolding setup timer_interrupt update configure_features apply_saturation construct apply_deadzone
    get_feedforward
timer_interrupt_exact_example = timer_interrupt_exact Milli-IsFloat 1 50 (num 20) here refl refl

abbrev buffer : List ℕ
buffer = replicate 30 7

read_line-IsLine_example :
    IsLine
      (read_line
        (record { cmd_buffer = buffer; offset = 0 })
        ((b'A' ∷ []) ++ (13 ∷ 10 ∷ b'D' ∷ [])))
      (take 29 (b'A' ∷ []))
      (10 ∷ b'D' ∷ [])
read_line-IsLine_example =
    read_line-IsLine (record { cmd_buffer = buffer; offset = 0 }) (b'A' ∷ []) 13 (10 ∷ b'D' ∷ [])
      refl refl (refl, tt) refl (omega arith)

-- The line "l 1 9".
abbrev lower_line : List ℕ
lower_line = b'l' ∷ b' ' ∷ b'1' ∷ b' ' ∷ b'9' ∷ 0 ∷ []

lower_line-words :
    words delimits (c_string lower_line) ≡ (b'l' ∷ []) ∷ (b'1' ∷ []) ∷ (b'9' ∷ []) ∷ []
unfolding words words_from c_string
lower_line-words = refl

lower_line_index : to_int16 (atoi (b'1' ∷ [])) ≡ pos 1
unfolding atoi
lower_line_index = refl

-- Node 1 in its main loop.
abbrev other : Node Milli
other = record (setup 1 50) { shared = node_one }

process_command-order_example :
    (m : Message) × (process_command node_zero lower_line
      ≡ some (ordered node_zero 1 (num 9), m ∷ []))
    × (m.dest ≡ 1)
    × (receive other m.packet ≡ some (record other { shared = ordered other.shared 1 (num 9) }))
unfolding same_text setup
process_command-order_example =
    process_command-order Milli-IsFloat node_zero other lower_line (b'l' ∷ []) (b'1' ∷ [])
      (b'9' ∷ []) [] 1 (num 9) refl refl refl lower_line-words refl lower_line_index (omega arith)
      refl refl refl

-- An order comes to node 1, and the loop clears the mark.
abbrev before_order : Loop Milli
before_order = begin 1 50

abbrev after_order : Loop Milli
after_order = record {
  node = with_shared before_order.node (order_bound before_order.node.shared (num 80));
  place = outside;
  waiting = some (num 80);
}

abbrev mark_cleared : Loop Milli
mark_cleared = record {
  node = with_shared after_order.node (record (after_order.node.shared) { changed = false });
  place = cleared;
  waiting = some (num 80);
}

loop_cleared : Interrupted.Reach (begin 1 50) mark_cleared
unfolding setup
loop_cleared =
    Interrupted.next
      (Interrupted.next
        (Interrupted.next Interrupted.here (
          Interrupted.ordered 1 shares (num 80) _ refl refl refl (
            on_receive-send_consensus Milli-IsFloat before_order.node.shared 0 1 shares (num 80)
              (omega arith) refl)))
        (test refl refl refl refl))
      (clear refl)

Reach-IsHeard_example : IsHeard mark_cleared (num 80)
Reach-IsHeard_example = Reach-IsHeard Milli-IsFloat 1 50 (num 80) loop_cleared refl
