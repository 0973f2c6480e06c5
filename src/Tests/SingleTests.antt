-- ===== src/Tests/SingleTests.antt =====
-- The single board on fixed-point numbers.
use scdtr.Prelude.{ℕ, ◌≡◌, refl, true, false, some, List, [], ◌∷◌, ◌++◌}
use scdtr.Prelude.Int.{pos}
use scdtr.Float.Milli.{Milli, milli_float, Milli-IsFloat}
use scdtr.Text.{words, words_from, same_text, c_string}
use scdtr.Board.Main.Line.{read_line}
use scdtr.Single.Pi.{Controller, construct, with_anti_windup, update}
use scdtr.Single.Pi.Twin.{Event, sampled, configured, twin, outputs, outputs_twin, outputs-twin}
use scdtr.Single.Main.{
  Node, off_word, anti_windup_word, setup, process_command, process_tokens, loop, write_to_led,
  timer_interrupt,
}
use scdtr.Single.Main.Bounds.{here, next, timer, round, IsSafe, Reach-IsSafe}

abbrev controller : Controller Milli
controller = construct (pos 2051) (pos 136746) (pos 30)

abbrev events : List (Event Milli)
events =
    sampled (pos 10000) (pos 33333)
    ∷ configured true true true
    ∷ sampled (pos 20000) (pos 33333)
    ∷ []

outputs-twin_example :
    outputs write_to_led controller events
    ≡ outputs_twin write_to_led (twin controller (pos 0)) events
outputs-twin_example = outputs-twin write_to_led controller (pos 0) events

-- "anti_windup off".
abbrev typed : List ℕ
typed = anti_windup_word ++ b' ' ∷ off_word

abbrev commanded : Node Milli
commanded = record (setup {F = Milli}) {
  line = record { cmd_buffer = typed ++ 0 ∷ []; offset = 0 };
}

-- The command switches the feature off.
switched_off :
    process_command commanded
    ≡ some (record commanded { controller = with_anti_windup commanded.controller false }, [])
unfolding process_command process_tokens same_text words words_from c_string
switched_off = refl

-- The timer fires, and the loop reads the command.
abbrev first : Node Milli
first = timer_interrupt setup 300

abbrev second : Node Milli
second =
    (let r = read_line first.line (typed ++ 13 ∷ 10 ∷ []) in
      record first {
        line = r.line;
        controller = with_anti_windup first.controller false;
        current_millis = 50;
      })

loop-second : loop first (typed ++ 13 ∷ 10 ∷ []) 50 ≡ some (second, 10 ∷ [], [])
unfolding loop read_line process_command process_tokens same_text words words_from c_string
    timer_interrupt update setup
loop-second = refl

Reach-IsSafe_example : IsSafe second
Reach-IsSafe_example =
    Reach-IsSafe Milli-IsFloat
      (next (next here (timer 300)) (round (typed ++ 13 ∷ 10 ∷ []) 50 (10 ∷ []) [] loop-second))
