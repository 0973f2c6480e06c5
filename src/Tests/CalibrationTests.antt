-- ===== src/Tests/CalibrationTests.antt =====
-- A measurement at a concrete node, on fixed-point numbers.
use scdtr.Prelude.{
  length, ap, Bool, ◌≤◌, ◌*◌, ◌+◌, get_elem?, arith, ℕ, ◌≡◌, refl, true, false, some, List, [], ◌∷◌,
  ◌==◌, if◌then◌else◌, replicate,
}
use scdtr.Prelude.Int.{pos}
use scdtr.Float.Milli.{Milli, milli_float, Milli-IsFloat}
use scdtr.Board.Communication
use scdtr.Board.Communication.{Shared, send_packet, send_consensus, order_bound, res}
use scdtr.Board.Main.Missed.{order_missed}
use scdtr.Board.Consensus.Exchange
use scdtr.Board.Calibration.{Calibration, state_on, state_off, on_receive}
use scdtr.Board.Calibration.Measurement.{on_receive_repeated}
use scdtr.Board.Calibration.Execute.{fit, execute}
use scdtr.Board.Calibration.Interleaved.{
  Hall, finished, begin_hall, Run, stay, Changes, unmoved, changed, Fault, sends,
}
use scdtr.Board.Calibration.Interleaved.Complete.{interleaved_completes, interleaved_continues}
use scdtr.Board.Calibration.Interleaved.Packets.{syn_lem}
use scdtr.Board.Calibration.Interleaved.Fitted.{interleaved_fitted}
use scdtr.Board.Calibration.Execute.Tables.{fitted}

abbrev junk : List ℕ
junk = replicate 32 1

abbrev node : Calibration Milli
node = record {
  id = 1;
  ready = false;
  state = state_on;
  y_ext = pos 0;
  y = (pos 0 ∷ pos 0 ∷ []) ∷ (pos 0 ∷ pos 0 ∷ []) ∷ [];
  sample = 1;
  sender = 0;
  receiver = 0;
}

-- A sensor that sees its own lamp at half of its duty, and the other lamp at a quarter.
abbrev sense : ℕ → List Milli → Milli
sense id (a ∷ b ∷ []) =
    if id == 0
    then milli_float.add (milli_float.div a (pos 2000)) (milli_float.div b (pos 4000))
    else milli_float.add (milli_float.div a (pos 4000)) (milli_float.div b (pos 2000))
sense id _ = pos 0

abbrev duties : List Milli
duties = pos 0 ∷ pos 100000 ∷ pos 255000 ∷ []

abbrev empty_row : List Milli
empty_row = replicate 3 (pos 0)

-- An order that node 1 gets while it solves, or calibrates.
abbrev shared : Shared Milli
shared = record {
  dev_id = 1;
  reset = false;
  changed = false;
  ref = pos 33000;
  lower_bound = pos 33000;
  occupancy = false;
  distributed = true;
}

abbrev solver : Exchange.Exchange Milli
solver = Exchange.start 1

order_missed_example :
    (Exchange.on_receive solver junk (send_packet 0 1 res).packet ≡ some solver)
    × (Exchange.on_receive solver junk (send_consensus 0 1 true (pos 50000 ∷ pos 60000 ∷ [])).packet
        ≡ some solver)
    × (on_receive node junk (send_packet 0 1 res).packet (pos 5) ≡ some node)
    × (on_receive node junk (send_consensus 0 1 true (pos 50000 ∷ pos 60000 ∷ [])).packet (pos 5)
        ≡ some node)
    × (Communication.on_receive shared (send_packet 0 1 res).packet
        ≡ some (record shared { reset = true }))
    × (Communication.on_receive shared (send_consensus 0 1 true (pos 50000 ∷ pos 60000 ∷ [])).packet
        ≡ some (order_bound shared (pos 60000)))
order_missed_example =
    order_missed Milli-IsFloat junk refl solver node shared 1 res (pos 50000 ∷ pos 60000 ∷ [])
      (pos 5) (pos 60000) refl refl refl

on_receive_repeated_example :
    (c₁ : Calibration Milli) × (c₂ : Calibration Milli) × (c₃ : Calibration Milli) × (on_receive
        node junk
        (send_packet 0 1 0).packet
        (pos 7000)
      ≡ some c₁)
    × (on_receive c₁ junk (send_packet 0 1 0).packet (pos 8000) ≡ some c₂)
    × (on_receive c₂ junk (send_packet 0 1 0).packet (pos 9000) ≡ some c₃)
    × (get_elem? c₃.y 0 ≡ some (pos 0 ∷ pos 9000 ∷ []))
    × (c₃.state ≡ state_off)
on_receive_repeated_example =
    on_receive_repeated junk refl node 1 (pos 0 ∷ pos 0 ∷ []) (pos 7000) (pos 8000) (pos 9000)
      (λ e. omega (arith, e)) refl refl (omega arith)

-- A calibration of nodes that run on their own, from its start and to its end.
abbrev begun : Hall Milli
begun = begin_hall sense (empty_row ∷ empty_row ∷ []) (empty_row ∷ empty_row ∷ []) (pos 1)

-- The other node has heard the master's first packet.
abbrev heard : Hall Milli
heard = record begun {
  n1 = record (begun.n1) {
    cal = record (begun.n1.cal) { ready = true; y_ext = sense 1 begun.lamps };
  };
}

one_change : Changes sense junk duties begun 1 heard
one_change =
    changed unmoved
      (sends false _ refl refl refl (syn_lem junk refl begun.n1.cal 0 1 (sense 1 begun.lamps)))
      (λ e. ground (arith, ap {A = Hall Milli} {B = Bool} (λ h. h.n1.cal.ready) e))

interleaved_completes_example :
    (1 ≤ 16 * length duties + 11)
    × ¬ Fault sense junk duties heard
    × ((h : Hall Milli) × Run sense junk duties heard h
        × (h.n0.point ≡ finished)
        × (h.n1.point ≡ finished))
interleaved_completes_example =
    interleaved_completes sense junk duties refl empty_row empty_row empty_row empty_row (pos 1) 1
      heard refl refl refl refl one_change

abbrev full_run :
    (h : Hall Milli) × Run sense junk duties begun h
    × (h.n0.point ≡ finished)
    × (h.n1.point ≡ finished)
full_run =
    interleaved_continues sense junk duties refl empty_row empty_row empty_row empty_row (pos 1)
      begun refl refl refl refl stay

interleaved_fitted_example :
    let h = full_run.0 in
    (h.lamps ≡ pos 0 ∷ pos 0 ∷ [])
    × (execute sense junk duties (empty_row ∷ empty_row ∷ []) (empty_row ∷ empty_row ∷ []) (pos 1)
        ≡ some (fit sense junk duties h.n0.cal, fit sense junk duties h.n1.cal))
    × (fit sense junk duties h.n0.cal ≡ fitted sense 0 duties)
    × (fit sense junk duties h.n1.cal ≡ fitted sense 1 duties)
interleaved_fitted_example =
    interleaved_fitted sense junk duties refl empty_row empty_row empty_row empty_row (pos 1)
      full_run.0 refl refl refl refl full_run.1 full_run.2 full_run.3
