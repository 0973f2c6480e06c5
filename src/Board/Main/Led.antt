-- ===== src/Board/Main/Led.antt =====
-- What reaches the LED: the wrap-around of `writeToLed` against the saturation of the controller.
use scdtr.Prelude.{ℕ, ◌≡◌, true, some, List, arith}
use scdtr.Float.{Float, IsFloat}
use scdtr.Board.Communication.{Shared, on_receive}
use scdtr.Board.Pi.{Controller, update, update_feed_forward}
use scdtr.Board.Pi.Saturation.{IsWithin, IsSaturated, update-IsSaturated, construct-IsSaturated}
use scdtr.Board.Main.Completed.{do_consensus-kept, solving_node}
use scdtr.Board.Main.{
  Node, Outcome, control, setup, calibrate, update_state, send_status, write_to_led,
  timer_interrupt,
}

module _ {F : Type 0} ⦃fl : Float F⦄ where
  -- One thing that happens to a node: the timer fires, a packet arrives, the main loop goes round, or
  -- the status goes out.
  pub data Step (n : Node F) : Node F → Type 0 where
    timer : (lux : F) → Step n (timer_interrupt n lux)
    packet :
        (bytes : List ℕ) (s : Shared F)
        → on_receive n.shared bytes ≡ some s
        → Step n (record n { shared = s })
    loop : (w : Outcome F) → Step n (update_state n w)
    status : (now : ℕ) → Step n (send_status n now).0

  pub data Reach (n : Node F) : Node F → Type 0 where
    here : Reach n n
    next : {m m' : Node F} → Reach n m → Step m m' → Reach n m'

  -- A value of the 8-bit output.
  pub record IsDuty (x : F) : Type 0 where
    pub at_least : fl.le (fl.lit 0 1) x ≡ true
    pub at_most : fl.le x (fl.lit 255 1) ≡ true

  pub record IsDriven (n : Node F) : Type 0 where
    pub saturated : IsSaturated n.controller
    pub sat_min : n.controller.sat_min ≡ fl.lit 0 1
    pub sat_max : n.controller.sat_max ≡ fl.lit 255 1
    pub duty : IsDuty n.out

  module _ (laws : IsFloat F) where
    write_to_led-IsDuty : (out : F) → IsDuty (write_to_led out)
    unfolding write_to_led
    write_to_led-IsDuty out = ground (
      arith,
      laws.lit_mono 0 255 (omega arith),
      laws.lit_mono 255 255 (omega arith),
      laws.lit_mono 0 0 (omega arith),
    )

    -- Within the bounds of the controller `writeToLed` changes nothing, but for NaN.
    write_to_led-within :
        (c : Controller F) (x : F)
        → c.sat_min ≡ fl.lit 0 1
        → c.sat_max ≡ fl.lit 255 1
        → IsWithin c x
        → fl.eq x x ≡ true
        → write_to_led x ≡ x
    unfolding write_to_led
    write_to_led-within c x lo hi v number = ground (
      arith,
      v.not_above,
      v.not_below,
      laws.le-not-lt (fl.lit 0 1) x (laws.eq_refl_lit 0 1 (omega arith)) number,
      laws.le-not-lt x (fl.lit 255 1) number (laws.eq_refl_lit 255 1 (omega arith)),
    )

    timer_interrupt-IsDriven :
        (n : Node F) (lux : F) → IsDriven n → IsDriven (timer_interrupt n lux)
    unfolding timer_interrupt
    timer_interrupt-IsDriven n lux v =
        let updated = update-IsSaturated laws n.controller write_to_led lux n.ref v.saturated in
        let c = (update n.controller write_to_led lux n.ref).0 in
        ground (arith, updated, write_to_led-IsDuty c.u_sat)

    loop-IsDriven : (n : Node F) (w : Outcome F) → IsDriven n → IsDriven (update_state n w)
    unfolding update_state calibrate update_feed_forward
    loop-IsDriven n w v =
        let (t, kept) = do_consensus-kept (solving_node n) w in ground (arith, kept)

    send_status-IsDriven : (n : Node F) (now : ℕ) → IsDriven n → IsDriven (send_status n now).0
    unfolding send_status
    send_status-IsDriven n now v = ground arith

    Step-IsDriven : {n n' : Node F} → Step n n' → IsDriven n → IsDriven n'
    Step-IsDriven {n} (timer lux) v = timer_interrupt-IsDriven n lux v
    Step-IsDriven (packet bytes s e) v = record {
      saturated = v.saturated;
      sat_min = v.sat_min;
      sat_max = v.sat_max;
      duty = v.duty;
    }
    Step-IsDriven {n} (loop w) v = loop-IsDriven n w v
    Step-IsDriven {n} (status now) v = send_status-IsDriven n now v

    setup-IsDriven : (id now : ℕ) → IsDriven (setup id now)
    unfolding setup
    setup-IsDriven id now =
        let (saturated, lo, hi) = construct-IsSaturated laws _ _ _ in
        record {
          saturated = saturated;
          sat_min = lo;
          sat_max = hi;
          duty = record {
            at_least = laws.lit_mono 0 0 (omega arith);
            at_most = laws.lit_mono 0 255 (omega arith);
          };
        }

    -- Whatever happens to a node after its setup, in whatever order, its output is between 0 and 255,
    -- and its controller keeps anti-windup on, with these bounds.
    pub Reach-IsDriven : (id now : ℕ) {n : Node F} → Reach (setup id now) n → IsDriven n
    Reach-IsDriven id now here = setup-IsDriven id now
    Reach-IsDriven id now (next r st) = Step-IsDriven st (Reach-IsDriven id now r)

    -- When the timer fires in the control state of such a node, the LED gets the controller's
    -- saturated output itself, unless that is NaN: the wrap-around of `writeToLed`, to 255 below 0
    -- and to 0 above 255, is not reached.
    pub timer_interrupt_exact :
        (id now : ℕ) (lux : F) {n : Node F}
        → Reach (setup id now) n
        → n.state ≡ control
        → (let sat = (timer_interrupt n lux).controller.u_sat in fl.eq sat sat ≡ true)
        → let n' = timer_interrupt n lux in (n'.out ≡ n'.controller.u_sat) × (n'.lux ≡ lux)
    unfolding timer_interrupt
    timer_interrupt_exact id now lux {n} r e number =
        let v = Reach-IsDriven id now r in
        let updated = update-IsSaturated laws n.controller write_to_led lux n.ref v.saturated in
        let c = (update n.controller write_to_led lux n.ref).0 in
        let number' : fl.eq c.u_sat c.u_sat ≡ true = ground (arith, e, number) in
        let same = write_to_led-within n.controller c.u_sat v.sat_min v.sat_max updated.1 number' in
        ground (arith, e, updated.2, same)
