-- ===== src/Board/Calibration/Execute/Turns.antt =====
-- One turn of a node: its lamp goes on and off, and both keep what they measured while it was on.
use scdtr.Prelude.{
  ℕ, ◌-◌, ◌≡◌, ◌≢◌, ◌<◌, refl, true, false, some, List, set, get_elem?, length, arith, lt→ltb,
}
use scdtr.Float.{Float}
use scdtr.Board.Communication.{max_size}
use scdtr.Board.Calibration.{Calibration, state_on, state_off}
use scdtr.Board.Calibration.Execute.{exchange, at, turn}
use scdtr.Board.Calibration.Execute.Answers.{measured_dark, measured_lit, exchanged}

module _ {F : Type 0} ⦃fl : Float F⦄ (sense : ℕ → List F → F) (junk : List ℕ)
    (full : length junk ≡ max_size) where
  -- What a turn of node `i` leaves: in both nodes the place of the sample in the row of `i`.
  abbrev pub with_value : Calibration F → ℕ → ℕ → List F → F → Calibration F
  with_value c i sample row v = record (at sense junk c sample i) {
    y = set c.y i (set row sample v);
    ready = false;
  }

  pub turn_lem :
      (i sample : ℕ) (x : F) (s r : Calibration F) (lamps row row' : List F)
      → s.id ≡ i
      → r.id ≡ 1 - i
      → i < 2
      → r.state ≡ state_on
      → get_elem? s.y i ≡ some row
      → sample < length row
      → get_elem? r.y i ≡ some row'
      → sample < length row'
      → turn sense junk i sample x s r lamps
        ≡ some (
          with_value s i sample row (sense s.id (set lamps i x)),
          with_value r i sample row' (sense r.id (set lamps i x)),
          set (set lamps i x) i (fl.lit 0 1),
        )
  unfolding turn
  turn_lem i sample x s r lamps row row' s_id r_id small on known room known' room' =
      let v = sense s.id (set lamps i x) in
      let v' = sense r.id (set lamps i x) in
      let s₁ = record (at sense junk s sample i) { y = set s.y i (set row sample v) } in
      let r₁ = at sense junk r sample i in
      let r₂ = record r₁ { y = set r.y i (set row' sample v'); state = state_off; ready = true } in
      let s₃ = record s₁ { ready = false } in
      let r₃ = record r₂ { ready = false } in
      let w = sense r.id (set (set lamps i x) i (fl.lit 0 1)) in
      let other : r.id ≢ i = λ e. omega (arith, e, r_id, small) in
      let peer : r.id ≡ 1 - s.id = omega (arith, s_id, r_id) in
      let lit : exchange sense junk s₁ r₁ v' ≡ some (s₃, r₃) =
        exchanged sense junk full s₁ r₁ r₂ v' s_id refl peer
          (measured_lit sense junk full r₁ s₁.receiver v' row' other on known' room') refl in
      let dark : exchange sense junk s₃ r₃ w ≡ some (s₃, record r₃ { state = state_on }) =
        exchanged sense junk full s₃ r₃ (record r₃ { state = state_on; ready = true }) w s_id refl
          peer (measured_dark sense junk full r₃ s₃.receiver w other refl) refl in
      ground (arith, known, lt→ltb sample (length row) room, lit, dark)
