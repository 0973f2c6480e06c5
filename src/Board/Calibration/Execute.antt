-- ===== src/Board/Calibration/Execute.antt =====
-- `execute` of calibration.cpp, run by two nodes at once: the lamps go on and off in turn while
-- both measure. A loop that waits for the other node is over when the packet that it waits for has
-- come; an exchange in which that packet does not come has no result. Both nodes are taken to have
-- started, and each answers within the delay of the loop of the sender, so a packet is not
-- repeated.
pub mod Answers
pub mod Rows
pub mod Turns
pub mod Tables
use scdtr.Prelude.{
  ℕ, ◌+◌, ◌-◌, Bool, true, false, Option, none, some, List, [], ◌∷◌, if◌then◌else◌, set, map,
}
use scdtr.Float.{Float}
use scdtr.Board.Communication.{syn, ack, send_packet}
use scdtr.Board.Calibration.{Calibration, state_ext, state_on, set_at, on_receive, gains}

-- The two nodes, and the duty of their lamps.
pub record Bench (F : Type 0) : Type 0 where
  pub n0 : Calibration F
  pub n1 : Calibration F
  pub lamps : List F

-- What a node leaves in `k_i` and `o_i`.
pub record Fit (F : Type 0) : Type 0 where
  pub k_i : List F
  pub o_i : F

-- `sense id lamps` is what `getLDRValue` returns in node `id`; `junk` is what the packet arrays hold.
module _ {F : Type 0} ⦃fl : Float F⦄ (sense : ℕ → List F → F) (junk : List ℕ) where
  -- A sender waits until it is ready, and the other node, which answers, is ready for the packet.
  unfoldable pub exchange :
      Calibration F → Calibration F → F → Option (Calibration F × Calibration F)
  exchange s r value = elim (on_receive r junk (send_packet s.id s.receiver syn).packet value) [
    | none ↦ none
    | some r' ↦
        if r'.ready
        then (elim (on_receive s junk (send_packet r.id r.sender ack).packet value) [
          | none ↦ none
          | some s' ↦
              if s'.ready
              then some (record s' { ready = false }, record r' { ready = false })
              else none
        ])
        else none
  ]

  -- A node at a sample and a sender.
  abbrev pub at : Calibration F → ℕ → ℕ → Calibration F
  at c sample sender = record c { sample = sample; sender = sender; receiver = 1 - c.id }

  -- The second exchange of a turn, with the lamp off.
  abbrev pub darken :
      ℕ → Calibration F → Calibration F → List F → Option (Calibration F × Calibration F × List F)
  darken i s r lamps = elim (exchange s r (sense r.id (set lamps i (fl.lit 0 1)))) [
    | none ↦ none
    | some (s', r') ↦ some (s', r', set lamps i (fl.lit 0 1))
  ]

  -- The turn of node `i` at a sample: `s` is that node, and `r` the other one.
  unfoldable pub turn :
      ℕ
      → ℕ
      → F
      → Calibration F
      → Calibration F
      → List F
      → Option (Calibration F × Calibration F × List F)
  turn i sample x s r lamps = elim (set_at s.y i sample (sense s.id (set lamps i x))) [
    | none ↦ none
    | some y ↦
        elim (exchange (record (at s sample i) { y = y }) (at r sample i)
          (sense r.id (set lamps i x))) [
            | none ↦ none
            | some (s', r') ↦ darken i s' r' (set lamps i x)
          ]
  ]

  -- Both turns at a sample.
  unfoldable pub sample_turns : ℕ → F → Bench F → Option (Bench F)
  sample_turns sample x b = elim (turn 0 sample x b.n0 b.n1 b.lamps) [
    | none ↦ none
    | some (n0, n1, lamps) ↦ elim (turn 1 sample x n1 n0 lamps) [
      | none ↦ none
      | some (n1', n0', lamps') ↦ some (record { n0 = n0'; n1 = n1'; lamps = lamps' })
    ]
  ]

  -- The loop over the samples, from number `sample` on.
  unfoldable pub samples_from : List F → ℕ → Bench F → Option (Bench F)
  samples_from [] sample b = some b
  samples_from (x ∷ xs) sample b = elim (sample_turns sample x b) [
    | none ↦ none
    | some b' ↦ samples_from xs (sample + 1) b'
  ]

  -- A node at the start; `Y` holds what it held, and `y_ext` too, but in the master, which measures.
  abbrev pub begin : ℕ → List (List F) → F → Calibration F
  begin id y y_ext = record {
    id = id;
    ready = false;
    state = state_ext;
    y_ext = y_ext;
    y = y;
    sample = 0;
    sender = 0;
    receiver = 1 - id;
  }

  -- The external illuminance.
  unfoldable pub external : List (List F) → List (List F) → F → Option (Bench F)
  external y0 y1 y_ext =
      let off = fl.lit 0 1 ∷ fl.lit 0 1 ∷ [] in
      elim (exchange (begin 0 y0 (sense 0 off)) (begin 1 y1 y_ext) (sense 1 off)) [
        | none ↦ none
        | some (n0, n1) ↦ some (record {
          n0 = record n0 { state = state_on };
          n1 = record n1 { state = state_on };
          lamps = off;
        })
      ]

  abbrev pub fit : List F → Calibration F → Fit F
  fit x c = record { k_i = gains x c.y; o_i = c.y_ext }

  -- `x` are the duties of `SAMPLES`.
  unfoldable pub execute : List F → List (List F) → List (List F) → F → Option (Fit F × Fit F)
  execute x y0 y1 y_ext = elim (external y0 y1 y_ext) [
    | none ↦ none
    | some b ↦ elim (samples_from x 0 b) [ none ↦ none | some b' ↦ some (fit x b'.n0, fit x b'.n1) ]
  ]
