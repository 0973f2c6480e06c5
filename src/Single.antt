-- ===== src/Single.antt =====
-- single_board/main: the firmware of one node on its own, an earlier version of the nodes of
-- multiple_board. This file holds the constants of main.ino.
pub mod Pi
pub mod Main
use scdtr.Prelude.{ℕ}
use scdtr.Float.{Float, ◌⊗◌, ◌⊘◌}

-- `STATUS_DELAY`, and the values of an `unsigned long`.
abbrev pub status_delay : ℕ
status_delay = 100

module _ {F : Type 0} ⦃fl : Float F⦄ where
  abbrev pub min_ref : F
  min_ref = fl.lit 0 1

  abbrev pub max_ref : F
  max_ref = fl.lit 150 1

  abbrev pub max_lux : F
  max_lux = fl.lit 100 1

  abbrev pub low_lux : F
  low_lux = (fl.lit 1 1 ⊘ fl.lit 3 1) ⊗ max_lux

  abbrev pub high_lux : F
  high_lux = (fl.lit 2 1 ⊘ fl.lit 3 1) ⊗ max_lux
