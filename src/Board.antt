-- ===== src/Board.antt =====
-- multiple_board/main: the firmware of a node. This file holds the constants of constants.hpp that
-- the parts share; each child is one of the firmware's parts.
pub mod Communication
pub mod Pi
pub mod Main
pub mod Matrix
pub mod Consensus
pub mod Calibration
use scdtr.Prelude.{ℕ, ◌^◌, Bool, true}
use scdtr.Float.{Float, ◌⊗◌, ◌⊘◌}

-- `N`, the number of devices, and the id of the master.
abbrev pub n_nodes : ℕ
n_nodes = 2

abbrev pub master : ℕ
master = 0

-- `DISTRIBUTED`.
abbrev pub distributed_default : Bool
distributed_default = true

-- `STATUS_DELAY` and `BUFFER_SIZE`, and the values of an `unsigned long`.
abbrev pub status_delay : ℕ
status_delay = 100

abbrev pub buffer_size : ℕ
buffer_size = 30

abbrev pub ulong_mod : ℕ
ulong_mod = 2 ^ 32

module _ {F : Type 0} ⦃fl : Float F⦄ where
  -- `ND`: not defined.
  abbrev pub nd : F
  nd = fl.neg (fl.lit 2 1)

  abbrev pub max_lux : F
  max_lux = fl.lit 100 1

  abbrev pub low_lux : F
  low_lux = (fl.lit 1 1 ⊘ fl.lit 3 1) ⊗ max_lux

  abbrev pub high_lux : F
  high_lux = (fl.lit 2 1 ⊘ fl.lit 3 1) ⊗ max_lux

  -- `MAX_DC`.
  abbrev pub max_dc : F
  max_dc = fl.lit 100 1
