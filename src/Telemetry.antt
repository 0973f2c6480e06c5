-- ===== src/Telemetry.antt =====
-- What a node reports, from its firmware over the bus and the sniffer to the log of the server:
-- `sendInfo` of multiple_board/main/communication.cpp against `System::handleRead` of
-- rpi/src/System.cpp, with rpi/src/pig2i2c.cpp between them.
pub mod Stored
pub mod Chain
pub mod Observed
pub mod Coalesced
use scdtr.Prelude.{ℕ, ◌+◌, Bool, List, [], ◌∷◌, ◌++◌}
use scdtr.Float.{Float}
use scdtr.Board.Communication.{send_info, Message}

-- The arguments of a call of `sendInfo` by a node.
pub record Status (F : Type 0) : Type 0 where
  pub dev_id : ℕ
  pub dest : ℕ
  pub lux : F
  pub duty_cycle : F
  pub lower_bound : F
  pub ext : F
  pub ref : F
  pub occupancy : Bool

module _ {F : Type 0} ⦃fl : Float F⦄ where
  abbrev pub sent : Status F → List ℕ
  sent m =
      (send_info m.dev_id m.dest m.lux m.duty_cycle m.lower_bound m.ext m.ref m.occupancy).packet
