-- ===== src/Board/Communication.antt =====
-- communication.cpp and communication.hpp: the packets that nodes exchange over I2C. What is sent
-- is a value, a message to the bus; what has arrived is the list of bytes that `Wire` holds. `none`
-- is a fault: an access outside an array.
pub mod Arrays
pub mod RoundTrip
pub mod Orders
use scdtr.Prelude.{
  ℕ, zero, suc, ◌+◌, ◌*◌, Bool, true, false, not, Option, none, some, List, [], ◌∷◌, ◌++◌, ltb,
  ◌==◌, if◌then◌else◌, length, set, drop, get_or, replicate,
}
use scdtr.Float.{Float, bytes}
use scdtr.Board.{n_nodes, nd, low_lux}

abbrev pub max_size : ℕ
max_size = 32

abbrev pub header_size : ℕ
header_size = 2

-- The packet types.
abbrev pub syn : ℕ
syn = 0x00

abbrev pub ack : ℕ
ack = 0x01

abbrev pub con : ℕ
con = 0x02

abbrev pub ico : ℕ
ico = 0x04

abbrev pub inf : ℕ
inf = 0x05

abbrev pub don : ℕ
don = 0x06

abbrev pub dof : ℕ
dof = 0x07

abbrev pub res : ℕ
res = 0x0F

-- What `Wire.beginTransmission`, `write` and `endTransmission` put on the bus.
pub record Message : Type 0 where
  pub dest : ℕ
  pub packet : List ℕ

-- The variables of main.ino to which `setup` hands out pointers.
pub record Shared (F : Type 0) : Type 0 where
  pub dev_id : ℕ
  pub reset : Bool
  pub changed : Bool
  pub ref : F
  pub lower_bound : F
  pub occupancy : Bool
  pub distributed : Bool

unfoldable pub send_packet : ℕ → ℕ → ℕ → Message
send_packet dev_id dest type = record { dest = dest; packet = dev_id ∷ type ∷ [] }

-- The loop of `readPacket` over what `Wire` holds: what is written where, and how much was read.
pub fill_packet : ℕ → ℕ → List ℕ → List ℕ → Option (List ℕ × ℕ)
fill_packet zero read available packet = some (packet, read)
fill_packet (suc room) read [] packet = some (packet, read)
fill_packet (suc room) read (b ∷ available) packet =
    let rest = fill_packet room (read + 1) available (set packet read b) in
    if ltb read (length packet) then rest else none

pub record Received : Type 0 where
  pub p_id : ℕ
  pub p_type : ℕ
  pub packet : List ℕ

-- `packet` is the caller's array, which is not initialised: its contents are an argument.
unfoldable pub read_packet : ℕ → List ℕ → List ℕ → Option Received
unfolding fill_packet
read_packet size available packet = elim (fill_packet size 0 available packet) [
  | none ↦ none
  | some (packet', read) ↦ some (
      if ltb 0 read
      then record { p_id = get_or packet' 0 0; p_type = get_or packet' 1 0; packet = packet' }
      else record { p_id = 255; p_type = 255; packet = packet' })
]

module _ {F : Type 0} ⦃fl : Float F⦄ where
  -- The loops over the elements of an array and over the bytes of each.
  abbrev pub pack : List F → List ℕ
  pack [] = []
  pack (x ∷ xs) = bytes x ++ pack xs

  unfoldable pub send_consensus : ℕ → ℕ → Bool → List F → Message
  send_consensus dev_id dest start d_i = record {
    dest = dest;
    packet = dev_id ∷ (if start then ico else con) ∷ pack d_i;
  }

  unfoldable pub send_info : ℕ → ℕ → F → F → F → F → F → Bool → Message
  send_info dev_id dest lux duty_cycle lower_bound ext ref occupancy = record {
    dest = dest;
    packet =
        dev_id
        ∷ inf
        ∷ (bytes lux
            ++ (bytes duty_cycle
                ++ (bytes lower_bound
                    ++ (bytes ext ++ (bytes ref ++ ((if occupancy then 1 else 0) ∷ []))))));
  }

  -- The float of the four bytes from an offset on.
  abbrev float_of : List ℕ → Option F
  float_of (b0 ∷ b1 ∷ b2 ∷ b3 ∷ rest) = some (fl.of_bytes b0 b1 b2 b3)
  float_of _ = none

  abbrev pub float_at : List ℕ → ℕ → Option F
  float_at buffer offset = float_of (drop offset buffer)

  -- `out[j]` for `j` from `j` on, `left` of them.
  pub read_from : ℕ → ℕ → List ℕ → Option (List F)
  read_from zero j buffer = some []
  read_from (suc left) j buffer = elim (float_at buffer (j * 4)) [
    | none ↦ none
    | some x ↦ elim (read_from left (j + 1) buffer) [ none ↦ none | some xs ↦ some (x ∷ xs) ]
  ]

  -- `buffer` is the rest of a packet array, behind the header.
  unfoldable pub read_consensus : List ℕ → Option (List F)
  unfolding read_from
  read_consensus buffer = read_from n_nodes 0 buffer

  -- The case of an order for a new lower bound.
  abbrev pub order_bound : Shared F → F → Shared F
  order_bound s f = if fl.eq f nd then record s { changed = true } else record s {
    changed = true;
    ref = if s.distributed then s.ref else f;
    lower_bound = f;
    occupancy = not (fl.le f low_lux);
  }

  abbrev dispatch : Shared F → List ℕ → ℕ → Option (Shared F)
  dispatch s buffer type =
      if type == res
      then some (record s { reset = true })
      else if type == ico
      then (elim (float_at buffer (2 + s.dev_id * 4)) [
        | none ↦ none
        | some f ↦ some (order_bound s f)
      ])
      else if type == don
      then some (record s { distributed = true })
      else if type == dof
      then some (record s { distributed = false })
      else some s

  -- The callback outside calibration and consensus. The loop has no bound but what `Wire` holds.
  unfoldable pub on_receive : Shared F → List ℕ → Option (Shared F)
  unfolding fill_packet
  on_receive s available =
      elim (fill_packet (length available) 0 available (replicate max_size 0)) [
        | none ↦ none
        | some (buffer, read) ↦ if ltb 0 read then dispatch s buffer (get_or buffer 1 0) else some s
      ]
