-- ===== src/Sniffer.antt =====
-- rpi/src/pig2i2c.cpp: the I2C sniffer, which samples the clock and data lines and writes the packets
-- that it sees to a FIFO. A report of the pins enters as a number; what is written is a list of
-- packets. `none` is a fault: an access outside `packet`.
pub mod Wave
pub mod Decoding
pub mod Faults
use scdtr.Prelude.{
  ℕ, zero, suc, ◌+◌, ◌-◌, ◌*◌, ◌/◌, ◌%◌, ◌^◌, Bool, true, false, not, ◌&&◌, ◌||◌, Option, none,
  some, List, [], ◌∷◌, ◌++◌, ltb, leb, ◌==◌, if◌then◌else◌, length, set, take, drop, replicate,
}

-- `MAX_SIZE`, and the values of a `size_t`.
abbrev pub max_size : ℕ
max_size = 32

abbrev pub size_mod : ℕ
size_mod = 2 ^ 64

-- The two lines that are watched: a report with all other pins masked out.
pub record Level : Type 0 where
  pub scl : Bool
  pub sda : Bool

-- `report.level &= bI2C`, read as the two bits that it keeps.
unfoldable pub masked : ℕ → ℕ → ℕ → Level
masked g_scl g_sda report = record {
  scl = report / 2 ^ g_scl % 2 == 1;
  sda = report / 2 ^ g_sda % 2 == 1;
}

-- The static variables of `parse_I2C`.
pub record Parser : Type 0 where
  pub in_data : Bool
  pub byte : ℕ
  pub bit : ℕ
  pub old_scl : Bool
  pub old_sda : Bool

-- What a call of `parse_I2C` returns: its value and the four references.
pub record Event : Type 0 where
  pub rv : ℕ
  pub valid : Bool
  pub start : Bool
  pub end : Bool
  pub acked : Bool

abbrev pub no_event : Event
no_event = record { rv = 0; valid = false; start = false; end = false; acked = false }

abbrev pub bit_of : Bool → ℕ
bit_of true = 1
bit_of false = 0

data Edge : Type 0 where
  falling rising steady : Edge

abbrev edge : Bool → Bool → Edge
edge true true = steady
edge false false = steady
edge true false = falling
edge false true = rising

-- A rising clock: a data bit, or the acknowledgement behind eight of them.
abbrev clock_rise : Parser → Bool → Parser × Event
clock_rise p sda =
    if p.in_data
    then (if ltb p.bit 8
        then (record p { byte = p.byte * 2 + bit_of sda; bit = p.bit + 1 }, no_event)
        else (
          record p { byte = 0; bit = 0 },
          record no_event { rv = p.byte % 256; valid = true; acked = not sda },
        ))
    else (p, no_event)

-- The data line moves while the clock stands: a stop or a start if the clock is high.
abbrev stop_condition : Parser → Bool → Parser × Event
stop_condition p scl =
    if scl
    then (record p { in_data = false; byte = 0; bit = 0 }, record no_event { end = true })
    else (p, no_event)

abbrev start_condition : Parser → Bool → Parser × Event
start_condition p scl =
    if scl
    then (record p { in_data = true; byte = 0; bit = 0 }, record no_event { start = true })
    else (p, no_event)

abbrev on_edges : Edge → Edge → Parser → Level → Parser × Event
on_edges rising _ p l = clock_rise p l.sda
on_edges falling _ p l = (p, no_event)
on_edges steady rising p l = stop_condition p l.scl
on_edges steady falling p l = start_condition p l.scl
on_edges steady steady p l = (p, no_event)

pub parse_i2c : Parser → Level → Parser × Event
parse_i2c p l =
    on_edges (edge p.old_scl l.scl) (edge p.old_sda l.sda)
      (record p { old_scl = l.scl; old_sda = l.sda }) l

pub data Mode : Type 0 where
  standby read : Mode

-- The variables of `main`, with the packets written so far.
pub record Sniffer : Type 0 where
  pub parser : Parser
  pub level : Level
  pub mode : Mode
  pub packet : List ℕ
  pub idx : ℕ
  pub written : List (List ℕ)

pub init : Sniffer
init = record {
  parser = record { in_data = false; byte = 0; bit = 0; old_scl = true; old_sda = true };
  level = record { scl = true; sda = true };
  mode = standby;
  packet = replicate max_size 0;
  idx = 0;
  written = [];
}

-- `writePacket(fd, packet + 1, size)`: fewer than two bytes are not written, and a size beyond the
-- rest of the array reads outside it.
unfoldable pub write_packet : List ℕ → ℕ → List (List ℕ) → Option (List (List ℕ))
write_packet packet size written =
    if leb 2 size
    then (if ltb size max_size then some (written ++ (take size (drop 1 packet) ∷ [])) else none)
    else some written

-- `size - 1`, in a `size_t`.
abbrev pub pred_size : ℕ → ℕ
pred_size size = (size + size_mod - 1) % size_mod

abbrev same : Bool → Bool → Bool
same true b = b
same false b = not b

-- The part of the loop's body behind `parse_I2C`.
unfoldable pub on_event : Sniffer → Event → Option Sniffer
unfolding write_packet
on_event s e = elim s.mode [
  | standby ↦ some (if e.start then record s { mode = read; idx = 0 } else s)
  | read ↦
      if e.end
      then (elim (write_packet s.packet (pred_size s.idx) s.written) [
        | none ↦ none
        | some w ↦ some (record s { mode = standby; written = w; idx = 0 })
      ])
      else (if e.valid
          then (if ltb s.idx max_size
              then some (record s { packet = set s.packet s.idx e.rv; idx = s.idx + 1 })
              else none)
          else some s)
]

-- One round of the loop, on a report whose other pins are masked out.
pub on_level : Sniffer → Level → Option Sniffer
unfolding parse_i2c on_event
on_level s l =
    if same l.scl s.level.scl && same l.sda s.level.sda
    then some s
    else (let (p, e) = parse_i2c s.parser l in on_event (record s { level = l; parser = p }) e)

pub run : Sniffer → List Level → Option Sniffer
run s [] = some s
run s (l ∷ ls) = elim (on_level s l) [ none ↦ none | some s' ↦ run s' ls ]

-- The loop of `main` over the reports of the pins.
pub run_reports : ℕ → ℕ → Sniffer → List ℕ → Option Sniffer
unfolding masked
run_reports g_scl g_sda s [] = some s
run_reports g_scl g_sda s (r ∷ rs) = elim (on_level s (masked g_scl g_sda r)) [
  | none ↦ none
  | some s' ↦ run_reports g_scl g_sda s' rs
]
