-- ===== src/Sniffer/Decoding/Bytes.antt =====
-- One pulse, one byte, and a row of bytes on the lines.
use scdtr.Prelude.{
  ℕ, ◌+◌, ◌*◌, ◌/◌, ◌%◌, ◌≤◌, ◌<◌, ◌≡◌, refl, ap, ◌∙◌, Bool, true, false, List, [], ◌∷◌, ◌++◌, map,
  none, some, arith, ltb, length, set, length-set, lt→ltb, All,
}
use mathlib.Core.List.{append_assoc}
use native.Mathlib.Decide.{dec_lt}
use scdtr.Sniffer.{
  Level, Sniffer, standby, read, max_size, pred_size, write_packet, bit_of, on_level, run,
}
use scdtr.Sniffer.Wave.{pulse, bit_at, byte_wave, bytes_wave, start_wave, stop_wave}

-- Between transactions: both lines are high. `parser` may hold anything but the old levels.
abbrev pub idle : Bool → ℕ → ℕ → List ℕ → ℕ → List (List ℕ) → Sniffer
idle d byte bit packet idx written = record {
  parser = record { in_data = d; byte = byte; bit = bit; old_scl = true; old_sda = true };
  level = record { scl = true; sda = true };
  mode = standby;
  packet = packet;
  idx = idx;
  written = written;
}

-- Inside a transaction, behind a rising clock with the data line at `d`.
abbrev pub amid : ℕ → ℕ → Bool → List ℕ → ℕ → List (List ℕ) → Sniffer
amid byte bit d packet idx written = record {
  parser = record { in_data = true; byte = byte; bit = bit; old_scl = true; old_sda = d };
  level = record { scl = true; sda = d };
  mode = read;
  packet = packet;
  idx = idx;
  written = written;
}

abbrev pub reading : Bool → List ℕ → ℕ → List (List ℕ) → Sniffer
reading d packet idx written = amid 0 0 d packet idx written

module _ (packet : List ℕ) (idx : ℕ) (written : List (List ℕ)) (rest : List Level) where
  bit_pulse :
      (byte bit : ℕ) (d x : Bool)
      → ltb bit 8 ≡ true
      → run (amid byte bit d packet idx written) (pulse x ++ rest)
        ≡ run (amid (byte * 2 + bit_of x) (bit + 1) x packet idx written) rest
  unfolding run on_level
  bit_pulse byte bit true true h = ground arith
  bit_pulse byte bit true false h = ground arith
  bit_pulse byte bit false true h = ground arith
  bit_pulse byte bit false false h = ground arith

  ack_pulse :
      (byte : ℕ) (d a : Bool)
      → ltb idx max_size ≡ true
      → run (amid byte 8 d packet idx written) (pulse a ++ rest)
        ≡ run (reading a (set packet idx (byte % 256)) (idx + 1) written) rest
  unfolding run on_level
  ack_pulse byte true true h = ground arith
  ack_pulse byte true false h = ground arith
  ack_pulse byte false true h = ground arith
  ack_pulse byte false false h = ground arith

  full_pulse :
      (byte : ℕ) (d a : Bool)
      → ltb idx max_size ≡ false
      → run (amid byte 8 d packet idx written) (pulse a ++ rest) ≡ none
  unfolding run on_level
  full_pulse byte true true h = ground arith
  full_pulse byte true false h = ground arith
  full_pulse byte false true h = ground arith
  full_pulse byte false false h = ground arith

-- Eight pulses put the byte together, highest bit first.
abbrev gathered : ℕ → ℕ
gathered b =
    ((((((((0 * 2 + bit_of (bit_at b 128)) * 2 + bit_of (bit_at b 64)) * 2 + bit_of (bit_at b 32))
                        * 2
                      + bit_of (bit_at b 16))
                    * 2
                  + bit_of (bit_at b 8))
                * 2
              + bit_of (bit_at b 4))
            * 2
          + bit_of (bit_at b 2))
        * 2
      + bit_of (bit_at b 1))

bit_of-bit_at : (b w : ℕ) → bit_of (bit_at b w) ≡ b / w % 2
bit_of-bit_at b w = ground arith

gathered_lem : (b : ℕ) → b < 256 → gathered b % 256 ≡ b
gathered_lem b h = omega (
  arith,
  bit_of-bit_at b 128,
  bit_of-bit_at b 64,
  bit_of-bit_at b 32,
  bit_of-bit_at b 16,
  bit_of-bit_at b 8,
  bit_of-bit_at b 4,
  bit_of-bit_at b 2,
  bit_of-bit_at b 1,
)

module _ (packet : List ℕ) (idx : ℕ) (written : List (List ℕ)) (rest : List Level) where
  eight_pulses :
      (b : ℕ) (d a : Bool)
      → run (reading d packet idx written) (byte_wave b a ++ rest)
        ≡ run (amid (gathered b) 8 (bit_at b 1) packet idx written) (pulse a ++ rest)
  eight_pulses b d a =
      bit_pulse packet idx written _ _ 0 d (bit_at b 128) refl
      ∙ bit_pulse packet idx written _ _ 1 (bit_at b 128) (bit_at b 64) refl
      ∙ bit_pulse packet idx written _ _ 2 (bit_at b 64) (bit_at b 32) refl
      ∙ bit_pulse packet idx written _ _ 3 (bit_at b 32) (bit_at b 16) refl
      ∙ bit_pulse packet idx written _ _ 4 (bit_at b 16) (bit_at b 8) refl
      ∙ bit_pulse packet idx written _ _ 5 (bit_at b 8) (bit_at b 4) refl
      ∙ bit_pulse packet idx written _ _ 6 (bit_at b 4) (bit_at b 2) refl
      ∙ bit_pulse packet idx written _ _ 7 (bit_at b 2) (bit_at b 1) refl

  -- A byte with its answer lands in the packet, if there is room.
  pub byte_run :
      (b : ℕ) (d a : Bool)
      → b < 256
      → idx < max_size
      → run (reading d packet idx written) (byte_wave b a ++ rest)
        ≡ run (reading a (set packet idx b) (idx + 1) written) rest
  byte_run b d a h room =
      eight_pulses b d a
      ∙ ack_pulse packet idx written rest (gathered b) (bit_at b 1) a (lt→ltb _ _ room)
      ∙ ap (λ v. run (reading a (set packet idx v) (idx + 1) written) rest) (gathered_lem b h)

  pub byte_full :
      (b : ℕ) (d a : Bool)
      → max_size ≤ idx
      → run (reading d packet idx written) (byte_wave b a ++ rest) ≡ none
  byte_full b d a h =
      eight_pulses b d a
      ∙ full_pulse packet idx written rest (gathered b) (bit_at b 1) a (ground arith)

  pub start_run :
      (d : Bool) (byte bit i : ℕ)
      → run (idle d byte bit packet i written) (start_wave ++ rest)
        ≡ run (reading false packet 0 written) rest
  unfolding run on_level
  start_run d byte bit i = refl

  pub stop_run :
      (d : Bool) {written' : List (List ℕ)}
      → write_packet packet (pred_size idx) written ≡ some written'
      → run (reading d packet idx written) (stop_wave ++ rest)
        ≡ run (idle false 0 0 packet 0 written') rest
  unfolding run on_level
  stop_run true h = ground arith
  stop_run false h = ground arith

-- The bytes of a transaction, as the packet array keeps them from index `i` on.
abbrev pub stored : List ℕ → ℕ → List (ℕ × Bool) → List ℕ
stored packet i [] = packet
stored packet i ((b, a) ∷ bs) = stored (set packet i b) (i + 1) bs

abbrev pub last_ack : Bool → List (ℕ × Bool) → Bool
last_ack d [] = d
last_ack d ((b, a) ∷ bs) = last_ack a bs

abbrev pub IsByte : ℕ × Bool → Type 0
IsByte (b, a) = b < 256

abbrev pub values : List (ℕ × Bool) → List ℕ
values = map (λ p. p.0)

pub length-stored :
    (packet : List ℕ) (i : ℕ) (bs : List (ℕ × Bool)) → length (stored packet i bs) ≡ length packet
length-stored packet i [] = refl
length-stored packet i ((b, a) ∷ bs) =
    length-stored (set packet i b) (i + 1) bs ∙ length-set packet i b

pub bytes_run :
    (packet : List ℕ) (idx j : ℕ) (written : List (List ℕ)) (rest : List Level) (d : Bool)
    (bs : List (ℕ × Bool))
    → All IsByte bs
    → idx + length bs ≡ j
    → j ≤ max_size
    → run (reading d packet idx written) (bytes_wave bs ++ rest)
      ≡ run (reading (last_ack d bs) (stored packet idx bs) j written) rest
bytes_run packet idx j written rest d [] h e room =
    ap (λ k. run (reading d packet k written) rest) (omega arith)
bytes_run packet idx j written rest d ((b, a) ∷ bs) h e room =
    ap (run (reading d packet idx written)) (append_assoc (byte_wave b a) (bytes_wave bs) rest)
    ∙ byte_run packet idx written (bytes_wave bs ++ rest) b d a h.0 (omega arith)
    ∙ bytes_run (set packet idx b) (idx + 1) j written rest a bs h.1 (omega arith) room

-- With more bytes than the packet has room for, the loop leaves the array.
pub bytes_overflow :
    (packet : List ℕ) (idx : ℕ) (written : List (List ℕ)) (rest : List Level) (d : Bool)
    (bs : List (ℕ × Bool))
    → All IsByte bs
    → idx ≤ max_size
    → max_size < idx + length bs
    → run (reading d packet idx written) (bytes_wave bs ++ rest) ≡ none
bytes_overflow packet idx written rest d [] h small big = absurd (omega arith)
bytes_overflow packet idx written rest d ((b, a) ∷ bs) h small big =
    ap (run (reading d packet idx written)) (append_assoc (byte_wave b a) (bytes_wave bs) rest)
    ∙ elim (dec_lt idx max_size) [
      | yes room ↦
          byte_run packet idx written (bytes_wave bs ++ rest) b d a h.0 room
          ∙ bytes_overflow (set packet idx b) (idx + 1) written rest a bs h.1 (omega arith)
              (omega arith)
      | no full ↦ byte_full packet idx written (bytes_wave bs ++ rest) b d a (omega arith)
    ]
