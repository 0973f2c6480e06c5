-- ===== src/Sniffer/Wave.antt =====
-- What the two lines do while a master sends bytes: an independent description of the bus, against
-- which the sniffer is proved.
use scdtr.Prelude.{ℕ, ◌/◌, ◌%◌, Bool, true, false, List, [], ◌∷◌, ◌++◌, ◌==◌}
use scdtr.Sniffer.{Level}

-- One clock pulse: the data line is set while the clock is low, and sampled when it rises.
abbrev pub pulse : Bool → List Level
pulse d = record { scl = false; sda = d } ∷ record { scl = true; sda = d } ∷ []

abbrev pub bit_at : ℕ → ℕ → Bool
bit_at b w = b / w % 2 == 1

-- Eight bits, the highest first, and the receiver's answer, which pulls the line low to acknowledge.
abbrev pub byte_wave : ℕ → Bool → List Level
byte_wave b acked =
    pulse (bit_at b 128)
    ++ (pulse (bit_at b 64)
        ++ (pulse (bit_at b 32)
            ++ (pulse (bit_at b 16)
                ++ (pulse (bit_at b 8)
                    ++ (pulse (bit_at b 4)
                        ++ (pulse (bit_at b 2) ++ (pulse (bit_at b 1) ++ pulse acked)))))))

-- From idle, the data line falls while the clock is high.
abbrev pub start_wave : List Level
start_wave = record { scl = true; sda = false } ∷ []

-- The clock falls, the data line is held low, and rises once the clock is high again.
abbrev pub stop_wave : List Level
stop_wave =
    record { scl = false; sda = false }
    ∷ record { scl = true; sda = false }
    ∷ record { scl = true; sda = true }
    ∷ []

-- Bytes, each with its answer on the data line (false: acknowledged).
abbrev pub bytes_wave : List (ℕ × Bool) → List Level
bytes_wave [] = []
bytes_wave ((b, a) ∷ bs) = byte_wave b a ++ bytes_wave bs

abbrev pub transaction : List (ℕ × Bool) → List Level
transaction bs = start_wave ++ (bytes_wave bs ++ stop_wave)
