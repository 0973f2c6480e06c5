-- ===== src/Server/System/Feed.antt =====
-- `handleRead`: a read of the FIFO that the sniffer fills, and the INF packet in it.
use scdtr.Prelude.{
  ℕ, ◌+◌, false, not, ◌&&◌, List, ◌++◌, ltb, leb, ◌==◌, if◌then◌else◌, length, get_or, set, drop,
  inl, inr, Bool-cases,
}
use scdtr.Float.{Float}
use scdtr.Server.System.{Entry, System, insert_entry, millis}
use scdtr.Server.System.Figures.{get_comfort_error, get_comfort_variance}

-- The type of an INF packet.
abbrev pub inf : ℕ
inf = 0x05

-- A read from the FIFO overwrites the front of the buffer.
abbrev pub received : List ℕ → List ℕ → List ℕ
received bytes buffer = bytes ++ drop (length bytes) buffer

module _ {F : Type 0} ⦃fl : Float F⦄ where
  abbrev pub float_in : List ℕ → ℕ → F
  float_in buffer k =
      fl.of_bytes (get_or buffer k 0) (get_or buffer (k + 1) 0) (get_or buffer (k + 2) 0)
        (get_or buffer (k + 3) 0)

  -- The state of a node, as an INF packet in the buffer brings it. All three writes use the same
  -- index, and the first one throws before any other is made.
  unfoldable pub update_node : System F → ℕ → System F
  update_node s id =
      if ltb id (length s.lux_lower_bound)
      then record s {
        lux_lower_bound = set s.lux_lower_bound id (float_in s.i2c_buffer 10);
        lux_external = set s.lux_external id (float_in s.i2c_buffer 14);
        occupancy = set s.occupancy id (not (get_or s.i2c_buffer 22 0 == 0));
      }
      else s

  -- The entry that is logged, with the figures over the log without it.
  abbrev pub info_entry : System F → ℕ → ℕ → Entry F
  info_entry s id absolute = record {
    timestamp = millis s absolute;
    lux = float_in s.i2c_buffer 2;
    duty_cycle = float_in s.i2c_buffer 6;
    lux_reference = float_in s.i2c_buffer 18;
    c_err = get_comfort_error s id false;
    c_var = get_comfort_variance s id false;
  }

  unfoldable pub store_info : System F → ℕ → ℕ → System F
  store_info s id absolute =
      let s' = update_node s id in insert_entry s' id (info_entry s' id absolute)

  -- `handleRead` without an error, on the bytes of one read of the FIFO.
  unfoldable pub handle_read : System F → ℕ → List ℕ → System F
  handle_read s absolute bytes =
      let buffer = received bytes s.i2c_buffer in
      let s' = record s { i2c_buffer = buffer } in
      if leb 2 (length bytes) && get_or buffer 1 0 == inf
      then store_info s' (get_or buffer 0 0) absolute
      else s'

  -- What holds of the state with the new buffer, and with any node's packet stored, holds after the
  -- read.
  pub handle_read_cases {ℓ} :
      (P : System F → Type ℓ) (s : System F) (absolute : ℕ) (bytes : List ℕ)
      → P (record s { i2c_buffer = received bytes s.i2c_buffer })
      → ((id : ℕ)
          → P (store_info (record s { i2c_buffer = received bytes s.i2c_buffer }) id absolute))
      → P (handle_read s absolute bytes)
  unfolding handle_read
  handle_read_cases P s absolute bytes plain stored =
      elim (Bool-cases (leb 2 (length bytes) && get_or (received bytes s.i2c_buffer) 1 0 == inf)) [
        | inl info ↦ rw info (stored (get_or (received bytes s.i2c_buffer) 0 0))
        | inr other ↦ rw other plain
      ]
