-- ===== src/Server.antt =====
-- rpi/src: the TCP server on the Raspberry Pi, which keeps a log of each node and answers requests.
-- This file holds the constants of constants.hpp.
pub mod System
pub mod Request
pub mod Session
pub mod Accept
pub mod Program
use scdtr.Prelude.{ℕ, ◌^◌}

-- `STREAM_FLAGS`, `RECV_BUFFER` and `SEND_BUFFER`.
abbrev pub stream_flags : ℕ
stream_flags = 2

abbrev pub recv_buffer : ℕ
recv_buffer = 1024

abbrev pub send_buffer : ℕ
send_buffer = 1023

-- The values of an `unsigned long` on the 32-bit Raspberry Pi.
abbrev pub ulong_mod : ℕ
ulong_mod = 2 ^ 32
