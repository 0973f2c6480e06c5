-- ===== src/TestClient.antt =====
-- rpi/src/test_client.cpp: a client that plays a script of requests, and what a session of the
-- server makes of them. Whether a write fails is an argument; the arguments of the program and what
-- it prints are left out.
pub mod Script
use scdtr.Prelude.{
  ℕ, ◌+◌, Bool, true, false, ◌||◌, Option, none, some, List, [], ◌∷◌, ◌++◌, if◌then◌else◌,
}
use scdtr.Float.{Float}
use scdtr.Server.System.{System}
use scdtr.Server.Request.{Streams}
use scdtr.Server.Session.{session_read}

pub record Instruction : Type 0 where
  pub command : List ℕ
  pub delay : ℕ

-- The request that sets the occupancy of a node.
abbrev pub set_text : ℕ → ℕ → List ℕ
set_text node value = b's' ∷ b' ' ∷ node ∷ b' ' ∷ value ∷ []

abbrev pub script : List Instruction
script =
    record { command = b'r' ∷ []; delay = 20000 }
    ∷ record { command = set_text b'0' b'1'; delay = 20000 }
    ∷ record { command = set_text b'1' b'1'; delay = 20000 }
    ∷ record { command = set_text b'0' b'0'; delay = 20000 }
    ∷ record { command = set_text b'1' b'0'; delay = 20000 }
    ∷ record { command = b'S' ∷ []; delay = 0 }
    ∷ []

-- The loop of `main` from instruction `i` on: what is written, and when. A write that fails is passed
-- over.
unfoldable pub played : (ℕ → Bool) → ℕ → ℕ → List Instruction → List (ℕ × List ℕ)
played fails i clock [] = []
played fails i clock (x ∷ xs) =
    let rest = played fails (i + 1) (clock + x.delay) xs in
    if fails i then rest else (clock, x.command) ∷ rest

-- What a session leaves: the state, the answers, what went to the serial port, and whether the log
-- was saved.
pub record Served (F : Type 0) : Type 0 where
  pub system : System F
  pub streams : Streams
  pub responses : List (List ℕ)
  pub serial : List (List ℕ)
  pub saved : Bool

module _ {F : Type 0} ⦃fl : Float F⦄ where
  -- Reads of a session, one behind the other, each of what one write sent.
  unfoldable pub serve : System F → Streams → List (ℕ × List ℕ) → Option (Served F)
  serve s st [] =
      some (record { system = s; streams = st; responses = []; serial = []; saved = false })
  serve s st ((absolute, bytes) ∷ reads) = elim (session_read s st bytes absolute) [
    | none ↦ none
    | some (a, buffer) ↦ elim (serve a.system a.streams reads) [
      | none ↦ none
      | some rest ↦ some (record rest {
        responses = a.response ∷ rest.responses;
        serial = a.serial ++ rest.serial;
        saved = a.saved || rest.saved;
      })
    ]
  ]
