-- ===== src/Server/Program.antt =====
-- server.cpp, with System::start, handleRead and handleWriteSerial of System.cpp: the program as a
-- whole. Its threads share the system; each handler runs to its end before another one touches the
-- system. What the opening of a device gives is an argument.
pub mod Whole
pub mod Serving
use scdtr.Prelude.{
  ℕ, ◌≤◌, ◌≡◌, length, Bool, true, false, ◌||◌, Option, none, some, List, [], ◌∷◌, ◌++◌, ◌==◌,
  if◌then◌else◌,
}
use scdtr.Float.{Float}
use scdtr.Server.{recv_buffer}
use scdtr.Server.System.{System, construct}
use scdtr.Server.System.Feed.{handle_read}
use scdtr.Server.Request.{Streams}
use scdtr.Server.Session.{overruns, session_read, handle_timer}
use scdtr.Server.Session.Lifecycle

-- `NODES`.
abbrev pub nodes : ℕ
nodes = 2

-- The exit codes -1 and `EXIT_FAILURE`.
abbrev pub minus_one_code : ℕ
minus_one_code = 255

abbrev pub failure_code : ℕ
failure_code = 1

-- The errors of `System::start`.
pub record Opening : Type 0 where
  pub serial_error : Bool
  pub baud_error : Bool
  pub fifo_error : Bool
  pub assign_error : Bool

-- `reading`: a read of the FIFO is outstanding; `accepting`: an accept of a client is.
pub record Program (F : Type 0) : Type 0 where
  pub system : System F
  pub sessions : List Streams
  pub reading : Bool
  pub accepting : Bool

pub data State (F : Type 0) : Type 0 where
  exited : ℕ → State F
  fault : State F
  running : Program F → State F

-- Which handler is called: for a session, with its streams, what it reads and the clock.
pub data Event : Type 0 where
  on_system on_accept on_close : Event
  on_request : Streams → List ℕ → ℕ → Event
  on_timer : Streams → Event

module _ {F : Type 0} ⦃fl : Float F⦄ where
  abbrev pub fresh : System F → Streams
  fresh s = (Lifecycle.start s).streams

  -- `main`, up to the start of the threads, and the first accept.
  unfoldable pub main : ℕ → Opening → F → ℕ → State F
  main argc o t_s absolute =
      if argc == 3
      then (if o.serial_error || o.baud_error
          then exited minus_one_code
          else if o.fifo_error || o.assign_error
          then exited failure_code
          else (elim (construct nodes t_s absolute) [
            | none ↦ fault
            | some s ↦
                running (record { system = s; sessions = []; reading = true; accepting = true })
          ]))
      else exited failure_code

  -- `System::handleRead`: an error ends the program, and otherwise the next read starts.
  unfoldable pub fifo_read : Program F → Bool → ℕ → List ℕ → State F
  fifo_read p error absolute bytes =
      if error
      then exited failure_code
      else running (record p { system = handle_read p.system absolute bytes; reading = true })

  -- `System::handleWriteSerial`.
  unfoldable pub serial_written : Program F → Bool → State F
  serial_written p error = if error then exited failure_code else running p

  -- `TCPServer::handleAccept`.
  unfoldable pub accepted : Program F → Bool → State F
  accepted p error =
      if error
      then running (record p { accepting = false })
      else running (record p { sessions = p.sessions ++ (fresh p.system ∷ []); accepting = true })

  -- `TCPSession::handleRead` of one session; the sessions before and behind it stay. A fault is an
  -- access outside an array or an exception that nothing catches.
  unfoldable pub requested :
      Program F → List Streams → Streams → List Streams → List ℕ → ℕ → State F
  requested p before st behind bytes absolute =
      if overruns bytes then fault else (elim (session_read p.system st bytes absolute) [
        | none ↦ fault
        | some (a, buffer) ↦
            running (record p { system = a.system; sessions = before ++ (a.streams ∷ behind) })
      ])

  -- `TCPSession::handleTimer` of one session.
  unfoldable pub streamed : Program F → List Streams → Streams → List Streams → State F
  streamed p before st behind = elim (handle_timer p.system st) [
    | none ↦ fault
    | some (st', buffer) ↦ running (record p { sessions = before ++ (st' ∷ behind) })
  ]

  -- What happens to a program that runs: the call of a handler of the system, of the acceptor or of
  -- a session. What else a session has outstanding is the matter of its own lifecycle.
  pub data Step (p : Program F) : Event → State F → Type 0 where
    fifo :
        (error : Bool) (absolute : ℕ) (bytes : List ℕ)
        → p.reading ≡ true
        → length bytes ≤ recv_buffer
        → Step p on_system (fifo_read p error absolute bytes)
    serial : (error : Bool) → Step p on_system (serial_written p error)
    accept : (error : Bool) → p.accepting ≡ true → Step p on_accept (accepted p error)
    request :
        (before behind : List Streams) (st : Streams) (bytes : List ℕ) (absolute : ℕ)
        → p.sessions ≡ before ++ (st ∷ behind)
        → length bytes ≤ recv_buffer
        → Step p (on_request st bytes absolute) (requested p before st behind bytes absolute)
    update :
        (before behind : List Streams) (st : Streams)
        → p.sessions ≡ before ++ (st ∷ behind)
        → Step p (on_timer st) (streamed p before st behind)
    closed :
        (before behind : List Streams) (st : Streams)
        → p.sessions ≡ before ++ (st ∷ behind)
        → Step p on_close (running (record p { sessions = before ++ behind }))

  pub data Reach (s : State F) : State F → Type 0 where
    here : Reach s s
    next :
        {p : Program F} {e : Event} {s' : State F} → Reach s (running p) → Step p e s' → Reach s s'
