-- ===== src/Server/Accept.antt =====
-- rpi/src/TCPServer.cpp: the accept of clients. An accept ends with an error or with a new client.
use scdtr.Prelude.{
  ℕ, zero, suc, ◌≡◌, refl, Bool, true, false, List, [], ◌∷◌, ◌++◌, if◌then◌else◌, replicate, arith,
}
use mathlib.Core.List.{append_assoc, append-nil}
use scdtr.Server.System.{System}
use scdtr.Server.Session.Lifecycle.{Session, start}

-- `accepting`: an accept is outstanding.
pub record TcpServer (F : Type 0) : Type 0 where
  pub system : System F
  pub sessions : List (Session F)
  pub accepting : Bool

module _ {F : Type 0} where
  abbrev pub start_accept : TcpServer F → TcpServer F
  start_accept s = record s { accepting = true }

  -- With `TCPSession::start` of the new session.
  abbrev pub handle_accept : TcpServer F → Bool → TcpServer F
  handle_accept s error =
      let s' = record s { accepting = false } in
      if error
      then s'
      else start_accept (record s' { sessions = s.sessions ++ (start s.system ∷ []) })

  -- What becomes of the accepts, by their errors.
  unfoldable pub accept_all : TcpServer F → List Bool → TcpServer F
  accept_all s [] = s
  accept_all s (error ∷ later) =
      let t = accept_all (handle_accept s error) later in if s.accepting then t else s

  closed : (s : TcpServer F) (later : List Bool) → s.accepting ≡ false → accept_all s later ≡ s
  unfolding accept_all
  closed s [] h = refl
  closed s (error ∷ later) h = ground (arith, h)

  -- A server with an accept outstanding starts a session for each client until an accept ends with an
  -- error. Then it has the sessions that it had and one for each of those clients, no accept is
  -- outstanding, and nothing that comes later changes that.
  pub accept_all-error :
      (s : TcpServer F) (clients : ℕ) (later : List Bool)
      → s.accepting ≡ true
      → accept_all s (replicate clients false ++ (true ∷ later)) ≡ record s {
        sessions = s.sessions ++ replicate clients (start s.system);
        accepting = false;
      }
  unfolding accept_all
  accept_all-error s zero later h =
      let over = closed (record s { accepting = false }) later refl in
      ground (arith, h, over, append-nil s.sessions)
  accept_all-error s (suc clients) later h =
      let one = record s { sessions = s.sessions ++ (start s.system ∷ []); accepting = true } in
      let rest = accept_all-error one clients later refl in
      let whole =
        append_assoc s.sessions (start s.system ∷ []) (replicate clients (start s.system)) in
      ground (arith, h, rest, whole)
