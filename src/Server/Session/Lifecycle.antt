-- ===== src/Server/Session/Lifecycle.antt =====
-- TCPSession.cpp and TCPServer.cpp: the asynchronous operations of a client's session. An operation
-- that has been started is outstanding until its handler is called. Boost calls the handlers one at a
-- time, in any order; the destructor closes the socket and cancels the timer, and what is then
-- outstanding ends with an error.
pub mod Turns
use scdtr.Prelude.{
  ℕ, zero, suc, ◌+◌, ◌*◌, ◌≡◌, ◌<◌, Bool, true, false, Option, none, some, List, [], ◌∷◌, ◌++◌,
  replicate,
}
use scdtr.Float.{Float}
use scdtr.Server.{stream_flags}
use scdtr.Server.System.{System}
use scdtr.Server.Request.{Streams, Answer}
use scdtr.Server.Session.{session_read, handle_timer}

-- `startRead`, `startWrite` and `startStreamWrite` with the buffer that they send, and the wait of
-- the timer.
pub data Operation : Type 0 where
  reading : Operation
  writing : List ℕ → Operation
  streaming : List ℕ → Operation
  waiting : Operation

-- `deletions` counts the calls of `delete this`.
pub record Session (F : Type 0) : Type 0 where
  pub system : System F
  pub streams : Streams
  pub outstanding : List Operation
  pub deletions : ℕ

module _ {F : Type 0} where
  -- The constructor and `start`.
  abbrev pub start : System F → Session F
  start system = record {
    system = system;
    streams = record {
      timestamps = replicate system.nodes 0;
      flags = replicate (stream_flags * system.nodes) false;
    };
    outstanding = reading ∷ waiting ∷ [];
    deletions = 0;
  }

-- Whether the handler deletes the session at an error: that of the timer does not.
abbrev pub deletes : Operation → Bool
deletes reading = true
deletes (writing buffer) = true
deletes (streaming buffer) = true
deletes waiting = false

-- What `handleTimer` starts.
abbrev pub timer_starts : Option (List ℕ) → List Operation
timer_starts none = waiting ∷ []
timer_starts (some buffer) = streaming buffer ∷ waiting ∷ []

module _ {F : Type 0} ⦃fl : Float F⦄ where
  -- The call of a handler; `before` and `behind` are the other operations that are outstanding. The
  -- system is shared with the other sessions.
  pub data Step (s : Session F) : Session F → Type 0 where
    read :
        (before behind : List Operation) (bytes : List ℕ) (absolute : ℕ) (a : Answer F)
        (buffer : List ℕ)
        → s.outstanding ≡ before ++ (reading ∷ behind)
        → s.deletions ≡ 0
        → session_read s.system s.streams bytes absolute ≡ some (a, buffer)
        → Step s (record {
          system = a.system;
          streams = a.streams;
          outstanding = writing buffer ∷ (before ++ behind);
          deletions = s.deletions;
        })
    written :
        (before behind : List Operation) (buffer : List ℕ)
        → s.outstanding ≡ before ++ (writing buffer ∷ behind)
        → s.deletions ≡ 0
        → Step s (record s { outstanding = reading ∷ (before ++ behind) })
    streamed :
        (before behind : List Operation) (buffer : List ℕ)
        → s.outstanding ≡ before ++ (streaming buffer ∷ behind)
        → s.deletions ≡ 0
        → Step s (record s { outstanding = before ++ behind })
    timed :
        (before behind : List Operation) (streams : Streams) (text : Option (List ℕ))
        → s.outstanding ≡ before ++ (waiting ∷ behind)
        → s.deletions ≡ 0
        → handle_timer s.system s.streams ≡ some (streams, text)
        → Step s
            (record s { streams = streams; outstanding = timer_starts text ++ (before ++ behind) })
    failed :
        (before behind : List Operation) (o : Operation)
        → s.outstanding ≡ before ++ (o ∷ behind)
        → deletes o ≡ true
        → Step s (record s { outstanding = before ++ behind; deletions = s.deletions + 1 })
    cancelled :
        (before behind : List Operation)
        → s.outstanding ≡ before ++ (waiting ∷ behind)
        → 0 < s.deletions
        → Step s (record s { outstanding = before ++ behind })
    elsewhere : (system : System F) → Step s (record s { system = system })

  pub data Reach (s : Session F) : Session F → Type 0 where
    here : Reach s s
    next : {t u : Session F} → Reach s t → Step t u → Reach s u
