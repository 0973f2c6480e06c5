-- ===== src/Client.antt =====
-- rpi/src/client.cpp: the command-line client. An asynchronous operation that has been started is
-- outstanding until its handler is called; Boost calls the handlers one at a time, in any order.
-- `none` is a write outside the buffer of a line.
pub mod Life
use scdtr.Prelude.{
  ℕ, zero, suc, ◌+◌, ◌≡◌, Bool, true, false, not, Option, none, some, List, [], ◌∷◌, ◌++◌, ltb, leb,
  if◌then◌else◌, length, drop,
}
use scdtr.Text.{is_empty}

-- `max_length`.
abbrev pub max_length : ℕ
max_length = 1024

-- What a handler is bound to: `connecting` has the endpoints from the one that is tried, `beating` is
-- the write of a heartbeat, `pausing` the wait for the next one, `watching` that for the deadline,
-- `typing` the read from the console, and `sending` the write of a line.
pub data Operation : Type 0 where
  connecting : List ℕ → Operation
  receiving beating pausing watching typing sending : Operation

-- `deadline` is `none` for `pos_infin`.
pub record Client : Type 0 where
  pub stopped : Bool
  pub socket_open : Bool
  pub deadline : Option ℕ
  pub send_buffer : List ℕ
  pub outstanding : List Operation

-- What comes with the call of a handler: the error code, the line that a read from the console gives,
-- and the time in seconds.
pub record Completion : Type 0 where
  pub failed : Bool
  pub line : List ℕ
  pub now : ℕ

abbrev pub started : Client → Operation → Client
started c o = record c { outstanding = o ∷ c.outstanding }

abbrev pub stop : Client → Client
stop c = record c { stopped = true; socket_open = false }

-- `async_connect` opens the socket.
abbrev pub start_connect : Client → List ℕ → ℕ → Client
start_connect c [] now = stop c
start_connect c (e ∷ rest) now =
    started (record c { deadline = some (now + 60); socket_open = true }) (connecting (e ∷ rest))

abbrev pub start_read : Client → ℕ → Client
start_read c now = started (record c { deadline = some (now + 30) }) receiving

abbrev pub start_write : Client → Client
start_write c = if c.stopped then c else started c beating

abbrev pub handle_connect : Client → List ℕ → Completion → Client
handle_connect c endpoints e =
    if c.stopped
    then c
    else if not c.socket_open
    then start_connect c (drop 1 endpoints) e.now
    else if e.failed
    then start_connect (record c { socket_open = false }) (drop 1 endpoints) e.now
    else start_write (start_read c e.now)

abbrev pub handle_read : Client → Completion → Client
handle_read c e = if c.stopped then c else if e.failed then stop c else start_read c e.now

abbrev pub handle_write : Client → Completion → Client
handle_write c e = if c.stopped then c else if e.failed then stop c else started c pausing

-- Whether the deadline has passed.
abbrev pub is_late : Option ℕ → ℕ → Bool
is_late none now = false
is_late (some deadline) now = leb deadline now

abbrev pub check_deadline : Client → Completion → Client
check_deadline c e =
    if c.stopped
    then c
    else started
        (if is_late c.deadline e.now then record c { socket_open = false; deadline = none } else c)
        watching

-- The line is copied into the buffer with an end of line behind it; what the buffer holds after it is
-- kept.
abbrev pub send_line : Client → List ℕ → Option Client
send_line c line =
    let terminated_line = line ++ (10 ∷ []) in
    let n = length terminated_line in
    if ltb max_length n
    then none
    else some (started (record c { send_buffer = terminated_line ++ drop n c.send_buffer }) sending)

abbrev pub handle_read_console : Client → Completion → Option Client
handle_read_console c e =
    if c.stopped
    then some c
    else if e.failed
    then some (stop c)
    else if is_empty e.line
    then some (started c typing)
    else (elim (send_line c e.line) [ none ↦ none | some c' ↦ some (started c' typing) ])

abbrev pub handle_send : Client → Completion → Client
handle_send c e = if c.stopped then c else if e.failed then stop c else c

-- The handler of an operation.
unfoldable pub handle : Client → Operation → Completion → Option Client
handle c (connecting endpoints) e = some (handle_connect c endpoints e)
handle c receiving e = some (handle_read c e)
handle c beating e = some (handle_write c e)
handle c pausing e = some (start_write c)
handle c watching e = some (check_deadline c e)
handle c typing e = handle_read_console c e
handle c sending e = some (handle_send c e)

-- The constructor, and `start` at the endpoints that the resolver has found.
abbrev pub start : List ℕ → ℕ → List ℕ → Client
start endpoints now junk =
    let c : Client = record {
      stopped = false;
      socket_open = false;
      deadline = none;
      send_buffer = junk;
      outstanding = [];
    } in
    started (started (start_connect c endpoints now) typing) watching

-- The call of a handler; `before` and `behind` are the other operations that are outstanding.
pub data Step (c : Client) : Client → Type 0 where
  called :
      {c' : Client} (before behind : List Operation) (o : Operation) (e : Completion)
      → c.outstanding ≡ before ++ (o ∷ behind)
      → handle (record c { outstanding = before ++ behind }) o e ≡ some c'
      → Step c c'

-- So many calls.
pub data Run (c : Client) : ℕ → Client → Type 0 where
  stay : Run c zero c
  then_step : {n : ℕ} {d d' : Client} → Run c n d → Step d d' → Run c (suc n) d'
