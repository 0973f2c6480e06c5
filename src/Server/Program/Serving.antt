-- ===== src/Server/Program/Serving.antt =====
-- The program over its life: what holds whatever happens to it.
use scdtr.Prelude.{ℕ, ◌≤◌, ◌≡◌, true, some, List, get_elem?, length}
use scdtr.Float.{Float}
use scdtr.Server.Request.{Streams, Answer, parse_request}
use scdtr.Server.Request.Update.{stream_update}
use scdtr.Text.{words, c_string}
use scdtr.Server.Session.{is_delimiter, overruns}
use scdtr.Server.Program.Whole.{IsWhole}
use scdtr.Server.Program.{Program, State, exited, fault, running, Event, on_request, on_timer}

module _ {F : Type 0} ⦃fl : Float F⦄ where
  -- A program after the event `e` of `p`: exited, or running and whole, or at a fault that the event
  -- explains: a read that fills the buffer without an end, a request whose answer is too long for
  -- the buffer, or an update of the streams that is.
  pub data IsServing (p : Program F) : Event → State F → Type 0 where
    is_exited : {e : Event} (code : ℕ) → IsServing p e (exited code)
    is_running : {e : Event} {p' : Program F} → IsWhole p' → IsServing p e (running p')
    is_overrun :
        {st : Streams} {bytes : List ℕ} {absolute : ℕ}
        → overruns bytes ≡ true
        → IsServing p (on_request st bytes absolute) fault
    is_long_answer :
        {st : Streams} {bytes : List ℕ} {absolute : ℕ} (text : List ℕ) (a : Answer F)
        → get_elem? (words is_delimiter (c_string bytes)) 0 ≡ some text
        → parse_request p.system st text absolute ≡ some a
        → 1022 ≤ length a.response
        → IsServing p (on_request st bytes absolute) fault
    is_long_update :
        {st : Streams}
        → 1022 ≤ length (stream_update p.system st).1
        → IsServing p (on_timer st) fault

  -- What `main` leaves: no fault.
  pub data IsStarted : State F → Type 0 where
    start_exited : (code : ℕ) → IsStarted (exited code)
    start_running : {p : Program F} → IsWhole p → IsStarted (running p)
