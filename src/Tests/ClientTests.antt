-- ===== src/Tests/ClientTests.antt =====
-- A client that connects at the second endpoint, and one that stops.
use scdtr.Prelude.{ℕ, ◌+◌, ◌≡◌, refl, true, false, some, List, [], ◌∷◌, length, replicate, Bool}
use scdtr.Client.{
  Operation, connecting, receiving, beating, watching, typing, Client, Completion, handle, start,
  called, Run, stay, then_step,
}
use scdtr.Client.Life.{IsLive, Run-stopped, Run-IsLive, overflows}

abbrev junk : List ℕ
junk = replicate 1024 0

abbrev done : Bool → ℕ → Completion
done failed now = record { failed = failed; line = []; now = now }

abbrev first : Client
first = start (7 ∷ 8 ∷ []) 0 junk

abbrev waiting : List Operation → Client
waiting os = record {
  stopped = false;
  socket_open = true;
  deadline = some 70;
  send_buffer = junk;
  outstanding = os;
}

abbrev second : Client
second = waiting (connecting (8 ∷ []) ∷ watching ∷ typing ∷ [])

abbrev connected : Client
connected = record (waiting (beating ∷ receiving ∷ watching ∷ typing ∷ [])) { deadline = some 42 }

-- The first endpoint refuses, and the second one answers.
two_attempts : Run first 2 connected
unfolding handle
two_attempts =
    then_step
      (then_step stay (
        called {c' = second} (watching ∷ typing ∷ []) [] (connecting (7 ∷ 8 ∷ [])) (done true 10)
          refl refl))
      (called [] (watching ∷ typing ∷ []) (connecting (8 ∷ [])) (done false 12) refl refl)

Run-IsLive_example : IsLive connected.outstanding
Run-IsLive_example = Run-IsLive 7 0 (8 ∷ []) junk two_attempts refl

abbrev ended : List Operation → Client
ended os = record (waiting os) { stopped = true; socket_open = false }

two_calls : Run (ended (receiving ∷ beating ∷ typing ∷ [])) 2 (ended (beating ∷ []))
unfolding handle
two_calls =
    then_step
      (then_step stay (
        called {c' = ended (beating ∷ typing ∷ [])} [] (beating ∷ typing ∷ []) receiving
          (done true 1) refl refl))
      (called (beating ∷ []) [] typing (done true 2) refl refl)

Run-stopped_example :
    ((ended (beating ∷ [])).stopped ≡ true)
    × (2 + length (beating ∷ []) ≡ length (receiving ∷ beating ∷ typing ∷ []))
Run-stopped_example = Run-stopped two_calls refl

abbrev long : Completion
long = record { failed = false; line = replicate 1024 65; now = 3 }

long_line : overflows connected typing long ≡ true
long_line = refl
