-- ===== src/Server/Session/Lifecycle/Turns.antt =====
-- Reads, writes and deletions of a session.
use scdtr.Prelude.{
  ℕ, suc, ◌+◌, ◌<◌, ◌≡◌, refl, ap, ◌∙◌, Option, none, some, List, [], ◌∷◌, ◌++◌, arith,
}
use scdtr.Prelude.Counting.{count, count-split}
use scdtr.Float.{Float}
use scdtr.Server.System.{System}
use scdtr.Server.Session.Lifecycle.{
  Operation, reading, writing, streaming, waiting, Session, start, timer_starts, Step, read,
  written, streamed, timed, failed, cancelled, elsewhere, Reach, here, next,
}

-- Whether an operation belongs to the answers to requests, to the timer, or to the stream, as a
-- number.
abbrev pub turns : Operation → ℕ
turns reading = 1
turns (writing buffer) = 1
turns (streaming buffer) = 0
turns waiting = 0

abbrev pub waits : Operation → ℕ
waits reading = 0
waits (writing buffer) = 0
waits (streaming buffer) = 0
waits waiting = 1

abbrev pub streams : Operation → ℕ
streams reading = 0
streams (writing buffer) = 0
streams (streaming buffer) = 1
streams waiting = 0

count-timer_starts :
    (text : Option (List ℕ)) (os : List Operation)
    → (count turns (timer_starts text ++ os) ≡ count turns os)
      × (count waits (timer_starts text ++ os) ≡ suc (count waits os))
unfolding count
count-timer_starts none os = (omega arith, omega arith)
count-timer_starts (some buffer) os = (omega arith, omega arith)

module _ {F : Type 0} ⦃fl : Float F⦄ where
  -- Before the session is deleted, one read or one write of an answer is outstanding, and one wait.
  pub record IsTurn (s : Session F) : Type 0 where
    pub turn : count turns s.outstanding ≡ 1
    pub timer : count waits s.outstanding ≡ 1

  -- What is left of these when the handler of one operation is called.
  without :
      (s : Session F) (before behind : List Operation) (o : Operation)
      → s.outstanding ≡ before ++ (o ∷ behind)
      → IsTurn s
      → (turns o + count turns (before ++ behind) ≡ 1)
        × (waits o + count waits (before ++ behind) ≡ 1)
  without s before behind o e v = (
    omega (arith, v.turn, count-split turns _ before behind o e),
    omega (arith, v.timer, count-split waits _ before behind o e),
  )

  Step-IsTurn :
      {s t : Session F} → Step s t → (s.deletions ≡ 0 → IsTurn s) → t.deletions ≡ 0 → IsTurn t
  unfolding count
  Step-IsTurn {s} (read before behind bytes absolute a buffer e alive answer) v still =
      let kept = without s before behind _ e (v alive) in
      record { turn = omega (arith, kept); timer = omega (arith, kept) }
  Step-IsTurn {s} (written before behind buffer e alive) v still =
      let kept = without s before behind _ e (v alive) in
      record { turn = omega (arith, kept); timer = omega (arith, kept) }
  Step-IsTurn {s} (streamed before behind buffer e alive) v still =
      let kept = without s before behind _ e (v alive) in
      record { turn = omega (arith, kept); timer = omega (arith, kept) }
  Step-IsTurn {s} (timed before behind st text e alive h) v still =
      let kept = without s before behind _ e (v alive) in
      let started = count-timer_starts text (before ++ behind) in
      record { turn = omega (arith, kept, started); timer = omega (arith, kept, started) }
  Step-IsTurn (failed before behind o e d) v still = absurd (omega (arith, still))
  Step-IsTurn (cancelled before behind e dead) v still = absurd (omega (arith, still, dead))
  Step-IsTurn {s} (elsewhere system) v still =
      let w = v still in record { turn = w.turn; timer = w.timer }

  -- Until the session is deleted, exactly one read or write of an answer is outstanding, so the
  -- buffer of a request is not filled again before its answer has gone out, and exactly one wait of
  -- the timer.
  pub Reach-IsTurn :
      (system : System F) {s : Session F} → Reach (start system) s → s.deletions ≡ 0 → IsTurn s
  unfolding count
  Reach-IsTurn system here alive = record { turn = refl; timer = refl }
  Reach-IsTurn system (next {t} {u} r st) alive = Step-IsTurn st (Reach-IsTurn system r) alive

  -- What is left to delete, and what has been deleted.
  abbrev total : Session F → ℕ
  total s = s.deletions + count turns s.outstanding + count streams s.outstanding

  Step-total : {s t : Session F} → Step s t → 0 < t.deletions → total t ≡ total s
  unfolding count
  Step-total (read before behind bytes absolute a buffer e alive answer) dead =
      absurd (omega (arith, alive, dead))
  Step-total (written before behind buffer e alive) dead = absurd (omega (arith, alive, dead))
  Step-total (streamed before behind buffer e alive) dead = absurd (omega (arith, alive, dead))
  Step-total (timed before behind st text e alive h) dead = absurd (omega (arith, alive, dead))
  Step-total (failed before behind o e d) dead =
      let turn = count-split turns _ before behind o e in
      let stream = count-split streams _ before behind o e in ground (arith, turn, stream, d)
  Step-total (cancelled before behind e alive) dead =
      let turn = count-split turns _ before behind _ e in
      let stream = count-split streams _ before behind _ e in omega (arith, turn, stream)
  Step-total (elsewhere system) dead = refl

  Step-dead : {s t : Session F} → Step s t → 0 < s.deletions → 0 < t.deletions
  Step-dead (read before behind bytes absolute a buffer e alive answer) dead = dead
  Step-dead (written before behind buffer e alive) dead = dead
  Step-dead (streamed before behind buffer e alive) dead = dead
  Step-dead (timed before behind st text e alive h) dead = dead
  Step-dead (failed before behind o e d) dead = omega (arith, dead)
  Step-dead (cancelled before behind e alive) dead = dead
  Step-dead (elsewhere system) dead = dead

  Reach-total :
      {s t : Session F} → Reach s t → 0 < s.deletions → (0 < t.deletions) × (total t ≡ total s)
  Reach-total here dead = (dead, refl)
  Reach-total (next {t} {u} r st) dead =
      let (dead', same) = Reach-total r dead in
      let dead'' = Step-dead st dead' in (dead'', Step-total st dead'' ∙ same)

  -- The handler that first deletes a session is not the last one, if writes of the stream are
  -- outstanding then: when all that was outstanding has ended, the session has been deleted once, and
  -- once more for each of those writes.
  pub deletions_lem :
      (system : System F) {s u t : Session F}
      → Reach (start system) s
      → s.deletions ≡ 0
      → Step s u
      → 0 < u.deletions
      → Reach u t
      → t.outstanding ≡ []
      → t.deletions ≡ 1 + count streams s.outstanding
  unfolding count
  deletions_lem system {s} {u} {t} r alive st dead after over =
      let v = Reach-IsTurn system r alive in
      let (dead', same) = Reach-total after dead in
      omega (
        arith,
        v.turn,
        alive,
        same,
        Step-total st dead,
        ap (count turns) over,
        ap (count streams) over,
      )
