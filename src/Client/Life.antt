-- ===== src/Client/Life.antt =====
-- What a client is waiting for, and how it ends.
use scdtr.Prelude.{
  ℕ, suc, ◌+◌, ◌≡◌, refl, ◌∙◌, ap, Bool, true, false, Option, none, some, List, [], ◌∷◌, ◌++◌,
  length, length-append, arith, inl, inr, Bool-cases, not, ◌&&◌, leb,
}
use scdtr.Prelude.Counting.{count, count-split}
use scdtr.Text.{is_empty}
use scdtr.Client.{
  Operation, connecting, receiving, beating, pausing, watching, typing, sending, Client, Completion,
  handle, start, Step, called, Run, stay, then_step, max_length,
}

-- The connection, the heartbeat, the deadline and the console, as numbers.
abbrev pub connections : Operation → ℕ
connections (connecting endpoints) = 1
connections receiving = 1
connections _ = 0

abbrev pub reads : Operation → ℕ
reads receiving = 1
reads _ = 0

abbrev pub beats : Operation → ℕ
beats beating = 1
beats pausing = 1
beats _ = 0

abbrev pub watches : Operation → ℕ
watches watching = 1
watches _ = 0

abbrev pub consoles : Operation → ℕ
consoles typing = 1
consoles _ = 0

pub record IsLive (os : List Operation) : Type 0 where
  pub one_connection : count connections os ≡ 1
  pub one_beat : count beats os ≡ count reads os
  pub one_watch : count watches os ≡ 1
  pub one_console : count consoles os ≡ 1

-- The operations without one, as sums.
record IsLess (os : List Operation) (o : Operation) : Type 0 where
  connection : connections o + count connections os ≡ 1
  beat : beats o + count beats os ≡ reads o + count reads os
  watch : watches o + count watches os ≡ 1
  console : consoles o + count consoles os ≡ 1

less :
    (all before behind : List Operation) (o : Operation)
    → all ≡ before ++ (o ∷ behind)
    → IsLive all
    → IsLess (before ++ behind) o
less all before behind o e v = record {
  connection = omega (arith, v.one_connection, count-split connections all before behind o e);
  beat = omega (
    arith,
    v.one_beat,
    count-split beats all before behind o e,
    count-split reads all before behind o e,
  );
  watch = omega (arith, v.one_watch, count-split watches all before behind o e);
  console = omega (arith, v.one_console, count-split consoles all before behind o e);
}

handle-IsLive :
    (c c' : Client) (o : Operation) (e : Completion)
    → handle c o e ≡ some c'
    → c.stopped ≡ false
    → IsLess c.outstanding o
    → c'.stopped ≡ false
    → IsLive c'.outstanding
unfolding handle count
handle-IsLive c c' (connecting []) e h live v live' = ground (arith, h, live, v, live')
handle-IsLive c c' (connecting (p ∷ [])) e h live v live' = ground (arith, h, live, v, live')
handle-IsLive c c' (connecting (p ∷ q ∷ ps)) e h live v live' = ground (arith, h, live, v, live')
handle-IsLive c c' receiving e h live v live' = ground (arith, h, live, v, live')
handle-IsLive c c' beating e h live v live' = ground (arith, h, live, v, live')
handle-IsLive c c' pausing e h live v live' = ground (arith, h, live, v, live')
handle-IsLive c c' watching e h live v live' = ground (arith, h, live, v, live')
handle-IsLive c c' typing e h live v live' = ground (arith, h, live, v, live')
handle-IsLive c c' sending e h live v live' = ground (arith, h, live, v, live')

handle_stopped :
    (c c' : Client) (o : Operation) (e : Completion)
    → handle c o e ≡ some c'
    → c.stopped ≡ true
    → c' ≡ c
unfolding handle
handle_stopped c c' (connecting endpoints) e h dead = ground (arith, h, dead)
handle_stopped c c' receiving e h dead = ground (arith, h, dead)
handle_stopped c c' beating e h dead = ground (arith, h, dead)
handle_stopped c c' pausing e h dead = ground (arith, h, dead)
handle_stopped c c' watching e h dead = ground (arith, h, dead)
handle_stopped c c' typing e h dead = ground (arith, h, dead)
handle_stopped c c' sending e h dead = ground (arith, h, dead)

Step-stopped :
    {c d : Client}
    → Step c d
    → c.stopped ≡ true
    → (d.stopped ≡ true) × (suc (length d.outstanding) ≡ length c.outstanding)
Step-stopped {c} {d} (called before behind o e parts h) dead =
    let same = handle_stopped (record c { outstanding = before ++ behind }) d o e h dead in
    (
      ap (λ x. x.stopped) same ∙ dead,
      omega (
        arith,
        ap (λ x. length x.outstanding) same,
        ap length parts,
        length-append before behind,
        length-append before (o ∷ behind),
      ),
    )

-- A client that has stopped starts nothing more: it stays stopped, and every call of a handler leaves
-- one operation less outstanding, so there are no more calls than there were operations.
pub Run-stopped :
    {c d : Client} {n : ℕ}
    → Run c n d
    → c.stopped ≡ true
    → (d.stopped ≡ true) × (n + length d.outstanding ≡ length c.outstanding)
Run-stopped stay dead = (dead, omega arith)
Run-stopped (then_step r st) dead =
    let (dead', left) = Run-stopped r dead in
    let (dead'', less) = Step-stopped st dead' in (dead'', omega (arith, left, less))

Step-IsLive :
    {c d : Client}
    → Step c d
    → (c.stopped ≡ false → IsLive c.outstanding)
    → d.stopped ≡ false
    → IsLive d.outstanding
Step-IsLive {c} {d} (called before behind o e parts h) v live = elim (Bool-cases c.stopped) [
  | inl dead ↦
      let same = handle_stopped (record c { outstanding = before ++ behind }) d o e h dead in
      absurd (ground (arith, same, dead, live))
  | inr going ↦
      handle-IsLive (record c { outstanding = before ++ behind }) d o e h going
        (less c.outstanding before behind o parts (v going)) live
]

-- Until it stops, a client that was started with an endpoint waits for one thing of its connection, a
-- connect or a read, for one of the deadline and for one of the console; and the heartbeat goes, with
-- one write or one pause, exactly when it reads.
pub Run-IsLive :
    (endpoint now : ℕ) (endpoints junk : List ℕ) {c : Client} {n : ℕ}
    → Run (start (endpoint ∷ endpoints) now junk) n c
    → c.stopped ≡ false
    → IsLive c.outstanding
unfolding count
Run-IsLive endpoint now endpoints junk stay live = record {
  one_connection = refl;
  one_beat = refl;
  one_watch = refl;
  one_console = refl;
}
Run-IsLive endpoint now endpoints junk (then_step {d = d} r st) live =
    Step-IsLive st (Run-IsLive endpoint now endpoints junk r) live

is_empty-length : (xs : List ℕ) → is_empty xs ≡ true → length xs ≡ 0
is_empty-length [] h = refl
is_empty-length (x ∷ xs) h = cc

-- Whether a line from the console does not fit the buffer.
abbrev pub overflows : Client → Operation → Completion → Bool
overflows c typing e = not c.stopped && not e.failed && leb max_length (length e.line)
overflows c _ e = false

abbrev pub is_none : Option Client → Bool
is_none none = true
is_none (some c) = false

-- The only fault of a client is a line of 1024 characters or more that is typed before it stops: with
-- its end of line it is written behind the end of the buffer. Nothing tests its length.
pub handle_fault :
    (c : Client) (o : Operation) (e : Completion) → is_none (handle c o e) ≡ overflows c o e
unfolding handle
handle_fault c (connecting endpoints) e = refl
handle_fault c receiving e = refl
handle_fault c beating e = refl
handle_fault c pausing e = refl
handle_fault c watching e = refl
handle_fault c sending e = refl
handle_fault c typing e = ground (arith, length-append e.line (10 ∷ []), is_empty-length e.line)
