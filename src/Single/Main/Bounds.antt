-- ===== src/Single/Main/Bounds.antt =====
-- What holds of the node over any sequence of interrupts and rounds of the loop.
use scdtr.Prelude.{
  ℕ, ◌+◌, ◌<◌, ◌≡◌, refl, inl, inr, Option, some, List, [], ◌∷◌, arith, length, length-set,
  length-replicate, set, Option-cases,
}
use scdtr.Float.{Float, IsFloat}
use scdtr.Board.{buffer_size}
use scdtr.Board.Main.Led.{IsDuty}
use scdtr.Board.Main.Line.{CommandLine, read_char, read_line}
use scdtr.Single.Pi.{construct, configure_features, update}
use scdtr.Single.Main.{Node, Print, setup, process_command, loop, write_to_led, timer_interrupt}
use scdtr.Single.Main.Commands.{
  IsSetting, low, Effect, nothing, reference, feedforward, deadzone, anti_windup, Processed, fault,
  invalid, done, process_command-Processed,
}

-- The line buffer: a character and the NUL behind it fit.
pub record IsBuffer (l : CommandLine) : Type 0 where
  pub size : length l.cmd_buffer ≡ buffer_size
  pub room : l.offset < buffer_size

read_char-IsBuffer : (l : CommandLine) (c : ℕ) → IsBuffer l → IsBuffer (read_char l c).0
read_char-IsBuffer l c v = ground (
  arith,
  v.size,
  v.room,
  length-set l.cmd_buffer l.offset 0,
  length-set l.cmd_buffer l.offset c,
  length-set (set l.cmd_buffer l.offset c) (l.offset + 1) 0,
)

read_line-IsBuffer :
    (l : CommandLine) (available : List ℕ) → IsBuffer l → IsBuffer (read_line l available).line
unfolding read_line
read_line-IsBuffer l [] v = v
read_line-IsBuffer l (c ∷ rest) v =
    let w = read_char-IsBuffer l c v in
    ground (arith, w, read_line-IsBuffer (read_char l c).0 rest w)

module _ {F : Type 0} ⦃fl : Float F⦄ where
  -- One thing that happens to a node: the timer fires, or the loop goes round.
  pub data Step (n : Node F) : Node F → Type 0 where
    timer : (reading : ℕ) → Step n (timer_interrupt n reading)
    round :
        {n' : Node F} (available : List ℕ) (now : ℕ) (rest : List ℕ) (prints : List (Print F))
        → loop n available now ≡ some (n', rest, prints)
        → Step n n'

  pub data Reach (n : Node F) : Node F → Type 0 where
    here : Reach n n
    next : {m m' : Node F} → Reach n m → Step m m' → Reach n m'

  pub record IsSafe (n : Node F) : Type 0 where
    pub setting : IsSetting n.reference
    pub duty : IsDuty n.output
    pub flag : n.use_feedforward ≡ n.controller.use_feedforward
    pub buffer : IsBuffer n.line

  Effect-IsSafe : {n n' : Node F} → Effect n n' → IsSafe n → IsSafe n'
  Effect-IsSafe nothing v = v
  Effect-IsSafe {n} (reference x s) v = record {
    setting = s;
    duty = v.duty;
    flag = v.flag;
    buffer = v.buffer;
  }
  Effect-IsSafe {n} (feedforward b) v = record {
    setting = v.setting;
    duty = v.duty;
    flag = refl;
    buffer = v.buffer;
  }
  Effect-IsSafe {n} (deadzone b) v = record {
    setting = v.setting;
    duty = v.duty;
    flag = v.flag;
    buffer = v.buffer;
  }
  Effect-IsSafe {n} (anti_windup b) v = record {
    setting = v.setting;
    duty = v.duty;
    flag = v.flag;
    buffer = v.buffer;
  }

  Processed-IsSafe :
      {n : Node F} {tokens : List (List ℕ)} {o : Option (Node F × List (Print F))}
      → Processed n tokens o
      → (r : Node F × List (Print F)) → o ≡ some r
      → IsSafe n
      → IsSafe r.0
  Processed-IsSafe fault r e v = absurd (ground (arith, e))
  Processed-IsSafe (invalid command) r e v = ground (arith, e, v)
  Processed-IsSafe (done command param rest q f) r e v = ground (arith, e, Effect-IsSafe f v)

  loop-IsSafe :
      (n : Node F) (available : List ℕ) (now : ℕ) (r : Node F × List ℕ × List (Print F))
      → loop n available now ≡ some r
      → IsSafe n
      → IsSafe r.0
  unfolding loop
  loop-IsSafe n available now r e v =
      let l = read_line n.line available in
      let n' = record n { line = l.line } in
      let v' : IsSafe n' = record {
        setting = v.setting;
        duty = v.duty;
        flag = v.flag;
        buffer = read_line-IsBuffer n.line available v.buffer;
      } in
      elim (Option-cases (process_command n')) [
        | inl f ↦ ground (arith, e, f, v')
        | inr (q, f) ↦
            ground (arith, e, f, v', Processed-IsSafe (process_command-Processed n') q f v')
      ]

  module _ (laws : IsFloat F) where
    write_to_led-within : (x : F) → IsDuty (write_to_led x)
    unfolding write_to_led
    write_to_led-within x = ground (
      arith,
      laws.lit_mono 0 255 (omega arith),
      laws.lit_mono 255 255 (omega arith),
      laws.lit_mono 0 0 (omega arith),
    )

    Step-IsSafe : {n n' : Node F} → Step n n' → IsSafe n → IsSafe n'
    unfolding timer_interrupt update
    Step-IsSafe {n} (timer reading) v = record {
      setting = v.setting;
      duty = write_to_led-within _;
      flag = v.flag;
      buffer = v.buffer;
    }
    Step-IsSafe {n} (round available now rest prints e) v = loop-IsSafe n available now _ e v

    -- Whatever happens to a node after its setup, in whatever order: its reference is 0, one of the
    -- two named values, or a number between 0 and 150; its output is between 0 and 255; the flag
    -- that it prints for feedforward is that of its controller; and the offset in the line buffer
    -- leaves room for a NUL in its 30 characters.
    pub Reach-IsSafe : {n : Node F} → Reach setup n → IsSafe n
    unfolding setup construct configure_features
    Reach-IsSafe here = record {
      setting = low refl;
      duty = record {
        at_least = laws.lit_mono 0 0 (omega arith);
        at_most = laws.lit_mono 0 255 (omega arith);
      };
      flag = refl;
      buffer = record { size = length-replicate {A = ℕ} 30 0; room = omega arith };
    }
    Reach-IsSafe (next r st) = Step-IsSafe st (Reach-IsSafe r)
