-- ===== src/Board/Main/Line.antt =====
-- `readLine` of main.ino: the buffer of the command line.
use mathlib.Core.List.{append_assoc, append-nil}
use scdtr.Prelude.{
  ℕ, zero, suc, ◌+◌, ◌-◌, ◌<◌, ◌≡◌, refl, sym, ap, ◌∙◌, Bool, true, false, ◌||◌, List, [], ◌∷◌,
  ◌++◌, arith, ltb, ◌==◌, if◌then◌else◌, length, set, take, drop, All, length-append, length-set,
}
use scdtr.Board.{buffer_size}

-- `cmd_buffer`, and the static `offset`.
pub record CommandLine : Type 0 where
  pub cmd_buffer : List ℕ
  pub offset : ℕ

abbrev pub is_eol : ℕ → Bool
is_eol c = c == 13 || c == 10

-- One turn of the loop: the new state, and whether the function returns with a line.
abbrev pub read_char : CommandLine → ℕ → CommandLine × Bool
read_char l cur =
    if is_eol cur
    then (let buffer = set l.cmd_buffer l.offset 0 in
        if ltb 0 l.offset
        then (record { cmd_buffer = buffer; offset = 0 }, true)
        else (record { cmd_buffer = buffer; offset = 0 }, false))
    else if ltb l.offset (buffer_size - 1)
    then (
      record {
        cmd_buffer = set (set l.cmd_buffer l.offset cur) (l.offset + 1) 0;
        offset = l.offset + 1;
      },
      false,
    )
    else (l, false)

pub record LineRead : Type 0 where
  pub line : CommandLine
  pub found : Bool
  pub available : List ℕ

-- `readLine` on what Serial holds; what it has not read stays there.
unfoldable pub read_line : CommandLine → List ℕ → LineRead
read_line l [] = record { line = l; found = false; available = [] }
read_line l (cur ∷ rest) =
    let (l', done) = read_char l cur in
    let later = read_line l' rest in
    if done then record { line = l'; found = true; available = rest } else later

-- `seen` is what the array holds in front of the offset.
pub record IsFilled (l : CommandLine) (seen : List ℕ) : Type 0 where
  pub tail : List ℕ
  pub contents : l.cmd_buffer ≡ seen ++ tail
  pub at : l.offset ≡ length seen
  pub size : length l.cmd_buffer ≡ buffer_size
  pub room : length seen < buffer_size

-- A line has been read: the text, a NUL behind it, and the array as long as it was.
pub record IsLine (r : LineRead) (text rest : List ℕ) : Type 0 where
  pub tail : List ℕ
  pub contents : r.line.cmd_buffer ≡ text ++ (0 ∷ tail)
  pub size : length r.line.cmd_buffer ≡ buffer_size
  pub reset : r.line.offset ≡ 0
  pub found : r.found ≡ true
  pub available : r.available ≡ rest

set-append :
    (xs : List ℕ) (y v : ℕ) (ys : List ℕ) → set (xs ++ (y ∷ ys)) (length xs) v ≡ xs ++ (v ∷ ys)
set-append [] y v ys = refl
set-append (x ∷ xs) y v ys = ap (λ zs. x ∷ zs) (set-append xs y v ys)

-- An end of line behind `xs`, and a character with the NUL behind it.
stored_end :
    (xs tail : List ℕ)
    → length xs < length (xs ++ tail)
    → set (xs ++ tail) (length xs) 0 ≡ xs ++ (0 ∷ drop 1 tail)
stored_end xs [] h = absurd (omega (arith, length-append xs []))
stored_end xs (y ∷ ys) h = set-append xs y 0 ys

stored_char :
    (xs tail : List ℕ) (c : ℕ)
    → length xs + 1 < length (xs ++ tail)
    → set (set (xs ++ tail) (length xs) c) (length xs + 1) 0 ≡ (xs ++ (c ∷ [])) ++ (0 ∷ drop 2 tail)
stored_char xs [] c h = absurd (omega (arith, length-append xs []))
stored_char xs (y ∷ []) c h = absurd (omega (arith, length-append xs (y ∷ [])))
stored_char xs (y ∷ z ∷ zs) c h =
    let step : length xs + 1 ≡ length (xs ++ (c ∷ [])) = omega (arith, length-append xs (c ∷ [])) in
    ap (λ ys. set ys (length xs + 1) 0) (set-append xs y c (z ∷ zs))
    ∙ ap (λ ys. set ys (length xs + 1) 0) (sym (append_assoc xs (c ∷ []) (z ∷ zs)))
    ∙ ap (λ n. set ((xs ++ (c ∷ [])) ++ (z ∷ zs)) n 0) step
    ∙ set-append (xs ++ (c ∷ [])) z 0 zs

char_kept : CommandLine → ℕ → CommandLine
char_kept l c = record {
  cmd_buffer = set (set l.cmd_buffer l.offset c) (l.offset + 1) 0;
  offset = l.offset + 1;
}

char_kept-IsFilled :
    (l : CommandLine) (seen : List ℕ) (c : ℕ)
    → IsFilled l seen
    → length seen < 29
    → IsFilled (char_kept l c) (seen ++ (c ∷ []))
unfolding char_kept
char_kept-IsFilled l seen c v small = record {
  tail = 0 ∷ drop 2 v.tail;
  contents =
      rw (v.contents, v.at)
        (stored_char seen v.tail c (omega (arith, v.size, ap length v.contents)));
  at = omega (arith, v.at, length-append seen (c ∷ []));
  size =
      length-set (set l.cmd_buffer l.offset c) (l.offset + 1) 0
      ∙ length-set l.cmd_buffer l.offset c
      ∙ v.size;
  room = omega (arith, length-append seen (c ∷ []));
}

IsLine-end :
    (l : CommandLine) (seen : List ℕ) (e : ℕ) (rest : List ℕ)
    → IsFilled l seen
    → is_eol e ≡ true
    → 0 < length seen
    → IsLine (read_line l (e ∷ rest)) seen rest
unfolding read_line
IsLine-end l seen e rest v h some_char =
    let buffer = set l.cmd_buffer l.offset 0 in
    let l' : CommandLine = record { cmd_buffer = buffer; offset = 0 } in
    let end : read_line l (e ∷ rest) ≡ record { line = l'; found = true; available = rest } =
      ground (arith, v.at) in
    let stored : buffer ≡ seen ++ (0 ∷ drop 1 v.tail) =
      rw (v.contents, v.at)
        (stored_end seen v.tail (omega (arith, v.size, v.room, ap length v.contents))) in
    let measured = length-set l.cmd_buffer l.offset 0 ∙ v.size in
    rw end record {
      tail = drop 1 v.tail;
      contents = stored;
      size = measured;
      reset = refl;
      found = refl;
      available = refl;
    }

char_step :
    (l : CommandLine) (c : ℕ) (rest : List ℕ)
    → is_eol c ≡ false
    → read_line l (c ∷ rest) ≡ read_line (if ltb l.offset 29 then char_kept l c else l) rest
unfolding read_line char_kept
char_step l c rest h = ground arith

read_line_from :
    (k : ℕ) (l : CommandLine) (seen word : List ℕ) (e : ℕ) (rest : List ℕ)
    → length seen + k ≡ 29
    → IsFilled l seen
    → All (λ c. is_eol c ≡ false) word
    → is_eol e ≡ true
    → 0 < length seen + length word
    → IsLine (read_line l (word ++ (e ∷ rest))) (seen ++ take k word) rest
read_line_from zero l seen [] e rest n v ok h some_char =
    rw (append-nil seen) (IsLine-end l seen e rest v h (omega arith))
read_line_from (suc k) l seen [] e rest n v ok h some_char =
    rw (append-nil seen) (IsLine-end l seen e rest v h (omega arith))
read_line_from zero l seen (c ∷ word) e rest n v ok h some_char =
    let full : (if ltb l.offset 29 then char_kept l c else l) ≡ l = ground (arith, v.at, n) in
    rw (char_step l c (word ++ (e ∷ rest)) ok.0, full)
      (read_line_from zero l seen word e rest n v ok.1 h (omega arith))
read_line_from (suc k) l seen (c ∷ word) e rest n v ok h some_char =
    let fits : (if ltb l.offset 29 then char_kept l c else l) ≡ char_kept l c =
      ground (arith, v.at, n) in
    let later =
      read_line_from k (char_kept l c) (seen ++ (c ∷ [])) word e rest
        (omega (arith, length-append seen (c ∷ []))) (char_kept-IsFilled l seen c v (omega arith))
        ok.1 h (omega (arith, length-append seen (c ∷ []))) in
    rw
      (
        char_step l c (word ++ (e ∷ rest)) ok.0,
        fits,
        sym (append_assoc seen (c ∷ []) (take k word)),
      )
      later

-- A line that is not empty, at offset 0 of the 30 characters of the buffer, whatever they hold: the
-- buffer gets its first 29 characters with a NUL behind them and stays as long as it was, the offset
-- is 0 again, and what follows the end of the line is not read.
pub read_line-IsLine :
    (l : CommandLine) (word : List ℕ) (e : ℕ) (rest : List ℕ)
    → l.offset ≡ 0
    → length l.cmd_buffer ≡ buffer_size
    → All (λ c. is_eol c ≡ false) word
    → is_eol e ≡ true
    → 0 < length word
    → IsLine (read_line l (word ++ (e ∷ rest))) (take 29 word) rest
read_line-IsLine l word e rest at size ok h some_char =
    let some_char' : 0 < 0 + length word = omega arith in
    read_line_from 29 l [] word e rest refl
      (record { tail = l.cmd_buffer; contents = refl; at = at; size = size; room = omega arith }) ok
      h some_char'
