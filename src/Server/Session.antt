-- ===== src/Server/Session.antt =====
-- TCPSession.cpp: what a client's session reads and writes. `none` is a fault: an access outside an
-- array, or an exception that nothing catches. Each buffer is cleared before it is filled.
pub mod Lifecycle
use scdtr.Prelude.{
  ℕ, zero, suc, ◌+◌, ◌-◌, ◌≤◌, ◌<◌, ◌≡◌, refl, ap, ◌∙◌, inl, inr, Bool-cases, Bool, true, false,
  not, ◌&&◌, Option, none, some, List, [], ◌∷◌, ◌++◌, arith, if◌then◌else◌, ltb, lt→ltb, ◌==◌,
  length, get_elem?, set, take, replicate, All, length-append, length-replicate,
}
use scdtr.Float.{Float}
use scdtr.Text.{words, c_string, is_empty}
use scdtr.Text.Words.{words-cons, c_string-cons, c_string-All, c_string-append}
use scdtr.Server.{recv_buffer, send_buffer}
use scdtr.Server.System.{System}
use scdtr.Server.Request.{Streams, Answer, put, reply, parse_request}
use scdtr.Server.Request.Update.{stream_update}

-- `MSG_DELIMETER`.
abbrev pub msg_delimiter : ℕ
msg_delimiter = 10

abbrev pub is_delimiter : ℕ → Bool
is_delimiter c = c == msg_delimiter

-- `strncpy` of `count` characters into an array of zeros.
abbrev copied : ℕ → List ℕ → List ℕ
copied count text =
    let front = take count (c_string text) in front ++ replicate (send_buffer - length front) 0

-- A response in the buffer: cut to its size, with the delimiter one place behind the NUL.
unfoldable pub put_response : List ℕ → Option (List ℕ)
put_response response =
    let count =
      if ltb (length response) (send_buffer - 1) then length response else send_buffer - 1 in
    put (copied count response) (count + 1) msg_delimiter

-- Whether a delimiter or a NUL comes behind the delimiters at the start.
abbrev is_ended : Bool → List ℕ → Bool
is_ended word [] = false
is_ended word (c ∷ cs) =
    let ends = is_ended true cs in
    let skips = is_ended word cs in
    if c == 0 then true else if is_delimiter c then (if word then true else skips) else ends

-- A read that fills the buffer, in which `strtok` runs over the end.
abbrev pub overruns : List ℕ → Bool
overruns bytes = length bytes == recv_buffer && not (is_ended false bytes)

module _ {F : Type 0} ⦃fl : Float F⦄ where
  -- `handleRead` on bytes that `strtok` does not run over: what the request leaves, and the buffer that
  -- is written to the client. Only the first line counts.
  unfoldable pub session_read : System F → Streams → List ℕ → ℕ → Option (Answer F × List ℕ)
  session_read s st bytes absolute = elim (get_elem? (words is_delimiter (c_string bytes)) 0) [
    | none ↦ some (reply s st [], msg_delimiter ∷ replicate (send_buffer - 1) 0)
    | some request ↦ elim (parse_request s st request absolute) [
      | none ↦ none
      | some a ↦ elim (put_response a.response) [ none ↦ none | some buffer ↦ some (a, buffer) ]
    ]
  ]

  -- `handleTimer`: the streams after the update, and the buffer if there is something to send.
  unfoldable pub handle_timer : System F → Streams → Option (Streams × Option (List ℕ))
  handle_timer s st =
      let (st', response) = stream_update s st in
      if is_empty response
      then some (st', none)
      else (elim (put_response response) [ none ↦ none | some buffer ↦ some (st', some buffer) ])

take_all : (xs : List ℕ) → take (length xs) xs ≡ xs
take_all [] = refl
take_all (x ∷ xs) = ap (λ ys. x ∷ ys) (take_all xs)

length-take_le : (n : ℕ) (xs : List ℕ) → length (take n xs) ≤ n
length-take_le zero xs = omega arith
length-take_le (suc n) [] = omega arith
length-take_le (suc n) (x ∷ xs) = omega (arith, length-take_le n xs)

set_behind :
    (xs : List ℕ) (a b v : ℕ) (ys : List ℕ)
    → set (xs ++ (a ∷ b ∷ ys)) (length xs + 1) v ≡ xs ++ (a ∷ v ∷ ys)
set_behind [] a b v ys = refl
set_behind (x ∷ xs) a b v ys =
    let step : suc (length xs) + 1 ≡ suc (length xs + 1) = omega arith in
    rw step (ap (λ zs. x ∷ zs) (set_behind xs a b v ys))

length-copied : (n : ℕ) (text : List ℕ) → n ≤ 1023 → length (copied n text) ≡ send_buffer
length-copied n text h =
    let front = take n (c_string text) in
    omega (
      arith,
      length-append front (replicate (send_buffer - length front) 0),
      length-replicate {A = ℕ} (send_buffer - length front) 0,
      length-take_le n (c_string text),
    )

copied_lem :
    (text : List ℕ)
    → All (λ c. c == 0 ≡ false) text
    → (k : ℕ) → length text + 2 + k ≡ 1023
    → copied (length text) text ≡ text ++ (0 ∷ 0 ∷ replicate k 0)
copied_lem text h k n =
    let front : take (length text) (c_string text) ≡ text =
      ap (take (length text)) (c_string-All text h) ∙ take_all text in
    let room : send_buffer - length text ≡ suc (suc k) = omega arith in rw (front, room) refl

-- A response of fewer than 1022 characters is sent whole: the text, a NUL, the delimiter, and zeros
-- up to the size of the buffer.
pub put_response-short :
    (response : List ℕ)
    → All (λ c. c == 0 ≡ false) response
    → length response < 1022
    → (k : ℕ) × (put_response response ≡ some (response ++ (0 ∷ msg_delimiter ∷ replicate k 0)))
      × (length response + 2 + k ≡ 1023)
unfolding put_response
put_response-short response h small =
    let n = length response in
    let k = 1021 - n in
    let whole : copied n response ≡ response ++ (0 ∷ 0 ∷ replicate k 0) =
      copied_lem response h k (omega arith) in
    let fits : ltb (n + 1) (length (copied n response)) ≡ true =
      lt→ltb (n + 1) _ (omega (arith, length-copied n response (omega arith))) in
    let kept = lt→ltb n 1022 small in
    (
      k,
      rw (kept, fits, put_response)
          (ap (λ xs. some (set xs (n + 1) msg_delimiter)) whole
            ∙ ap some (set_behind response 0 0 msg_delimiter (replicate k 0))),
      omega arith,
    )

-- A response of 1022 characters or more makes the delimiter an access behind the end of the buffer.
pub put_response-long : (response : List ℕ) → 1022 ≤ length response → put_response response ≡ none
unfolding put_response
put_response-long response h =
    let cut : ltb (length response) 1022 ≡ false = ground arith in
    let full : ltb 1023 (length (copied 1022 response)) ≡ false =
      ground (arith, length-copied 1022 response (omega arith)) in
    rw (cut, full, put_response) refl

-- No other response does.
pub put_response-fault : (response : List ℕ) → put_response response ≡ none → 1022 ≤ length response
unfolding put_response
put_response-fault response e = elim (Bool-cases (ltb (length response) 1022)) [
  | inr long ↦ ground arith
  | inl short ↦
      let room : ltb (length response + 1) (length (copied (length response) response)) ≡ true =
        lt→ltb _ _
          (ground (arith, length-copied (length response) response (ground (arith, short)))) in
      absurd (ground (arith, e, short, room))
]

-- The request of a read is its first line.
first_line :
    (c : ℕ) (line rest : List ℕ)
    → All (λ d. is_delimiter d ≡ false) (c ∷ line)
    → All (λ d. d == 0 ≡ false) (c ∷ line)
    → get_elem? (words is_delimiter (c_string ((c ∷ line) ++ (msg_delimiter ∷ rest)))) 0
      ≡ some (c ∷ line)
first_line c line rest word text =
    ap (λ xs. get_elem? (words is_delimiter xs) 0)
      (c_string-append (c ∷ line) (msg_delimiter ∷ rest) text
        ∙ ap (λ xs. (c ∷ line) ++ xs) (c_string-cons msg_delimiter rest refl))
    ∙ ap (λ ws. get_elem? ws 0)
        (words-cons is_delimiter c msg_delimiter line (c_string rest) word refl)

module _ {F : Type 0} ⦃fl : Float F⦄ (s : System F) (st : Streams) (c : ℕ) (line rest : List ℕ)
    (absolute : ℕ) (a : Answer F) (word : All (λ d. is_delimiter d ≡ false) (c ∷ line))
    (text : All (λ d. d == 0 ≡ false) (c ∷ line))
    (answered : parse_request s st (c ∷ line) absolute ≡ some a) where
  -- A read that starts with a line that is not empty and has no NUL: the answer is that of the
  -- request in the line, whatever follows, and it is sent whole, with a NUL and the delimiter
  -- behind it, if it is shorter than 1022 characters and has no NUL.
  pub session_read-line :
      length a.response < 1022
      → All (λ d. d == 0 ≡ false) a.response
      → (k : ℕ) × (session_read s st ((c ∷ line) ++ (msg_delimiter ∷ rest)) absolute
          ≡ some (a, a.response ++ (0 ∷ msg_delimiter ∷ replicate k 0)))
        × (length a.response + 2 + k ≡ 1023)
  unfolding session_read
  session_read-line small clean =
      let (k, put, measured) = put_response-short a.response clean small in
      (k, rw (first_line c line rest word text, answered, put, session_read) refl, measured)

  -- Such a read whose answer has 1022 characters or more is an access outside the buffer.
  pub session_read_overflow :
      1022 ≤ length a.response
      → session_read s st ((c ∷ line) ++ (msg_delimiter ∷ rest)) absolute ≡ none
  unfolding session_read
  session_read_overflow large =
      rw
        (
          first_line c line rest word text,
          answered,
          put_response-long a.response large,
          session_read,
        )
        refl
