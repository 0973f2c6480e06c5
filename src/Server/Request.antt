-- ===== src/Server/Request.antt =====
-- request.cpp and request.hpp: the requests of a client, and in Update the updates of its streams.
-- `none` is a fault: `std::out_of_range` that nothing catches, or an access outside a vector.
pub mod Sound
pub mod Update
pub mod Described
pub mod Streaming
pub mod Silenced
use scdtr.Prelude.{
  ℕ, zero, suc, ◌+◌, ◌-◌, ◌*◌, ◌%◌, ◌^◌, Bool, true, false, not, ◌&&◌, ◌||◌, Option, none, some,
  List, [], ◌∷◌, ◌++◌, ltb, ◌==◌, if◌then◌else◌, length, get_or, get_elem?, set,
}
use scdtr.Prelude.Int.{ℤ, pos, negsuc}
use scdtr.Float.{Float, ◌⊘◌}
use scdtr.Text.{is_space, words, stoi, to_string, same_text}
use scdtr.Server.{stream_flags, ulong_mod}
use scdtr.Server.System.{
  Entry, System, reset, millis, minus_one, get_latest_entry, get_lux, get_duty_cycle, get_occupancy,
  get_lux_lower_bound, get_lux_external, get_lux_reference, get_timestamp,
}
use scdtr.Server.System.Figures.{get_power, get_energy, get_comfort_error, get_comfort_variance}
use scdtr.Server.System.Period.{get_values_in_period}

-- The state of a client's streams: `last_update_` and `flags_` of its session.
pub record Streams : Type 0 where
  pub timestamps : List ℕ
  pub flags : List Bool

-- What a request leaves: the state, the text for the client, the messages to the master's serial
-- port, and whether the log is saved to a file.
pub record Answer (F : Type 0) : Type 0 where
  pub system : System F
  pub streams : Streams
  pub response : List ℕ
  pub serial : List (List ℕ)
  pub saved : Bool

-- `ACK` and `INVALID`.
abbrev pub ack_text : List ℕ
ack_text = b'a' ∷ b'c' ∷ b'k' ∷ []

abbrev pub invalid_text : List ℕ
invalid_text =
    b'I' ∷ b'n' ∷ b'v' ∷ b'a' ∷ b'l' ∷ b'i' ∷ b'd' ∷ b' ' ∷ b'r' ∷ b'e' ∷ b'q' ∷ b'u' ∷ b'e' ∷ b's'
    ∷ b't' ∷ b'!' ∷ []

-- What `startWriteSerial` sends.
abbrev pub with_crnl : List ℕ → List ℕ
with_crnl msg = msg ++ (13 ∷ 10 ∷ [])

-- A text of one character.
abbrev pub single : List ℕ → Option ℕ
single (c ∷ []) = some c
single _ = none

-- `stoi` and the test of the range; an exception counts as out of range.
unfoldable pub valid_id : ℕ → List ℕ → Option ℕ
valid_id nodes arg = elim (stoi arg) [
  | none ↦ none
  | some (pos n) ↦ if ltb n nodes then some n else none
  | some (negsuc n) ↦ none
]

-- A write to a vector by `[]` or `at`.
abbrev pub put : {A : Type 0} → List A → ℕ → A → Option (List A)
put xs i x = if ltb i (length xs) then some (set xs i x) else none

-- The loop of a reset over the nodes from `i` on, `left` of them.
pub clear_streams : ℕ → ℕ → Streams → Option Streams
clear_streams zero i st = some st
clear_streams (suc left) i st = elim (put st.timestamps i 0) [
  | none ↦ none
  | some timestamps ↦ elim (put st.flags (i * stream_flags) false) [
    | none ↦ none
    | some flags ↦ elim (put flags (i * stream_flags + 1) false) [
      | none ↦ none
      | some flags' ↦
          clear_streams left (i + 1) (record { timestamps = timestamps; flags = flags' })
    ]
  ]
]

-- A minute before `now`, in a `long`; a negative value counts as 0.
abbrev pub minute_ago : ℕ → ℕ
minute_ago now =
    let difference = (now + ulong_mod - 60000) % ulong_mod in
    if ltb difference (2 ^ 31) then difference else 0

abbrev pub is_figure : ℕ → Bool
is_figure param = param == b'p' || param == b'e' || param == b'c' || param == b'v'

-- The variable of a stream: the place of its flag.
abbrev pub stream_of : ℕ → Option ℕ
stream_of var = if var == b'l' then some 0 else if var == b'd' then some 1 else none

-- The text of an answer about a node, or about all for `none`.
abbrev pub about : ℕ → Option ℕ → List ℕ → List ℕ
about param id value =
    param ∷ b' ' ∷ (elim id [ none ↦ b'T' ∷ [] | some i ↦ to_string i ]) ++ (b' ' ∷ value)

-- -1 as a `size_t`, for all nodes.
abbrev index_of : Option ℕ → ℕ
index_of none = 2 ^ 32 - 1
index_of (some i) = i

abbrev is_total : Option ℕ → Bool
is_total none = true
is_total (some i) = false

module _ {F : Type 0} ⦃fl : Float F⦄ where
  -- A `long` from an `unsigned long`, as a number.
  abbrev signed_long : ℕ → F
  signed_long n = if ltb n (2 ^ 31) then fl.lit n 1 else fl.neg (fl.lit (ulong_mod - n) 1)

  -- The switch over the parameter of a GET request.
  unfoldable pub get_parameter : System F → ℕ → Option ℕ → List ℕ
  get_parameter s param id =
      let i = index_of id in
      let total = is_total id in
      if param == b'l'
      then about param id (fl.to_string (get_lux s i))
      else if param == b'd'
      then about param id (fl.to_string (get_duty_cycle s i))
      else if param == b'o'
      then about param id (if get_occupancy s i then b'1' ∷ [] else b'0' ∷ [])
      else if param == b'L'
      then about param id (fl.to_string (get_lux_lower_bound s i))
      else if param == b'O'
      then about param id (fl.to_string (get_lux_external s i))
      else if param == b'r'
      then about param id (fl.to_string (get_lux_reference s i))
      else if param == b'p'
      then about param id (fl.to_string (get_power s i total))
      else if param == b'e'
      then about param id (fl.to_string (get_energy s i total))
      else if param == b'c'
      then about param id (fl.to_string (get_comfort_error s i total))
      else if param == b'v'
      then about param id (fl.to_string (get_comfort_variance s i total))
      else if param == b't'
      then about param id (fl.to_string (signed_long (get_timestamp s i) ⊘ fl.lit 1000 1))
      else invalid_text

  abbrev pub reply : System F → Streams → List ℕ → Answer F
  reply s st text = record { system = s; streams = st; response = text; serial = []; saved = false }

  unfoldable pub get_request : System F → ℕ → List ℕ → List ℕ
  get_request s param arg =
      if same_text arg (b'T' ∷ [])
      then (if is_figure param then get_parameter s param none else invalid_text)
      else (elim (valid_id s.nodes arg) [
        | none ↦ invalid_text
        | some id ↦ get_parameter s param (some id)
      ])

  unfoldable pub set_request : System F → Streams → List ℕ → List ℕ → List ℕ → Answer F
  set_request s st request cmd arg = elim (valid_id s.nodes cmd) [
    | none ↦ reply s st invalid_text
    | some id ↦ elim (stoi arg) [
      | none ↦ reply s st invalid_text
      | some val ↦ record (reply s st ack_text) { serial = with_crnl request ∷ [] }
    ]
  ]

  -- The start or stop of a stream.
  unfoldable pub stream_request : System F → Streams → Bool → ℕ → ℕ → Option (Answer F)
  stream_request s st start var id = elim (stream_of var) [
    | none ↦ some (reply s st invalid_text)
    | some k ↦ elim (put st.flags (id * stream_flags + k) start) [
      | none ↦ none
      | some flags ↦ some (reply s (record st { flags = flags }) [])
    ]
  ]

  -- The three requests with a variable and a node.
  abbrev pub node_request : System F → Streams → ℕ → ℕ → List ℕ → ℕ → Option (Answer F)
  node_request s st type var arg absolute = elim (valid_id s.nodes arg) [
    | none ↦ some (reply s st invalid_text)
    | some id ↦
        let now = millis s absolute in
        if type == b'b'
        then some (reply s st (get_values_in_period s id (minute_ago now) now var))
        else stream_request s st (type == b'c') var id
  ]

  unfoldable pub reset_request : System F → Streams → ℕ → Option (Answer F)
  unfolding clear_streams
  reset_request s st absolute = elim (reset s absolute) [
    | none ↦ none
    | some s' ↦ elim (clear_streams s'.nodes 0 st) [
      | none ↦ none
      | some st' ↦ some (record (reply s' st' ack_text) { serial = with_crnl (b'r' ∷ []) ∷ [] })
    ]
  ]

  -- The requests whose second word is one character `c`.
  abbrev pub command_request :
      System F → Streams → List ℕ → ℕ → ℕ → List ℕ → List ℕ → ℕ → Option (Answer F)
  command_request s st request type c cmd arg absolute =
      if type == b'g'
      then some (reply s st (get_request s c arg))
      else if type == b's'
      then some (set_request s st request cmd arg)
      else if type == b'c' || type == b'd' || type == b'b'
      then node_request s st type c arg absolute
      else some (reply s st invalid_text)

  abbrev pub typed_request :
      System F → Streams → List ℕ → ℕ → List ℕ → List ℕ → ℕ → Option (Answer F)
  typed_request s st request type cmd arg absolute =
      if type == b'r'
      then reset_request s st absolute
      else if type == b'A'
      then some (record (reply s st []) { serial = with_crnl (b'A' ∷ []) ∷ [] })
      else if type == b'D'
      then some (record (reply s st []) { serial = with_crnl (b'D' ∷ []) ∷ [] })
      else if type == b'S'
      then some (record (reply s st []) { saved = true })
      else (elim (single cmd) [
        | none ↦ some (reply s st invalid_text)
        | some c ↦ command_request s st request type c cmd arg absolute
      ])

  -- `parseRequest`, with the response that it starts from empty; the words that are missing are
  -- empty.
  unfoldable pub parse_request : System F → Streams → List ℕ → ℕ → Option (Answer F)
  unfolding get_request set_request stream_request reset_request
  parse_request s st request absolute =
      let tokens = words is_space request in
      elim (single (get_or tokens 0 [])) [
        | none ↦ some (reply s st invalid_text)
        | some type ↦
            typed_request s st request type (get_or tokens 1 []) (get_or tokens 2 []) absolute
      ]
