-- ===== src/Board/Main/Command.antt =====
-- `processCommand` of main.ino: what the master does with a line of its serial port.
pub mod Agreement
use scdtr.Prelude.{
  ℕ, zero, suc, ◌+◌, ◌*◌, ◌-◌, ◌%◌, ◌^◌, ◌≤◌, ◌<◌, ◌≡◌, ◌≢◌, refl, sym, ap, ◌∙◌, Bool, true, false,
  not, ◌&&◌, ◌||◌, Option, none, some, List, [], ◌∷◌, ◌++◌, map, arith, ltb, ◌==◌, if◌then◌else◌,
  length, get_elem?, set, replicate, All,
}
use scdtr.Prelude.Int.{ℤ, pos, negsuc}
use scdtr.Float.{Float, IsFloat}
use scdtr.Board.{n_nodes, master, nd, low_lux, high_lux}
use scdtr.Board.Communication.{
  Shared, Message, send_packet, send_consensus, on_receive, order_bound, res, don, dof,
}
use scdtr.Board.Communication.Orders.{on_receive-send_consensus}
use scdtr.Text.{same_text, words, c_string, atoi}
use scdtr.Text.Words.{IsWord, words-cons, words-last, same_text_refl}

-- The delimiters of `strtok`.
abbrev pub delimits : ℕ → Bool
delimits c = c == b' ' || c == 10

-- The loop over the receivers from `receiver` on, `left` of them.
abbrev pub broadcast_from : ℕ → ℕ → (ℕ → Message) → List Message
broadcast_from zero receiver send = []
broadcast_from (suc left) receiver send =
    let rest = broadcast_from left (receiver + 1) send in
    if receiver == master then rest else send receiver ∷ rest

abbrev pub broadcast : (ℕ → Message) → List Message
broadcast = broadcast_from n_nodes 0

-- An `int` of the board has 16 bits.
abbrev pub to_int16 : ℤ → ℤ
to_int16 (pos n) =
    if ltb (n % 2 ^ 16) (2 ^ 15) then pos (n % 2 ^ 16) else negsuc (2 ^ 16 - 1 - n % 2 ^ 16)
to_int16 (negsuc n) =
    if ltb (n % 2 ^ 16) (2 ^ 15) then negsuc (n % 2 ^ 16) else pos (2 ^ 16 - 1 - n % 2 ^ 16)

-- `i >= 0 && i < N`, with -2 for a missing parameter.
abbrev node_index : Option (List ℕ) → Option ℕ
node_index none = none
node_index (some param) = elim (to_int16 (atoi param)) [
  | pos i ↦ if ltb i n_nodes then some i else none
  | negsuc i ↦ none
]

abbrev is_zero : ℤ → Bool
is_zero (pos n) = n == 0
is_zero (negsuc n) = false

module _ {F : Type 0} ⦃fl : Float F⦄ where
  -- The value as a number; `ND` for a missing one.
  abbrev pub number_of : Option (List ℕ) → F
  number_of none = nd
  number_of (some value) = fl.of_string value

  -- The lower bound to set: a value of the occupancy is 0 or not. A missing text is a fault of
  -- `atoi`.
  abbrev pub bound_of : Bool → Option (List ℕ) → F → Option F
  bound_of false value f = some f
  bound_of true none f = none
  bound_of true (some value) f =
      some (if is_zero (to_int16 (atoi value)) then low_lux else high_lux)

  unfoldable pub order : Shared F → ℕ → F → Shared F × List Message
  order s i f =
      let bounds = if i == master then replicate n_nodes nd else set (replicate n_nodes nd) i f in
      let s' =
        if i == master
        then record s {
          ref = if s.distributed then s.ref else f;
          lower_bound = f;
          occupancy = not (fl.le f low_lux);
        }
        else s in
      (
        record s' { changed = true },
        broadcast (λ receiver. send_consensus s.dev_id receiver true bounds),
      )

  -- The last branch: an order of the two kinds for a node that exists.
  abbrev process_order :
      Shared F → List ℕ → Option (List ℕ) → Option (List ℕ) → Option (Shared F × List Message)
  process_order s command param value =
      if same_text command (b's' ∷ []) || same_text command (b'l' ∷ [])
      then (elim (node_index param) [
        | none ↦ some (s, [])
        | some i ↦
            if fl.eq (number_of value) nd
            then some (s, [])
            else (elim (bound_of (same_text command (b's' ∷ [])) value (number_of value)) [
              | none ↦ none
              | some f ↦ some (order s i f)
            ])
      ])
      else some (s, [])

  -- The branches of `processCommand`, by the words of the line; `none` is the fault of `strcmp` on
  -- the null pointer of a line with no word.
  unfoldable pub process_tokens : Shared F → List (List ℕ) → Option (Shared F × List Message)
  unfolding order
  process_tokens s tokens = elim (get_elem? tokens 0) [
    | none ↦ none
    | some command ↦
        if same_text command (b'r' ∷ [])
        then some
            (record s { reset = true }, broadcast (λ receiver. send_packet s.dev_id receiver res))
        else if same_text command (b'A' ∷ [])
        then some (
          record s { distributed = true },
          broadcast (λ receiver. send_packet s.dev_id receiver don),
        )
        else if same_text command (b'D' ∷ [])
        then some (
          record s { distributed = false },
          broadcast (λ receiver. send_packet s.dev_id receiver dof),
        )
        else process_order s command (get_elem? tokens 1) (get_elem? tokens 2)
  ]

  -- The variables after the command and the messages it sends. The buffer is not used again before it
  -- is filled again.
  unfoldable pub process_command : Shared F → List ℕ → Option (Shared F × List Message)
  process_command s cmd_buffer = process_tokens s (words delimits (c_string cmd_buffer))
