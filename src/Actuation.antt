-- ===== src/Actuation.antt =====
-- A client's order on its way to the nodes: `parseRequest` of rpi/src/request.cpp writes it to the
-- serial port, `readLine` and `processCommand` of multiple_board/main/main.ino take it from there,
-- and `onReceive` of multiple_board/main/communication.cpp gets what the master sends on.
use mathlib.Core.List.{append-nil}
use scdtr.Prelude.{
  ℕ, zero, suc, ◌≤◌, ◌<◌, ◌≡◌, refl, ap, ◌∙◌, inl, inr, true, false, ◌==◌, some, List, [], ◌∷◌,
  ◌++◌, arith, length, take, All, get_or, Option-cases,
}
use scdtr.Prelude.Int.{ℤ, pos, negsuc}
use scdtr.Float.{Float, IsFloat}
use scdtr.Text.{is_space, words, c_string, stoi, atoi, parse_int, same_text}
use scdtr.Text.Words.{c_string-append, c_string-nul}
use scdtr.Board.{buffer_size, nd}
use scdtr.Board.Communication.{Shared, Message}
use scdtr.Board.Main.{Node, communication, receive}
use scdtr.Board.Main.Line.{CommandLine, is_eol, read_line, read_line-IsLine}
use scdtr.Board.Main.Command.{delimits, bound_of, to_int16, process_command}
use scdtr.Board.Main.Command.Agreement.{ordered, process_command-order}
use scdtr.Server.System.{System}
use scdtr.Server.Request.{
  Streams, reply, ack_text, with_crnl, single, valid_id, typed_request, set_request, parse_request,
}

-- What the server takes for the id of a node, the master reads as the same number.
atoi-valid_id : (nodes i : ℕ) (text : List ℕ) → valid_id nodes text ≡ some i → atoi text ≡ pos i
unfolding valid_id stoi atoi
atoi-valid_id nodes i text h = elim (Option-cases (parse_int text)) [
  | inl e ↦ absurd (ground (arith, e, h))
  | inr (pos n, e) ↦ ground (arith, e, h)
  | inr (negsuc n, e) ↦ absurd (ground (arith, e, h))
]

to_int16-valid_id :
    (nodes i : ℕ) (text : List ℕ)
    → i < 2
    → valid_id nodes text ≡ some i
    → to_int16 (atoi text) ≡ pos i
to_int16-valid_id nodes zero text small h = rw (atoi-valid_id nodes zero text h) refl
to_int16-valid_id nodes (suc zero) text small h = rw (atoi-valid_id nodes 1 text h) refl
to_int16-valid_id nodes (suc (suc i)) text small h = absurd (omega arith)

take_whole : (n : ℕ) (xs : List ℕ) → length xs ≤ n → take n xs ≡ xs
take_whole zero [] h = refl
take_whole zero (x ∷ xs) h = absurd (omega arith)
take_whole (suc n) [] h = refl
take_whole (suc n) (x ∷ xs) h = ap (λ ys. x ∷ ys) (take_whole n xs (omega arith))

-- A line of the serial port that fits the buffer is what the master's commands are read from.
pub line_buffered :
    (l : CommandLine) (request : List ℕ)
    → l.offset ≡ 0
    → length l.cmd_buffer ≡ buffer_size
    → All (λ c. is_eol c ≡ false) request
    → All (λ c. c == 0 ≡ false) request
    → 0 < length request
    → length request ≤ 29
    → let r = read_line l (with_crnl request) in
      (r.found ≡ true) × (c_string r.line.cmd_buffer ≡ request)
line_buffered l request at size line text some_char small =
    let read = read_line-IsLine l request 13 (10 ∷ []) at size line refl some_char in
    (
      read.found,
      ap c_string (read.contents ∙ ap (λ xs. xs ++ (0 ∷ read.tail)) (take_whole 29 request small))
          ∙ c_string-append request (0 ∷ read.tail) text
          ∙ ap (λ xs. request ++ xs) (c_string-nul read.tail)
          ∙ append-nil request,
    )

module _ {F : Type 0} ⦃fl : Float F⦄ where
  pub parse_request-set :
      (s : System F) (st : Streams) (request param value : List ℕ) (c i absolute : ℕ) (z : ℤ)
      → words is_space request ≡ (b's' ∷ []) ∷ param ∷ value ∷ []
      → single param ≡ some c
      → valid_id s.nodes param ≡ some i
      → stoi value ≡ some z
      → parse_request s st request absolute
        ≡ some (record (reply s st ack_text) { serial = with_crnl request ∷ [] })
  unfolding parse_request set_request
  parse_request-set s st request param value c i absolute z split one known number =
      let p1 : get_or (words is_space request) 1 [] ≡ param = ap (λ ws. get_or ws 1 []) split in
      let p2 : get_or (words is_space request) 2 [] ≡ value = ap (λ ws. get_or ws 2 []) split in
      let typed : typed_request s st request b's' param value absolute
          ≡ some (set_request s st request param value) =
        rw one refl in
      let set : set_request s st request param value
          ≡ record (reply s st ack_text) { serial = with_crnl request ∷ [] } =
        rw (known, number, set_request) refl in
      rw (split, parse_request)
        (ap (λ x. typed_request s st request b's' x (get_or (words is_space request) 2 []) absolute)
            p1
          ∙ ap (λ x. typed_request s st request b's' param x absolute) p2
          ∙ typed
          ∙ ap some set)

  -- A client's order to set the occupancy of node `i`, one of the two, in a request of at most 29
  -- characters with no NUL and no end of line: the server acknowledges it, changes nothing, and
  -- writes the request to the serial port; the master, node 0, with its buffer of 30 characters at
  -- the start, reads it from there as one line and sends one message, to node 1; and behind it both
  -- nodes have a change to react to, with the bound that belongs to the occupancy set in node `i`
  -- alone. Node 1 must have the handler of its main loop installed: one that calibrates or solves
  -- loses the order. The master reads the id and the occupancy as numbers of its `int`, which has
  -- 16 bits. The words must be the same for the server and for the master, whose delimiters are
  -- fewer; the id must be one character, and the value a number; and neither the value nor the
  -- bound may be -2.
  pub parse_request-ordered :
      (laws : IsFloat F) (s : System F) (st : Streams) (master : Shared F) (other : Node F)
      (l : CommandLine) (request param value : List ℕ) (c i absolute : ℕ) (z : ℤ) (f : F)
      → words is_space request ≡ (b's' ∷ []) ∷ param ∷ value ∷ []
      → words delimits request ≡ (b's' ∷ []) ∷ param ∷ value ∷ []
      → single param ≡ some c
      → valid_id s.nodes param ≡ some i
      → i < 2
      → stoi value ≡ some z
      → fl.eq (fl.of_string value) nd ≡ false
      → bound_of true (some value) (fl.of_string value) ≡ some f
      → fl.eq f nd ≡ false
      → All (λ d. is_eol d ≡ false) request
      → All (λ d. d == 0 ≡ false) request
      → 0 < length request
      → length request ≤ 29
      → l.offset ≡ 0
      → length l.cmd_buffer ≡ buffer_size
      → master.dev_id ≡ 0
      → other.handler ≡ communication
      → other.dev_id ≡ 1
      → let r = read_line l (with_crnl request) in
        (parse_request s st request absolute
          ≡ some (record (reply s st ack_text) { serial = with_crnl request ∷ [] }))
        × (r.found ≡ true)
        × ((m : Message) × (process_command master r.line.cmd_buffer
              ≡ some (ordered master i f, m ∷ []))
            × (m.dest ≡ 1)
            × (receive other m.packet ≡ some (record other { shared = ordered other.shared i f })))
  unfolding same_text
  parse_request-ordered laws s st master other l request param value c i absolute z f split split'
        one known small number real bound real' line text some_char short at size master_id main
        id =
      let (found, buffered) = line_buffered l request at size line text some_char short in
      (
        parse_request-set s st request param value c i absolute z split one known number,
        found,
        process_command-order laws master other (read_line l (with_crnl request)).line.cmd_buffer
            (b's' ∷ []) param value [] i f master_id main id (ap (words delimits) buffered ∙ split')
            refl (to_int16-valid_id s.nodes i param small known) small real bound real',
      )
