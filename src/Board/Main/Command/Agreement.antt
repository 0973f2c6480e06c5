-- ===== src/Board/Main/Command/Agreement.antt =====
-- The two nodes after a command: the master's own variables and those of the node that gets its
-- messages.
use mathlib.Core.Path.{subst}
use scdtr.Prelude.{
  ℕ, zero, suc, ◌<◌, ◌≡◌, refl, sym, ap, ◌∙◌, ◌⊎◌, inl, inr, Bool, true, false, not, ◌||◌, some,
  List, [], ◌∷◌, arith, ◌==◌, if◌then◌else◌, set, replicate, Bool-cases, lt→ltb,
}
use scdtr.Prelude.Int.{pos}
use scdtr.Float.{Float, IsFloat}
use scdtr.Board.{n_nodes, master, nd, low_lux}
use scdtr.Board.Communication.{
  Shared, Message, send_packet, send_consensus, on_receive, res, don, dof,
}
use scdtr.Board.Communication.Orders.{on_receive-send_packet, on_receive-send_consensus}
use scdtr.Board.Main.{Node, communication, receive}
use scdtr.Board.Main.Command.{delimits, bound_of, to_int16, order, process_tokens, process_command}
use scdtr.Text.{same_text, words, c_string, atoi}
use scdtr.Text.Words.{same_text_iff}

-- The packet type for a command, and whether it is one of the three.
abbrev switch_type : List ℕ → ℕ
switch_type command =
    if same_text command (b'r' ∷ [])
    then res
    else if same_text command (b'A' ∷ [])
    then don
    else dof

abbrev pub is_switch : List ℕ → Bool
is_switch command =
    same_text command (b'r' ∷ []) || same_text command (b'A' ∷ []) || same_text command (b'D' ∷ [])

is_switch-cases :
    (command : List ℕ)
    → is_switch command ≡ true
    → (command ≡ b'r' ∷ []) ⊎ (command ≡ b'A' ∷ []) ⊎ (command ≡ b'D' ∷ [])
is_switch-cases command h = elim (Bool-cases (same_text command (b'r' ∷ []))) [
  | inl e ↦ inl (same_text_iff command (b'r' ∷ []) e)
  | inr e ↦ elim (Bool-cases (same_text command (b'A' ∷ []))) [
    | inl e' ↦ inr (inl (same_text_iff command (b'A' ∷ []) e'))
    | inr e' ↦ inr (inr (same_text_iff command (b'D' ∷ []) (ground (arith, e, e', h))))
  ]
]

send_packet-dest : (dev_id dest type : ℕ) → (send_packet dev_id dest type).dest ≡ dest
unfolding send_packet
send_packet-dest dev_id dest type = refl

module _ {F : Type 0} ⦃fl : Float F⦄ where
  -- What an order for node `i` means to a node.
  abbrev pub ordered : Shared F → ℕ → F → Shared F
  ordered s i f =
      if i == s.dev_id
      then record s {
        changed = true;
        ref = if s.distributed then s.ref else f;
        lower_bound = f;
        occupancy = not (fl.le f low_lux);
      }
      else record s { changed = true }

  order_message : Shared F → ℕ → F → Message
  order_message s i f =
      send_consensus s.dev_id 1 true
        (if i == master then replicate n_nodes nd else set (replicate n_nodes nd) i f)

  order_message-dest : (s : Shared F) (i : ℕ) (f : F) → (order_message s i f).dest ≡ 1
  unfolding order_message send_consensus
  order_message-dest s i f = refl

  receive-communication :
      (t : Node F) (packet : List ℕ) (s : Shared F)
      → t.handler ≡ communication
      → on_receive t.shared packet ≡ some s
      → receive t packet ≡ some (record t { shared = s })
  unfolding receive
  receive-communication t packet s main got = ground (arith, main, got)

  nd_number : (laws : IsFloat F) → fl.eq nd nd ≡ true
  nd_number laws = laws.eq_refl_neg (fl.lit 2 1) (laws.eq_refl_lit 2 1 (omega arith))

  -- The message of an order at the other node.
  on_receive-order_message :
      (laws : IsFloat F) (s t : Shared F) (i : ℕ) (f : F)
      → t.dev_id ≡ 1
      → i < 2
      → fl.eq f nd ≡ false
      → on_receive t (order_message s i f).packet ≡ some (ordered t i f)
  unfolding order_message
  on_receive-order_message laws s t zero f id small number =
      let got =
        on_receive-send_consensus laws t s.dev_id 1 (nd ∷ nd ∷ []) nd (omega arith) (rw id refl) in
      ground (arith, got, nd_number laws, id)
  on_receive-order_message laws s t (suc zero) f id small number =
      let got =
        on_receive-send_consensus laws t s.dev_id 1 (nd ∷ f ∷ []) f (omega arith) (rw id refl) in
      ground (arith, got, number, id)
  on_receive-order_message laws s t (suc (suc i)) f id small number = absurd (omega arith)

  order_lem :
      (s : Shared F) (i : ℕ) (f : F)
      → s.dev_id ≡ 0
      → order s i f ≡ (ordered s i f, order_message s i f ∷ [])
  unfolding order order_message
  order_lem s zero f id = ground (arith, id)
  order_lem s (suc i) f id = ground (arith, id)

  -- The order of a command that is neither a reset nor a switch.
  process_tokens-occupancy :
      (s : Shared F) (param value : List ℕ) (more : List (List ℕ)) (i : ℕ) (f : F)
      → to_int16 (atoi param) ≡ pos i
      → i < 2
      → fl.eq (fl.of_string value) nd ≡ false
      → bound_of true (some value) (fl.of_string value) ≡ some f
      → process_tokens s ((b's' ∷ []) ∷ param ∷ value ∷ more) ≡ some (order s i f)
  unfolding process_tokens same_text
  process_tokens-occupancy s param value more i f index small number bound =
      rw (index, lt→ltb i 2 small, number) (ground (arith, bound))

  process_tokens-lower :
      (s : Shared F) (param value : List ℕ) (more : List (List ℕ)) (i : ℕ) (f : F)
      → to_int16 (atoi param) ≡ pos i
      → i < 2
      → fl.eq (fl.of_string value) nd ≡ false
      → bound_of false (some value) (fl.of_string value) ≡ some f
      → process_tokens s ((b'l' ∷ []) ∷ param ∷ value ∷ more) ≡ some (order s i f)
  unfolding process_tokens same_text
  process_tokens-lower s param value more i f index small number bound =
      rw (index, lt→ltb i 2 small, number) (ground (arith, bound))

  process_tokens-order :
      (s : Shared F) (command param value : List ℕ) (more : List (List ℕ)) (i : ℕ) (f : F)
      → (same_text command (b's' ∷ []) || same_text command (b'l' ∷ [])) ≡ true
      → to_int16 (atoi param) ≡ pos i
      → i < 2
      → fl.eq (fl.of_string value) nd ≡ false
      → bound_of (same_text command (b's' ∷ [])) (some value) (fl.of_string value) ≡ some f
      → process_tokens s (command ∷ param ∷ value ∷ more) ≡ some (order s i f)
  unfolding process_tokens
  process_tokens-order s command param value more i f kind index small number bound =
      elim (Bool-cases (same_text command (b's' ∷ []))) [
        | inl e ↦
            ap (λ c. process_tokens s (c ∷ param ∷ value ∷ more))
              (same_text_iff command (b's' ∷ []) e)
            ∙ process_tokens-occupancy s param value more i f index small number
                (ap (λ b. bound_of b (some value) (fl.of_string value)) (sym e) ∙ bound)
        | inr e ↦
            ap (λ c. process_tokens s (c ∷ param ∷ value ∷ more))
              (same_text_iff command (b'l' ∷ []) (ground (arith, e, kind)))
            ∙ process_tokens-lower s param value more i f index small number
                (ap (λ b. bound_of b (some value) (fl.of_string value)) (sym e) ∙ bound)
      ]

  -- An order for a lower bound (`l`) or an occupancy (`s`) of node `i`, with a value that is not -2
  -- and a bound that is not, while node 1 has the handler of the main loop installed: one message
  -- goes out, to node 1. Behind it both nodes have a change to react to, and the bound, with the
  -- reference and the occupancy that follow from it, is set in node `i` alone. The id and the value
  -- of an occupancy are read as 16-bit numbers.
  pub process_command-order :
      (laws : IsFloat F) (s : Shared F) (t : Node F) (cmd_buffer command param value : List ℕ)
      (more : List (List ℕ)) (i : ℕ) (f : F)
      → s.dev_id ≡ 0
      → t.handler ≡ communication
      → t.dev_id ≡ 1
      → words delimits (c_string cmd_buffer) ≡ command ∷ param ∷ value ∷ more
      → (same_text command (b's' ∷ []) || same_text command (b'l' ∷ [])) ≡ true
      → to_int16 (atoi param) ≡ pos i
      → i < 2
      → fl.eq (fl.of_string value) nd ≡ false
      → bound_of (same_text command (b's' ∷ [])) (some value) (fl.of_string value) ≡ some f
      → fl.eq f nd ≡ false
      → (m : Message) × (process_command s cmd_buffer ≡ some (ordered s i f, m ∷ []))
        × (m.dest ≡ 1)
        × (receive t m.packet ≡ some (record t { shared = ordered t.shared i f }))
  unfolding process_command
  process_command-order laws s t cmd_buffer command param value more i f master_id main id split
        kind index small number bound known =
      let received = on_receive-order_message laws s t.shared i f id small known in
      let sent = order_lem s i f master_id in
      let done =
        process_tokens-order s command param value more i f kind index small number bound in
      (
        order_message s i f,
        ap (process_tokens s) split ∙ done ∙ ap some sent,
        order_message-dest s i f,
        receive-communication t _ _ main received,
      )

  -- What a reset or a switch of distributed control means to a node.
  abbrev pub switched : Shared F → List ℕ → Shared F
  switched s command = record s {
    reset = same_text command (b'r' ∷ []) || s.reset;
    distributed =
        if same_text command (b'A' ∷ [])
        then true
        else if same_text command (b'D' ∷ [])
        then false
        else s.distributed;
  }

  abbrev Switched : Shared F → Shared F → List (List ℕ) → List ℕ → Type 0
  Switched s t more command =
      (process_tokens s (command ∷ more)
        ≡ some (switched s command, send_packet s.dev_id 1 (switch_type command) ∷ []))
      × (on_receive t (send_packet s.dev_id 1 (switch_type command)).packet
          ≡ some (switched t command))

  process_tokens-switch :
      (s t : Shared F) (more : List (List ℕ)) (command : List ℕ)
      → is_switch command ≡ true
      → Switched s t more command
  unfolding process_tokens same_text
  process_tokens-switch s t more command h = elim (is_switch-cases command h) [
    | inl e ↦
        subst (Switched s t more) (sym e)
          (refl, on_receive-send_packet t s.dev_id 1 res (λ e'. omega (arith, e')))
    | inr (inl e) ↦
        subst (Switched s t more) (sym e)
          (refl, on_receive-send_packet t s.dev_id 1 don (λ e'. omega (arith, e')))
    | inr (inr e) ↦
        subst (Switched s t more) (sym e)
          (refl, on_receive-send_packet t s.dev_id 1 dof (λ e'. omega (arith, e')))
  ]

  -- A reset or a switch of distributed control, whatever follows it in the line: one message goes
  -- out, to node 1, and it changes the same variables of that node, to the same values, as the
  -- master's own, if that node has the handler of the main loop installed.
  pub process_command-switch :
      (s : Shared F) (t : Node F) (cmd_buffer command : List ℕ) (more : List (List ℕ))
      → words delimits (c_string cmd_buffer) ≡ command ∷ more
      → is_switch command ≡ true
      → t.handler ≡ communication
      → (m : Message) × (process_command s cmd_buffer ≡ some (switched s command, m ∷ []))
        × (m.dest ≡ 1)
        × (receive t m.packet ≡ some (record t { shared = switched t.shared command }))
  unfolding process_command
  process_command-switch s t cmd_buffer command more split h main =
      let (done, received) = process_tokens-switch s t.shared more command h in
      (
        send_packet s.dev_id 1 (switch_type command),
        ap (process_tokens s) split ∙ done,
        send_packet-dest s.dev_id 1 (switch_type command),
        receive-communication t _ _ main received,
      )
