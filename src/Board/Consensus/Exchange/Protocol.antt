-- ===== src/Board/Consensus/Exchange/Protocol.antt =====
-- The exchange of the best solutions as a protocol of two nodes.
use mathlib.Core.Option.{some-injective}
use mathlib.Core.Path.{subst}
use scdtr.Prelude.{
  ℕ, ◌≡◌, ◌⊎◌, inl, inr, refl, sym, ◌∙◌, Bool, true, false, not, ◌&&◌, some, List, [],
  if◌then◌else◌, ◌==◌, length, arith, Bool-cases,
}
use scdtr.Float.{Float, IsFloat}
use scdtr.Board.{n_nodes}
use scdtr.Board.Communication.{max_size, ack, send_packet, send_consensus}
use scdtr.Board.Communication.RoundTrip.{read_packet-header, read_consensus-send_consensus}
use scdtr.Board.Matrix.{sum, fill}
use scdtr.Board.Consensus.Exchange.{
  Exchange, on_receive, Pair, Step, send_zero, send_one, answered_zero, answered_one, answer_zero,
  answer_one, Run, stay, after, start_pair,
}

module _ {F : Type 0} ⦃fl : Float F⦄ (laws : IsFloat F) (junk : List ℕ)
    (full : length junk ≡ max_size) where
  -- A solution from the current sender is added to the copies, each time it arrives; a node whose
  -- turn it is to send, and one that waits for another sender, ignore it.
  pub on_receive_solution :
      (e : Exchange F) (dev_id dest : ℕ) (d : List F)
      → length d ≡ n_nodes
      → on_receive e junk (send_consensus dev_id dest false d).packet
        ≡ some (
            if not (e.id == e.sender) && dev_id == e.sender
            then record e { d_copies = sum e.d_copies d n_nodes 1; ready = true }
            else e)
  unfolding on_receive
  on_receive_solution e dev_id dest d two =
      let (r, read, p_id, p_type, solution) =
        read_consensus-send_consensus laws dev_id dest false d junk two full in
      ground (arith, read, p_id, p_type, solution)

  -- An answer counts at the node whose turn it is, from the receiver it waits for.
  on_receive_answer :
      (e : Exchange F) (dev_id dest : ℕ)
      → on_receive e junk (send_packet dev_id dest ack).packet
        ≡ some (if e.id == e.sender && dev_id == e.receiver then record e { ready = true } else e)
  unfolding on_receive send_packet
  on_receive_answer e dev_id dest =
      let read = read_packet-header dev_id ack [] junk full (omega (arith, full)) in
      ground (arith, read)

-- The stages of an exchange in which nobody sends twice: whose solution has been sent, taken and
-- answered.
pub data Stage : Type 0 where
  begun sent_zero taken_zero turned sent_one taken_one over : Stage

abbrev pub later : Stage → Stage
later begun = sent_zero
later sent_zero = taken_zero
later taken_zero = turned
later turned = sent_one
later sent_one = taken_one
later taken_one = over
later over = over

abbrev is_over : Stage → Bool
is_over over = true
is_over _ = false

module _ {F : Type 0} ⦃fl : Float F⦄ (d0 d1 : List F) where
  abbrev zeros : List F
  zeros = fill (fl.lit 0 1) n_nodes 1

  -- What a node has from the other.
  abbrev pub received : List F → List F
  received d = sum zeros d n_nodes 1

  abbrev zero_at : Bool → ℕ → List F → Exchange F
  zero_at ready sender copies = record {
    id = 0;
    ready = ready;
    sender = sender;
    receiver = 1;
    d_copies = copies;
  }

  abbrev one_at : Bool → ℕ → List F → Exchange F
  one_at ready sender copies = record {
    id = 1;
    ready = ready;
    sender = sender;
    receiver = 0;
    d_copies = copies;
  }

  abbrev pub at_stage : Stage → Pair F
  at_stage begun = record { n0 = zero_at false 0 zeros; n1 = one_at false 0 zeros }
  at_stage sent_zero = record { n0 = zero_at false 0 zeros; n1 = one_at true 0 (received d0) }
  at_stage taken_zero = record { n0 = zero_at true 0 zeros; n1 = one_at false 1 (received d0) }
  at_stage turned = record { n0 = zero_at false 1 zeros; n1 = one_at false 1 (received d0) }
  at_stage sent_one = record {
    n0 = zero_at true 1 (received d1);
    n1 = one_at false 1 (received d0);
  }
  at_stage taken_one = record {
    n0 = zero_at false 2 (received d1);
    n1 = one_at true 1 (received d0);
  }
  at_stage over = record { n0 = zero_at false 2 (received d1); n1 = one_at false 2 (received d0) }

  module _ (laws : IsFloat F) (junk : List ℕ) (full : length junk ≡ max_size)
      (two0 : length d0 ≡ n_nodes) (two1 : length d1 ≡ n_nodes) where
    Step-later :
        (k : Stage) {q : Pair F} → Step false junk d0 d1 (at_stage k) q → q ≡ at_stage (later k)
    Step-later k (send_zero e turn unready quiet got) =
        let taken = on_receive_solution laws junk full (at_stage k).n1 0 1 d0 two0 in
        ground (arith, turn, unready, quiet, some-injective _ _ (sym got ∙ taken))
    Step-later k (send_one e turn unready quiet got) =
        let taken = on_receive_solution laws junk full (at_stage k).n0 1 0 d1 two1 in
        ground (arith, turn, unready, quiet, some-injective _ _ (sym got ∙ taken))
    Step-later k (answered_zero turn ready) = ground (arith, turn, ready)
    Step-later k (answered_one turn ready) = ground (arith, turn, ready)
    Step-later k (answer_zero e turn ready got) =
        let answered = on_receive_answer laws junk full (at_stage k).n1 0 1 in
        ground (arith, turn, ready, some-injective _ _ (sym got ∙ answered))
    Step-later k (answer_one e turn ready got) =
        let answered = on_receive_answer laws junk full (at_stage k).n0 1 0 in
        ground (arith, turn, ready, some-injective _ _ (sym got ∙ answered))

    Run-stage : {q : Pair F} → Run false junk d0 d1 start_pair q → (k : Stage) × (q ≡ at_stage k)
    Run-stage stay = (begun, refl)
    Run-stage (after {q} {r} run step) =
        let (k, e) = Run-stage run in
        (later k, Step-later k (subst (λ p. Step false junk d0 d1 p r) e step))

    -- If no node sends again while an answer is on its way: when both nodes have been through all
    -- senders, each has the other's solution, once.
    pub exchange_copies :
        (q : Pair F)
        → Run false junk d0 d1 start_pair q
        → q.n0.sender ≡ 2
        → q.n1.sender ≡ 2
        → (q.n0.d_copies ≡ received d1) × (q.n1.d_copies ≡ received d0)
    exchange_copies q run end0 end1 = let (k, e) = Run-stage run in ground (arith, e, end0, end1)

    next_step :
        (k : Stage) → is_over k ≡ false → Step false junk d0 d1 (at_stage k) (at_stage (later k))
    next_step begun h =
        send_zero _ refl refl refl
          (on_receive_solution laws junk full (at_stage begun).n1 0 1 d0 two0)
    next_step sent_zero h =
        answer_one _ refl refl (on_receive_answer laws junk full (at_stage sent_zero).n0 1 0)
    next_step taken_zero h = answered_zero refl refl
    next_step turned h =
        send_one _ refl refl refl
          (on_receive_solution laws junk full (at_stage turned).n0 1 0 d1 two1)
    next_step sent_one h =
        answer_zero _ refl refl (on_receive_answer laws junk full (at_stage sent_one).n1 0 1)
    next_step taken_one h = answered_one refl refl
    next_step over h = cc

    -- The exchange from its start to its end.
    pub complete-Run : Run false junk d0 d1 start_pair (at_stage over)
    complete-Run =
        after
          (after
            (after
              (after (after (after stay (next_step begun refl)) (next_step sent_zero refl))
                (next_step taken_zero refl))
              (next_step turned refl))
            (next_step sent_one refl))
          (next_step taken_one refl)

    -- Such an exchange never gets stuck: wherever it has come to, both nodes have been through all
    -- senders, or a step is possible.
    pub exchange_progress :
        (q : Pair F)
        → Run false junk d0 d1 start_pair q
        → ((q.n0.sender ≡ 2) × (q.n1.sender ≡ 2)) ⊎ ((r : Pair F) × Step false junk d0 d1 q r)
    exchange_progress q run =
        let (k, e) = Run-stage run in
        elim (Bool-cases (is_over k)) [
          | inl finished ↦ inl (ground (arith, e, finished), ground (arith, e, finished))
          | inr going ↦ inr (
            _,
            subst (λ p. Step false junk d0 d1 p (at_stage (later k))) (sym e) (next_step k going),
          )
        ]

    -- If a node may send again while an answer is on its way, an exchange can end with the other node
    -- having added its solution twice.
    pub exchange_twice :
        (q : Pair F) × Run true junk d0 d1 start_pair q
        × (q.n0.sender ≡ 2)
        × (q.n1.sender ≡ 2)
        × (q.n1.d_copies ≡ sum (received d0) d0 n_nodes 1)
    exchange_twice =
        let repeated = sum (received d0) d0 n_nodes 1 in
        let sent = after stay (
          send_zero _ refl refl refl
            (on_receive_solution laws junk full (one_at false 0 zeros) 0 1 d0 two0)) in
        let resent = after sent (
          send_zero _ refl refl refl
            (on_receive_solution laws junk full (one_at true 0 (received d0)) 0 1 d0 two0)) in
        let taken =
          after resent (
            answer_one _ refl refl
              (on_receive_answer laws junk full (zero_at false 0 zeros) 1 0)) in
        let back = after (after taken (answered_zero refl refl)) (
          send_one _ refl refl refl
            (on_receive_solution laws junk full (zero_at false 1 zeros) 1 0 d1 two1)) in
        let answered = after back (
          answer_zero _ refl refl
            (on_receive_answer laws junk full (one_at false 1 repeated) 0 1)) in
        (_, after answered (answered_one refl refl), refl, refl, refl)
