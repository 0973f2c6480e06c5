-- ===== src/Network/Reported.antt =====
-- A client's order all the way round: through the server and the serial port to the master, over the
-- bus to the other node, through the round in which both solve, and back to the server with the next
-- status of each.
use scdtr.Prelude.{
  ℕ, ◌≤◌, ◌<◌, ◌≡◌, ap, ◌∙◌, true, false, not, ◌==◌, some, List, [], ◌∷◌, ◌++◌, arith, length, All,
}
use scdtr.Prelude.Int.{ℤ}
use scdtr.Float.{Float, IsFloat}
use scdtr.Text.{is_space, words, stoi}
use scdtr.Board.{nd, low_lux, buffer_size}
use scdtr.Board.Communication.{Shared, max_size}
use scdtr.Board.Main.{Node, Outcome, control, communication}
use scdtr.Board.Main.Line.{CommandLine, is_eol, read_line}
use scdtr.Board.Main.Command.{delimits, bound_of}
use scdtr.Board.Main.Command.Agreement.{ordered}
use scdtr.Board.Consensus.{iterations, solve}
use scdtr.Board.Consensus.Joint.{Solver, Joint}
use scdtr.Board.Consensus.Joint.Together.{copies_zero, copies_one}
use scdtr.Server.System.{System, get_lux_reference, get_lux_lower_bound, get_occupancy}
use scdtr.Server.System.Timeline.{feed}
use scdtr.Server.System.Invariant.{IsWellFormed}
use scdtr.Server.Request.{Streams, reply, ack_text, with_crnl, single, valid_id, parse_request}
use scdtr.Telemetry.{sent}
use scdtr.Telemetry.Chain.{reads}
use scdtr.Actuation.{parse_request-ordered}
use scdtr.Network.{Network, command, round, reported}
use scdtr.Network.Views.{
  IsRead, either_node, is_due, status_of, reported_due, feed-both, feed-append, feed-IsWellFormed,
}
use scdtr.Network.Recalibrated.{command_lem}
use scdtr.Network.Solved.{solver, solved, IsChanged, IsSolved, both_solve}

module _ {F : Type 0} ⦃fl : Float F⦄ where
  -- The request of an order to set the occupancy of node `i`, which gives it the bound `f`.
  pub record IsOrder (nodes : ℕ) (request param value : List ℕ) (c i : ℕ) (z : ℤ) (f : F)
      : Type 0 where
    pub split_server : words is_space request ≡ (b's' ∷ []) ∷ param ∷ value ∷ []
    pub split_master : words delimits request ≡ (b's' ∷ []) ∷ param ∷ value ∷ []
    pub one_digit : single param ≡ some c
    pub known : valid_id nodes param ≡ some i
    pub small : i < 2
    pub number : stoi value ≡ some z
    pub defined : fl.eq (fl.of_string value) nd ≡ false
    pub bound : bound_of true (some value) (fl.of_string value) ≡ some f
    pub bound_defined : fl.eq f nd ≡ false
    pub one_line : All (λ d. is_eol d ≡ false) request
    pub text : All (λ d. d == 0 ≡ false) request
    pub some_char : 0 < length request
    pub short : length request ≤ 29

  -- A node in its main loop that controls, together with the other one, and has no reset to react to.
  pub record IsSteady (id : ℕ) (n : Node F) : Type 0 where
    pub identity : n.dev_id ≡ id
    pub controlling : n.state ≡ control
    pub quiet : n.reset ≡ false
    pub mode : n.distributed ≡ true
    pub listening : n.handler ≡ communication

  -- The nodes that an order has reached.
  abbrev pub with_order : Network F → ℕ → F → Network F
  with_order net i f = record {
    master = record (net.master) { shared = ordered net.master.shared i f };
    other = record (net.other) { shared = ordered net.other.shared i f };
  }

  ordered-IsChanged :
      (id : ℕ) (n : Node F) (i : ℕ) (f : F)
      → IsSteady id n
      → IsChanged (record n { shared = ordered n.shared i f })
  ordered-IsChanged id n i f v = ground (arith, v.controlling, v.quiet, v.mode)

  ordered-own :
      (s : Shared F) (i : ℕ) (f : F)
      → s.dev_id ≡ i
      → let s' = ordered s i f in
        (s'.dev_id ≡ i) × (s'.lower_bound ≡ f) × (s'.occupancy ≡ not (fl.le f low_lux))
  ordered-own s i f e = ground (arith, e)

  ordered-dev_id : (s : Shared F) (i : ℕ) (f : F) → (ordered s i f).dev_id ≡ s.dev_id
  ordered-dev_id s i f = ground arith

  -- The server's answers about both nodes, once it has a status of each behind the round.
  reported_solved :
      (laws : IsFloat F) (s : System F) (net net' : Network F) (i : ℕ) (f : F)
      (copies copies' : List (List F)) (clock clock' now now' : ℕ)
      → IsWellFormed s
      → s.nodes ≡ 2
      → i < 2
      → net.master.dev_id ≡ 0
      → net.other.dev_id ≡ 1
      → (let o = with_order net i f in
          IsSolved 0 copies o.master net'.master × IsSolved 1 copies' o.other net'.other)
      → is_due net'.master now ≡ true
      → is_due net'.other now' ≡ true
      → let o = with_order net i f in
        let s' = feed s (reported clock net'.master now ++ reported clock' net'.other now') in
        (get_lux_reference s' 0
          ≡ (solve 0 o.master.lower_bound net.master.k_i net.master.ext copies).0)
        × (get_lux_reference s' 1
            ≡ (solve 1 o.other.lower_bound net.other.k_i net.other.ext copies').0)
        × (get_lux_lower_bound s' i ≡ f)
        × (get_occupancy s' i ≡ not (fl.le f low_lux))
  reported_solved laws s net net' i f copies copies' clock clock' now now' v two small id0 id1
        (p, q) due due' =
      let first = reported_due clock net'.master now due in
      let second = reported_due clock' net'.other now' due' in
      let m0 : net'.master.dev_id ≡ 0 =
        ap (λ x. x.dev_id) p.rest ∙ ordered-dev_id net.master.shared i f ∙ id0 in
      let o1 : net'.other.dev_id ≡ 1 =
        ap (λ x. x.dev_id) q.rest ∙ ordered-dev_id net.other.shared i f ∙ id1 in
      let (ref0, ref1, lb0, lb1, occ0, occ1) =
        feed-both laws s (status_of net'.master) (status_of net'.other) clock clock' v two m0 o1 in
      let s' =
        feed s (reads ((clock, status_of net'.master) ∷ (clock', status_of net'.other) ∷ [])) in
      let own0 : 0 ≡ i → (ordered net.master.shared i f).lower_bound ≡ f =
        λ e. (ordered-own net.master.shared i f (id0 ∙ e)).1 in
      let own1 : 1 ≡ i → (ordered net.other.shared i f).lower_bound ≡ f =
        λ e. (ordered-own net.other.shared i f (id1 ∙ e)).1 in
      let seen0 : 0 ≡ i → (ordered net.master.shared i f).occupancy ≡ not (fl.le f low_lux) =
        λ e. (ordered-own net.master.shared i f (id0 ∙ e)).2 in
      let seen1 : 1 ≡ i → (ordered net.other.shared i f).occupancy ≡ not (fl.le f low_lux) =
        λ e. (ordered-own net.other.shared i f (id1 ∙ e)).2 in
      rw (first, second)
        (
          ref0 ∙ p.reference,
          ref1 ∙ q.reference,
          either_node (get_lux_lower_bound s') _ _ _ i small (lb0 ∙ ap (λ x. x.lower_bound) p.rest)
              (lb1 ∙ ap (λ x. x.lower_bound) q.rest) own0 own1,
          either_node (get_occupancy s') _ _ _ i small (occ0 ∙ ap (λ x. x.occupancy) p.rest)
              (occ1 ∙ ap (λ x. x.occupancy) q.rest) seen0 seen1,
        )

  -- An order of a client to set the occupancy of node `i`, in a request as `IsOrder` says, all the
  -- way round, with a server that has a log for each of the two nodes, while nodes 0 and 1, both in
  -- their main loops, control together and neither has a reset to react to: the server acknowledges
  -- the request and writes it to the serial port; the master reads it there as one line, with its
  -- buffer of 30 characters at the start, takes the order and passes it on; both nodes solve in
  -- their next round, in whatever order the packets come, as long as no node sends again while an
  -- answer is on its way; and once the server has the first status of each behind that round, which
  -- is due, one read of the FIFO for either, it answers with the new bound and occupancy for node
  -- `i`, and for each node with the reference that `solve` gives, if every copy is the solution of
  -- the other node in that iteration. What the FIFO gives before those two statuses does not
  -- matter: the statuses that the nodes send while they solve, with the old references, are among
  -- it.
  pub order_reported :
      (laws : IsFloat F) (junk : List ℕ) (s : System F) (st : Streams) (net : Network F)
      (l : CommandLine) (request param value : List ℕ) (c i absolute : ℕ) (z : ℤ) (f : F)
      (p q : Solver F) (w0 w1 : Outcome F) (during : List (ℕ × List ℕ)) (clock clock' now now' : ℕ)
      → IsOrder s.nodes request param value c i z f
      → IsWellFormed s
      → s.nodes ≡ 2
      → l.offset ≡ 0
      → length l.cmd_buffer ≡ buffer_size
      → IsSteady 0 net.master
      → IsSteady 1 net.other
      → length junk ≡ max_size
      → (let o = with_order net i f in
          Joint junk (solver 0 o.master) (solver 1 o.other) iterations p q)
      → (let o = with_order net i f in
          let net' = round o (solved o.master p w0) (solved o.other q w1) in
          (is_due net'.master now ≡ true) × (is_due net'.other now' ≡ true))
      → All IsRead during
      → let r = read_line l (with_crnl request) in
        let o = with_order net i f in
        let a = solver 0 o.master in
        let b = solver 1 o.other in
        let net' = round o (solved o.master p w0) (solved o.other q w1) in
        let s' =
          feed s (during ++ (reported clock net'.master now ++ reported clock' net'.other now')) in
        (parse_request s st request absolute
          ≡ some (record (reply s st ack_text) { serial = with_crnl request ∷ [] }))
        × (r.found ≡ true)
        × (command net r.line.cmd_buffer ≡ some o)
        × (get_lux_reference s' 0
            ≡ (solve 0 a.problem.l a.problem.k_i a.problem.o (copies_zero a b iterations)).0)
        × (get_lux_reference s' 1
            ≡ (solve 1 b.problem.l b.problem.k_i b.problem.o (copies_one a b iterations)).0)
        × (get_lux_lower_bound s' i ≡ f)
        × (get_occupancy s' i ≡ not (fl.le f low_lux))
  order_reported laws junk s st net l request param value c i absolute z f p q w0 w1 during clock
        clock' now now' order v two at size m o full j (due, due') small =
      let (parsed, found, passed) =
        parse_request-ordered laws s st net.master.shared net.other l request param value c i
          absolute z f order.split_server order.split_master order.one_digit order.known order.small
          order.number order.defined order.bound order.bound_defined order.one_line order.text
          order.some_char order.short at size m.identity o.listening o.identity in
      let (message, sent, dest, got) = passed in
      let net₁ = with_order net i f in
      let done =
        both_solve laws junk net₁ p q w0 w1 full (ordered-IsChanged 0 net.master i f m)
          (ordered-IsChanged 1 net.other i f o) j in
      let net₂ = round net₁ (solved net₁.master p w0) (solved net₁.other q w1) in
      let (v', nodes) = feed-IsWellFormed s during small v in
      let (ref0, ref1, bound, occupied) =
        reported_solved laws (feed s during) net net₂ i f _ _ clock clock' now now' v' (nodes ∙ two)
          order.small m.identity o.identity done due due' in
      let apart =
        feed-append s during (reported clock net₂.master now ++ reported clock' net₂.other now') in
      (
        parsed,
        found,
        command_lem net (read_line l (with_crnl request)).line.cmd_buffer message _ _ sent dest got,
        ap (λ x. get_lux_reference x 0) apart ∙ ref0,
        ap (λ x. get_lux_reference x 1) apart ∙ ref1,
        ap (λ x. get_lux_lower_bound x i) apart ∙ bound,
        ap (λ x. get_occupancy x i) apart ∙ occupied,
      )
