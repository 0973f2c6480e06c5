-- ===== src/Board/Main/Completed.antt =====
-- What the calls of `sendInfo` behind the iterations of `Consensus::solve` leave of a node.
use scdtr.Prelude.{ℕ, ◌≡◌, refl, ap, ◌∙◌, false, List, [], ◌∷◌, arith}
use scdtr.Float.{Float}
use scdtr.Board.Main.{Node, Outcome, communication, consensus, send_status, complete, do_consensus}

module _ {F : Type 0} ⦃fl : Float F⦄ where
  pub send_status-kept :
      (n : Node F) (now : ℕ) → (t : ℕ) × ((send_status n now).0 ≡ record n { last_millis = t })
  unfolding send_status
  send_status-kept n now = ((send_status n now).0.last_millis, ground arith)

  -- Nothing but the time of the last status.
  pub complete-kept :
      (n : Node F) (times : List ℕ)
      → (t : ℕ) × ((complete n times).0 ≡ record n { last_millis = t })
  unfolding complete
  complete-kept n [] = (n.last_millis, refl)
  complete-kept n (now ∷ later) =
      let (t, first) = send_status-kept n now in
      let (t', rest) = complete-kept (send_status n now).0 later in
      (t', rest ∙ ap {A = Node F} {B = Node F} (λ x. record x { last_millis = t' }) first)

  pub do_consensus-kept :
      (n : Node F) (w : Outcome F)
      → (t : ℕ) × (do_consensus n w ≡ record n {
        shared = record (n.shared) { ref = w.solution };
        handler = communication;
        last_millis = t;
      })
  unfolding do_consensus
  do_consensus-kept n w =
      let (t, kept) = complete-kept n w.completions in
      (
        t,
        ap {A = Node F} {B = Node F}
            (λ x. record x {
              shared = record (x.shared) { ref = w.solution };
              handler = communication;
            })
            kept,
      )

  -- A node that has cleared its mark, at the start of the consensus.
  abbrev pub solving_node : Node F → Node F
  solving_node n = record n { shared = record (n.shared) { changed = false }; state = consensus }
