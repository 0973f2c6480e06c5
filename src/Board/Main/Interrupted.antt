-- ===== src/Board/Main/Interrupted.antt =====
-- `updateState` of main.ino with the I2C interrupt between its statements: the test of `reset` and
-- the five assignments behind it, and the test of `changed`, the clearing of it, and what follows. A
-- round that calibrates or solves has another handler installed (Missed) and is one step; so is a
-- round of the other branches, whose result is that of `update_state`.
use mathlib.Core.Option.{some-injective}
use scdtr.Prelude.{
  ℕ, ◌≡◌, ◌≢◌, ◌⊎◌, sym, ◌∙◌, true, false, Option, none, some, Option-cases, inl, inr, List, length,
  get_elem?, arith, if◌then◌else◌,
}
use scdtr.Float.{Float, IsFloat}
use scdtr.Board.{n_nodes, nd, low_lux, distributed_default}
use scdtr.Board.Communication.{Shared, send_packet, send_consensus, on_receive, ico}
use scdtr.Board.Communication.Orders.{on_receive-send_packet, on_receive-send_consensus}
use scdtr.Board.Main.Completed.{do_consensus-kept, solving_node}
use scdtr.Board.Main.{
  Node, Outcome, control, calibration, consensus, setup, calibrate, do_consensus, update_state,
  timer_interrupt,
}

-- Where the loop is: outside the two branches; behind the test of `changed`, or its clearing; behind
-- the test of `reset`, or the assignment to `reset`, `ref`, `lower_bound` or `state`.
pub data Place : Type 0 where
  outside tested cleared : Place
  reset_tested reset_cleared ref_set bound_set state_set : Place

-- `waiting` is there from an order until a round decides what to do about it: the bound of the last
-- order, or the low bound if a reset has assigned it since.
pub record Loop (F : Type 0) : Type 0 where
  pub node : Node F
  pub place : Place
  pub waiting : Option F

module _ {F : Type 0} ⦃fl : Float F⦄ where
  abbrev pub with_shared : Node F → Shared F → Node F
  with_shared n s = record n { shared = s }

  -- The rest of the branch of `changed`, from the test of `distributed` on.
  abbrev pub decide : Node F → Outcome F → Node F
  decide n w =
      record (if n.distributed then do_consensus (record n { state = consensus }) w else n) {
        state = control;
      }

  -- The three pieces of the branch, one behind the other, are the branch of `update_state`.
  decide_cleared :
      (n : Node F) (w : Outcome F)
      → n.reset ≡ false
      → n.state ≡ control
      → n.changed ≡ true
      → decide (with_shared n (record (n.shared) { changed = false })) w ≡ update_state n w
  unfolding update_state
  decide_cleared n w still state changed = ground (arith, still, state, changed)

  -- The assignments of the branch of `reset`, one behind the other, are the branch of `update_state`.
  abbrev with_reset : Node F → Node F
  with_reset n = with_shared n (record (n.shared) { reset = false })

  abbrev with_ref : Node F → Node F
  with_ref n = with_shared n (record (n.shared) { ref = low_lux })

  abbrev with_bound : Node F → Node F
  with_bound n = with_shared n (record (n.shared) { lower_bound = low_lux })

  abbrev with_state : Node F → Node F
  with_state n = record n { state = calibration }

  abbrev with_mode : Node F → Node F
  with_mode n = with_shared n (record (n.shared) { distributed = distributed_default })

  reset_pieces :
      (n : Node F) (w : Outcome F)
      → n.reset ≡ true
      → with_mode (with_state (with_bound (with_ref (with_reset n)))) ≡ update_state n w
  unfolding update_state
  reset_pieces n w e = ground (arith, e)

  -- A bound that waits, when the low one is assigned.
  abbrev overwritten : Option F → Option F
  overwritten none = none
  overwritten (some f) = some low_lux

  pub data Step (l : Loop F) : Loop F → Type 0 where
    test :
        l.place ≡ outside
        → l.node.reset ≡ false
        → l.node.state ≡ control
        → l.node.changed ≡ true
        → Step l (record l { place = tested })
    clear :
        l.place ≡ tested
        → Step l (record l {
          node = with_shared l.node (record (l.node.shared) { changed = false });
          place = cleared;
        })
    decided :
        (w : Outcome F)
        → l.place ≡ cleared
        → Step l (record { node = decide l.node w; place = outside; waiting = none })
    test_reset :
        l.place ≡ outside → l.node.reset ≡ true → Step l (record l { place = reset_tested })
    clear_reset :
        l.place ≡ reset_tested
        → Step l (record l { node = with_reset l.node; place = reset_cleared })
    lower_ref :
        l.place ≡ reset_cleared → Step l (record l { node = with_ref l.node; place = ref_set })
    lower_bound :
        l.place ≡ ref_set
        → Step l (record {
          node = with_bound l.node;
          place = bound_set;
          waiting = overwritten l.waiting;
        })
    calibrate_next :
        l.place ≡ bound_set → Step l (record l { node = with_state l.node; place = state_set })
    restarted : l.place ≡ state_set → Step l (record l { node = with_mode l.node; place = outside })
    other_round :
        (w : Outcome F)
        → l.place ≡ outside
        → l.node.reset ≡ false
        → (l.node.state ≡ control → l.node.changed ≡ false)
        → Step l (record l { node = update_state l.node w })
    ordered :
        (dest : ℕ) (bounds : List F) (f : F) (s : Shared F)
        → length bounds ≡ n_nodes
        → get_elem? bounds l.node.dev_id ≡ some f
        → fl.eq f nd ≡ false
        → on_receive l.node.shared (send_consensus 0 dest true bounds).packet ≡ some s
        → Step l (record l { node = with_shared l.node s; waiting = some f })
    ordered_other :
        (dest : ℕ) (bounds : List F) (f : F) (s : Shared F)
        → length bounds ≡ n_nodes
        → get_elem? bounds l.node.dev_id ≡ some f
        → fl.eq f nd ≡ true
        → on_receive l.node.shared (send_consensus 0 dest true bounds).packet ≡ some s
        → Step l (record l { node = with_shared l.node s })
    switched :
        (dest type : ℕ) (s : Shared F)
        → type ≢ ico
        → on_receive l.node.shared (send_packet 0 dest type).packet ≡ some s
        → Step l (record l { node = with_shared l.node s })
    timer : (lux : F) → Step l (record l { node = timer_interrupt l.node lux })

  pub data Reach (l : Loop F) : Loop F → Type 0 where
    here : Reach l l
    next : {m m' : Loop F} → Reach l m → Step m m' → Reach l m'

  -- The node after `setup`.
  abbrev pub begin : ℕ → ℕ → Loop F
  begin id now = record { node = setup id now; place = outside; waiting = none }

  -- The order that waits is the bound of the node, and the change is marked, or the loop is behind
  -- the clearing of the mark and about to decide.
  pub record IsHeard (l : Loop F) (f : F) : Type 0 where
    pub marked : (l.node.changed ≡ true) ⊎ (l.place ≡ cleared)
    pub bound : l.node.lower_bound ≡ f

  module _ (laws : IsFloat F) where
    bound_overwritten :
        (l : Loop F) (f : F)
        → l.place ≡ ref_set
        → ((g : F) → l.waiting ≡ some g → IsHeard l g)
        → (l.waiting ≡ none) ⊎ ((g : F) × (l.waiting ≡ some g))
        → overwritten l.waiting ≡ some f
        → IsHeard
            (record {
              node = with_bound l.node;
              place = bound_set;
              waiting = overwritten l.waiting;
            })
            f
    bound_overwritten l f at v (inl e) h = absurd (ground (arith, e, h))
    bound_overwritten l f at v (inr (g, e)) h = ground (arith, v g e, at, e, h)

    Step-IsHeard :
        {l m : Loop F} (f : F)
        → Step l m
        → ((g : F) → l.waiting ≡ some g → IsHeard l g)
        → m.waiting ≡ some f
        → IsHeard m f
    unfolding update_state calibrate timer_interrupt
    Step-IsHeard {l} f (test at still state changed) v e = ground (arith, v f e, changed)
    Step-IsHeard {l} f (clear at) v e = ground (arith, v f e)
    Step-IsHeard {l} f (decided w at) v e = absurd (ground (arith, e))
    Step-IsHeard {l} f (test_reset at reset) v e = ground (arith, v f e, at)
    Step-IsHeard {l} f (clear_reset at) v e = ground (arith, v f e, at)
    Step-IsHeard {l} f (lower_ref at) v e = ground (arith, v f e, at)
    Step-IsHeard {l} f (lower_bound at) v e = bound_overwritten l f at v (Option-cases l.waiting) e
    Step-IsHeard {l} f (calibrate_next at) v e = ground (arith, v f e, at)
    Step-IsHeard {l} f (restarted at) v e = ground (arith, v f e, at)
    Step-IsHeard {l} f (other_round w at still quiet) v e =
        let (t, kept) = do_consensus-kept (solving_node l.node) w in
        ground (arith, v f e, at, still, quiet, kept)
    Step-IsHeard {l} f (ordered dest bounds g s two own real got) v e =
        let taken =
          on_receive-send_consensus laws l.node.shared 0 dest bounds g (omega (arith, two)) own in
        ground (arith, e, real, some-injective _ _ (sym got ∙ taken))
    Step-IsHeard {l} f (ordered_other dest bounds g s two own nothing got) v e =
        let taken =
          on_receive-send_consensus laws l.node.shared 0 dest bounds g (omega (arith, two)) own in
        ground (arith, v f e, nothing, some-injective _ _ (sym got ∙ taken))
    Step-IsHeard {l} f (switched dest type s other got) v e =
        let taken = on_receive-send_packet l.node.shared 0 dest type other in
        ground (arith, v f e, some-injective _ _ (sym got ∙ taken))
    Step-IsHeard {l} f (timer lux) v e = ground (arith, v f e)

    -- However orders, switches and the timer come between the statements of the main loop, those of
    -- a reset included: while an order is undecided, its bound is the node's, or the low bound is if
    -- a reset has assigned it since the last order; and the change is still marked, or the loop has
    -- just cleared the mark and its decision is yet to come. So no order is lost between the test of
    -- `changed` and its clearing, and what a reset overwrites of an order is its bound, not the mark
    -- of the change.
    pub Reach-IsHeard :
        (id now : ℕ) {l : Loop F} (f : F)
        → Reach (begin id now) l
        → l.waiting ≡ some f
        → IsHeard l f
    Reach-IsHeard id now f here e = absurd (ground (arith, e))
    Reach-IsHeard id now f (next r st) e = Step-IsHeard f st (λ g h. Reach-IsHeard id now g r h) e
