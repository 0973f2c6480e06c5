-- ===== src/Network/Views.antt =====
-- The statuses of two nodes, as the server takes them in.
use scdtr.Prelude.{
  ℕ, zero, suc, ◌+◌, ◌-◌, ◌%◌, ◌<◌, ◌≤◌, ◌≡◌, refl, ◌∙◌, ◌⊎◌, inl, inr, Bool, true, ◌&&◌, map,
  Bool-cases, List, [], ◌∷◌, ◌++◌, arith, leb, length, All,
}
use scdtr.Float.{Float, IsFloat, ◌⊘◌}
use scdtr.Board.{n_nodes, status_delay, ulong_mod}
use scdtr.Board.Main.{
  State, control, calibration, consensus, Node, Outcome, send_status, complete, update_messages,
}
use scdtr.Board.Main.Completed.{solving_node}
use scdtr.Board.Communication.{Message, send_info}
use scdtr.Server.System.{System, get_lux_reference, get_lux_lower_bound, get_occupancy}
use scdtr.Server.System.Timeline.{feed}
use scdtr.Server.{recv_buffer}
use scdtr.Server.System.Feed.{handle_read}
use scdtr.Server.System.Invariant.{IsWellFormed, handle_read-IsWellFormed, handle_read-nodes}
use scdtr.Telemetry.{Status, sent}
use scdtr.Telemetry.Chain.{reads, feed-view}
use scdtr.Network.{reported, reported_solving}

-- One of the two nodes.
pub either_node :
    {A : Type 0} (g : ℕ → A) (x0 x1 x : A) (i : ℕ)
    → i < 2
    → g 0 ≡ x0
    → g 1 ≡ x1
    → (0 ≡ i → x0 ≡ x)
    → (1 ≡ i → x1 ≡ x)
    → g i ≡ x
either_node g x0 x1 x zero small e e' h h' = e ∙ h refl
either_node g x0 x1 x (suc zero) small e e' h h' = e' ∙ h' refl
either_node g x0 x1 x (suc (suc i)) small e e' h h' = absurd (omega arith)

-- No more bytes than one read of the FIFO takes.
abbrev pub IsRead : ℕ × List ℕ → Type 0
IsRead p = length p.1 ≤ recv_buffer

State-cases : (s : State) → (s ≡ control) ⊎ ((s ≡ calibration) ⊎ (s ≡ consensus))
State-cases control = inl refl
State-cases calibration = inr (inl refl)
State-cases consensus = inr (inr refl)

All-IsRead :
    (clock : ℕ) (xs ys : List Message)
    → All IsRead (map (λ m. (clock, m.packet)) xs)
    → All IsRead (map (λ m. (clock, m.packet)) ys)
    → All IsRead (map (λ m. (clock, m.packet)) (xs ++ ys))
All-IsRead clock [] ys h h' = h'
All-IsRead clock (x ∷ xs) ys (h, hs) h' = (h, All-IsRead clock xs ys hs h')

module _ {F : Type 0} ⦃fl : Float F⦄ where
  -- Whether the period of the status is over.
  abbrev pub is_due : Node F → ℕ → Bool
  is_due n now =
      leb status_delay
        (((now + ulong_mod - n.start_millis) % ulong_mod + ulong_mod - n.last_millis) % ulong_mod)

  abbrev pub status_of : Node F → Status F
  status_of n = record {
    dev_id = n.dev_id;
    dest = (n.dev_id + 1) % n_nodes;
    lux = n.lux;
    duty_cycle = n.out ⊘ fl.lit 255 1;
    lower_bound = n.lower_bound;
    ext = n.ext;
    ref = n.ref;
    occupancy = n.occupancy;
  }

  pub reported_due :
      (clock : ℕ) (n : Node F) (now : ℕ)
      → is_due n now ≡ true
      → reported clock n now ≡ (clock, sent (status_of n)) ∷ []
  unfolding send_status
  reported_due clock n now due = ground (arith, due)

  pub feed-append :
      (s : System F) (first later : List (ℕ × List ℕ))
      → feed s (first ++ later) ≡ feed (feed s first) later
  unfolding feed
  feed-append s [] later = refl
  feed-append s ((clock, bytes) ∷ first) later = feed-append (handle_read s clock bytes) first later

  -- Reads of whatever bytes, no more of them at once than the buffer of the FIFO takes.
  pub feed-IsWellFormed :
      (s : System F) (pieces : List (ℕ × List ℕ))
      → All IsRead pieces
      → IsWellFormed s
      → IsWellFormed (feed s pieces) × ((feed s pieces).nodes ≡ s.nodes)
  unfolding feed
  feed-IsWellFormed s [] small v = (v, refl)
  feed-IsWellFormed s ((clock, bytes) ∷ pieces) (first, small) v =
      let (v', nodes) =
        feed-IsWellFormed (handle_read s clock bytes) pieces small
          (handle_read-IsWellFormed s clock bytes first v) in
      (v', nodes ∙ handle_read-nodes s clock bytes)

  send_status-small :
      (clock : ℕ) (n : Node F) (now : ℕ)
      → All IsRead (map (λ m. (clock, m.packet)) (send_status n now).1)
  unfolding send_status send_info
  send_status-small clock n now = elim (Bool-cases (is_due n now)) [
    | inl due ↦ rw due (omega arith, tt)
    | inr early ↦ rw early tt
  ]

  complete-small :
      (clock : ℕ) (n : Node F) (times : List ℕ)
      → All IsRead (map (λ m. (clock, m.packet)) (complete n times).1)
  unfolding complete
  complete-small clock n [] = tt
  complete-small clock n (now ∷ later) =
      All-IsRead clock (send_status n now).1 (complete (send_status n now).0 later).1
        (send_status-small clock n now) (complete-small clock (send_status n now).0 later)

  -- The statuses of a solve fit the buffer of the FIFO.
  pub reported_solving-small :
      (clock : ℕ) (n : Node F) (w : Outcome F) → All IsRead (reported_solving clock n w)
  unfolding update_messages
  reported_solving-small clock n w = elim (Bool-cases n.reset) [
    | inl e ↦ rw e tt
    | inr e ↦ (elim (State-cases n.state) [
      | inl s ↦ (elim (Bool-cases (n.changed && n.distributed)) [
        | inl c ↦ rw (e, s, c) (complete-small clock (solving_node n) w.completions)
        | inr c ↦ rw (e, s, c) tt
      ])
      | inr (inl s) ↦ rw (e, s) tt
      | inr (inr s) ↦ rw (e, s) tt
    ])
  ]

  -- The server's view of both nodes after a status of each.
  pub feed-both :
      (laws : IsFloat F) (s : System F) (m o : Status F) (c c' : ℕ)
      → IsWellFormed s
      → s.nodes ≡ 2
      → m.dev_id ≡ 0
      → o.dev_id ≡ 1
      → let s' = feed s (reads ((c, m) ∷ (c', o) ∷ [])) in
        (get_lux_reference s' 0 ≡ m.ref)
        × (get_lux_reference s' 1 ≡ o.ref)
        × (get_lux_lower_bound s' 0 ≡ m.lower_bound)
        × (get_lux_lower_bound s' 1 ≡ o.lower_bound)
        × (get_occupancy s' 0 ≡ m.occupancy)
        × (get_occupancy s' 1 ≡ o.occupancy)
  feed-both laws s m o c c' v two first second =
      let known : (m.dev_id < s.nodes) × ((o.dev_id < s.nodes) × Unit) =
        (omega (arith, two, first), (omega (arith, two, second), tt)) in
      let (_, _, ref0, occ0, lb0, _) = feed-view laws s ((c, m) ∷ (c', o) ∷ []) 0 v known in
      let (_, _, ref1, occ1, lb1, _) = feed-view laws s ((c, m) ∷ (c', o) ∷ []) 1 v known in
      (
        ground (arith, ref0, first, second),
        ground (arith, ref1, first, second),
        ground (arith, lb0, first, second),
        ground (arith, lb1, first, second),
        ground (arith, occ0, first, second),
        ground (arith, occ1, first, second),
      )
