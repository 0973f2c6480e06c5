-- ===== src/Board/Communication/Orders.antt =====
-- What a node does with the master's orders.
use scdtr.Prelude.{
  ℕ, suc, ◌+◌, ◌*◌, ◌≤◌, ◌≡◌, ◌≢◌, true, false, ◌||◌, ◌==◌, if◌then◌else◌, some, List, ◌∷◌, arith,
  length, drop, get_elem?, replicate,
}
use scdtr.Float.{Float, IsFloat}
use scdtr.Board.Communication.{
  Shared, max_size, pack, send_packet, send_consensus, on_receive, order_bound, ico, res, don, dof,
}
use scdtr.Board.Communication.Arrays.{fill_packet_lem, length-pack, float_at-pack}

module _ {F : Type 0} ⦃fl : Float F⦄ where
  -- A packet of the master with no body, by its type: a reset and the two switches of distributed
  -- control change their one variable, and every other type changes nothing. No packet is a fault.
  pub on_receive-send_packet :
      (s : Shared F) (dev_id dest type : ℕ)
      → type ≢ ico
      → on_receive s (send_packet dev_id dest type).packet
        ≡ some (record s {
          reset = type == res || s.reset;
          distributed = if type == don then true else if type == dof then false else s.distributed;
        })
  unfolding on_receive send_packet
  on_receive-send_packet s dev_id dest type h = ground arith

  -- An order that carries one bound for each node: a node of the list finds its own, at its index.
  pub on_receive-send_consensus :
      (laws : IsFloat F) (s : Shared F) (dev_id dest : ℕ) (bounds : List F) (f : F)
      → length bounds ≤ 7
      → get_elem? bounds s.dev_id ≡ some f
      → on_receive s (send_consensus dev_id dest true bounds).packet ≡ some (order_bound s f)
  unfolding on_receive send_consensus
  on_receive-send_consensus laws s dev_id dest bounds f small own =
      let sent = dev_id ∷ 4 ∷ pack bounds in
      let offset : 2 + s.dev_id * 4 ≡ suc (suc (s.dev_id * 4)) = omega arith in
      let filled =
        fill_packet_lem (length sent) sent (replicate max_size 0) (omega arith)
          (omega (arith, length-pack bounds)) in
      rw
        (
          filled,
          on_receive,
          offset,
          float_at-pack laws bounds s.dev_id f (drop (length sent) (replicate max_size 0)) own,
        )
        (ground arith)
