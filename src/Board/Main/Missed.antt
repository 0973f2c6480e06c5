-- ===== src/Board/Main/Missed.antt =====
-- The handlers that main.ino installs while a node calibrates or solves, and the orders that come
-- then.
use scdtr.Prelude.{
  ℕ, ◌≡◌, Bool, true, false, ◌||◌, ◌==◌, if◌then◌else◌, some, List, [], arith, length, get_elem?,
}
use scdtr.Float.{Float, IsFloat}
use scdtr.Board.{n_nodes, master}
use scdtr.Board.Communication.{
  Shared, max_size, pack, send_packet, send_consensus, on_receive, order_bound, ico, res, don, dof,
}
use scdtr.Board.Communication.Arrays.{length-pack}
use scdtr.Board.Communication.Orders.{on_receive-send_packet, on_receive-send_consensus}
use scdtr.Board.Communication.RoundTrip.{read_packet-header}
use scdtr.Board.Calibration
use scdtr.Board.Consensus.Exchange

-- A reset, or a switch of distributed control.
abbrev is_switch : ℕ → Bool
is_switch type = type == res || type == don || type == dof

module _ {F : Type 0} ⦃fl : Float F⦄ (laws : IsFloat F) (junk : List ℕ)
    (full : length junk ≡ max_size) where
  -- A switch or an order of the master with a bound for either node, as it comes to a node: the
  -- handler of the consensus and that of the calibration leave everything as it is, in whatever
  -- state their exchange is, where the handler of the main loop takes the switch, or the bound, and
  -- marks the change. So what the master sends while a node calibrates or solves has no effect in
  -- that node.
  pub order_missed :
      (e : Exchange.Exchange F) (c : Calibration.Calibration F) (s : Shared F) (dest type : ℕ)
      (bounds : List F) (value f : F)
      → is_switch type ≡ true
      → length bounds ≡ n_nodes
      → get_elem? bounds s.dev_id ≡ some f
      → let switch = (send_packet master dest type).packet in
        let order = (send_consensus master dest true bounds).packet in
        (Exchange.on_receive e junk switch ≡ some e)
        × (Exchange.on_receive e junk order ≡ some e)
        × (Calibration.on_receive c junk switch value ≡ some c)
        × (Calibration.on_receive c junk order value ≡ some c)
        × (on_receive s switch
            ≡ some (record s {
              reset = type == res || s.reset;
              distributed =
                  if type == don then true else if type == dof then false else s.distributed;
            }))
        × (on_receive s order ≡ some (order_bound s f))
  unfolding Exchange.on_receive Calibration.on_receive send_packet send_consensus
  order_missed e c s dest type bounds value f switch two own =
      let bare = read_packet-header master type [] junk full (omega (arith, full)) in
      let loaded =
        read_packet-header master ico (pack bounds) junk full
          (omega (arith, full, two, length-pack bounds)) in
      (
        ground (arith, bare, switch),
        ground (arith, loaded),
        ground (arith, bare, switch),
        ground (arith, loaded),
        on_receive-send_packet s master dest type (λ x. ground (arith, x, switch)),
        on_receive-send_consensus laws s master dest bounds f (omega (arith, two)) own,
      )
