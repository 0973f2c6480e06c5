-- ===== src/Telemetry/Stored.antt =====
-- The server's view of a node after one read of the FIFO that begins with its packet.
use scdtr.Prelude.{
  ℕ, ◌<◌, ◌≡◌, refl, Bool, true, false, not, ◌&&◌, ◌==◌, some, List, [], ◌∷◌, ◌++◌, arith, leb,
  length, get_or, set, if◌then◌else◌, lt→ltb,
}
use scdtr.Float.{Float, IsFloat}
use scdtr.Server.System.{
  Entry, System, millis, insert_entry, get_latest_entry, get_lux, get_duty_cycle, get_lux_reference,
  get_timestamp, get_occupancy, get_lux_lower_bound, get_lux_external,
}
use scdtr.Server.System.Feed.{inf, received, info_entry, update_node, store_info, handle_read}
use scdtr.Server.System.Invariant.{IsWellFormed}
use scdtr.Server.System.Log.{get_latest_entry-insert_entry}
use scdtr.Board.Communication.{send_info}
use scdtr.Telemetry.{Status, sent}

get_or-set :
    {A : Type 0} (xs : List A) (i j : ℕ) (v d : A)
    → i < length xs
    → get_or (set xs i v) j d ≡ (if j == i then v else get_or xs j d)
get_or-set [] i j v d h = elim h [ ]
get_or-set (x ∷ xs) ℕ.zero ℕ.zero v d h = refl
get_or-set (x ∷ xs) ℕ.zero (ℕ.suc j) v d h = ground arith
get_or-set (x ∷ xs) (ℕ.suc i) ℕ.zero v d h = ground arith
get_or-set (x ∷ xs) (ℕ.suc i) (ℕ.suc j) v d h = ground (arith, get_or-set xs i j v d)

module _ {F : Type 0} ⦃fl : Float F⦄ (laws : IsFloat F) where
  -- The state with the packet's fields of the node in place.
  abbrev pub noted : System F → Status F → List ℕ → System F
  noted s m extra = record s {
    lux_lower_bound = set s.lux_lower_bound m.dev_id m.lower_bound;
    lux_external = set s.lux_external m.dev_id m.ext;
    occupancy = set s.occupancy m.dev_id m.occupancy;
    i2c_buffer = received (sent m ++ extra) s.i2c_buffer;
  }

  read_occupancy : (b : Bool) → not ((if b then 1 else 0) == 0) ≡ b
  read_occupancy true = refl
  read_occupancy false = refl

  update_node-sent :
      (s : System F) (m : Status F) (extra : List ℕ)
      → IsWellFormed s
      → m.dev_id < s.nodes
      → update_node (record s { i2c_buffer = received (sent m ++ extra) s.i2c_buffer }) m.dev_id
        ≡ noted s m extra
  unfolding update_node send_info
  update_node-sent s m extra v known =
      let small =
        lt→ltb m.dev_id (length s.lux_lower_bound) (omega (arith, v.lower_bound_length)) in
      rw (
        small,
        update_node,
        laws.of_bytes-byte m.lower_bound,
        laws.of_bytes-byte m.ext,
        read_occupancy m.occupancy,
      )

  is_status :
      (s : System F) (m : Status F) (extra : List ℕ)
      → leb 2 (length (sent m ++ extra))
          && get_or (received (sent m ++ extra) s.i2c_buffer) 1 0 == inf
        ≡ true
  unfolding send_info
  is_status s m extra = ground arith

  id_read :
      (s : System F) (m : Status F) (extra : List ℕ)
      → get_or (received (sent m ++ extra) s.i2c_buffer) 0 0 ≡ m.dev_id
  unfolding send_info
  id_read s m extra = refl

  pub handle_read-sent :
      (s : System F) (absolute : ℕ) (m : Status F) (extra : List ℕ)
      → IsWellFormed s
      → m.dev_id < s.nodes
      → let s' = noted s m extra in
        handle_read s absolute (sent m ++ extra)
        ≡ insert_entry s' m.dev_id (info_entry s' m.dev_id absolute)
  unfolding handle_read store_info
  handle_read-sent s absolute m extra v known =
      rw (is_status s m extra, id_read s m extra, update_node-sent s m extra v known)

  -- What the log of any node ends with then.
  latest :
      (s : System F) (absolute : ℕ) (m : Status F) (extra : List ℕ) (j : ℕ)
      → IsWellFormed s
      → m.dev_id < s.nodes
      → get_latest_entry (handle_read s absolute (sent m ++ extra)) j ≡ (
          if j == m.dev_id
          then some (info_entry (noted s m extra) m.dev_id absolute)
          else get_latest_entry s j)
  unfolding get_latest_entry
  latest s absolute m extra j v known =
      let s' = noted s m extra in
      rw (handle_read-sent s absolute m extra v known) (
        ground (
          arith,
          get_latest_entry-insert_entry s' m.dev_id j (info_entry s' m.dev_id absolute),
          v.entries_length,
        ))

  read_floats :
      (s : System F) (m : Status F) (extra : List ℕ) (absolute : ℕ)
      → let e = info_entry (noted s m extra) m.dev_id absolute in
        (e.timestamp ≡ millis s absolute)
        × (e.lux ≡ m.lux)
        × (e.duty_cycle ≡ m.duty_cycle)
        × (e.lux_reference ≡ m.ref)
  unfolding send_info millis
  read_floats s m extra absolute =
      (refl, laws.of_bytes-byte m.lux, laws.of_bytes-byte m.duty_cycle, laws.of_bytes-byte m.ref)

  insert_entry_keeps :
      (s : System F) (id : ℕ) (e : Entry F)
      → let s' = insert_entry s id e in
        (s'.occupancy ≡ s.occupancy)
        × (s'.lux_lower_bound ≡ s.lux_lower_bound)
        × (s'.lux_external ≡ s.lux_external)
  unfolding insert_entry
  insert_entry_keeps s id e = ground arith

  -- A read of the FIFO that begins with the packet of a known node: the getters of that node return
  -- what the node sent, with the time of the read, and those of every other node what they returned
  -- before, whatever bytes follow the packet.
  pub handle_read-status :
      (s : System F) (absolute : ℕ) (m : Status F) (extra : List ℕ) (j : ℕ)
      → IsWellFormed s
      → m.dev_id < s.nodes
      → let s' = handle_read s absolute (sent m ++ extra) in
        let mine = j == m.dev_id in
        (get_lux s' j ≡ (if mine then m.lux else get_lux s j))
        × (get_duty_cycle s' j ≡ (if mine then m.duty_cycle else get_duty_cycle s j))
        × (get_lux_reference s' j ≡ (if mine then m.ref else get_lux_reference s j))
        × (get_timestamp s' j ≡ (if mine then millis s absolute else get_timestamp s j))
        × (get_occupancy s' j ≡ (if mine then m.occupancy else get_occupancy s j))
        × (get_lux_lower_bound s' j ≡ (if mine then m.lower_bound else get_lux_lower_bound s j))
        × (get_lux_external s' j ≡ (if mine then m.ext else get_lux_external s j))
  unfolding get_lux get_duty_cycle get_lux_reference get_timestamp get_occupancy get_lux_lower_bound
      get_lux_external
  handle_read-status s absolute m extra j v known =
      let last = latest s absolute m extra j v known in
      let (t, lux, dc, ref) = read_floats s m extra absolute in
      let s' = noted s m extra in
      let e = info_entry s' m.dev_id absolute in
      let (occ, lb, ext) = insert_entry_keeps s' m.dev_id e in
      let read = handle_read-sent s absolute m extra v known in
      (
        ground (arith, last, lux),
        ground (arith, last, dc),
        ground (arith, last, ref),
        ground (arith, last, t),
        rw (read, occ) (get_or-set s.occupancy m.dev_id j _ _ (omega (arith, v.occupancy_length))),
        rw (read, lb)
            (get_or-set s.lux_lower_bound m.dev_id j _ _ (omega (arith, v.lower_bound_length))),
        rw (read, ext)
            (get_or-set s.lux_external m.dev_id j _ _ (omega (arith, v.external_length))),
      )
