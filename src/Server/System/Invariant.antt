-- ===== src/Server/System/Invariant.antt =====
-- What every method keeps: a log, a bound, an external illuminance and an occupancy for each node.
pub mod Reset
use scdtr.Prelude.{
  ℕ, ◌+◌, ◌*◌, ◌≤◌, ◌≡◌, refl, sym, ap, ◌∙◌, inl, inr, Bool, true, false, ◌&&◌, ◌==◌, Option, none,
  some, List, [], ◌∷◌, ◌++◌, arith, leb, ltb, length, get_elem?, get_or, drop, replicate,
  length-set, length-append, length-replicate, Option-cases, Bool-cases, if◌then◌else◌,
}
use scdtr.Float.{Float}
use Reset.{reset-empty, construct-empty}
use scdtr.Server.{recv_buffer}
use scdtr.Server.System.{Entry, System, insert_entry, reset, construct, zero_f}
use scdtr.Server.System.Feed.{
  inf, received, update_node, store_info, handle_read, handle_read_cases,
}

pub record IsWellFormed {F : Type 0} (s : System F) : Type 0 where
  pub entries_length : length s.entries ≡ s.nodes
  pub lower_bound_length : length s.lux_lower_bound ≡ s.nodes
  pub external_length : length s.lux_external ≡ s.nodes
  pub occupancy_length : length s.occupancy ≡ s.nodes
  pub buffer_length : length s.i2c_buffer ≡ recv_buffer

length-received :
    (bytes buffer : List ℕ)
    → length bytes ≤ length buffer
    → length (received bytes buffer) ≡ length buffer
length-received [] buffer h = refl
length-received (b ∷ bytes) [] h = absurd (omega arith)
length-received (b ∷ bytes) (x ∷ buffer) h =
    omega (arith, length-received bytes buffer (omega arith))

module _ {F : Type 0} ⦃fl : Float F⦄ where
  insert_entry-IsWellFormed :
      (s : System F) (id : ℕ) (e : Entry F) → IsWellFormed s → IsWellFormed (insert_entry s id e)
  unfolding insert_entry
  insert_entry-IsWellFormed s id e v = elim (Option-cases (get_elem? s.entries id)) [
    | inl missing ↦ rw (missing, insert_entry) v
    | inr (log, found) ↦
        rw (found, insert_entry)
          (record {
            entries_length = length-set s.entries id (log ++ (e ∷ [])) ∙ v.entries_length;
            lower_bound_length = v.lower_bound_length;
            external_length = v.external_length;
            occupancy_length = v.occupancy_length;
            buffer_length = v.buffer_length;
          })
  ]

  update_node-IsWellFormed :
      (s : System F) (id : ℕ) → IsWellFormed s → IsWellFormed (update_node s id)
  unfolding update_node
  update_node-IsWellFormed s id v = elim (Bool-cases (ltb id (length s.lux_lower_bound))) [
    | inl known ↦
        rw (known, update_node)
          (record {
            entries_length = v.entries_length;
            lower_bound_length = length-set s.lux_lower_bound id _ ∙ v.lower_bound_length;
            external_length = length-set s.lux_external id _ ∙ v.external_length;
            occupancy_length = length-set s.occupancy id _ ∙ v.occupancy_length;
            buffer_length = v.buffer_length;
          })
    | inr unknown ↦ rw (unknown, update_node) v
  ]

  store_info-IsWellFormed :
      (s : System F) (id absolute : ℕ) → IsWellFormed s → IsWellFormed (store_info s id absolute)
  unfolding store_info
  store_info-IsWellFormed s id absolute v =
      insert_entry-IsWellFormed (update_node s id) id _ (update_node-IsWellFormed s id v)

  -- A read of the FIFO, whatever its bytes, keeps the vectors at one element for each node.
  pub handle_read-IsWellFormed :
      (s : System F) (absolute : ℕ) (bytes : List ℕ)
      → length bytes ≤ recv_buffer
      → IsWellFormed s
      → IsWellFormed (handle_read s absolute bytes)
  handle_read-IsWellFormed s absolute bytes small v =
      let v' : IsWellFormed (record s { i2c_buffer = received bytes s.i2c_buffer }) = record {
        entries_length = v.entries_length;
        lower_bound_length = v.lower_bound_length;
        external_length = v.external_length;
        occupancy_length = v.occupancy_length;
        buffer_length =
            length-received bytes s.i2c_buffer (omega (arith, v.buffer_length)) ∙ v.buffer_length;
      } in
      handle_read_cases IsWellFormed s absolute bytes v'
        (λ id. store_info-IsWellFormed _ id absolute v')

  insert_entry-nodes : (s : System F) (id : ℕ) (e : Entry F) → (insert_entry s id e).nodes ≡ s.nodes
  unfolding insert_entry
  insert_entry-nodes s id e = ground arith

  update_node-nodes : (s : System F) (id : ℕ) → (update_node s id).nodes ≡ s.nodes
  unfolding update_node
  update_node-nodes s id = ground arith

  store_info-nodes : (s : System F) (id absolute : ℕ) → (store_info s id absolute).nodes ≡ s.nodes
  unfolding store_info
  store_info-nodes s id absolute =
      insert_entry-nodes (update_node s id) id _ ∙ update_node-nodes s id

  pub handle_read-nodes :
      (s : System F) (absolute : ℕ) (bytes : List ℕ)
      → (handle_read s absolute bytes).nodes ≡ s.nodes
  handle_read-nodes s absolute bytes =
      handle_read_cases (λ s'. s'.nodes ≡ s.nodes) s absolute bytes refl
        (λ id. store_info-nodes _ id absolute)

  -- A reset keeps them too, and cannot fail.
  pub reset-IsWellFormed :
      (s : System F) (absolute : ℕ)
      → IsWellFormed s
      → (s' : System F) × (reset s absolute ≡ some s') × IsWellFormed s'
  reset-IsWellFormed s absolute v = (
    _,
    reset-empty s absolute v.entries_length,
    record {
      entries_length = length-replicate s.nodes [];
      lower_bound_length = length-replicate s.nodes zero_f;
      external_length = length-replicate s.nodes zero_f;
      occupancy_length = length-replicate s.nodes false;
      buffer_length = v.buffer_length;
    },
  )

  pub construct-IsWellFormed :
      (nodes : ℕ) (t_s : F) (absolute : ℕ)
      → (s : System F) × (construct nodes t_s absolute ≡ some s) × IsWellFormed s
  construct-IsWellFormed nodes t_s absolute =
      let (s, made, n, _, e, lb, ext, occ, buffer) = construct-empty nodes t_s absolute in
      (
        s,
        made,
        record {
          entries_length = ap length e ∙ length-replicate nodes [] ∙ sym n;
          lower_bound_length = ap length lb ∙ length-replicate nodes zero_f ∙ sym n;
          external_length = ap length ext ∙ length-replicate nodes zero_f ∙ sym n;
          occupancy_length = ap length occ ∙ length-replicate nodes false ∙ sym n;
          buffer_length = buffer;
        },
      )
