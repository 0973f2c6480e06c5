-- ===== src/Telemetry/Coalesced.antt =====
-- Two statuses in one read of the FIFO.
use scdtr.Prelude.{
  ℕ, get_elem?-set_ne, ◌<◌, ◌≡◌, ◌≢◌, refl, sym, ap, ◌∙◌, inl, inr, false, ◌==◌, List, [], ◌∷◌,
  ◌++◌, arith, get_elem?, Option-cases,
}
use scdtr.Float.{Float, IsFloat}
use scdtr.Board.Communication.{send_info}
use scdtr.Server.System.{
  Entry, System, millis, insert_entry, get_occupancy, get_lux_lower_bound, get_lux_external,
}
use scdtr.Server.System.Figures.{get_comfort_error, get_comfort_variance}
use scdtr.Server.System.Feed.{received, info_entry, handle_read}
use scdtr.Server.System.Invariant.{IsWellFormed}
use scdtr.Telemetry.{Status, sent}
use scdtr.Telemetry.Stored.{noted, handle_read-sent, handle_read-status}

module _ {F : Type 0} ⦃fl : Float F⦄ where
  -- What is logged does not depend on what follows the status.
  info_entry-extra :
      (laws : IsFloat F) (s : System F) (absolute : ℕ) (m : Status F) (extra : List ℕ)
      → info_entry (noted laws s m extra) m.dev_id absolute
        ≡ info_entry (noted laws s m []) m.dev_id absolute
  unfolding send_info get_comfort_error get_comfort_variance millis
  info_entry-extra laws s absolute m extra = refl

  insert_entry-buffer :
      (s : System F) (id : ℕ) (e : Entry F) (buffer : List ℕ)
      → insert_entry (record s { i2c_buffer = buffer }) id e
        ≡ record (insert_entry s id e) { i2c_buffer = buffer }
  unfolding insert_entry
  insert_entry-buffer s id e buffer = elim (Option-cases (get_elem? s.entries id)) [
    | inl missing ↦ rw (missing, insert_entry) refl
    | inr (log, found) ↦ rw (found, insert_entry) refl
  ]

  insert_entry-others :
      (s : System F) (id j : ℕ) (e : Entry F)
      → id ≢ j
      → get_elem? (insert_entry s id e).entries j ≡ get_elem? s.entries j
  unfolding insert_entry
  insert_entry-others s id j e differ = elim (Option-cases (get_elem? s.entries id)) [
    | inl missing ↦ rw (missing, insert_entry) refl
    | inr (log, found) ↦
        rw (found, insert_entry) (get_elem?-set_ne s.entries id j (log ++ (e ∷ [])) differ)
  ]

  -- With a log for each node, a read of the FIFO that holds the statuses of two nodes, the first
  -- one known to the server, whatever follows them, is taken for the first alone: the whole state
  -- of the server, but for the buffer itself, is what it is after a read of the first status; and
  -- the log of the second node, and its bound, its external illuminance and its occupancy, are what
  -- they were before the read. So its status is lost.
  pub handle_read_coalesced :
      (laws : IsFloat F) (s : System F) (absolute : ℕ) (m o : Status F) (extra : List ℕ)
      → IsWellFormed s
      → m.dev_id < s.nodes
      → m.dev_id ≢ o.dev_id
      → let s' = handle_read s absolute (sent m ++ (sent o ++ extra)) in
        (s' ≡ record (handle_read s absolute (sent m)) {
          i2c_buffer = received (sent m ++ (sent o ++ extra)) s.i2c_buffer;
        })
        × (get_elem? s'.entries o.dev_id ≡ get_elem? s.entries o.dev_id)
        × (get_lux_lower_bound s' o.dev_id ≡ get_lux_lower_bound s o.dev_id)
        × (get_lux_external s' o.dev_id ≡ get_lux_external s o.dev_id)
        × (get_occupancy s' o.dev_id ≡ get_occupancy s o.dev_id)
  unfolding send_info
  handle_read_coalesced laws s absolute m o extra v known differ =
      let more = sent o ++ extra in
      let both = handle_read-sent laws s absolute m more v known in
      let alone = handle_read-sent laws s absolute m [] v known in
      let buffer = received (sent m ++ more) s.i2c_buffer in
      let second = handle_read-status laws s absolute m more o.dev_id v known in
      let other : (o.dev_id == m.dev_id) ≡ false = ground (arith, differ) in
      (
        both
            ∙ ap (insert_entry (noted laws s m more) m.dev_id)
                (info_entry-extra laws s absolute m more)
            ∙ insert_entry-buffer (noted laws s m []) m.dev_id
                (info_entry (noted laws s m []) m.dev_id absolute) buffer
            ∙ ap {A = System F} {B = System F} (λ t. record t { i2c_buffer = buffer }) (sym alone),
        ap (λ t. get_elem? t.entries o.dev_id) both
            ∙ insert_entry-others (noted laws s m more) m.dev_id o.dev_id _ differ,
        second.5 ∙ rw other refl,
        second.6 ∙ rw other refl,
        second.4 ∙ rw other refl,
      )
