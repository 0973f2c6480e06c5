-- ===== src/Server/System/Timeline.antt =====
-- The order of the timestamps in the logs, over the reads between two resets.
use mathlib.Core.Option.{some-injective}
use scdtr.Prelude.{
  ℕ, ◌+◌, ◌-◌, ◌%◌, ◌≤◌, ◌<◌, ◌≡◌, refl, sym, ◌∙◌, inl, inr, some, List, [], ◌∷◌, ◌++◌, arith,
  get_elem?, Option-cases, All, All-set, All-get, All-map, All-replicate,
}
use scdtr.Float.{Float}
use scdtr.Server.{ulong_mod}
use scdtr.Server.System.{Entry, System, insert_entry, millis, reset}
use scdtr.Server.System.Feed.{update_node, store_info, handle_read, handle_read_cases}
use scdtr.Server.System.Invariant.{IsWellFormed}
use scdtr.Server.System.Invariant.Reset.{reset-empty}

-- A clock that does not go back, from one value on and short of another.
abbrev pub IsAscending : ℕ → ℕ → List (ℕ × List ℕ) → Type 0
IsAscending from end [] = from < end
IsAscending from end ((absolute, bytes) ∷ reads) =
    (from ≤ absolute) × IsAscending absolute end reads

IsAscending-lt :
    (reads : List (ℕ × List ℕ)) (from end : ℕ) → IsAscending from end reads → from < end
IsAscending-lt [] from end h = h
IsAscending-lt ((absolute, bytes) ∷ reads) from end h =
    omega (arith, IsAscending-lt reads absolute end h.1)

abbrev pub last_clock : ℕ → List (ℕ × List ℕ) → ℕ
last_clock from [] = from
last_clock from ((absolute, bytes) ∷ reads) = last_clock absolute reads

module _ {F : Type 0} ⦃fl : Float F⦄ where
  -- A log whose timestamps do not fall, from `low` to `high`.
  abbrev pub IsTimeline : ℕ → ℕ → List (Entry F) → Type 0
  IsTimeline low high [] = low ≤ high
  IsTimeline low high (e ∷ es) = (low ≤ e.timestamp) × IsTimeline e.timestamp high es

  IsTimeline-append :
      (log : List (Entry F)) (e : Entry F) (low high : ℕ)
      → IsTimeline low high log
      → high ≤ e.timestamp
      → IsTimeline low e.timestamp (log ++ (e ∷ []))
  IsTimeline-append [] e low high t h = omega arith
  IsTimeline-append (x ∷ log) e low high t h = (t.0, IsTimeline-append log e x.timestamp high t.1 h)

  IsTimeline-later :
      (low high high' : ℕ) (log : List (Entry F))
      → high ≤ high'
      → IsTimeline low high log
      → IsTimeline low high' log
  IsTimeline-later low high high' [] h t = omega arith
  IsTimeline-later low high high' (x ∷ log) h t =
      (t.0, IsTimeline-later x.timestamp high high' log h t.1)

  -- Every log is in order, up to a time.
  abbrev pub IsChronological : ℕ → System F → Type 0
  IsChronological high s = All (IsTimeline 0 high) s.entries

  IsChronological-later :
      (low high : ℕ) (s : System F) → low ≤ high → IsChronological low s → IsChronological high s
  IsChronological-later low high s h t =
      All-map s.entries (λ log. IsTimeline-later 0 low high log h) t

  insert_entry-IsChronological :
      (s : System F) (id high : ℕ) (e : Entry F)
      → high ≤ e.timestamp
      → IsChronological high s
      → IsChronological e.timestamp (insert_entry s id e)
  unfolding insert_entry
  insert_entry-IsChronological s id high e h t = elim (Option-cases (get_elem? s.entries id)) [
    | inl missing ↦ rw (missing, insert_entry) (IsChronological-later high e.timestamp s h t)
    | inr (log, found) ↦
        rw (found, insert_entry)
          (All-set (IsTimeline 0 e.timestamp) s.entries id (log ++ (e ∷ []))
            (IsChronological-later high e.timestamp s h t)
            (IsTimeline-append log e 0 high (All-get (IsTimeline 0 high) s.entries id t found) h))
  ]

  update_node_keeps :
      (s : System F) (id : ℕ)
      → ((update_node s id).entries ≡ s.entries) × ((update_node s id).start ≡ s.start)
  unfolding update_node
  update_node_keeps s id = ground arith

  insert_entry-start : (s : System F) (id : ℕ) (e : Entry F) → (insert_entry s id e).start ≡ s.start
  unfolding insert_entry
  insert_entry-start s id e = ground arith

  millis_congr :
      (s s' : System F) (absolute : ℕ) → s'.start ≡ s.start → millis s' absolute ≡ millis s absolute
  unfolding millis
  millis_congr s s' absolute e = rw e

  store_info-start : (s : System F) (id absolute : ℕ) → (store_info s id absolute).start ≡ s.start
  unfolding store_info
  store_info-start s id absolute =
      insert_entry-start (update_node s id) id _ ∙ (update_node_keeps s id).1

  store_info-IsChronological :
      (s : System F) (id absolute high : ℕ)
      → high ≤ millis s absolute
      → IsChronological high s
      → IsChronological (millis s absolute) (store_info s id absolute)
  unfolding store_info
  store_info-IsChronological s id absolute high h t =
      let (kept, start) = update_node_keeps s id in
      let now = millis_congr s (update_node s id) absolute start in
      rw (← now) (insert_entry-IsChronological (update_node s id) id high _ (rw now h) (rw kept t))

  pub handle_read-start :
      (s : System F) (absolute : ℕ) (bytes : List ℕ)
      → (handle_read s absolute bytes).start ≡ s.start
  handle_read-start s absolute bytes =
      handle_read_cases (λ s'. s'.start ≡ s.start) s absolute bytes refl
        (λ id. store_info-start _ id absolute)

  handle_read-IsChronological :
      (s : System F) (absolute high : ℕ) (bytes : List ℕ)
      → high ≤ millis s absolute
      → IsChronological high s
      → IsChronological (millis s absolute) (handle_read s absolute bytes)
  unfolding millis
  handle_read-IsChronological s absolute high bytes h t =
      let now = millis s absolute in
      handle_read_cases (IsChronological now) s absolute bytes
        (IsChronological-later high now s h t)
        (λ id. store_info-IsChronological _ id absolute high h t)

  -- The server's life between two resets: reads of the FIFO, each at a value of the clock.
  unfoldable pub feed : System F → List (ℕ × List ℕ) → System F
  feed s [] = s
  feed s ((absolute, bytes) ∷ reads) = feed (handle_read s absolute bytes) reads

  -- Before the counter wraps, the time since the reset is the difference of the clock's values.
  millis_lem :
      (s : System F) (reset_at absolute : ℕ)
      → s.start ≡ reset_at % ulong_mod
      → reset_at ≤ absolute
      → absolute < reset_at + ulong_mod
      → millis s absolute ≡ absolute - reset_at
  unfolding millis
  millis_lem s reset_at absolute e h k = omega arith

  feed-IsChronological :
      (reads : List (ℕ × List ℕ)) (s : System F) (reset_at from : ℕ)
      → s.start ≡ reset_at % ulong_mod
      → reset_at ≤ from
      → IsChronological (from - reset_at) s
      → IsAscending from (reset_at + ulong_mod) reads
      → IsChronological (last_clock from reads - reset_at) (feed s reads)
  unfolding feed
  feed-IsChronological [] s reset_at from e low t clock = t
  feed-IsChronological ((absolute, bytes) ∷ reads) s reset_at from e low t (later, clock) =
      let now =
        millis_lem s reset_at absolute e (omega arith)
          (IsAscending-lt reads absolute (reset_at + ulong_mod) clock) in
      feed-IsChronological reads (handle_read s absolute bytes) reset_at absolute
        (handle_read-start s absolute bytes ∙ e) (omega arith)
        (rw now at (handle_read-IsChronological s absolute (from - reset_at) bytes (omega arith) t))
        clock

  -- After a reset, whatever bytes the FIFO delivers, every log stays in the order of its timestamps,
  -- as long as the clock does not go back and the 32-bit count of milliseconds does not wrap.
  pub feed-reset-IsChronological :
      (s s' : System F) (reset_at : ℕ) (reads : List (ℕ × List ℕ))
      → IsWellFormed s
      → reset s reset_at ≡ some s'
      → IsAscending reset_at (reset_at + ulong_mod) reads
      → IsChronological (last_clock reset_at reads - reset_at) (feed s' reads)
  feed-reset-IsChronological s s' reset_at reads v e clock =
      let cleared = sym (some-injective _ _ (sym (reset-empty s reset_at v.entries_length) ∙ e)) in
      feed-IsChronological reads s' reset_at reset_at (rw cleared) (omega arith)
        (rw cleared (All-replicate (IsTimeline 0 (reset_at - reset_at)) s.nodes [] (omega arith)))
        clock
