-- ===== src/Server/Request/Silenced.antt =====
-- A reset by one client, at the streams of another: `last_update_` of a session, the timestamps of
-- its streams, stays at the clock of before.
use scdtr.Prelude.{
  ℕ, zero, suc, ◌+◌, ◌-◌, ◌≤◌, ◌<◌, ◌≡◌, refl, sym, ◌∙◌, inl, inr, Bool, none, some, List, [], ◌∷◌,
  arith, length, get_or, get_elem?, get_last?, All, All-get, Option-cases,
}
use scdtr.Float.{Float}
use scdtr.Server.{ulong_mod}
use scdtr.Server.System.{Entry, System, reset, get_latest_entry}
use scdtr.Server.System.Invariant.{IsWellFormed, handle_read-nodes}
use scdtr.Server.System.Invariant.Reset.{reset-empty}
use scdtr.Server.System.Timeline.{
  IsAscending, last_clock, IsTimeline, IsChronological, feed, feed-reset-IsChronological,
}
use scdtr.Server.System.Feed.{handle_read}
use scdtr.Server.Request.{Streams}
use scdtr.Server.Request.Update.{stream_from, stream_update}
use scdtr.Server.Request.Streaming.{news, stream_step-none}

All-get_or :
    (high : ℕ) (xs : List ℕ) (i : ℕ) → All (λ t. high ≤ t) xs → i < length xs → high ≤ get_or xs i 0
All-get_or high [] i h small = absurd (omega arith)
All-get_or high (x ∷ xs) zero h small = h.0
All-get_or high (x ∷ xs) (suc i) h small = All-get_or high xs i h.1 (omega arith)

module _ {F : Type 0} ⦃fl : Float F⦄ where
  IsTimeline-last :
      (low high : ℕ) (log : List (Entry F)) (e : Entry F)
      → IsTimeline low high log
      → get_last? log ≡ some e
      → e.timestamp ≤ high
  IsTimeline-last low high [] e t h = absurd (ground (arith, h))
  IsTimeline-last low high (x ∷ []) e t h = ground (arith, h, t)
  IsTimeline-last low high (x ∷ y ∷ log) e t h =
      IsTimeline-last x.timestamp high (y ∷ log) e t.1 (ground (arith, h))

  -- A log that ends by a time has no news for a stream of that time.
  no_news :
      (s : System F) (flags : List Bool) (high i timestamp : ℕ)
      → IsChronological high s
      → high ≤ timestamp
      → news s flags i timestamp ≡ none
  unfolding get_latest_entry
  no_news s flags high i timestamp t h = elim (Option-cases (get_elem? s.entries i)) [
    | inl missing ↦ ground (arith, missing)
    | inr (log, found) ↦ elim (Option-cases (get_last? log)) [
      | inl empty ↦ ground (arith, found, empty)
      | inr (e, last) ↦
          let early =
            IsTimeline-last 0 high log e (All-get (IsTimeline 0 high) s.entries i t found) last in
          ground (arith, found, last, early, h)
    ]
  ]

  stream_from-none :
      (s : System F) (flags : List Bool) (left i : ℕ) (timestamps response : List ℕ)
      → ((j : ℕ) → j < i + left → news s flags j (get_or timestamps j 0) ≡ none)
      → stream_from s flags left i timestamps response ≡ (timestamps, response)
  unfolding stream_from
  stream_from-none s flags zero i timestamps response h = refl
  stream_from-none s flags (suc left) i timestamps response h =
      rw (stream_step-none s flags i timestamps response (h i (omega arith)))
        (stream_from-none s flags left (i + 1) timestamps response (λ j small. h j (omega arith)))

  feed-nodes : (s : System F) (reads : List (ℕ × List ℕ)) → (feed s reads).nodes ≡ s.nodes
  unfolding feed
  feed-nodes s [] = refl
  feed-nodes s ((absolute, bytes) ∷ reads) =
      feed-nodes (handle_read s absolute bytes) reads ∙ handle_read-nodes s absolute bytes

  -- In a system with a log for each node, behind a reset that another client has asked for, a
  -- session that has a timestamp for each node, and has seen times up to `high` or later in each,
  -- sends nothing and changes nothing, whatever the FIFO delivers, until the time since the reset
  -- is past `high`, as long as the clock does not go back and the count does not wrap: every value
  -- of that span is lost to the client, even if its streams are on.
  pub stream_update_silenced :
      (s s' : System F) (st : Streams) (reset_at high : ℕ) (reads : List (ℕ × List ℕ))
      → IsWellFormed s
      → length st.timestamps ≡ s.nodes
      → All (λ t. high ≤ t) st.timestamps
      → reset s reset_at ≡ some s'
      → IsAscending reset_at (reset_at + ulong_mod) reads
      → last_clock reset_at reads - reset_at ≤ high
      → stream_update (feed s' reads) st ≡ (st, [])
  unfolding stream_update
  stream_update_silenced s s' st reset_at high reads v fits seen done clock early =
      let now = last_clock reset_at reads - reset_at in
      let t = feed-reset-IsChronological s s' reset_at reads v done clock in
      let same : s'.nodes ≡ s.nodes =
        ground (arith, reset-empty s reset_at v.entries_length, done) in
      let nodes : (feed s' reads).nodes ≡ length st.timestamps =
        feed-nodes s' reads ∙ same ∙ sym fits in
      let quiet =
        stream_from-none (feed s' reads) st.flags (feed s' reads).nodes 0 st.timestamps []
          (λ j small. no_news (feed s' reads) st.flags now j (get_or st.timestamps j 0) t (
            omega (
              arith,
              early,
              All-get_or high st.timestamps j seen (omega (arith, small, nodes)),
            ))) in
      rw quiet refl
