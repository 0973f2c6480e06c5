-- ===== src/Server/Request/Streaming.antt =====
-- `streamUpdate`: which entries are sent, and that none is sent twice.
use mathlib.Core.List.{append_assoc, append-nil}
use mathlib.Core.Path.{subst}
use scdtr.Prelude.{
  ℕ, zero, suc, ◌+◌, ◌≤◌, ◌<◌, ◌≡◌, ◌≢◌, ◌⊎◌, refl, sym, ap, ◌∙◌, inl, inr, Bool, Option, none,
  some, List, [], ◌∷◌, ◌++◌, arith, if◌then◌else◌, ltb, length, length-set, get_or, set,
  Option-cases,
}
use scdtr.Float.{Float}
use scdtr.Server.System.{Entry, System, get_latest_entry}
use scdtr.Server.Request.{Streams}
use scdtr.Server.Request.Described.{described, entry_text-described}
use scdtr.Server.Request.Update.{entry_text, stream_step, stream_from, stream_update}

get_or-set_self : (xs : List ℕ) (i v d : ℕ) → i < length xs → get_or (set xs i v) i d ≡ v
get_or-set_self [] i v d h = absurd (omega arith)
get_or-set_self (x ∷ xs) zero v d h = refl
get_or-set_self (x ∷ xs) (suc i) v d h = get_or-set_self xs i v d (omega arith)

get_or-set_ne : (xs : List ℕ) (i j v d : ℕ) → i ≢ j → get_or (set xs i v) j d ≡ get_or xs j d
get_or-set_ne [] i j v d h = refl
get_or-set_ne (x ∷ xs) zero zero v d h = absurd (h refl)
get_or-set_ne (x ∷ xs) zero (suc j) v d h = refl
get_or-set_ne (x ∷ xs) (suc i) zero v d h = refl
get_or-set_ne (x ∷ xs) (suc i) (suc j) v d h = get_or-set_ne xs i j v d (λ e. h (ap suc e))

n_cases : (i j : ℕ) → i ≤ j → (i ≡ j) ⊎ (i < j)
n_cases i j h = ground arith

module _ {F : Type 0} ⦃fl : Float F⦄ (s : System F) (flags : List Bool) where
  -- Whether node `i` has an entry later than a timestamp, and what is sent of it.
  abbrev pub news : ℕ → ℕ → Option (Entry F)
  news i timestamp = elim (get_latest_entry s i) [
    | none ↦ none
    | some e ↦ if ltb timestamp e.timestamp then some e else none
  ]

  abbrev pub sent_of : ℕ → ℕ → List ℕ
  sent_of i timestamp = elim (news i timestamp) [ none ↦ [] | some e ↦ described flags i e ]

  abbrev pub seen_of : ℕ → ℕ → ℕ
  seen_of i timestamp = elim (news i timestamp) [ none ↦ timestamp | some e ↦ e.timestamp ]

  -- The texts of the nodes from `i` on, `left` of them.
  abbrev pub texts : List ℕ → ℕ → ℕ → List ℕ
  texts timestamps zero i = []
  texts timestamps (suc left) i = sent_of i (get_or timestamps i 0) ++ texts timestamps left (i + 1)

  pub stream_step-none :
      (i : ℕ) (timestamps response : List ℕ)
      → news i (get_or timestamps i 0) ≡ none
      → stream_step s flags i timestamps response ≡ (timestamps, response)
  stream_step-none i timestamps response h = ground (arith, h)

  stream_step-some :
      (i : ℕ) (timestamps response : List ℕ) (e : Entry F)
      → news i (get_or timestamps i 0) ≡ some e
      → stream_step s flags i timestamps response
        ≡ (set timestamps i e.timestamp, response ++ described flags i e)
  stream_step-some i timestamps response e h =
      let step : stream_step s flags i timestamps response
          ≡ (set timestamps i e.timestamp, response ++ entry_text flags i e) =
        ground (arith, h) in
      step
      ∙ ap (λ xs. (set timestamps i e.timestamp, response ++ xs)) (entry_text-described flags i e)

  -- What a turn does: the node's own timestamp and text, and no other's.
  record IsTurn (i : ℕ) (timestamps response : List ℕ) (r : List ℕ × List ℕ) : Type 0 where
    own : get_or r.0 i 0 ≡ seen_of i (get_or timestamps i 0)
    sent : r.1 ≡ response ++ sent_of i (get_or timestamps i 0)
    measured : length r.0 ≡ length timestamps
    others : (j : ℕ) → i ≢ j → get_or r.0 j 0 ≡ get_or timestamps j 0

  nothing_new :
      (i timestamp : ℕ)
      → news i timestamp ≡ none
      → (seen_of i timestamp ≡ timestamp) × (sent_of i timestamp ≡ [])
  nothing_new i timestamp h = (ground (arith, h), ground (arith, h))

  something_new :
      (i timestamp : ℕ) (e : Entry F)
      → news i timestamp ≡ some e
      → (seen_of i timestamp ≡ e.timestamp) × (sent_of i timestamp ≡ described flags i e)
  something_new i timestamp e h = (ground (arith, h), ground (arith, h))

  stream_step-IsTurn :
      (i : ℕ) (timestamps response : List ℕ)
      → i < length timestamps
      → IsTurn i timestamps response (stream_step s flags i timestamps response)
  stream_step-IsTurn i timestamps response h =
      elim (Option-cases (news i (get_or timestamps i 0))) [
        | inl none_new ↦
            let (seen, sent) = nothing_new i (get_or timestamps i 0) none_new in
            subst (IsTurn i timestamps response)
              (sym (stream_step-none i timestamps response none_new))
              (record {
                own = sym seen;
                sent = sym (append-nil response) ∙ ap (λ xs. response ++ xs) (sym sent);
                measured = refl;
                others = λ j n. refl;
              })
        | inr (e, new) ↦
            let (seen, sent) = something_new i (get_or timestamps i 0) e new in
            subst (IsTurn i timestamps response)
              (sym (stream_step-some i timestamps response e new))
              (record {
                own = get_or-set_self timestamps i e.timestamp 0 h ∙ sym seen;
                sent = ap (λ xs. response ++ xs) (sym sent);
                measured = length-set timestamps i e.timestamp;
                others = λ j n. get_or-set_ne timestamps i j e.timestamp 0 n;
              })
      ]

  -- A node whose latest entry is seen has no news.
  news-seen_of : (i timestamp : ℕ) → news i (seen_of i timestamp) ≡ none
  news-seen_of i timestamp = ground arith

  texts_ext :
      (left i : ℕ) (xs ys : List ℕ)
      → ((j : ℕ) → i ≤ j → get_or xs j 0 ≡ get_or ys j 0)
      → texts xs left i ≡ texts ys left i
  texts_ext zero i xs ys h = refl
  texts_ext (suc left) i xs ys h = rw (h i (omega arith)) (
      ap (λ zs. sent_of i (get_or ys i 0) ++ zs)
        (texts_ext left (i + 1) xs ys (λ j n. h j (omega arith))))

  -- The whole loop: what it sends, and which timestamps it leaves.
  stream_from_lem :
      (left i : ℕ) (timestamps response : List ℕ)
      → i + left ≤ length timestamps
      → let r = stream_from s flags left i timestamps response in
        (r.1 ≡ response ++ texts timestamps left i)
        × (length r.0 ≡ length timestamps)
        × ((j : ℕ) → j < i → get_or r.0 j 0 ≡ get_or timestamps j 0)
        × ((j : ℕ) → i ≤ j → j < i + left → get_or r.0 j 0 ≡ seen_of j (get_or timestamps j 0))
  unfolding stream_from
  stream_from_lem zero i timestamps response h =
      (sym (append-nil response), refl, λ j n. refl, λ j n m. absurd (omega arith))
  stream_from_lem (suc left) i timestamps response h =
      let step = stream_step s flags i timestamps response in
      let turn = stream_step-IsTurn i timestamps response (omega arith) in
      let (sent', measured', before, after) =
        stream_from_lem left (i + 1) step.0 step.1 (omega (arith, turn.measured)) in
      let same =
        texts_ext left (i + 1) step.0 timestamps (λ j n. turn.others j (λ e. omega (arith, e))) in
      (
        sent'
            ∙ ap (λ xs. step.1 ++ xs) same
            ∙ ap (λ xs. xs ++ texts timestamps left (i + 1)) turn.sent
            ∙ append_assoc response _ _,
        measured' ∙ turn.measured,
        λ j n. before j (omega arith) ∙ turn.others j (λ e. omega (arith, e)),
        λ j n m. elim (n_cases i j n) [
          | inl e ↦
              subst
                (λ k.
                  get_or (stream_from s flags left (i + 1) step.0 step.1).0 k 0
                  ≡ seen_of k (get_or timestamps k 0))
                e (before i (omega arith) ∙ turn.own)
          | inr later ↦
              after j (omega arith) (omega arith)
              ∙ ap (seen_of j) (turn.others j (λ e. omega (arith, e)))
        ],
      )

module _ {F : Type 0} ⦃fl : Float F⦄ where
  -- Nothing new of any node is no text.
  texts_seen :
      (s : System F) (flags : List Bool) (left i : ℕ) (xs ys : List ℕ)
      → ((j : ℕ) → i ≤ j → j < i + left → get_or xs j 0 ≡ seen_of s flags j (get_or ys j 0))
      → texts s flags xs left i ≡ []
  texts_seen s flags zero i xs ys h = refl
  texts_seen s flags (suc left) i xs ys h =
      let quiet = (nothing_new s flags i _ (news-seen_of s flags i (get_or ys i 0))).1 in
      ap (λ n. sent_of s flags i n ++ texts s flags xs left (i + 1))
        (h i (omega arith) (omega arith))
      ∙ ap (λ zs. zs ++ texts s flags xs left (i + 1)) quiet
      ∙ texts_seen s flags left (i + 1) xs ys (λ j n m. h j (omega arith) (omega arith))

  -- With a timestamp for each node, the response is the texts of the nodes in their order: for a node
  -- whose latest entry is later than its timestamp, a row of five words, each with a space behind
  -- it (the letter c, the letter of the variable, the node, the value and the time), for each of
  -- the illuminance (l) and the duty cycle (d) that its two flags ask for and that is not -1; and
  -- nothing for any other node. The timestamp of each node moves to its latest entry, also where no flag asks.
  pub stream_update_lem :
      (s : System F) (st : Streams) (i : ℕ)
      → length st.timestamps ≡ s.nodes
      → i < s.nodes
      → let (st', response) = stream_update s st in
        (response ≡ texts s st.flags st.timestamps s.nodes 0)
        × (st'.flags ≡ st.flags)
        × (length st'.timestamps ≡ s.nodes)
        × (get_or st'.timestamps i 0 ≡ seen_of s st.flags i (get_or st.timestamps i 0))
  unfolding stream_update
  stream_update_lem s st i v h =
      let (sent, measured, _, after) =
        stream_from_lem s st.flags s.nodes 0 st.timestamps [] (omega (arith, v)) in
      (sent, refl, measured ∙ v, after i (omega arith) (omega arith))

  -- No entry is sent twice: with a timestamp for each node, a second update of the same state has
  -- nothing to send.
  pub stream_update-stream_update :
      (s : System F) (st : Streams)
      → length st.timestamps ≡ s.nodes
      → (stream_update s (stream_update s st).0).1 ≡ []
  unfolding stream_update
  stream_update-stream_update s st v =
      let (_, measured, _, after) =
        stream_from_lem s st.flags s.nodes 0 st.timestamps [] (omega (arith, v)) in
      let ts = (stream_from s st.flags s.nodes 0 st.timestamps []).0 in
      (stream_from_lem s st.flags s.nodes 0 ts [] (omega (arith, v, measured))).0
      ∙ texts_seen s st.flags s.nodes 0 ts st.timestamps after
