-- ===== src/Server/Program/Whole.antt =====
-- What the server program's system and sessions have at every moment.
use mathlib.Core.Option.{some-injective}
use mathlib.Core.Path.{subst}
use scdtr.Prelude.{
  ℕ, ◌*◌, ◌≤◌, ◌≡◌, sym, ap, ◌∙◌, inl, inr, true, false, some, List, [], ◌∷◌, ◌++◌, arith,
  Option-cases, ◌⊎◌, Option, none, length, All, All-append, Bool-cases, length-replicate,
}
use scdtr.Float.{Float}
use scdtr.Server.{stream_flags}
use scdtr.Server.System.{System}
use scdtr.Server.System.Invariant.{IsWellFormed}
use scdtr.Server.Request.{Streams, Answer, parse_request}
use scdtr.Server.Request.Sound.{IsFitting, IsServed, parse_request-IsServed}
use scdtr.Server.Request.Streaming.{stream_update_lem}
use scdtr.Server.Request.Update.{stream_update}
use scdtr.Text.{is_empty}
use scdtr.Server.Session.{put_response, put_response-fault, handle_timer}
use scdtr.Server.Program.{nodes, Program, fresh}

pub All-middle :
    (P : Streams → Type 0) (before behind : List Streams) (st : Streams)
    → All P (before ++ (st ∷ behind))
    → All P before × P st × All P behind
All-middle P [] behind st h = (tt, h.0, h.1)
All-middle P (x ∷ before) behind st h =
    let (a, b, c) = All-middle P before behind st h.1 in ((h.0, a), b, c)

-- One session's streams for another's.
pub put-IsFitting :
    (before behind : List Streams) (st st' : Streams)
    → All (IsFitting nodes) (before ++ (st ∷ behind))
    → IsFitting nodes st'
    → All (IsFitting nodes) (before ++ (st' ∷ behind))
put-IsFitting before behind st st' v own =
    let (a, _, c) = All-middle (IsFitting nodes) before behind st v in
    All-append (IsFitting nodes) before (st' ∷ behind) a (own, c)

module _ {F : Type 0} ⦃fl : Float F⦄ where
  -- A program whose system has what each of its two nodes needs, whose sessions fit it, and which
  -- reads from the FIFO.
  pub record IsWhole (p : Program F) : Type 0 where
    pub well_formed : IsWellFormed p.system
    pub two : p.system.nodes ≡ nodes
    pub fitting : All (IsFitting nodes) p.sessions
    pub still_reading : p.reading ≡ true

  pub fresh-IsFitting : (s : System F) → s.nodes ≡ nodes → IsFitting nodes (fresh s)
  fresh-IsFitting s two = record {
    timestamps_length = length-replicate s.nodes 0 ∙ two;
    flags_length = length-replicate (stream_flags * s.nodes) false ∙ ap (λ n. stream_flags * n) two;
  }

  pub update-IsFitting :
      (s : System F) (st : Streams)
      → s.nodes ≡ nodes
      → IsFitting nodes st
      → IsFitting nodes (stream_update s st).0
  update-IsFitting s st two v =
      let (_, flags, size, _) =
        stream_update_lem s st 0 (v.timestamps_length ∙ sym two) (omega (arith, two)) in
      record { timestamps_length = size ∙ two; flags_length = ap length flags ∙ v.flags_length }

  pub served :
      (p : Program F) (before behind : List Streams) (st : Streams) (text : List ℕ) (absolute : ℕ)
      → IsWhole p
      → p.sessions ≡ before ++ (st ∷ behind)
      → IsServed p.system.nodes (parse_request p.system st text absolute)
  served p before behind st text absolute v split =
      let (_, own, _) =
        All-middle (IsFitting nodes) before behind st
          (subst (All (IsFitting nodes)) split v.fitting) in
      parse_request-IsServed p.system st v.well_formed (subst (λ n. IsFitting n st) (sym v.two) own)
        text absolute

  pub request-IsWhole :
      (p : Program F) (before behind : List Streams) (st : Streams) (text : List ℕ) (absolute : ℕ)
      (a : Answer F)
      → IsWhole p
      → p.sessions ≡ before ++ (st ∷ behind)
      → parse_request p.system st text absolute ≡ some a
      → IsWhole (record p { system = a.system; sessions = before ++ (a.streams ∷ behind) })
  request-IsWhole p before behind st text absolute a v split got =
      let q = served p before behind st text absolute v split in
      let same : q.answer ≡ a = some-injective _ _ (sym q.served ∙ got) in
      let two : q.answer.system.nodes ≡ nodes = q.nodes_kept ∙ v.two in
      subst
        (λ b. IsWhole (record p { system = b.system; sessions = before ++ (b.streams ∷ behind) }))
        same
        (record {
          well_formed = q.well_formed;
          two = two;
          fitting =
              put-IsFitting before behind st q.answer.streams
                (subst (All (IsFitting nodes)) split v.fitting)
                (subst (λ n. IsFitting n q.answer.streams) two q.fitting);
          still_reading = v.still_reading;
        })

  pub handle_timer-cases :
      (s : System F) (st : Streams)
      → ((1022 ≤ length (stream_update s st).1) × (handle_timer s st ≡ none))
        ⊎ ((o : Option (List ℕ)) × (handle_timer s st ≡ some ((stream_update s st).0, o)))
  unfolding handle_timer
  handle_timer-cases s st = elim (Bool-cases (is_empty (stream_update s st).1)) [
    | inl quiet ↦ inr (none, ground (arith, quiet))
    | inr some_text ↦ elim (Option-cases (put_response (stream_update s st).1)) [
      | inl e ↦ inl (put_response-fault _ e, ground (arith, some_text, e))
      | inr (buffer, e) ↦ inr (some buffer, ground (arith, some_text, e))
    ]
  ]
