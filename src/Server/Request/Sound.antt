-- ===== src/Server/Request/Sound.antt =====
-- No request, whatever its text, is a fault or breaks the state.
use scdtr.Prelude.{
  ℕ, zero, suc, ◌+◌, ◌*◌, ◌≤◌, ◌<◌, ◌≡◌, refl, ◌∙◌, inl, inr, Bool, true, false, ◌||◌, ◌==◌, Option,
  none, some, List, [], ◌∷◌, arith, if◌then◌else◌, lt→ltb, length, length-set, get_or, set,
  Option-cases, Bool-cases, ◌⊎◌,
}
use scdtr.Prelude.Int.{pos, negsuc}
use scdtr.Float.{Float}
use scdtr.Text.{is_space, words, stoi}
use scdtr.Server.{stream_flags}
use scdtr.Server.System.{System, reset}
use scdtr.Server.System.Invariant.{IsWellFormed, reset-IsWellFormed}
use scdtr.Server.System.Invariant.Reset.{reset-empty}
use scdtr.Server.Request.{
  ack_text, invalid_text, with_crnl, command_request, Streams, Answer, clear_streams, valid_id,
  stream_of, reply, single, get_request, set_request, stream_request, node_request, reset_request,
  typed_request, parse_request,
}

-- A timestamp and two flags for each node.
pub record IsFitting (nodes : ℕ) (st : Streams) : Type 0 where
  pub timestamps_length : length st.timestamps ≡ nodes
  pub flags_length : length st.flags ≡ nodes * stream_flags

valid_id-lt : (nodes id : ℕ) (arg : List ℕ) → valid_id nodes arg ≡ some id → id < nodes
unfolding valid_id
valid_id-lt nodes id arg h = elim (Option-cases (stoi arg)) [
  | inl e ↦ absurd (ground (arith, e, h))
  | inr (pos n, e) ↦ ground (arith, e, h)
  | inr (negsuc n, e) ↦ absurd (ground (arith, e, h))
]

stream_of-cases :
    (var : ℕ) → (stream_of var ≡ none) ⊎ ((k : ℕ) × (stream_of var ≡ some k) × (k < 2))
stream_of-cases var = elim (Bool-cases (var == b'l')) [
  | inl e ↦ inr (0, rw e refl, omega arith)
  | inr e ↦ elim (Bool-cases (var == b'd')) [
    | inl e' ↦ inr (1, rw (e, e') refl, omega arith)
    | inr e' ↦ inl (rw (e, e') refl)
  ]
]

-- What both branches of a test have.
either {ℓ ℓ'} :
    {A : Type ℓ} (P : A → Type ℓ') (b : Bool) {x y : A} → P x → P y → P (if b then x else y)
either P true p q = p
either P false p q = q

pub clear_streams-some :
    (left i : ℕ) (st : Streams)
    → i + left ≤ length st.timestamps
    → (i + left) * 2 ≤ length st.flags
    → (st' : Streams) × (clear_streams left i st ≡ some st')
      × (length st'.timestamps ≡ length st.timestamps)
      × (length st'.flags ≡ length st.flags)
unfolding clear_streams
clear_streams-some zero i st h h' = (st, refl, refl, refl)
clear_streams-some (suc left) i st h h' =
    let flags = set st.flags (i * 2) false in
    let cleared : Streams = record {
      timestamps = set st.timestamps i 0;
      flags = set flags (i * 2 + 1) false;
    } in
    let measured = length-set st.timestamps i 0 in
    let measured_one = length-set st.flags (i * 2) false in
    let measured_two = length-set flags (i * 2 + 1) false in
    let (st', done, same_timestamps, same_flags) =
      clear_streams-some left (i + 1) cleared (omega (arith, measured))
        (omega (arith, measured_one, measured_two)) in
    (
      st',
      rw
          (
            lt→ltb i (length st.timestamps) (omega arith),
            lt→ltb (i * 2) (length st.flags) (omega arith),
            lt→ltb (i * 2 + 1) (length flags) (omega (arith, measured_one)),
            clear_streams,
          )
          done,
      same_timestamps ∙ measured,
      same_flags ∙ measured_two ∙ measured_one,
    )

module _ {F : Type 0} ⦃fl : Float F⦄ where
  reset-nodes :
      (s s' : System F) (absolute : ℕ)
      → IsWellFormed s
      → reset s absolute ≡ some s'
      → s'.nodes ≡ s.nodes
  reset-nodes s s' absolute v done =
      let same = reset-empty s absolute v.entries_length in ground (arith, same, done)

  -- An answer, with a state of `n` nodes and streams that fit each other.
  pub record IsServed (n : ℕ) (o : Option (Answer F)) : Type 0 where
    pub answer : Answer F
    pub served : o ≡ some answer
    pub well_formed : IsWellFormed answer.system
    pub nodes_kept : answer.system.nodes ≡ n
    pub fitting : IsFitting answer.system.nodes answer.streams

  module _ (s : System F) (st : Streams) (v : IsWellFormed s) (f : IsFitting s.nodes st) where
    reply-IsServed :
        (text : List ℕ) (serial : List (List ℕ)) (saved : Bool)
        → IsServed s.nodes (some (record (reply s st text) { serial = serial; saved = saved }))
    reply-IsServed text serial saved = record {
      answer = _;
      served = refl;
      well_formed = v;
      nodes_kept = refl;
      fitting = f;
    }

    set_request-IsServed :
        (request cmd arg : List ℕ) → IsServed s.nodes (some (set_request s st request cmd arg))
    unfolding set_request
    set_request-IsServed request cmd arg =
        let refused = reply-IsServed invalid_text [] false in
        elim (Option-cases (valid_id s.nodes cmd)) [
          | inl e ↦ rw (e, set_request) refused
          | inr (id, e) ↦ elim (Option-cases (stoi arg)) [
            | inl e' ↦ rw (e, e', set_request) refused
            | inr (val, e') ↦
                rw (e, e', set_request) (reply-IsServed ack_text (with_crnl request ∷ []) false)
          ]
        ]

    stream_request-IsServed :
        (start : Bool) (var id : ℕ)
        → id < s.nodes
        → IsServed s.nodes (stream_request s st start var id)
    unfolding stream_request
    stream_request-IsServed start var id h = elim (stream_of-cases var) [
      | inl e ↦ rw (e, stream_request) (reply-IsServed invalid_text [] false)
      | inr (k, e, small) ↦
          rw
            (
              e,
              lt→ltb (id * 2 + k) (length st.flags) (omega (arith, f.flags_length)),
              stream_request,
            )
            (record {
              answer = _;
              served = refl;
              well_formed = v;
              nodes_kept = refl;
              fitting = record {
                timestamps_length = f.timestamps_length;
                flags_length = length-set st.flags (id * 2 + k) start ∙ f.flags_length;
              };
            })
    ]

    reset_request-IsServed : (absolute : ℕ) → IsServed s.nodes (reset_request s st absolute)
    unfolding reset_request
    reset_request-IsServed absolute =
        let (s', done, well) = reset-IsWellFormed s absolute v in
        let same : s'.nodes ≡ s.nodes = reset-nodes s s' absolute v done in
        let (st', cleared, timestamps, flags) =
          clear_streams-some s'.nodes 0 st (omega (arith, f.timestamps_length))
            (omega (arith, f.flags_length)) in
        rw (done, cleared, reset_request)
          (record {
            answer = _;
            served = refl;
            well_formed = well;
            nodes_kept = same;
            fitting = record {
              timestamps_length = omega (arith, f.timestamps_length);
              flags_length = omega (arith, f.flags_length);
            };
          })

    get-IsServed :
        (param : ℕ) (arg : List ℕ) → IsServed s.nodes (some (reply s st (get_request s param arg)))
    get-IsServed param arg = reply-IsServed (get_request s param arg) [] false

    node_request-IsServed :
        (type var : ℕ) (arg : List ℕ) (absolute : ℕ)
        → IsServed s.nodes (node_request s st type var arg absolute)
    node_request-IsServed type var arg absolute = elim (Option-cases (valid_id s.nodes arg)) [
      | inl e ↦ rw (e, node_request) (reply-IsServed invalid_text [] false)
      | inr (id, e) ↦
          rw (e, node_request)
            (either (IsServed s.nodes) (type == b'b') (reply-IsServed _ [] false)
              (stream_request-IsServed (type == b'c') var id (valid_id-lt s.nodes id arg e)))
    ]

    command-IsServed :
        (request : List ℕ) (type c : ℕ) (cmd arg : List ℕ) (absolute : ℕ)
        → IsServed s.nodes (command_request s st request type c cmd arg absolute)
    command-IsServed request type c cmd arg absolute =
        either (IsServed s.nodes) (type == b'g') (get-IsServed c arg) (
          either (IsServed s.nodes) (type == b's') (set_request-IsServed request cmd arg) (
            either (IsServed s.nodes) (type == b'c' || type == b'd' || type == b'b')
              (node_request-IsServed type c arg absolute) (reply-IsServed invalid_text [] false)))

    typed_request-IsServed :
        (request : List ℕ) (type : ℕ) (cmd arg : List ℕ) (absolute : ℕ)
        → IsServed s.nodes (typed_request s st request type cmd arg absolute)
    typed_request-IsServed request type cmd arg absolute =
        either (IsServed s.nodes) (type == b'r') (reset_request-IsServed absolute) (
          either (IsServed s.nodes) (type == b'A') (reply-IsServed [] _ false) (
            either (IsServed s.nodes) (type == b'D') (reply-IsServed [] _ false) (
              either (IsServed s.nodes) (type == b'S') (reply-IsServed [] [] true)
                (elim (Option-cases (single cmd)) [
                  | inl e ↦ rw e (reply-IsServed invalid_text [] false)
                  | inr (c, e) ↦ rw e (command-IsServed request type c cmd arg absolute)
                ]))))

    -- No request is a fault: whatever its text, a system with a log for each node and streams with a
    -- timestamp and two flags for each node give an answer, and the system and the streams that it
    -- leaves have this form again, for as many nodes.
    pub parse_request-IsServed :
        (request : List ℕ) (absolute : ℕ) → IsServed s.nodes (parse_request s st request absolute)
    unfolding parse_request
    parse_request-IsServed request absolute =
        elim (Option-cases (single (get_or (words is_space request) 0 []))) [
          | inl e ↦ rw (e, parse_request) (reply-IsServed invalid_text [] false)
          | inr (type, e) ↦ rw (e, parse_request) (typed_request-IsServed request type _ _ absolute)
        ]
