-- ===== src/TestClient/Script.antt =====
-- The script of the test client at a session.
use scdtr.Prelude.{
  ℕ, ◌+◌, ◌⊎◌, inl, inr, ◌%◌, ◌||◌, ◌<◌, ◌≡◌, refl, true, false, some, List, [], ◌∷◌, ◌++◌, map,
  arith, length, replicate, All, ◌==◌,
}
use scdtr.Prelude.Int.{ℤ, pos}
use scdtr.Float.{Float}
use scdtr.Text.{is_space, words, words_from, c_string, stoi}
use scdtr.Server.System.{System, zero_f, reset}
use scdtr.Server.{ulong_mod}
use scdtr.Server.System.Invariant.{IsWellFormed}
use scdtr.Server.System.Invariant.Reset.{reset-empty}
use scdtr.Server.Request.{
  Streams, Answer, reply, single, ack_text, with_crnl, valid_id, reset_request, parse_request,
}
use scdtr.Server.Request.Sound.{IsFitting, clear_streams-some}
use scdtr.Server.Session.{is_delimiter, put_response-short, session_read}
use scdtr.Actuation.{parse_request-set}
use scdtr.TestClient.{set_text, script, played, Served, serve}

module _ {F : Type 0} ⦃fl : Float F⦄ where
  -- A request that is the whole of a read, with no end of line.
  session_whole :
      (s : System F) (st : Streams) (bytes : List ℕ) (absolute : ℕ) (a : Answer F)
      → words is_delimiter (c_string bytes) ≡ bytes ∷ []
      → parse_request s st bytes absolute ≡ some a
      → All (λ c. c == 0 ≡ false) a.response
      → length a.response < 1022
      → (buffer : List ℕ) × (session_read s st bytes absolute ≡ some (a, buffer))
  unfolding session_read
  session_whole s st bytes absolute a one parsed text short =
      let (k, put, _) = put_response-short a.response text short in
      (a.response ++ (0 ∷ 10 ∷ replicate k 0), ground (arith, one, parsed, put))

  abbrev ack_answer : System F → Streams → List ℕ → Answer F
  ack_answer s st request = record (reply s st ack_text) { serial = with_crnl request ∷ [] }

  session_set :
      (s : System F) (st : Streams) (request param value : List ℕ) (c i absolute : ℕ) (z : ℤ)
      → words is_delimiter (c_string request) ≡ request ∷ []
      → words is_space request ≡ (b's' ∷ []) ∷ param ∷ value ∷ []
      → single param ≡ some c
      → valid_id s.nodes param ≡ some i
      → stoi value ≡ some z
      → (buffer : List ℕ) × (session_read s st request absolute
          ≡ some (ack_answer s st request, buffer))
  session_set s st request param value c i absolute z one split digit known number =
      session_whole s st request absolute (ack_answer s st request) one
        (parse_request-set s st request param value c i absolute z split digit known number)
        (refl, (refl, (refl, tt))) (omega arith)

  -- The state after a reset of two nodes.
  abbrev emptied : System F → ℕ → System F
  emptied s absolute = record s {
    start = absolute % ulong_mod;
    entries = replicate s.nodes [];
    lux_lower_bound = replicate s.nodes zero_f;
    lux_external = replicate s.nodes zero_f;
    occupancy = replicate s.nodes false;
  }

  session_reset :
      (s : System F) (st : Streams) (absolute : ℕ)
      → IsWellFormed s
      → IsFitting s.nodes st
      → (st' : Streams) × (buffer : List ℕ) × (session_read s st (b'r' ∷ []) absolute
          ≡ some (ack_answer (emptied s absolute) st' (b'r' ∷ []), buffer))
  unfolding parse_request reset_request words words_from c_string is_space
  session_reset s st absolute v f =
      let s' = emptied s absolute in
      let empty = reset-empty s absolute v.entries_length in
      let (st', cleared, _, _) =
        clear_streams-some s'.nodes 0 st (omega (arith, f.timestamps_length))
          (omega (arith, f.flags_length)) in
      let (buffer, read) =
        session_whole s st (b'r' ∷ []) absolute (ack_answer s' st' (b'r' ∷ [])) refl
          (ground (arith, empty, cleared)) (refl, (refl, (refl, tt))) (omega arith) in
      (st', buffer, read)

  session_save :
      (s : System F) (st : Streams) (absolute : ℕ)
      → (buffer : List ℕ) × (session_read s st (b'S' ∷ []) absolute
          ≡ some (record (reply s st []) { saved = true }, buffer))
  unfolding parse_request words words_from c_string is_space
  session_save s st absolute =
      session_whole s st (b'S' ∷ []) absolute (record (reply s st []) { saved = true }) refl refl tt
        (omega arith)

  serve_read :
      (s : System F) (st : Streams) (absolute : ℕ) (bytes : List ℕ) (reads : List (ℕ × List ℕ))
      (a : Answer F) (buffer : List ℕ) (rest : Served F)
      → session_read s st bytes absolute ≡ some (a, buffer)
      → serve a.system a.streams reads ≡ some rest
      → serve s st ((absolute, bytes) ∷ reads)
        ≡ some (record rest {
          responses = a.response ∷ rest.responses;
          serial = a.serial ++ rest.serial;
          saved = a.saved || rest.saved;
        })
  unfolding serve
  serve_read s st absolute bytes reads a buffer rest got later = ground (arith, got, later)

  session_occupancy :
      (s : System F) (st : Streams) (node value absolute : ℕ)
      → s.nodes ≡ 2
      → (node ≡ b'0') ⊎ (node ≡ b'1')
      → (value ≡ b'0') ⊎ (value ≡ b'1')
      → (buffer : List ℕ) × (session_read s st (set_text node value) absolute
          ≡ some (ack_answer s st (set_text node value), buffer))
  unfolding words words_from c_string is_space stoi valid_id
  session_occupancy s st node value absolute two (inl n) (inl u) =
      rw (n, u)
        (session_set s st (set_text b'0' b'0') (b'0' ∷ []) (b'0' ∷ []) b'0' 0 absolute (pos 0) refl
          refl refl (ground (arith, two)) refl)
  session_occupancy s st node value absolute two (inl n) (inr u) =
      rw (n, u)
        (session_set s st (set_text b'0' b'1') (b'0' ∷ []) (b'1' ∷ []) b'0' 0 absolute (pos 1) refl
          refl refl (ground (arith, two)) refl)
  session_occupancy s st node value absolute two (inr n) (inl u) =
      rw (n, u)
        (session_set s st (set_text b'1' b'0') (b'1' ∷ []) (b'0' ∷ []) b'1' 1 absolute (pos 0) refl
          refl refl (ground (arith, two)) refl)
  session_occupancy s st node value absolute two (inr n) (inr u) =
      rw (n, u)
        (session_set s st (set_text b'1' b'1') (b'1' ∷ []) (b'1' ∷ []) b'1' 1 absolute (pos 1) refl
          refl refl (ground (arith, two)) refl)

  -- The script of the test client, on a connection that fails no write, at a session of a system of
  -- two nodes, if each write is one read there and nothing comes between them: although no request
  -- has an end of line, none is a fault, and the session acknowledges the reset and the four
  -- orders, writes the five to the serial port in their order, saves the log at last, and leaves a
  -- system that is as the reset, at the first write, has made it.
  pub script_served :
      (s : System F) (st : Streams) (clock : ℕ)
      → IsWellFormed s
      → IsFitting s.nodes st
      → s.nodes ≡ 2
      → (o : Served F) × (serve s st (played (λ i. false) 0 clock script) ≡ some o)
        × (reset s clock ≡ some o.system)
        × (o.serial
            ≡ map with_crnl (
                (b'r' ∷ [])
                ∷ set_text b'0' b'1'
                ∷ set_text b'1' b'1'
                ∷ set_text b'0' b'0'
                ∷ set_text b'1' b'0'
                ∷ []))
        × (o.responses ≡ ack_text ∷ ack_text ∷ ack_text ∷ ack_text ∷ ack_text ∷ [] ∷ [])
        × (o.saved ≡ true)
  unfolding played serve
  script_served s st clock v f two =
      let s' = emptied s clock in
      let (st', b0, reset_read) = session_reset s st clock v f in
      let t1 = clock + 20000 in
      let t2 = t1 + 20000 in
      let t3 = t2 + 20000 in
      let t4 = t3 + 20000 in
      let t5 = t4 + 20000 in
      let (b1, read1) = session_occupancy s' st' b'0' b'1' t1 two (inl refl) (inr refl) in
      let (b2, read2) = session_occupancy s' st' b'1' b'1' t2 two (inr refl) (inr refl) in
      let (b3, read3) = session_occupancy s' st' b'0' b'0' t3 two (inl refl) (inl refl) in
      let (b4, read4) = session_occupancy s' st' b'1' b'0' t4 two (inr refl) (inl refl) in
      let (b5, read5) = session_save s' st' t5 in
      let r5 : List (ℕ × List ℕ) = (t5, b'S' ∷ []) ∷ [] in
      let r4 : List (ℕ × List ℕ) = (t4, set_text b'1' b'0') ∷ r5 in
      let r3 : List (ℕ × List ℕ) = (t3, set_text b'0' b'0') ∷ r4 in
      let r2 : List (ℕ × List ℕ) = (t2, set_text b'1' b'1') ∷ r3 in
      let r1 : List (ℕ × List ℕ) = (t1, set_text b'0' b'1') ∷ r2 in
      let w5 = serve_read s' st' t5 _ [] _ b5 _ read5 refl in
      let w4 = serve_read s' st' t4 _ r5 _ b4 _ read4 w5 in
      let w3 = serve_read s' st' t3 _ r4 _ b3 _ read3 w4 in
      let w2 = serve_read s' st' t2 _ r3 _ b2 _ read2 w3 in
      let w1 = serve_read s' st' t1 _ r2 _ b1 _ read1 w2 in
      let w0 = serve_read s st clock _ r1 _ b0 _ reset_read w1 in
      (_, w0, reset-empty s clock v.entries_length, refl, refl, refl)
