-- ===== src/Board/Calibration/Execute/Tables.antt =====
-- What the two nodes have measured when `execute` is over.
use mathlib.Core.List.{append_assoc, append-nil}
use mathlib.Core.Path.{subst}
use scdtr.Prelude.{
  ℕ, suc, ◌≡◌, ◌<◌, refl, sym, ap, ◌∙◌, true, false, some, List, [], ◌∷◌, ◌++◌, length, map, arith,
  length-append,
}
use scdtr.Float.{Float}
use scdtr.Board.Communication.{max_size}
use scdtr.Board.Calibration.{Calibration, state_on, gains}
use scdtr.Board.Calibration.Execute.{
  Bench, Fit, exchange, begin, turn, sample_turns, samples_from, external, execute,
}
use scdtr.Board.Calibration.Execute.Answers.{measured_external, exchanged}
use scdtr.Board.Calibration.Execute.Rows.{length-map, get_elem?-map, IsTable, IsTable-step, filled}
use scdtr.Board.Calibration.Execute.Turns.{with_value, turn_lem}

module _ {F : Type 0} ⦃fl : Float F⦄ (sense : ℕ → List F → F) where
  abbrev pub off : F
  off = fl.lit 0 1

  -- What a node would measure with the lamp of node 0 alone, and with that of node 1 alone.
  abbrev pub lit_by_zero : ℕ → List F → List F
  lit_by_zero id x = map (λ duty. sense id (duty ∷ off ∷ [])) x

  abbrev pub lit_by_one : ℕ → List F → List F
  lit_by_one id x = map (λ duty. sense id (off ∷ duty ∷ [])) x

  -- What a node is left with.
  abbrev pub fitted : ℕ → List F → Fit F
  fitted id x = record {
    k_i = gains x (lit_by_zero id x ∷ lit_by_one id x ∷ []);
    o_i = sense id (off ∷ off ∷ []);
  }

  -- Between two samples.
  record IsBetween (x : List F) (m : ℕ) (b : Bench F) : Type 0 where
    id0 : b.n0.id ≡ 0
    id1 : b.n1.id ≡ 1
    on0 : b.n0.state ≡ state_on
    on1 : b.n1.state ≡ state_on
    dark : b.lamps ≡ off ∷ off ∷ []
    ext0 : b.n0.y_ext ≡ sense 0 (off ∷ off ∷ [])
    ext1 : b.n1.y_ext ≡ sense 1 (off ∷ off ∷ [])
    table0 : IsTable (lit_by_zero 0 x) (lit_by_one 0 x) m b.n0.y
    table1 : IsTable (lit_by_zero 1 x) (lit_by_one 1 x) m b.n1.y

  module _ (junk : List ℕ) (full : length junk ≡ max_size) where
    -- The nodes after a turn, which measured with these lamps.
    abbrev after : Calibration F → ℕ → ℕ → List F → List F → Calibration F
    after c i m row lamps = with_value sense junk full c i m row (sense c.id lamps)

    first_turn :
        (x : List F) (m : ℕ) (duty : F) (b : Bench F) (v : IsBetween x m b)
        → m < length x
        → turn sense junk 0 m duty b.n0 b.n1 b.lamps
          ≡ some (
            after b.n0 0 m v.table0.a (duty ∷ off ∷ []),
            after b.n1 0 m v.table1.a (duty ∷ off ∷ []),
            off ∷ off ∷ [],
          )
    first_turn x m duty b v small =
        let t0 = v.table0 in
        let t1 = v.table1 in
        let size = length-map (λ d. sense 0 (d ∷ off ∷ [])) x in
        let size' = length-map (λ d. sense 1 (d ∷ off ∷ [])) x in
        rw v.dark (
          turn_lem sense junk full 0 m duty b.n0 b.n1 (off ∷ off ∷ []) t0.a t1.a v.id0 v.id1
            (omega arith) v.on1 (ground (arith, t0.rows)) (omega (arith, small, t0.size0, size))
            (ground (arith, t1.rows)) (omega (arith, small, t1.size0, size')))

    second_turn :
        (x : List F) (m : ℕ) (duty : F) (b : Bench F) (v : IsBetween x m b)
        → m < length x
        → let n0 = after b.n0 0 m v.table0.a (duty ∷ off ∷ []) in
          let n1 = after b.n1 0 m v.table1.a (duty ∷ off ∷ []) in
          turn sense junk 1 m duty n1 n0 (off ∷ off ∷ [])
          ≡ some (
            after n1 1 m v.table1.b (off ∷ duty ∷ []),
            after n0 1 m v.table0.b (off ∷ duty ∷ []),
            off ∷ off ∷ [],
          )
    second_turn x m duty b v small =
        let t0 = v.table0 in
        let t1 = v.table1 in
        let n0 = after b.n0 0 m t0.a (duty ∷ off ∷ []) in
        let n1 = after b.n1 0 m t1.a (duty ∷ off ∷ []) in
        let size = length-map (λ d. sense 0 (off ∷ d ∷ [])) x in
        let size' = length-map (λ d. sense 1 (off ∷ d ∷ [])) x in
        turn_lem sense junk full 1 m duty n1 n0 (off ∷ off ∷ []) t1.b t0.b v.id1 v.id0 (omega arith)
          v.on0 (ground (arith, t1.rows)) (omega (arith, small, t1.size1, size'))
          (ground (arith, t0.rows)) (omega (arith, small, t0.size1, size))

    sample_turns-IsBetween :
        (before : List F) (duty : F) (xs : List F) (b : Bench F)
        → IsBetween (before ++ (duty ∷ xs)) (length before) b
        → (b' : Bench F) × (sample_turns sense junk (length before) duty b ≡ some b')
          × IsBetween (before ++ (duty ∷ xs)) (suc (length before)) b'
    unfolding sample_turns
    sample_turns-IsBetween before duty xs b v =
        let x = before ++ (duty ∷ xs) in
        let m = length before in
        let small : m < length x = omega (arith, length-append before (duty ∷ xs)) in
        let first = first_turn x m duty b v small in
        let second = second_turn x m duty b v small in
        let n0 = after b.n0 0 m v.table0.a (duty ∷ off ∷ []) in
        let n1 = after b.n1 0 m v.table1.a (duty ∷ off ∷ []) in
        let b' : Bench F = record {
          n0 = after n0 1 m v.table0.b (off ∷ duty ∷ []);
          n1 = after n1 1 m v.table1.b (off ∷ duty ∷ []);
          lamps = off ∷ off ∷ [];
        } in
        let table0 : IsTable (lit_by_zero 0 x) (lit_by_one 0 x) (suc m) b'.n0.y = rw v.id0 (
          IsTable-step _ _ m b.n0.y _ _ v.table0
            (get_elem?-map (λ d. sense 0 (d ∷ off ∷ [])) before duty xs)
            (get_elem?-map (λ d. sense 0 (off ∷ d ∷ [])) before duty xs)) in
        let table1 : IsTable (lit_by_zero 1 x) (lit_by_one 1 x) (suc m) b'.n1.y = rw v.id1 (
          IsTable-step _ _ m b.n1.y _ _ v.table1
            (get_elem?-map (λ d. sense 1 (d ∷ off ∷ [])) before duty xs)
            (get_elem?-map (λ d. sense 1 (off ∷ d ∷ [])) before duty xs)) in
        (
          b',
          ground (arith, first, second),
          record {
            id0 = v.id0;
            id1 = v.id1;
            on0 = v.on0;
            on1 = v.on1;
            dark = refl;
            ext0 = v.ext0;
            ext1 = v.ext1;
            table0 = table0;
            table1 = table1;
          },
        )

    samples_from-IsBetween :
        (before xs : List F) (b : Bench F)
        → IsBetween (before ++ xs) (length before) b
        → (b' : Bench F) × (samples_from sense junk xs (length before) b ≡ some b')
          × IsBetween (before ++ xs) (length (before ++ xs)) b'
    unfolding samples_from
    samples_from-IsBetween before [] b v = (b, refl, rw (ap length (append-nil before)) v)
    samples_from-IsBetween before (duty ∷ xs) b v =
        let (b', e, w) = sample_turns-IsBetween before duty xs b v in
        let whole = append_assoc before (duty ∷ []) xs in
        let next : length (before ++ (duty ∷ [])) ≡ suc (length before) =
          omega (arith, length-append before (duty ∷ [])) in
        let (b'', f, z) = samples_from-IsBetween (before ++ (duty ∷ [])) xs b' (
          subst (λ x. IsBetween x (length (before ++ (duty ∷ []))) b') (sym whole)
            (subst (λ m. IsBetween (before ++ (duty ∷ xs)) m b') (sym next) w)) in
        (b'', ground (arith, e, f, next), subst (λ x. IsBetween x (length x) b'') whole z)

    external-IsBetween :
        (x a0 b0 a1 b1 : List F) (y_ext : F)
        → length a0 ≡ length x
        → length b0 ≡ length x
        → length a1 ≡ length x
        → length b1 ≡ length x
        → (b : Bench F) × (external sense junk (a0 ∷ b0 ∷ []) (a1 ∷ b1 ∷ []) y_ext ≡ some b)
          × IsBetween x 0 b
    unfolding external
    external-IsBetween x a0 b0 a1 b1 y_ext e0 e1 e2 e3 =
        let dark = off ∷ off ∷ [] in
        let s = begin sense junk 0 (a0 ∷ b0 ∷ []) (sense 0 dark) in
        let r = begin sense junk 1 (a1 ∷ b1 ∷ []) y_ext in
        let r' = record r { y_ext = sense 1 dark; ready = true } in
        let met : exchange sense junk s r (sense 1 dark) ≡ some (s, record r' { ready = false }) =
          exchanged sense junk full s r r' (sense 1 dark) refl refl refl
            (measured_external sense junk full r 1 (sense 1 dark) (λ e. cc) refl) refl in
        let table : (id : ℕ) (a b : List F)
            → length a ≡ length x
            → length b ≡ length x
            → IsTable (lit_by_zero id x) (lit_by_one id x) 0 (a ∷ b ∷ []) =
          λ id a b p q. record {
            a = a;
            b = b;
            rows = refl;
            size0 = p ∙ sym (length-map _ x);
            size1 = q ∙ sym (length-map _ x);
            filled0 = refl;
            filled1 = refl;
          } in
        (
          record {
            n0 = record s { state = state_on };
            n1 = record r' { ready = false; state = state_on };
            lamps = dark;
          },
          ground (arith, met),
          record {
            id0 = refl;
            id1 = refl;
            on0 = refl;
            on1 = refl;
            dark = refl;
            ext0 = refl;
            ext1 = refl;
            table0 = table 0 a0 b0 e0 e1;
            table1 = table 1 a1 b1 e2 e3;
          },
        )

    -- The calibration of two nodes comes to its end, with no node waiting for ever and no write
    -- outside the tables, whatever the tables held, if each has a row for either lamp and a place
    -- for each duty; and each node is left with the illuminance that it senses with both lamps off,
    -- and with the gains fitted to what it senses with one lamp alone at each of the duties, for
    -- either lamp.
    pub execute-fitted :
        (x a0 b0 a1 b1 : List F) (y_ext : F)
        → length a0 ≡ length x
        → length b0 ≡ length x
        → length a1 ≡ length x
        → length b1 ≡ length x
        → execute sense junk x (a0 ∷ b0 ∷ []) (a1 ∷ b1 ∷ []) y_ext ≡ some (fitted 0 x, fitted 1 x)
    unfolding execute
    execute-fitted x a0 b0 a1 b1 y_ext e0 e1 e2 e3 =
        let (b, e, v) = external-IsBetween x a0 b0 a1 b1 y_ext e0 e1 e2 e3 in
        let (b', f, w) = samples_from-IsBetween [] x b v in
        let y0 = filled _ _ _ _ w.table0 (length-map _ x) (length-map _ x) in
        let y1 = filled _ _ _ _ w.table1 (length-map _ x) (length-map _ x) in
        ground (arith, e, f, y0, y1, w.ext0, w.ext1)
