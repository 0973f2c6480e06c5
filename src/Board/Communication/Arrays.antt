-- ===== src/Board/Communication/Arrays.antt =====
-- The loops that fill a packet array and read floats out of it.
use native.Mathlib.Numerals.{add-one}
use scdtr.Prelude.{
  ℕ, zero, suc, ◌+◌, ◌*◌, ◌≤◌, ◌≡◌, refl, ap, ◌∙◌, Option, none, some, List, [], ◌∷◌, ◌++◌, arith,
  length, set, drop, get_elem?, lt→ltb,
}
use scdtr.Float.{Float, IsFloat}
use scdtr.Board.Communication.{fill_packet, pack, float_at, read_from}

abbrev shifted : ℕ → Option (List ℕ × ℕ) → Option (List ℕ × ℕ)
shifted x none = none
shifted x (some (packet, read)) = some (x ∷ packet, read + 1)

fill_packet-cons :
    (room read x : ℕ) (available packet : List ℕ)
    → fill_packet room (read + 1) available (x ∷ packet)
      ≡ shifted x (fill_packet room read available packet)
unfolding fill_packet
fill_packet-cons zero read x available packet = refl
fill_packet-cons (suc room) read x [] packet = refl
fill_packet-cons (suc room) read x (b ∷ available) packet =
    let step : set (x ∷ packet) (read + 1) b ≡ x ∷ set packet read b = rw add-one in
    rw (step, fill_packet-cons room (read + 1) x available (set packet read b)) (ground arith)

-- What arrives overwrites the front of the array, and the rest stays.
pub fill_packet_lem :
    (room : ℕ) (available packet : List ℕ)
    → length available ≤ room
    → length available ≤ length packet
    → fill_packet room 0 available packet
      ≡ some (available ++ drop (length available) packet, length available)
unfolding fill_packet
fill_packet_lem zero [] packet h k = refl
fill_packet_lem zero (b ∷ available) packet h k = absurd (omega arith)
fill_packet_lem (suc room) [] packet h k = refl
fill_packet_lem (suc room) (b ∷ available) [] h k = absurd (omega arith)
fill_packet_lem (suc room) (b ∷ available) (x ∷ packet) h k = rw (
  lt→ltb 0 (suc (length packet)) (omega arith),
  fill_packet-cons room 0 b available packet,
  fill_packet_lem room available packet (omega arith) (omega arith),
  add-one,
)

four_on :
    (m a b c d : ℕ) (buffer rest : List ℕ)
    → drop m buffer ≡ a ∷ b ∷ c ∷ d ∷ rest
    → drop (m + 4) buffer ≡ rest
four_on zero a b c d buffer rest e = rw e
four_on (suc m) a b c d [] rest e = cc
four_on (suc m) a b c d (x ∷ buffer) rest e =
    let step : suc m + 4 ≡ suc (m + 4) = omega arith in rw step (four_on m a b c d buffer rest e)

module _ {F : Type 0} ⦃fl : Float F⦄ where
  pub length-pack : (xs : List F) → length (pack xs) ≡ 4 * length xs
  length-pack [] = omega arith
  length-pack (x ∷ xs) = omega (arith, length-pack xs)

  module _ (laws : IsFloat F) where
    -- The loop of `readConsensus` reads back what the loop of `sendConsensus` wrote.
    pub read_from-pack :
        (xs : List F) (j : ℕ) (buffer rest : List ℕ)
        → drop (j * 4) buffer ≡ pack xs ++ rest
        → read_from (length xs) j buffer ≡ some xs
    unfolding read_from
    read_from-pack [] j buffer rest e = refl
    read_from-pack (x ∷ xs) j buffer rest e =
        let next : (j + 1) * 4 ≡ j * 4 + 4 = omega arith in
        let later =
          read_from-pack xs (j + 1) buffer rest
            (ap (λ k. drop k buffer) next ∙ four_on (j * 4) _ _ _ _ buffer (pack xs ++ rest) e) in
        rw (e, read_from, later, laws.of_bytes-byte x)

    -- Element `i` of the packed array is found at its offset.
    pub float_at-pack :
        (xs : List F) (i : ℕ) (x : F) (rest : List ℕ)
        → get_elem? xs i ≡ some x
        → float_at (pack xs ++ rest) (i * 4) ≡ some x
    float_at-pack [] i x rest e = cc
    float_at-pack (y ∷ xs) zero x rest e = rw (laws.of_bytes-byte y) e
    float_at-pack (y ∷ xs) (suc i) x rest e =
        let offset : suc i * 4 ≡ suc (suc (suc (suc (i * 4)))) = omega arith in
        rw offset (float_at-pack xs i x rest e)
