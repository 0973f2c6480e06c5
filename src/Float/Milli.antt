-- ===== src/Float/Milli.antt =====
-- Fixed-point numbers of three decimals: an instance of `Float` with its laws, for concrete runs.
use scdtr.Prelude.{
  ℕ, ◌+◌, ◌-◌, ◌*◌, ◌≤◌, ◌<◌, ◌/◌, ◌%◌, ◌≡◌, Bool, true, false, not, List, [], ◌∷◌, ◌++◌, arith,
  leb, ◌==◌, if◌then◌else◌,
}
use scdtr.Prelude.Int.{ℤ, pos, negsuc, pos_part, neg_part, sub_ℕ, ltb_ℤ}
use scdtr.Float.{Float, IsFloat}

-- A number of thousandths.
abbrev pub Milli : Type 0
Milli = ℤ

abbrev magnitude : ℤ → ℕ
magnitude a = pos_part a + neg_part a

abbrev is_negative : ℤ → Bool
is_negative (pos n) = false
is_negative (negsuc n) = true

abbrev signed : Bool → ℕ → ℤ
signed true n = sub_ℕ 0 n
signed false n = pos n

abbrev differ : Bool → Bool → Bool
differ true true = false
differ false false = false
differ _ _ = true

abbrev scaled : (ℕ → ℕ → ℕ) → ℤ → ℤ → ℤ
scaled f a b = signed (differ (is_negative a) (is_negative b)) (f (magnitude a) (magnitude b))

-- The sign is the lowest bit, and the last byte takes what the others leave.
abbrev encode : ℤ → ℕ
encode (pos n) = 2 * n
encode (negsuc n) = 2 * n + 1

abbrev decode : ℕ → ℤ
decode m = if m % 2 == 0 then pos (m / 2) else negsuc (m / 2)

abbrev byte : ℤ → ℕ → ℕ
byte a k =
    if k == 0
    then encode a % 256
    else if k == 1
    then encode a / 256 % 256
    else if k == 2
    then encode a / 65536 % 256
    else encode a / 16777216

abbrev of_bytes : ℕ → ℕ → ℕ → ℕ → ℤ
of_bytes b0 b1 b2 b3 = decode (b0 + 256 * b1 + 65536 * b2 + 16777216 * b3)

-- Three digits of thousandths behind the whole part, each a character.
abbrev digit : ℕ → ℕ
digit n = b'0' + n % 10

abbrev shown : ℤ → List ℕ
shown a =
    let n = magnitude a in
    (if is_negative a then b'-' ∷ [] else [])
    ++ (digit (n / 10000) ∷ digit (n / 1000) ∷ b'.' ∷ digit (n / 100) ∷ digit (n / 10) ∷ [])

-- The digits of a text, as a whole number.
abbrev whole : ℕ → List ℕ → ℕ
whole acc [] = acc
whole acc (c ∷ cs) = whole (acc * 10 + (c - b'0')) cs

abbrev read_whole : List ℕ → ℤ
read_whole cs = pos (1000 * whole 0 cs)

instance abbrev pub milli_float : Float Milli
milli_float = record {
  lit = λ n d. pos (n * 1000 / d);
  infinity = pos 1_000_000_000;
  neg = λ a. sub_ℕ (neg_part a) (pos_part a);
  add = λ a b. sub_ℕ (pos_part a + pos_part b) (neg_part a + neg_part b);
  sub = λ a b. sub_ℕ (pos_part a + neg_part b) (neg_part a + pos_part b);
  mul = scaled (λ m n. m * n / 1000);
  div = scaled (λ m n. m * 1000 / n);
  lt = ltb_ℤ;
  le = λ a b. leb (pos_part a + neg_part b) (pos_part b + neg_part a);
  eq = λ a b. pos_part a + neg_part b == pos_part b + neg_part a;
  abs = λ a. pos (magnitude a);
  log10 = λ a. a;
  pow = scaled (λ m n. m * n / 1000);
  to_int = λ a. signed (is_negative a) (magnitude a / 1000);
  byte = byte;
  of_bytes = of_bytes;
  of_string = read_whole;
  to_string = shown;
  to_fixed = shown;
}

lt_irrefl : (x : ℤ) → ltb_ℤ x x ≡ false
lt_irrefl x = ground arith

lt_trans : (x y z : ℤ) → ltb_ℤ x y ≡ true → ltb_ℤ y z ≡ true → ltb_ℤ x z ≡ true
lt_trans x y z p q = ground arith

of_bytes-byte : (x : ℤ) → of_bytes (byte x 0) (byte x 1) (byte x 2) (byte x 3) ≡ x
of_bytes-byte (pos n) = ground arith
of_bytes-byte (negsuc n) = ground arith

le-not-lt :
    (x y : ℤ)
    → milli_float.eq x x ≡ true
    → milli_float.eq y y ≡ true
    → milli_float.le x y ≡ not (ltb_ℤ y x)
le-not-lt x y p q = ground arith

eq_refl_lit : (n d : ℕ) → 0 < d → milli_float.eq (milli_float.lit n d) (milli_float.lit n d) ≡ true
eq_refl_lit n d h = ground arith

eq_refl_neg :
    (x : ℤ)
    → milli_float.eq x x ≡ true
    → milli_float.eq (milli_float.neg x) (milli_float.neg x) ≡ true
eq_refl_neg x h = ground arith

lit_mono : (m n : ℕ) → m ≤ n → milli_float.le (milli_float.lit m 1) (milli_float.lit n 1) ≡ true
lit_mono m n h = ground arith

pub Milli-IsFloat : IsFloat Milli
Milli-IsFloat = record {
  lt_irrefl = lt_irrefl;
  lt_trans = lt_trans;
  le-not-lt = le-not-lt;
  eq_refl_lit = eq_refl_lit;
  eq_refl_neg = eq_refl_neg;
  lit_mono = lit_mono;
  of_bytes-byte = of_bytes-byte;
}
