-- ===== src/Float.antt =====
-- The type `float` of C++ and what the program does with it. Its operations are parameters: the
-- hardware and the C library give them. `Float` lists them, `IsFloat` the few facts that proofs use,
-- and the child `Milli` is an instance that runs.
pub mod Milli
use scdtr.Prelude.{ℕ, ◌≤◌, ◌<◌, ◌≡◌, Bool, true, false, not, List, [], ◌∷◌, if◌then◌else◌}
use scdtr.Prelude.{arith}
use scdtr.Prelude.Int.{ℤ}

pub record Float (F : Type 0) : Type 0 where
  -- `lit n d` is the literal n / d, and `INFINITY` stands beside it.
  pub lit : ℕ → ℕ → F
  pub infinity : F
  pub neg : F → F
  pub add : F → F → F
  pub sub : F → F → F
  pub mul : F → F → F
  pub div : F → F → F
  -- `<`, `<=` and `==`, which are false at NaN.
  pub lt : F → F → Bool
  pub le : F → F → Bool
  pub eq : F → F → Bool
  pub abs : F → F
  pub log10 : F → F
  pub pow : F → F → F
  -- The cast to `int`.
  pub to_int : F → ℤ
  -- The members of the union `float_bytes`: byte `k` of `f`, and the float of four bytes.
  pub byte : F → ℕ → ℕ
  pub of_bytes : ℕ → ℕ → ℕ → ℕ → F
  -- `atof`.
  pub of_string : List ℕ → F
  -- The characters of `std::to_string`, and those at `std::fixed` with two places.
  pub to_string : F → List ℕ
  pub to_fixed : F → List ℕ

-- `<` is a strict order, also where NaN is compared; `<=` is its negation, the other way round, but
-- where NaN is compared, which is not equal to itself; whole numbers keep their order as floats; a
-- float is determined by its four bytes.
pub record IsFloat (F : Type 0) ⦃fl : Float F⦄ : Type 0 where
  pub lt_irrefl : (x : F) → fl.lt x x ≡ false
  pub lt_trans : (x y z : F) → fl.lt x y ≡ true → fl.lt y z ≡ true → fl.lt x z ≡ true
  pub le-not-lt : (x y : F) → fl.eq x x ≡ true → fl.eq y y ≡ true → fl.le x y ≡ not (fl.lt y x)
  pub eq_refl_lit : (n d : ℕ) → 0 < d → fl.eq (fl.lit n d) (fl.lit n d) ≡ true
  pub eq_refl_neg : (x : F) → fl.eq x x ≡ true → fl.eq (fl.neg x) (fl.neg x) ≡ true
  pub lit_mono : (m n : ℕ) → m ≤ n → fl.le (fl.lit m 1) (fl.lit n 1) ≡ true
  pub of_bytes-byte :
      (x : F) → fl.of_bytes (fl.byte x 0) (fl.byte x 1) (fl.byte x 2) (fl.byte x 3) ≡ x

module _ {F : Type 0} ⦃fl : Float F⦄ where
  infixl 65 ◌⊕◌ ◌⊖◌
  infixl 70 ◌⊗◌ ◌⊘◌
  abbrev pub ◌⊕◌ : F → F → F
  a ⊕ b = fl.add a b

  abbrev pub ◌⊖◌ : F → F → F
  a ⊖ b = fl.sub a b

  abbrev pub ◌⊗◌ : F → F → F
  a ⊗ b = fl.mul a b

  abbrev pub ◌⊘◌ : F → F → F
  a ⊘ b = fl.div a b

  -- `std::max(a, b)`.
  abbrev pub max : F → F → F
  max a b = if fl.lt a b then b else a

  -- The four bytes of a float, in the order in which the loops over `sizeof(float)` copy them.
  abbrev pub bytes : F → List ℕ
  bytes x = fl.byte x 0 ∷ fl.byte x 1 ∷ fl.byte x 2 ∷ fl.byte x 3 ∷ []

  module _ (laws : IsFloat F) where
    -- Whole numbers in order: the larger is not below the smaller.
    pub lit_not_lt : (m n : ℕ) → m ≤ n → fl.lt (fl.lit n 1) (fl.lit m 1) ≡ false
    lit_not_lt m n h = ground (
      arith,
      laws.lit_mono m n h,
      laws.le-not-lt (fl.lit m 1) (fl.lit n 1) (laws.eq_refl_lit m 1 (omega arith))
          (laws.eq_refl_lit n 1 (omega arith)),
    )
