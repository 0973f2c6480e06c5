-- ===== src/Board/Calibration/Execute/Rows.antt =====
-- The rows of measured values, as far as they are filled.
use mathlib.Core.Path.{subst}
use scdtr.Prelude.{
  ℕ, zero, suc, ◌≡◌, refl, sym, ap, ◌∙◌, some, List, [], ◌∷◌, ◌++◌, set, get_elem?, length, map,
  take, arith, length-set,
}

-- A row up to a place, and one more value.
pub take-set :
    {A : Type 0} (row whole : List A) (m : ℕ) (v : A)
    → length row ≡ length whole
    → take m row ≡ take m whole
    → get_elem? whole m ≡ some v
    → take (suc m) (set row m v) ≡ take (suc m) whole
take-set row [] m v size same at = absurd (ground (arith, at))
take-set [] (y ∷ ys) m v size same at = absurd (omega (arith, size))
take-set (x ∷ xs) (y ∷ ys) zero v size same at = ground (arith, at)
take-set (x ∷ xs) (y ∷ ys) (suc m) v size same at =
    ground (arith, same, take-set xs ys m v (omega (arith, size)) (ground (arith, same)) at)

module _ {A B : Type 0} (f : A → B) where
  pub length-map : (xs : List A) → length (map f xs) ≡ length xs
  length-map [] = refl
  length-map (x ∷ xs) = ap suc (length-map xs)

  pub get_elem?-map :
      (before : List A) (x : A) (xs : List A)
      → get_elem? (map f (before ++ (x ∷ xs))) (length before) ≡ some (f x)
  get_elem?-map [] x xs = refl
  get_elem?-map (y ∷ ys) x xs = get_elem?-map ys x xs

take_same :
    {A : Type 0} (xs ys : List A)
    → length xs ≡ length ys
    → take (length ys) xs ≡ take (length ys) ys
    → xs ≡ ys
take_same [] [] size same = refl
take_same [] (y ∷ ys) size same = absurd (omega (arith, size))
take_same (x ∷ xs) [] size same = absurd (omega (arith, size))
take_same (x ∷ xs) (y ∷ ys) size same =
    ground (arith, same, take_same xs ys (omega (arith, size)) (ground (arith, same)))

-- Both rows of `Y`, filled with these values up to a sample.
pub record IsTable {F : Type 0} (row0 row1 : List F) (m : ℕ) (y : List (List F)) : Type 0 where
  pub a : List F
  pub b : List F
  pub rows : y ≡ a ∷ b ∷ []
  pub size0 : length a ≡ length row0
  pub size1 : length b ≡ length row1
  pub filled0 : take m a ≡ take m row0
  pub filled1 : take m b ≡ take m row1

module _ {F : Type 0} where
  pub IsTable-step :
      (row0 row1 : List F) (m : ℕ) (y : List (List F)) (u w : F) (t : IsTable row0 row1 m y)
      → get_elem? row0 m ≡ some u
      → get_elem? row1 m ≡ some w
      → IsTable row0 row1 (suc m) (set (set y 0 (set t.a m u)) 1 (set t.b m w))
  IsTable-step row0 row1 m y u w t at at' = record {
    a = set t.a m u;
    b = set t.b m w;
    rows = ground (arith, t.rows);
    size0 = length-set t.a m u ∙ t.size0;
    size1 = length-set t.b m w ∙ t.size1;
    filled0 = take-set t.a row0 m u t.size0 t.filled0 at;
    filled1 = take-set t.b row1 m w t.size1 t.filled1 at';
  }

  pub filled :
      (row0 row1 : List F) (m : ℕ) (y : List (List F))
      → IsTable row0 row1 m y
      → length row0 ≡ m
      → length row1 ≡ m
      → y ≡ row0 ∷ row1 ∷ []
  filled row0 row1 m y t e e' =
      let a : t.a ≡ row0 =
        take_same t.a row0 t.size0 (subst (λ n. take n t.a ≡ take n row0) (sym e) t.filled0) in
      let b : t.b ≡ row1 =
        take_same t.b row1 t.size1 (subst (λ n. take n t.b ≡ take n row1) (sym e') t.filled1) in
      ground (arith, t.rows, a, b)
