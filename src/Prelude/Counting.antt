-- ===== src/Prelude/Counting.antt =====
-- Sums over a list, and a list without one of its members.
use scdtr.Prelude.{ℕ, ◌+◌, ◌≡◌, ap, List, [], ◌∷◌, ◌++◌, arith}

module _ {A : Type 0} where
  unfoldable pub count : (A → ℕ) → List A → ℕ
  count f [] = 0
  count f (x ∷ xs) = f x + count f xs

  count-append : (f : A → ℕ) (xs ys : List A) → count f (xs ++ ys) ≡ count f xs + count f ys
  unfolding count
  count-append f [] ys = omega arith
  count-append f (x ∷ xs) ys = omega (arith, count-append f xs ys)

  pub count-split :
      (f : A → ℕ) (all before behind : List A) (x : A)
      → all ≡ before ++ (x ∷ behind)
      → count f all ≡ f x + count f (before ++ behind)
  unfolding count
  count-split f all before behind x e =
      omega
        (arith, ap (count f) e, count-append f before (x ∷ behind), count-append f before behind)
