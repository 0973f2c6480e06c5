-- ===== src/Board/Matrix.antt =====
-- matrix.cpp: matrices of floats, row by row in an array. A function returns the array that the
-- source fills; `mul` must not get its result as an operand, and the others may, as each cell
-- depends on the same cell of the operands only.
use scdtr.Prelude.{ℕ, zero, suc, ◌+◌, ◌*◌, List, [], ◌++◌, get_or, replicate, tabulate, take}
use scdtr.Float.{Float, ◌⊕◌, ◌⊖◌, ◌⊗◌}

module _ {F : Type 0} ⦃fl : Float F⦄ where
  -- A read of a cell.
  abbrev pub at : List F → ℕ → F
  at a k = get_or a k (fl.lit 0 1)

  -- The loops over `n` rows, from row `i` on, and over the `m` cells of each.
  abbrev rows_from : ℕ → ℕ → ℕ → (ℕ → ℕ → F) → List F
  rows_from zero i m cell = []
  rows_from (suc left) i m cell = tabulate m (cell i) ++ rows_from left (i + 1) m cell

  abbrev rows : ℕ → ℕ → (ℕ → ℕ → F) → List F
  rows n m cell = rows_from n 0 m cell

  abbrev pub sum : List F → List F → ℕ → ℕ → List F
  sum a b n m = rows n m (λ i j. at a (m * i + j) ⊕ at b (m * i + j))

  abbrev pub sub : List F → List F → ℕ → ℕ → List F
  sub a b n m = rows n m (λ i j. at a (m * i + j) ⊖ at b (m * i + j))

  -- The loop over `k`, `left` of them, on top of what the cell holds.
  abbrev products_from : List F → List F → ℕ → ℕ → ℕ → ℕ → ℕ → ℕ → F → F
  products_from a b zero k i j m p c = c
  products_from a b (suc left) k i j m p c =
      products_from a b left (k + 1) i j m p (c ⊕ at a (m * i + k) ⊗ at b (p * k + j))

  abbrev pub mul : List F → List F → ℕ → ℕ → ℕ → List F
  mul a b n m p = rows n p (λ i j. products_from a b m 0 i j m p (fl.lit 0 1))

  abbrev pub elem_mul : List F → List F → ℕ → ℕ → List F
  elem_mul a b n m = rows n m (λ i j. at a (m * i + j) ⊗ at b (m * i + j))

  abbrev pub fill : F → ℕ → ℕ → List F
  fill value n m = replicate (n * m) value

  abbrev pub copy : List F → ℕ → ℕ → List F
  copy a n m = take (n * m) a
