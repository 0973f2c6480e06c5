-- ===== src/Board/Consensus/Optimum/Least.antt =====
-- The best solution of an iteration among the six in closed form.
use mathlib.Core.Path.{subst}
use scdtr.Prelude.{
  ◌<◌, ◌≡◌, refl, sym, ap, ◌∙◌, false, ◌&&◌, List, [], ◌∷◌, ◌++◌, map, arith, get_or, drop, All,
}
use scdtr.Float.{Float, IsFloat}
use scdtr.Board.{n_nodes}
use scdtr.Board.Matrix.{copy}
use scdtr.Board.Consensus.{Problem, Best, Candidate, cost_function, check_constraints, best_of}
use scdtr.Board.Consensus.Optimum.{IsFrom, unchanged, chosen, is_better, best_of-candidates}
use scdtr.Board.Consensus.Optimum.Closed.{
  price, is_allowed, closed_forms, IsSolution, kept, found, candidate, candidates-closed,
  cost_function-price, check_constraints-allowed,
}

map-split :
    {A B : Type 0} (f : A → B) (xs : List A) (before after : List B) (c : B)
    → map f xs ≡ before ++ (c ∷ after)
    → (l : List A) × (r : List A) × (x : A) × (xs ≡ l ++ (x ∷ r)) × (f x ≡ c)
map-split f [] [] after c e = absurd (ground (arith, e))
map-split f [] (b ∷ before) after c e = absurd (ground (arith, e))
map-split f (x ∷ xs) [] after c e = ([], xs, x, refl, ap (λ l. get_or l 0 c) e)
map-split f (x ∷ xs) (b ∷ before) after c e =
    let (l, r, x', split, same) = map-split f xs before after c (ap (drop 1) e) in
    (x ∷ l, r, x', ap (λ ys. x ∷ ys) split, same)

All-map :
    {A B : Type 0} (P : B → Type 0) (f : A → B) (xs : List A)
    → All P (map f xs)
    → All (λ x. P (f x)) xs
All-map P f [] h = tt
All-map P f (x ∷ xs) (h, hs) = (h, All-map P f xs hs)

All-imply :
    {A : Type 0} (P Q : A → Type 0) (xs : List A) → ((x : A) → P x → Q x) → All P xs → All Q xs
All-imply P Q [] f h = tt
All-imply P Q (x ∷ xs) f (h, hs) = (f x h, All-imply P Q xs f hs)

module _ {F : Type 0} ⦃fl : Float F⦄ where
  IsFrom-IsSolution :
      (p : Problem F) (start : List F) {b : Best F}
      → p.id < 2
      → IsFrom p
          (record { d_i_best = start; cost_best = fl.infinity })
          (map candidate (closed_forms p))
          b
      → IsSolution p start b
  IsFrom-IsSolution p start small unchanged = kept
  IsFrom-IsSolution p start small (chosen before after c e h) =
      let (l, r, d, split, same) = map-split candidate (closed_forms p) before after c e in
      let allowed =
        sym (check_constraints-allowed p.id p d small)
        ∙ ap (λ x. check_constraints p x.d_i x.check_linear) same
        ∙ h in
      subst (IsSolution p start)
        (ap {A = F} {B = Best F} (λ x. record { d_i_best = d.first ∷ d.second ∷ []; cost_best = x })
            (sym (cost_function-price p.id p d.first d.second small))
          ∙ ap {A = Candidate F} {B = Best F}
              (λ x. record { d_i_best = copy x.d_i n_nodes 1; cost_best = cost_function p x.d_i })
              same)
        (found l r d split allowed)

  -- An iteration of node 0 or 1, with the costs, gains, averages and multipliers that it starts
  -- from, and any best solution of the iteration before: its best solution is that one, at an
  -- infinite cost, or one of the six solutions in closed form that is allowed, at its price; and no
  -- allowed one of the six has a lower price.
  pub best_of-optimum :
      (laws : IsFloat F) (p : Problem F) (start : List F)
      → p.id < 2
      → IsSolution p start (best_of p start)
        × All
            (λ d.
              (is_allowed p d && fl.lt (price p d.first d.second) (best_of p start).cost_best)
              ≡ false)
            (closed_forms p)
  best_of-optimum laws p start small =
      let (from, least) = best_of-candidates laws p start in
      let closed = candidates-closed p.id p small in
      (
        IsFrom-IsSolution p start small (
            subst
              (λ cs.
                IsFrom p (record { d_i_best = start; cost_best = fl.infinity }) cs
                  (best_of p start))
              closed from),
        All-imply (λ d. is_better p (best_of p start).cost_best (candidate d) ≡ false)
            (λ d.
              (is_allowed p d && fl.lt (price p d.first d.second) (best_of p start).cost_best)
              ≡ false)
            (closed_forms p)
            (λ d h.
              rw
                (
                  sym (check_constraints-allowed p.id p d small),
                  sym (cost_function-price p.id p d.first d.second small),
                )
                h)
            (All-map (λ c. is_better p (best_of p start).cost_best c ≡ false) candidate
              (closed_forms p)
              (subst (All (λ c. is_better p (best_of p start).cost_best c ≡ false)) closed least)),
      )
