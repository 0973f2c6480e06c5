-- ===== src/Server/System/Figures/Totals.antt =====
-- The figures over all nodes: the loops by index against sums over the logs.
use mathlib.Core.List.{foldl}
use scdtr.Prelude.{
  ℕ, zero, suc, ◌+◌, ◌≡◌, refl, sym, ap, ◌∙◌, Bool, true, false, ◌||◌, Option, some, List, [], ◌∷◌,
  arith, if◌then◌else◌, length, get_elem?, drop, tabulate, tabulate_from,
}
use scdtr.Float.{Float, ◌⊕◌, ◌⊗◌, ◌⊘◌}
use scdtr.Server.System.{Entry, System, zero_f, minus_one, get_duty_cycle}
use scdtr.Server.System.Figures.{
  power_from, get_power, energy_from, error_from, variance_from, energy_node, comfort_error_node,
  comfort_variance_node, figure, total_from, get_energy, get_comfort_error, get_comfort_variance,
}
use scdtr.Server.System.Invariant.{IsWellFormed}

drop_next :
    {A : Type 0} (xs : List A) (i : ℕ) (x : A) (rest : List A)
    → drop i xs ≡ x ∷ rest
    → (get_elem? xs i ≡ some x) × (drop (i + 1) xs ≡ rest)
drop_next [] zero x rest e = cc
drop_next [] (suc i) x rest e = cc
drop_next (y ∷ xs) zero x rest e = ground arith
drop_next (y ∷ xs) (suc i) x rest e =
    let step : suc i + 1 ≡ suc (i + 1) = omega arith in rw step (drop_next xs i x rest e)

module _ {F : Type 0} ⦃fl : Float F⦄ where
  -- The sum of a figure over all logs, in the order of the nodes.
  abbrev pub sum_logs : (List (Entry F) → F) → List (List (Entry F)) → F
  sum_logs g logs = foldl (λ sum log. sum ⊕ g log) zero_f logs

  total_from_lem :
      (node : System F → ℕ → Option F) (g : List (Entry F) → F) (s : System F)
      → ((i : ℕ) (log : List (Entry F))
          → get_elem? s.entries i ≡ some log
          → node s i ≡ some (g log))
      → (rest : List (List (Entry F))) (i : ℕ) (sum : F) → drop i s.entries ≡ rest
      → total_from node s (length rest) i sum ≡ some (foldl (λ sum log. sum ⊕ g log) sum rest)
  unfolding total_from
  total_from_lem node g s each [] i sum e = refl
  total_from_lem node g s each (log ∷ rest) i sum e =
      let (here, later) = drop_next s.entries i log rest e in
      rw (each i log here, total_from)
        (total_from_lem node g s each rest (i + 1) (sum ⊕ g log) later)

  energy_node_lem :
      (s : System F) (i : ℕ) (log : List (Entry F))
      → get_elem? s.entries i ≡ some log
      → energy_node s i ≡ some (energy_from zero_f log)
  unfolding energy_node
  energy_node_lem s i log e = rw (e, energy_node)

  comfort_error_node_lem :
      (s : System F) (i : ℕ) (log : List (Entry F))
      → get_elem? s.entries i ≡ some log
      → comfort_error_node s i ≡ some (error_from zero_f log ⊘ fl.lit (length log) 1)
  unfolding comfort_error_node
  comfort_error_node_lem s i log e = rw (e, comfort_error_node)

  comfort_variance_node_lem :
      (s : System F) (i : ℕ) (log : List (Entry F))
      → get_elem? s.entries i ≡ some log
      → comfort_variance_node s i
        ≡ some (
            variance_from zero_f log
            ⊘ (fl.lit (length log) 1 ⊗ fl.pow s.sample_period (fl.lit 2 1)))
  unfolding comfort_variance_node
  comfort_variance_node_lem s i log e = rw (e, comfort_variance_node)

  figure_total :
      (node : System F → ℕ → Option F) (g : List (Entry F) → F) (s : System F) (id : ℕ)
      → ((i : ℕ) (log : List (Entry F))
          → get_elem? s.entries i ≡ some log
          → node s i ≡ some (g log))
      → IsWellFormed s
      → figure node s id true ≡ sum_logs g s.entries
  figure_total node g s id each v =
      let loop : total_from node s s.nodes 0 zero_f ≡ some (sum_logs g s.entries) =
        ap (λ k. total_from node s k 0 zero_f) (sym v.entries_length)
        ∙ total_from_lem node g s each s.entries 0 zero_f refl in
      rw (loop, figure)

  -- In a well-formed system the totals of energy, comfort error and comfort variance are the sums of
  -- the nodes' figures over all logs. None of them is the -1 that stands for a log out of range.
  pub totals :
      (s : System F) (id : ℕ)
      → IsWellFormed s
      → (get_energy s id true ≡ sum_logs (energy_from zero_f) s.entries)
        × (get_comfort_error s id true
            ≡ sum_logs (λ log. error_from zero_f log ⊘ fl.lit (length log) 1) s.entries)
        × (get_comfort_variance s id true
            ≡ sum_logs
                (λ log.
                  variance_from zero_f log
                  ⊘ (fl.lit (length log) 1 ⊗ fl.pow s.sample_period (fl.lit 2 1)))
                s.entries)
  unfolding get_energy get_comfort_error get_comfort_variance
  totals s id v = (
    figure_total energy_node _ s id (energy_node_lem s) v,
    figure_total comfort_error_node _ s id (comfort_error_node_lem s) v,
    figure_total comfort_variance_node _ s id (comfort_variance_node_lem s) v,
  )

  abbrev pub any_missing : List F → Bool
  any_missing [] = false
  any_missing (d ∷ ds) = fl.eq d minus_one || any_missing ds

  power_from_lem :
      (s : System F) (left i : ℕ) (power : F)
      → power_from s left i power ≡ (
          let duties = tabulate_from left i (get_duty_cycle s) in
          if any_missing duties then minus_one else foldl ◌⊕◌ power duties)
  unfolding power_from
  power_from_lem s zero i power = refl
  power_from_lem s (suc left) i power =
      ground (arith, power_from_lem s left (i + 1) (power ⊕ get_duty_cycle s i))

  -- The total power is the sum of the latest duty cycles of all nodes, in their order, and -1 if any
  -- of them is -1, as it is for a node that has not been heard of.
  pub get_power-total :
      (s : System F) (id : ℕ)
      → get_power s id true ≡ (
          let duties = tabulate s.nodes (get_duty_cycle s) in
          if any_missing duties then minus_one else foldl ◌⊕◌ zero_f duties)
  unfolding get_power
  get_power-total s id = power_from_lem s s.nodes 0 zero_f
