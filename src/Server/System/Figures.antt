-- ===== src/Server/System/Figures.antt =====
-- The figures of System.cpp: power, energy, comfort error and comfort variance, of a node or of all.
pub mod Totals
pub mod Increments
use scdtr.Prelude.{
  ℕ, zero, suc, ◌+◌, ◌-◌, ◌%◌, Bool, true, false, Option, none, some, List, [], ◌∷◌, if◌then◌else◌,
  length, get_elem?,
}
use scdtr.Float.{Float, ◌⊕◌, ◌⊖◌, ◌⊗◌, ◌⊘◌, max}
use scdtr.Server.{ulong_mod}
use scdtr.Server.System.{Entry, System, zero_f, minus_one, get_duty_cycle}

module _ {F : Type 0} ⦃fl : Float F⦄ where
  -- The loop of `getPower`, from node `i` on, with its early return.
  pub power_from : System F → ℕ → ℕ → F → F
  power_from s zero i power = power
  power_from s (suc left) i power =
      let power_i = get_duty_cycle s i in
      let rest = power_from s left (i + 1) (power ⊕ power_i) in
      if fl.eq power_i minus_one then minus_one else rest

  unfoldable pub get_power : System F → ℕ → Bool → F
  unfolding power_from
  get_power s id total = if total then power_from s s.nodes 0 zero_f else get_duty_cycle s id

  -- The loop of `energyNode` over neighbouring entries.
  abbrev pub elapsed : Entry F → Entry F → ℕ
  elapsed e e' = (e'.timestamp + ulong_mod - e.timestamp) % ulong_mod

  unfoldable pub energy_from : F → List (Entry F) → F
  energy_from energy [] = energy
  energy_from energy (e ∷ []) = energy
  energy_from energy (e ∷ e' ∷ es) =
      energy_from (energy ⊕ e.duty_cycle ⊗ (fl.lit (elapsed e e') 1 ⊘ fl.lit 1000 1)) (e' ∷ es)

  unfoldable pub energy_node : System F → ℕ → Option F
  unfolding energy_from
  energy_node s id = elim (get_elem? s.entries id) [
    | none ↦ none
    | some log ↦ some (energy_from zero_f log)
  ]

  pub error_from : F → List (Entry F) → F
  error_from comfort_error [] = comfort_error
  error_from comfort_error (e ∷ es) =
      error_from (comfort_error ⊕ max (e.lux_reference ⊖ e.lux) zero_f) es

  pub comfort_error_node : System F → ℕ → Option F
  unfolding error_from
  comfort_error_node s id = elim (get_elem? s.entries id) [
    | none ↦ none
    | some log ↦ some (error_from zero_f log ⊘ fl.lit (length log) 1)
  ]

  -- The loop of `comfortVarianceNode` over three neighbouring entries.
  pub variance_from : F → List (Entry F) → F
  variance_from comfort_variance [] = comfort_variance
  variance_from comfort_variance (e₂ ∷ []) = comfort_variance
  variance_from comfort_variance (e₂ ∷ e₁ ∷ []) = comfort_variance
  variance_from comfort_variance (e₂ ∷ e₁ ∷ e ∷ es) =
      variance_from (comfort_variance ⊕ fl.abs (e.lux ⊖ fl.lit 2 1 ⊗ e₁.lux ⊕ e₂.lux)) (e₁ ∷ e ∷ es)

  pub comfort_variance_node : System F → ℕ → Option F
  unfolding variance_from
  comfort_variance_node s id = elim (get_elem? s.entries id) [
    | none ↦ none
    | some log ↦
        some
          (variance_from zero_f log ⊘ (fl.lit (length log) 1 ⊗ fl.pow s.sample_period (fl.lit 2 1)))
  ]

  -- The loop over all nodes that the three figures share, from node `i` on.
  pub total_from : (System F → ℕ → Option F) → System F → ℕ → ℕ → F → Option F
  total_from node s zero i sum = some sum
  total_from node s (suc left) i sum = elim (node s i) [
    | none ↦ none
    | some x ↦ total_from node s left (i + 1) (sum ⊕ x)
  ]

  -- A figure of one node or of all; -1 where the log is out of range.
  abbrev pub figure : (System F → ℕ → Option F) → System F → ℕ → Bool → F
  figure node s id total = elim (if total then total_from node s s.nodes 0 zero_f else node s id) [
    | none ↦ minus_one
    | some x ↦ x
  ]

  unfoldable pub get_energy : System F → ℕ → Bool → F
  unfolding energy_node total_from
  get_energy = figure energy_node

  unfoldable pub get_comfort_error : System F → ℕ → Bool → F
  unfolding comfort_error_node total_from
  get_comfort_error = figure comfort_error_node

  unfoldable pub get_comfort_variance : System F → ℕ → Bool → F
  unfolding comfort_variance_node total_from
  get_comfort_variance = figure comfort_variance_node
