-- ===== src/Server/System/Figures/Increments.antt =====
-- The figures of a node when its log grows by an entry.
use scdtr.Prelude.{
  ℕ, ◌≡◌, inl, inr, some, List, [], ◌∷◌, ◌++◌, arith, get_elem?, get_last?, get_elem?-lt,
  get_elem?-set_self, Option-cases,
}
use scdtr.Float.{Float, ◌⊕◌, ◌⊗◌, ◌⊘◌}
use scdtr.Server.System.{Entry, System, zero_f, insert_entry, get_latest_entry}
use scdtr.Server.System.Figures.{elapsed, energy_from, energy_node}

module _ {F : Type 0} ⦃fl : Float F⦄ where
  energy_from-append :
      (log : List (Entry F)) (acc : F) (last e : Entry F)
      → get_last? log ≡ some last
      → energy_from acc (log ++ (e ∷ []))
        ≡ energy_from acc log ⊕ last.duty_cycle ⊗ (fl.lit (elapsed last e) 1 ⊘ fl.lit 1000 1)
  unfolding energy_from
  energy_from-append [] acc last e h = cc
  energy_from-append (x ∷ []) acc last e h = ground arith
  energy_from-append (x ∷ y ∷ log) acc last e h = energy_from-append (y ∷ log) _ last e h

  -- A new entry adds to the energy of its node what the duty cycle of the entry before it consumed
  -- over the time between the two.
  pub energy_node-insert_entry :
      (s : System F) (id : ℕ) (last e : Entry F) (energy : F)
      → get_latest_entry s id ≡ some last
      → energy_node s id ≡ some energy
      → energy_node (insert_entry s id e) id
        ≡ some (energy ⊕ last.duty_cycle ⊗ (fl.lit (elapsed last e) 1 ⊘ fl.lit 1000 1))
  unfolding energy_node insert_entry get_latest_entry
  energy_node-insert_entry s id last e energy latest before =
      elim (Option-cases (get_elem? s.entries id)) [
        | inl missing ↦ ground (arith, missing)
        | inr (log, found) ↦ ground (
          arith,
          found,
          get_elem?-lt s.entries id found,
          get_elem?-set_self s.entries id (log ++ (e ∷ [])),
          energy_from-append log zero_f last e,
        )
      ]
