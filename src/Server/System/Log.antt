-- ===== src/Server/System/Log.antt =====
-- An insertion into the log against the getters.
use scdtr.Prelude.{
  ℕ, ◌≡◌, inl, inr, ◌&&◌, ◌==◌, some, [], ◌∷◌, ◌++◌, arith, ltb, length, get_elem?, if◌then◌else◌,
  Option-cases, get_elem?-lt, get_elem?-ge, get_elem?-set_self, get_elem?-set_ne, get_last?-append,
}
use scdtr.Float.{Float}
use scdtr.Server.System.{Entry, System, insert_entry, get_latest_entry}

module _ {F : Type 0} ⦃fl : Float F⦄ where
  -- After an insertion the latest entry of a node is the new one, if the node is known and it is the
  -- one inserted for, and what it was for every other.
  pub get_latest_entry-insert_entry :
      (s : System F) (id j : ℕ) (e : Entry F)
      → get_latest_entry (insert_entry s id e) j
        ≡ (if j == id && ltb id (length s.entries) then some e else get_latest_entry s j)
  unfolding get_latest_entry insert_entry
  get_latest_entry-insert_entry s id j e = elim (Option-cases (get_elem? s.entries id)) [
    | inl missing ↦ ground (arith, missing, get_elem?-ge s.entries id missing)
    | inr (log, found) ↦ ground (
      arith,
      found,
      get_elem?-lt s.entries id found,
      get_elem?-set_self s.entries id (log ++ (e ∷ [])),
      get_elem?-set_ne s.entries id j (log ++ (e ∷ [])),
      get_last?-append log e,
    )
  ]
