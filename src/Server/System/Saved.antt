-- ===== src/Server/System/Saved.antt =====
-- `saveEntries` of System.cpp: a file of comma-separated values for each node. Whether a file can be
-- opened, and what `<<` prints of a float, are arguments.
pub mod Values
use scdtr.Prelude.{
  get_elem?-ge, ◌≤◌, ◌≡◌, refl, arith, length, inl, inr, Bool-cases, Option-cases, ℕ, zero, suc,
  ◌+◌, Bool, List, [], ◌∷◌, ◌++◌, if◌then◌else◌, Option, none, some, get_elem?,
}
use scdtr.Float.{Float}
use scdtr.Text.{to_string}
use scdtr.Server.System.{Entry, System}
use scdtr.Server.System.Invariant.{IsWellFormed}

-- A file: its name and what it holds.
pub record Saved : Type 0 where
  pub filename : List ℕ
  pub output : List ℕ

abbrev pub comma : ℕ
comma = b','

abbrev pub newline : ℕ
newline = 10

module _ {F : Type 0} (show : F → List ℕ) where
  -- The line of an entry, up to its end.
  unfoldable pub line : Entry F → List ℕ
  line e =
      to_string e.timestamp
      ++ (comma
          ∷ (show e.lux
              ++ (comma
                  ∷ (show e.duty_cycle
                      ++ (comma
                          ∷ (show e.lux_reference
                              ++ (comma ∷ (show e.c_err ++ (comma ∷ show e.c_var)))))))))

  unfoldable pub lines : List (Entry F) → List ℕ
  lines [] = []
  lines (e ∷ es) = line e ++ (newline ∷ lines es)

  abbrev saved_file : ℕ → List (Entry F) → Saved
  saved_file id log = record {
    filename = to_string id ++ (b'.' ∷ b'c' ∷ b's' ∷ b'v' ∷ []);
    output = lines log;
  }

  -- The loop over the nodes from `id` on, `left` of them; it ends at the first file that does not
  -- open. `none` is the exception of a node without a log, which nothing catches.
  unfoldable pub save_from : System F → (ℕ → Bool) → ℕ → ℕ → Option (List Saved)
  save_from s is_open zero id = some []
  save_from s is_open (suc left) id =
      let rest = save_from s is_open left (id + 1) in
      if is_open id
      then (elim (get_elem? s.entries id) [
        | none ↦ none
        | some log ↦ (elim rest [ none ↦ none | some files ↦ some (saved_file id log ∷ files) ])
      ])
      else some []

  unfoldable pub save_entries : System F → (ℕ → Bool) → Option (List Saved)
  unfolding save_from
  save_entries s is_open = save_from s is_open s.nodes 0

  -- With a log for each node there is no such exception.
  save_from-total :
      (s : System F) (is_open : ℕ → Bool) (left id : ℕ)
      → id + left ≤ length s.entries
      → (files : List Saved) × (save_from s is_open left id ≡ some files)
  unfolding save_from
  save_from-total s is_open zero id h = ([], refl)
  save_from-total s is_open (suc left) id h =
      let (files, rest) = save_from-total s is_open left (id + 1) (omega arith) in
      elim (Bool-cases (is_open id)) [
        | inr shut ↦ ([], ground (arith, shut))
        | inl ready ↦ elim (Option-cases (get_elem? s.entries id)) [
          | inl missing ↦ absurd (omega (arith, get_elem?-ge s.entries id missing))
          | inr (log, found) ↦ (saved_file id log ∷ files, rw (ready, found, rest, save_from) refl)
        ]
      ]

  pub save_entries-total :
      (s : System F) (is_open : ℕ → Bool)
      → IsWellFormed s
      → (files : List Saved) × (save_entries s is_open ≡ some files)
  unfolding save_entries
  save_entries-total s is_open v =
      save_from-total s is_open s.nodes 0 (omega (arith, v.entries_length))
