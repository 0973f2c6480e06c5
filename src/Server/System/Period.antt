-- ===== src/Server/System/Period.antt =====
-- `getValuesInPeriod`: the values of one variable in a span of time, as text.
pub mod Joined
use scdtr.Prelude.{
  ℕ, ◌+◌, ◌-◌, ◌≡◌, refl, Bool, true, false, ◌&&◌, Option, none, some, List, [], ◌∷◌, ◌++◌, leb,
  ◌==◌, if◌then◌else◌, length, get_elem?, take,
}
use scdtr.Float.{Float}
use scdtr.Server.System.{Entry, System}

-- What the loop puts behind each value, and what is taken off at the end.
abbrev pub separator : List ℕ
separator = b',' ∷ b' ' ∷ []

abbrev pub without_last_two : List ℕ → List ℕ
without_last_two response = take (length response - 2) response

module _ {F : Type 0} ⦃fl : Float F⦄ where
  abbrev pub chosen : ℕ → Entry F → F
  chosen var e = if var == b'l' then e.lux else e.duty_cycle

  abbrev pub in_period : ℕ → ℕ → Entry F → Bool
  in_period start end e = leb start e.timestamp && leb e.timestamp end

  unfoldable pub values_from : ℕ → ℕ → ℕ → List ℕ → List (Entry F) → List ℕ
  values_from start end var response [] = response
  values_from start end var response (e ∷ es) =
      values_from start end var
        (if in_period start end e
          then response ++ (fl.to_fixed (chosen var e) ++ separator)
          else response)
        es

  unfoldable pub get_values_in_period : System F → ℕ → ℕ → ℕ → ℕ → List ℕ
  unfolding values_from
  get_values_in_period s id start end var = elim (get_elem? s.entries id) [
    | none ↦ []
    | some log ↦ without_last_two (values_from start end var [] log)
  ]
