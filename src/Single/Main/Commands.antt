-- ===== src/Single/Main/Commands.antt =====
-- What a line of the serial port can change.
use scdtr.Prelude.{
  ℕ, ◌≡◌, refl, Bool, true, false, Option, none, some, List, [], ◌∷◌, arith, if◌then◌else◌, ◌&&◌,
  if◌then◌else◌,
}
use scdtr.Float.{Float}
use scdtr.Text.{same_text, words, c_string}
use scdtr.Board.Main.Command.{delimits}
use scdtr.Single.{min_ref, max_ref, low_lux, high_lux}
use scdtr.Single.Pi.{with_feedforward, with_anti_windup, with_error_deadzone}
use scdtr.Single.Main.{
  Node, Print, on_off, process_setting, set_reference, set_feedforward, set_deadzone,
  set_anti_windup, invalid_command, low_word, high_word, off_word, reference_word, feedforward_word,
  deadzone_word, anti_windup_word, process_tokens, process_command,
}

module _ {F : Type 0} ⦃fl : Float F⦄ where
  -- A value that a command may give to the reference.
  pub data IsSetting (x : F) : Type 0 where
    off : x ≡ fl.lit 0 1 → IsSetting x
    low : x ≡ low_lux → IsSetting x
    high : x ≡ high_lux → IsSetting x
    between : fl.lt min_ref x ≡ true → fl.lt x max_ref ≡ true → IsSetting x

  -- All that a command can do to a node: nothing, or one of four settings.
  pub data Effect (n : Node F) : Node F → Type 0 where
    nothing : Effect n n
    reference : (x : F) → IsSetting x → Effect n (record n { reference = x })
    feedforward :
        (b : Bool)
        → Effect n (record n { use_feedforward = b; controller = with_feedforward n.controller b })
    deadzone : (b : Bool) → Effect n (record n { controller = with_error_deadzone n.controller b })
    anti_windup : (b : Bool) → Effect n (record n { controller = with_anti_windup n.controller b })

  reference_chosen :
      (n : Node F) (x : F) (within is_low is_high is_off : Bool)
      → (within ≡ true → IsSetting x)
      → Effect n (
          if within
          then record n { reference = x }
          else if is_low
          then record n { reference = low_lux }
          else if is_high
          then record n { reference = high_lux }
          else if is_off
          then record n { reference = fl.lit 0 1 }
          else n)
  reference_chosen n x true _ _ _ h = reference x (h refl)
  reference_chosen n x false true _ _ h = reference _ (low refl)
  reference_chosen n x false false true _ h = reference _ (high refl)
  reference_chosen n x false false false true h = reference _ (off refl)
  reference_chosen n x false false false false h = nothing

  set_reference-Effect : (n : Node F) (param : List ℕ) → Effect n (set_reference n param)
  set_reference-Effect n param =
      let x = fl.of_string param in
      reference_chosen n x (fl.lt min_ref x && fl.lt x max_ref) (same_text param low_word)
        (same_text param high_word) (same_text param off_word)
        (λ h. between (ground (arith, h)) (ground (arith, h)))

  switched :
      (n : Node F) (o : Option Bool) (set : Bool → Node F)
      → ((b : Bool) → Effect n (set b))
      → Effect n (elim o [ none ↦ n | some b ↦ set b ])
  switched n none set h = nothing
  switched n (some b) set h = h b

  chosen :
      (n n₁ n₂ n₃ n₄ : Node F) (b₁ b₂ b₃ b₄ : Bool)
      → Effect n n₁
      → Effect n n₂
      → Effect n n₃
      → Effect n n₄
      → let r : Node F × List (Print F) =
          if b₁
          then (n₁, [])
          else if b₂
          then (n₂, [])
          else if b₃
          then (n₃, [])
          else if b₄
          then (n₄, [])
          else (n, invalid_command ∷ []) in
        Effect n r.0
  chosen n n₁ n₂ n₃ n₄ true _ _ _ e₁ e₂ e₃ e₄ = e₁
  chosen n n₁ n₂ n₃ n₄ false true _ _ e₁ e₂ e₃ e₄ = e₂
  chosen n n₁ n₂ n₃ n₄ false false true _ e₁ e₂ e₃ e₄ = e₃
  chosen n n₁ n₂ n₃ n₄ false false false true e₁ e₂ e₃ e₄ = e₄
  chosen n n₁ n₂ n₃ n₄ false false false false e₁ e₂ e₃ e₄ = nothing

  process_setting-Effect :
      (n : Node F) (command param : List ℕ) → Effect n (process_setting n command param).0
  process_setting-Effect n command param =
      chosen n (set_reference n param) (set_feedforward n param) (set_deadzone n param)
        (set_anti_windup n param) (same_text command reference_word)
        (same_text command feedforward_word) (same_text command deadzone_word)
        (same_text command anti_windup_word) (set_reference-Effect n param)
        (switched n (on_off param) _ feedforward) (switched n (on_off param) _ deadzone)
        (switched n (on_off param) _ anti_windup)

  -- What becomes of a line with these words.
  pub data Processed (n : Node F) : List (List ℕ) → Option (Node F × List (Print F)) → Type 0 where
    fault : Processed n [] none
    invalid : (command : List ℕ) → Processed n (command ∷ []) (some (n, invalid_command ∷ []))
    done :
        (command param : List ℕ) (rest : List (List ℕ)) (r : Node F × List (Print F))
        → Effect n r.0
        → Processed n (command ∷ param ∷ rest) (some r)

  process_tokens-Processed :
      (n : Node F) (tokens : List (List ℕ)) → Processed n tokens (process_tokens n tokens)
  unfolding process_tokens
  process_tokens-Processed n [] = fault
  process_tokens-Processed n (command ∷ []) = invalid command
  process_tokens-Processed n (command ∷ param ∷ rest) =
      done command param rest (process_setting n command param)
        (process_setting-Effect n command param)

  -- A line with no word is a fault; a line of one word is invalid and has no effect; any other is
  -- processed, and has at most one effect on the node: one feature switched, with its flag, or the
  -- reference set to a value of the three named ones or to a number between 0 and 150. What the
  -- controller remembers is not touched.
  pub process_command-Processed :
      (n : Node F) → Processed n (words delimits (c_string n.line.cmd_buffer)) (process_command n)
  unfolding process_command
  process_command-Processed n = process_tokens-Processed n _
