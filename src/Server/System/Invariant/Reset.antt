-- ===== src/Server/System/Invariant/Reset.antt =====
-- `reset` and the constructor: the loop over the logs never runs out of range, and empties them all.
use mathlib.Core.List.{append-nil}
use scdtr.Prelude.{
  ℕ, zero, suc, ◌+◌, ◌-◌, ◌*◌, ◌%◌, ◌≤◌, ◌<◌, ◌≡◌, refl, sym, ap, ◌∙◌, false, some, List, [], ◌∷◌,
  ◌++◌, arith, length, set, take, replicate, length-append, length-replicate, lt→ltb, eq_nil,
}
use scdtr.Float.{Float}
use scdtr.Server.{ulong_mod, recv_buffer}
use scdtr.Server.System.{Entry, System, clear_logs, resized, reset, construct, zero_f}

module _ {A : Type 0} where
  set-replicate :
      (i : ℕ) (a x v : A) (rest : List A)
      → set (replicate i a ++ (x ∷ rest)) i v ≡ replicate i a ++ (v ∷ rest)
  set-replicate zero a x v rest = refl
  set-replicate (suc i) a x v rest = ap (◌∷◌ a) (set-replicate i a x v rest)

  replicate_middle :
      (i : ℕ) (a : A) (rest : List A) → replicate i a ++ (a ∷ rest) ≡ replicate (i + 1) a ++ rest
  replicate_middle zero a rest = refl
  replicate_middle (suc i) a rest =
      let step : suc i + 1 ≡ suc (i + 1) = omega arith in
      rw step (ap (◌∷◌ a) (replicate_middle i a rest))

  take-replicate :
      (i j : ℕ) (a : A) (rest : List A)
      → take (i + j) (replicate i a ++ rest) ≡ replicate i a ++ take j rest
  take-replicate zero j a rest = let step : 0 + j ≡ j = omega arith in rw step
  take-replicate (suc i) j a rest =
      let step : suc i + j ≡ suc (i + j) = omega arith in
      rw step (ap (◌∷◌ a) (take-replicate i j a rest))

  length-take_le : (n : ℕ) (xs : List A) → n ≤ length xs → length (take n xs) ≡ n
  length-take_le zero xs h = refl
  length-take_le (suc n) [] h = absurd (omega arith)
  length-take_le (suc n) (x ∷ xs) h = omega (arith, length-take_le n xs (omega arith))

module _ {F : Type 0} ⦃fl : Float F⦄ where
  resized-take :
      (n : ℕ) (entries : List (List (Entry F)))
      → n ≤ length entries
      → resized n entries ≡ take n entries
  resized-take n entries h =
      let none_missing : n - length (take n entries) ≡ 0 =
        omega (arith, length-take_le n entries h) in
      ap (λ k. take n entries ++ replicate k []) none_missing ∙ append-nil (take n entries)

  clear_logs_lem :
      (nodes left i : ℕ) (rest : List (List (Entry F)))
      → i + left ≡ nodes
      → left ≤ length rest
      → (left ≡ 0 → rest ≡ [])
      → clear_logs nodes left i (replicate i [] ++ rest) ≡ some (replicate nodes [])
  unfolding clear_logs
  clear_logs_lem nodes zero i rest e h last =
      let all : i ≡ nodes = omega arith in
      rw (last refl, append-nil) (ap (λ k. some (replicate k [])) all)
  clear_logs_lem nodes (suc left) i [] e h last = absurd (omega arith)
  clear_logs_lem nodes (suc left) i (x ∷ rest) e h last =
      let done = replicate (i + 1) [] ++ take left rest in
      let total : i + 1 + left ≡ nodes = omega arith in
      let small : length (replicate i [] ++ ([] ∷ rest)) ≡ i + suc (length rest) = omega (
        arith,
        length-append (replicate i []) ([] ∷ rest),
        length-replicate {A = List (Entry F)} i [],
      ) in
      let here : i < length (replicate i [] ++ (x ∷ rest)) = omega (
        arith,
        length-append (replicate i []) (x ∷ rest),
        length-replicate {A = List (Entry F)} i [],
      ) in
      let step : resized nodes (set (replicate i [] ++ (x ∷ rest)) i []) ≡ done =
        ap (resized nodes) (set-replicate i [] x [] rest)
        ∙ resized-take nodes (replicate i [] ++ ([] ∷ rest)) (omega arith)
        ∙ ap (take nodes) (replicate_middle i [] rest)
        ∙ ap (λ k. take k (replicate (i + 1) [] ++ rest)) (sym total)
        ∙ take-replicate (i + 1) left [] rest in
      rw (
        lt→ltb _ _ here,
        step,
        clear_logs_lem nodes left (i + 1) (take left rest) total
            (omega (arith, length-take_le left rest (omega arith)))
            (λ zero_left. ap (λ k. take k rest) zero_left),
      )

  -- A system of any number of nodes can be made: its log is empty for each node, and so it is after
  -- every later reset. No loop over the logs runs out of range.
  pub construct-empty :
      (nodes : ℕ) (t_s : F) (absolute : ℕ)
      → (s : System F) × (construct nodes t_s absolute ≡ some s)
        × (s.nodes ≡ nodes)
        × (s.start ≡ absolute % ulong_mod)
        × (s.entries ≡ replicate nodes [])
        × (s.lux_lower_bound ≡ replicate nodes zero_f)
        × (s.lux_external ≡ replicate nodes zero_f)
        × (s.occupancy ≡ replicate nodes false)
        × (length s.i2c_buffer ≡ recv_buffer)
  unfolding construct
  construct-empty nodes t_s absolute = (
    record {
      nodes = nodes;
      sample_period = t_s;
      start = absolute % ulong_mod;
      entries = replicate nodes [];
      lux_lower_bound = replicate nodes zero_f;
      lux_external = replicate nodes zero_f;
      occupancy = replicate nodes false;
      i2c_buffer = replicate recv_buffer 0;
    },
    rw (cleared, construct, reset),
    refl,
    refl,
    refl,
    refl,
    refl,
    refl,
    length-replicate {A = ℕ} recv_buffer 0,
  )
    where
      cleared :
          clear_logs {F = F} nodes nodes 0 (replicate (nodes * 2) []) ≡ some (replicate nodes [])
      cleared =
          clear_logs_lem nodes nodes 0 (replicate (nodes * 2) []) (omega arith)
            (omega (arith, length-replicate {A = List (Entry F)} (nodes * 2) [])) (λ e. rw e)

  -- A reset of a system with a log for each node gives what a new system of as many nodes has, on the
  -- clock of the reset; the buffer and the sampling period stay.
  pub reset-empty :
      (s : System F) (absolute : ℕ)
      → length s.entries ≡ s.nodes
      → reset s absolute
        ≡ some (record s {
          start = absolute % ulong_mod;
          entries = replicate s.nodes [];
          lux_lower_bound = replicate s.nodes zero_f;
          lux_external = replicate s.nodes zero_f;
          occupancy = replicate s.nodes false;
        })
  unfolding reset
  reset-empty s absolute v = rw (cleared, reset)
    where
      cleared : clear_logs s.nodes s.nodes 0 s.entries ≡ some (replicate s.nodes [])
      cleared =
          clear_logs_lem s.nodes s.nodes 0 s.entries (omega arith) (omega arith)
            (λ e. eq_nil s.entries (v ∙ e))
