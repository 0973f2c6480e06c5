-- ===== src/Server/System.antt =====
-- System.cpp and System.hpp: the log of the nodes and the figures computed from it. A method takes
-- the state and returns the new one; the locks are left out, as each method holds its own
-- throughout. The clock enters as the value that `std::chrono` returns. `none` under `at` is
-- `std::out_of_range`.
pub mod Figures
pub mod Period
pub mod Feed
pub mod Invariant
pub mod Log
pub mod Saved
pub mod Timeline
use scdtr.Prelude.{
  ℕ, zero, suc, ◌+◌, ◌-◌, ◌*◌, ◌%◌, Bool, false, Option, none, some, List, [], ◌∷◌, ◌++◌, ltb,
  if◌then◌else◌, length, get_elem?, get_or, get_last?, set, take, replicate,
}
use scdtr.Float.{Float}
use scdtr.Server.{recv_buffer, ulong_mod}

pub record Entry (F : Type 0) : Type 0 where
  pub timestamp : ℕ
  pub lux : F
  pub duty_cycle : F
  pub lux_reference : F
  pub c_err : F
  pub c_var : F

pub record System (F : Type 0) : Type 0 where
  pub nodes : ℕ
  pub sample_period : F
  pub start : ℕ
  pub entries : List (List (Entry F))
  pub lux_lower_bound : List F
  pub lux_external : List F
  pub occupancy : List Bool
  pub i2c_buffer : List ℕ

module _ {F : Type 0} where
  -- `absolute - start_`, in an `unsigned long`; `absolute` is the clock's value.
  unfoldable pub millis : System F → ℕ → ℕ
  millis s absolute = (absolute % ulong_mod + ulong_mod - s.start) % ulong_mod

module _ {F : Type 0} ⦃fl : Float F⦄ where
  abbrev pub zero_f : F
  zero_f = fl.lit 0 1

  abbrev pub minus_one : F
  minus_one = fl.neg (fl.lit 1 1)

  -- `resize` of the log: what is beyond the new size goes, what is missing is empty.
  abbrev pub resized : ℕ → List (List (Entry F)) → List (List (Entry F))
  resized n entries = take n entries ++ replicate (n - length (take n entries)) []

  -- The loop of `reset` from node `i` on; `at` is out of range for no node (`clear_logs-some`).
  unfoldable pub clear_logs : ℕ → ℕ → ℕ → List (List (Entry F)) → Option (List (List (Entry F)))
  clear_logs nodes zero i entries = some entries
  clear_logs nodes (suc left) i entries =
      let rest = clear_logs nodes left (i + 1) (resized nodes (set entries i [])) in
      if ltb i (length entries) then rest else none

  unfoldable pub reset : System F → ℕ → Option (System F)
  unfolding clear_logs
  reset s absolute = elim (clear_logs s.nodes s.nodes 0 s.entries) [
    | none ↦ none
    | some entries ↦ some (record s {
      start = absolute % ulong_mod;
      entries = entries;
      lux_lower_bound = replicate s.nodes zero_f;
      lux_external = replicate s.nodes zero_f;
      occupancy = replicate s.nodes false;
    })
  ]

  -- The constructor, up to the opening of the ports, and `start`, which ends in a reset.
  unfoldable pub construct : ℕ → F → ℕ → Option (System F)
  unfolding reset
  construct nodes t_s absolute =
      reset
        (record {
          nodes = nodes;
          sample_period = t_s;
          start = 0;
          entries = replicate (nodes * 2) [];
          lux_lower_bound = replicate nodes zero_f;
          lux_external = replicate nodes zero_f;
          occupancy = replicate nodes false;
          i2c_buffer = replicate recv_buffer 0;
        })
        absolute

  -- A new entry goes to the end of its node's log; an unknown node is reported and ignored.
  unfoldable pub insert_entry : System F → ℕ → Entry F → System F
  insert_entry s id e = elim (get_elem? s.entries id) [
    | none ↦ s
    | some log ↦ record s { entries = set s.entries id (log ++ (e ∷ [])) }
  ]

  unfoldable pub get_latest_entry : System F → ℕ → Option (Entry F)
  get_latest_entry s id = elim (get_elem? s.entries id) [ none ↦ none | some log ↦ get_last? log ]

  -- The getters of the latest entry, with what they return where there is none.
  abbrev pub latest_or : {A : Type 0} → System F → ℕ → A → (Entry F → A) → A
  latest_or s id missing field = elim (get_latest_entry s id) [ none ↦ missing | some e ↦ field e ]

  unfoldable pub get_lux : System F → ℕ → F
  get_lux s id = latest_or s id minus_one (λ e. e.lux)

  unfoldable pub get_duty_cycle : System F → ℕ → F
  get_duty_cycle s id = latest_or s id minus_one (λ e. e.duty_cycle)

  unfoldable pub get_lux_reference : System F → ℕ → F
  get_lux_reference s id = latest_or s id minus_one (λ e. e.lux_reference)

  -- -1 in an `unsigned long`.
  unfoldable pub get_timestamp : System F → ℕ → ℕ
  get_timestamp s id = latest_or s id (ulong_mod - 1) (λ e. e.timestamp)

  unfoldable pub get_occupancy : System F → ℕ → Bool
  get_occupancy s id = get_or s.occupancy id false

  unfoldable pub get_lux_lower_bound : System F → ℕ → F
  get_lux_lower_bound s id = get_or s.lux_lower_bound id minus_one

  unfoldable pub get_lux_external : System F → ℕ → F
  get_lux_external s id = get_or s.lux_external id minus_one
