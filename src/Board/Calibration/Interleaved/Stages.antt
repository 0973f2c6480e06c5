-- ===== src/Board/Calibration/Interleaved/Stages.antt =====
-- How far two nodes have come that calibrate: whose turn it is, at which sample, and which packets
-- of it have been sent, taken and answered.
use scdtr.Prelude.{
  ℕ, suc, ◌+◌, ◌-◌, ◌≤◌, ◌<◌, ◌≡◌, Bool, true, false, not, ◌||◌, some, List, [], ◌∷◌, if◌then◌else◌,
  leb, length, map, take, get_elem?,
}
use scdtr.Float.{Float}
use scdtr.Board.Calibration.{Phase, state_ext, state_on, state_off}
use scdtr.Board.Calibration.Interleaved.{
  Point, external, start, first, second, finished, Actor, Hall, number, place,
}

-- A stage of a turn; those `behind` are of a turn that the other node, which sent in the turn before,
-- has not come to yet.
pub data Stage : Type 0 where
  outside outside_taken outside_answered : Stage
  top_behind top lit_behind lit taken answered dark dark_taken : Stage

abbrev pub is_outside : Stage → Bool
is_outside outside = true
is_outside outside_taken = true
is_outside outside_answered = true
is_outside _ = false

abbrev pub is_behind : Stage → Bool
is_behind top_behind = true
is_behind lit_behind = true
is_behind _ = false

abbrev pub is_top : Stage → Bool
is_top top = true
is_top top_behind = true
is_top _ = false

-- Whether the lamp is on, and whether either node has its value.
abbrev pub is_lit : Stage → Bool
is_lit lit_behind = true
is_lit lit = true
is_lit taken = true
is_lit answered = true
is_lit _ = false

abbrev pub sender_has : Stage → Bool
sender_has dark = true
sender_has dark_taken = true
sender_has k = is_lit k

abbrev pub receiver_has : Stage → Bool
receiver_has taken = true
receiver_has answered = true
receiver_has dark = true
receiver_has dark_taken = true
receiver_has _ = false

abbrev pub is_begun : Stage → Bool
is_begun outside = true
is_begun _ = false

abbrev sender_ready : Stage → Bool
sender_ready outside_answered = true
sender_ready answered = true
sender_ready _ = false

abbrev receiver_ready : Stage → Bool
receiver_ready outside_taken = true
receiver_ready taken = true
receiver_ready dark_taken = true
receiver_ready k = is_behind k

abbrev sender_point : Bool → Stage → Point
sender_point over outside = external
sender_point over outside_taken = external
sender_point over outside_answered = external
sender_point over top_behind = if over then finished else start
sender_point over top = if over then finished else start
sender_point over dark = second
sender_point over dark_taken = second
sender_point over _ = first

abbrev receiver_point : Bool → Stage → Point
receiver_point over outside = external
receiver_point over outside_taken = external
receiver_point over outside_answered = if over then finished else first
receiver_point over top_behind = second
receiver_point over top = if over then finished else first
receiver_point over lit_behind = second
receiver_point over lit = first
receiver_point over taken = first
receiver_point over _ = second

abbrev receiver_state : Stage → Phase
receiver_state outside = state_ext
receiver_state outside_taken = state_ext
receiver_state taken = state_off
receiver_state answered = state_off
receiver_state dark = state_off
receiver_state _ = state_on

-- The sample of the turn before the turn of a node.
abbrev sample_before : ℕ → Bool → ℕ
sample_before m true = m
sample_before m false = m - 1

-- Where two nodes are: the sample, the node whose turn it is, and the stage, with its duty and what
-- the nodes have in their tables.
pub record Mark (F : Type 0) : Type 0 where
  pub sample : ℕ
  pub turn : Bool
  pub stage : Stage
  pub duty : F
  pub sent : List (List F)
  pub got : List (List F)
  pub y_ext : F

module _ {F : Type 0} where
  abbrev pub mark_of : ℕ → Bool → Stage → F → List (List F) → List (List F) → F → Mark F
  mark_of m t g d s r e = record {
    sample = m;
    turn = t;
    stage = g;
    duty = d;
    sent = s;
    got = r;
    y_ext = e;
  }

module _ {F : Type 0} ⦃fl : Float F⦄ where
  abbrev pub all_off : List F
  all_off = fl.lit 0 1 ∷ fl.lit 0 1 ∷ []

  -- The lamps with one of them on.
  abbrev pub one_on : Bool → F → List F
  one_on false d = d ∷ fl.lit 0 1 ∷ []
  one_on true d = fl.lit 0 1 ∷ d ∷ []

  abbrev pub lamps_at : Mark F → List F
  lamps_at k = if is_lit k.stage then one_on k.turn k.duty else all_off

  -- The values of a node with either lamp alone, for the duties.
  abbrev pub values : (ℕ → List F → F) → Bool → Bool → List F → List F
  values sense b lamp x = map (λ d. sense (number b) (one_on lamp d)) x

  module _ (sense : ℕ → List F → F) (x : List F) where
    abbrev pub is_over : ℕ → Bool
    is_over m = leb (length x) m

    abbrev pub sender_at : Mark F → Actor F
    sender_at k = record {
      cal = record {
        id = number k.turn;
        ready = sender_ready k.stage;
        state = if is_outside k.stage then state_ext else state_on;
        y_ext = sense (number k.turn) all_off;
        y = k.sent;
        sample = k.sample;
        sender = number k.turn;
        receiver = 1 - number k.turn;
      };
      point = sender_point (is_over k.sample) k.stage;
    }

    abbrev pub receiver_at : Mark F → Actor F
    receiver_at k = record {
      cal = record {
        id = number (not k.turn);
        ready = receiver_ready k.stage;
        state = receiver_state k.stage;
        y_ext = k.y_ext;
        y = k.got;
        sample = if is_behind k.stage then sample_before k.sample k.turn else k.sample;
        sender = if is_behind k.stage then number (not k.turn) else number k.turn;
        receiver = 1 - number (not k.turn);
      };
      point = receiver_point (is_over k.sample) k.stage;
    }

    abbrev pub hall_at : Mark F → Hall F
    hall_at k =
        place k.turn (sender_at k) (receiver_at k)
          (if is_lit k.stage then one_on k.turn k.duty else all_off)

    -- A table with `p` values of the lamp of node 0 and `q` of that of node 1.
    pub record IsFilled (b : Bool) (p q : ℕ) (y : List (List F)) : Type 0 where
      pub row0 : List F
      pub row1 : List F
      pub rows : y ≡ row0 ∷ row1 ∷ []
      pub size0 : length row0 ≡ length (values sense b false x)
      pub size1 : length row1 ≡ length (values sense b true x)
      pub filled0 : take p row0 ≡ take p (values sense b false x)
      pub filled1 : take q row1 ≡ take q (values sense b true x)

    -- How much of the rows is filled in a turn, before the value of the turn and with it.
    abbrev pub count0 : ℕ → Bool → Bool → ℕ
    count0 m false has = if has then suc m else m
    count0 m true has = suc m

    abbrev pub count1 : ℕ → Bool → Bool → ℕ
    count1 m false has = m
    count1 m true has = if has then suc m else m

    abbrev pub Holds : Bool → ℕ → Bool → Bool → List (List F) → Type 0
    Holds b m turn has y = IsFilled b (count0 m turn has) (count1 m turn has) y

    -- What holds of the place that they have come to.
    pub record IsMark (k : Mark F) : Type 0 where
      pub bounded : k.sample ≤ length x
      pub inside : is_outside k.stage || is_top k.stage ≡ false → k.sample < length x
      pub at_first : is_outside k.stage ≡ true → (k.sample ≡ 0) × (k.turn ≡ false)
      pub earlier : is_behind k.stage ≡ true → 0 < k.sample + number k.turn
      pub second_turn : k.turn ≡ true → k.sample < length x
      pub shown : is_lit k.stage ≡ true → get_elem? x k.sample ≡ some k.duty
      pub measured : is_begun k.stage ≡ false → k.y_ext ≡ sense (number (not k.turn)) all_off
      pub sender_table : Holds k.turn k.sample k.turn (sender_has k.stage) k.sent
      pub receiver_table : Holds (not k.turn) k.sample k.turn (receiver_has k.stage) k.got

    -- Both nodes are at a place of the kind.
    pub record IsReached (h : Hall F) : Type 0 where
      pub mark : Mark F
      pub shape : h ≡ hall_at mark
      pub valid : IsMark mark
