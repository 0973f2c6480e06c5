-- ===== src/Board/Calibration/Interleaved/Packets.antt =====
-- What the packets of an interleaved calibration do, and the value of a turn in the tables.
use scdtr.Prelude.{
  ℕ, zero, suc, ◌<◌, ◌≡◌, ◌∙◌, Bool, true, false, ◌&&◌, some, List, [], ◌∷◌, arith, if◌then◌else◌,
  ◌==◌, length, map, get_elem?, set, lt→ltb, length-set,
}
use scdtr.Float.{Float}
use scdtr.Board.Communication.{max_size, syn, ack, send_packet}
use scdtr.Board.Communication.RoundTrip.{read_packet-header}
use scdtr.Board.Calibration.{Calibration, set_at, measured, on_receive}
use scdtr.Board.Calibration.Execute.Rows.{take-set, length-map}
use scdtr.Board.Calibration.Interleaved.{number}
use scdtr.Board.Calibration.Interleaved.Stages.{Holds, one_on}

module _ {F : Type 0} ⦃fl : Float F⦄ (junk : List ℕ) (full : length junk ≡ max_size) where
  -- What the packets of an exchange do.
  pub syn_lem :
      (r : Calibration F) (dev_id dest : ℕ) (value : F)
      → on_receive r junk (send_packet dev_id dest syn).packet value ≡ (
          if r.id == r.sender
          then some r
          else if dev_id == r.sender
          then measured r value
          else some r)
  unfolding on_receive send_packet
  syn_lem r dev_id dest value =
      let read = read_packet-header dev_id syn [] junk full (omega (arith, full)) in
      ground (arith, read)

  pub ack_lem :
      (r : Calibration F) (dev_id dest : ℕ) (value : F)
      → on_receive r junk (send_packet dev_id dest ack).packet value
        ≡ some (if r.id == r.sender && dev_id == r.receiver then record r { ready = true } else r)
  unfolding on_receive send_packet
  ack_lem r dev_id dest value =
      let read = read_packet-header dev_id ack [] junk full (omega (arith, full)) in
      ground (arith, read)

get_elem?-map-some :
    {A B : Type 0} (f : A → B) (xs : List A) (m : ℕ) (x : A)
    → get_elem? xs m ≡ some x
    → get_elem? (map f xs) m ≡ some (f x)
get_elem?-map-some f [] m x e = absurd (ground (arith, e))
get_elem?-map-some f (y ∷ ys) zero x e = ground (arith, e)
get_elem?-map-some f (y ∷ ys) (suc m) x e = get_elem?-map-some f ys m x e

pub get_elem?-lt :
    {A : Type 0} (xs : List A) (m : ℕ) (x : A) → get_elem? xs m ≡ some x → m < length xs
get_elem?-lt [] m x e = absurd (ground (arith, e))
get_elem?-lt (y ∷ ys) zero x e = omega arith
get_elem?-lt (y ∷ ys) (suc m) x e = omega (arith, get_elem?-lt ys m x e)

module _ {F : Type 0} ⦃fl : Float F⦄ (sense : ℕ → List F → F) (x : List F) where
  -- The value of a turn goes into its row.
  pub set_at-Holds :
      (b t : Bool) (m : ℕ) (d : F) (y : List (List F))
      → Holds sense x b m t false y
      → get_elem? x m ≡ some d
      → (y' : List (List F)) × (set_at y (number t) m (sense (number b) (one_on t d)) ≡ some y')
        × Holds sense x b m t true y'
  set_at-Holds b false m d y h e =
      let room : m < length h.row0 = omega (
        arith,
        get_elem?-lt x m d e,
        h.size0,
        length-map (λ c. sense (number b) (one_on false c)) x,
      ) in
      let v = sense (number b) (one_on false d) in
      (
        set y 0 (set h.row0 m v),
        ground (arith, h.rows, lt→ltb m (length h.row0) room),
        record {
          row0 = set h.row0 m v;
          row1 = h.row1;
          rows = ground (arith, h.rows);
          size0 = length-set h.row0 m v ∙ h.size0;
          size1 = h.size1;
          filled0 =
              take-set h.row0 _ m v h.size0 h.filled0
                (get_elem?-map-some (λ c. sense (number b) (one_on false c)) x m d e);
          filled1 = h.filled1;
        },
      )
  set_at-Holds b true m d y h e =
      let room : m < length h.row1 = omega (
        arith,
        get_elem?-lt x m d e,
        h.size1,
        length-map (λ c. sense (number b) (one_on true c)) x,
      ) in
      let v = sense (number b) (one_on true d) in
      (
        set y 1 (set h.row1 m v),
        ground (arith, h.rows, lt→ltb m (length h.row1) room),
        record {
          row0 = h.row0;
          row1 = set h.row1 m v;
          rows = ground (arith, h.rows);
          size0 = h.size0;
          size1 = length-set h.row1 m v ∙ h.size1;
          filled0 = h.filled0;
          filled1 =
              take-set h.row1 _ m v h.size1 h.filled1
                (get_elem?-map-some (λ c. sense (number b) (one_on true c)) x m d e);
        },
      )
