-- ===== src/Tests/NetworkTests.antt =====
-- Two nodes at a reset, on fixed-point numbers.
use scdtr.Prelude.{ℕ, ◌≡◌, refl, some, List, [], ◌∷◌, replicate, ◌==◌, if◌then◌else◌}
use scdtr.Prelude.Int.{pos}
use scdtr.Float.Milli.{Milli, milli_float}
use scdtr.Text.{words, words_from, c_string}
use scdtr.Board.Main.{Outcome, setup}
use scdtr.Board.Main.Command.{delimits}
use scdtr.Board.Calibration.Execute.{fit}
use scdtr.Board.Calibration.Interleaved.{Hall, finished, begin_hall, Run, stay}
use scdtr.Board.Calibration.Interleaved.Complete.{interleaved_continues}
use scdtr.Board.Calibration.Execute.Tables.{fitted}
use scdtr.Network.{Network, command, round, calibrated}
use scdtr.Network.Recalibrated.{IsFresh, reset_recalibrates}

abbrev junk : List ℕ
junk = replicate 32 1

abbrev net : Network Milli
net = record { master = setup 0 500; other = setup 1 700 }

abbrev empty_outcome : Outcome Milli
empty_outcome = record { k = []; o = pos 0; solution = pos 0; completions = []; now = 0 }

abbrev sense : ℕ → List Milli → Milli
sense id (a ∷ b ∷ []) = if id == 0 then a else b
sense id _ = pos 0

abbrev duties : List Milli
duties = pos 0 ∷ pos 100000 ∷ pos 255000 ∷ []

abbrev empty_row : List Milli
empty_row = replicate 3 (pos 0)

words-reset : words delimits (c_string (b'r' ∷ 0 ∷ [])) ≡ (b'r' ∷ []) ∷ []
unfolding words words_from c_string
words-reset = refl

-- A calibration from its start to its end.
whole_run :
    let empty = empty_row ∷ empty_row ∷ [] in
    (h : Hall Milli) × Run sense junk duties (begin_hall sense empty empty (pos 1)) h
    × (h.n0.point ≡ finished)
    × (h.n1.point ≡ finished)
whole_run =
    interleaved_continues sense junk duties refl empty_row empty_row empty_row empty_row (pos 1) _
      refl refl refl refl stay

reset_recalibrates_example :
    (net' : Network Milli) × (command net (b'r' ∷ 0 ∷ []) ≡ some net')
    × (let done =
          round
            (round net' empty_outcome empty_outcome)
            (calibrated (fit sense junk duties whole_run.0.n0.cal) (pos 0) 900)
            (calibrated (fit sense junk duties whole_run.0.n1.cal) (pos 0) 950) in
        IsFresh (fitted sense 0 duties) 900 done.master
        × IsFresh (fitted sense 1 duties) 950 done.other)
unfolding setup
reset_recalibrates_example =
    reset_recalibrates sense junk refl net (b'r' ∷ 0 ∷ []) [] duties empty_row empty_row empty_row
      empty_row (pos 1) (pos 0) (pos 0) whole_run.0 empty_outcome empty_outcome 900 950 words-reset
      refl refl refl refl refl whole_run.1 whole_run.2 whole_run.3
