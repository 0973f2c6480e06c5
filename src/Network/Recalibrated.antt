-- ===== src/Network/Recalibrated.antt =====
-- A reset, from the master's command line to the gains that both nodes control with.
use mathlib.Core.Path.{subst}
use scdtr.Prelude.{ℕ, ◌≡◌, refl, true, false, some, List, [], ◌∷◌, arith, length, get_or}
use scdtr.Float.{Float, ◌⊗◌, ◌⊘◌}
use scdtr.Board.{low_lux, distributed_default}
use scdtr.Board.Communication.{Shared, Message, max_size}
use scdtr.Board.Pi.{update_feed_forward}
use scdtr.Board.Main.{Node, Outcome, control, communication, calibrate, update_state, receive}
use scdtr.Board.Main.Command.{delimits, process_command}
use scdtr.Board.Main.Command.Agreement.{switched, process_command-switch}
use scdtr.Board.Calibration.Execute.{Fit, fit}
use scdtr.Board.Calibration.Execute.Tables.{fitted}
use scdtr.Board.Calibration.Interleaved.{Hall, finished, begin_hall, Run}
use scdtr.Board.Calibration.Interleaved.Fitted.{interleaved_fitted}
use scdtr.Text.{words, c_string, same_text}
use scdtr.Network.{Network, deliver, command, round, calibrated}

module _ {F : Type 0} ⦃fl : Float F⦄ where
  -- A message of the master to the other node.
  pub command_lem :
      (net : Network F) (cmd_buffer : List ℕ) (m : Message) (s : Shared F) (t : Node F)
      → process_command net.master.shared cmd_buffer ≡ some (s, m ∷ [])
      → m.dest ≡ 1
      → receive net.other m.packet ≡ some t
      → command net cmd_buffer
        ≡ some (record { master = record (net.master) { shared = s }; other = t })
  unfolding command deliver
  command_lem net cmd_buffer m s t sent dest got = ground (arith, sent, dest, got)

  -- A node that controls with these gains and this external illuminance, from the settings of a
  -- start.
  pub record IsFresh (f : Fit F) (now : ℕ) (n : Node F) : Type 0 where
    pub controlling : n.state ≡ control
    pub listening : n.handler ≡ communication
    pub quiet : n.reset ≡ false
    pub gains_stored : n.k_i ≡ f.k_i
    pub external_stored : n.ext ≡ f.o_i
    pub slope : n.controller.m_ff ≡ get_or f.k_i n.dev_id (fl.lit 0 1) ⊘ fl.lit 255 1 ⊗ fl.lit 100 1
    pub intercept : n.controller.b_ff ≡ f.o_i
    pub reference : n.ref ≡ low_lux
    pub bound : n.lower_bound ≡ low_lux
    pub mode : n.distributed ≡ distributed_default
    pub clock : n.start_millis ≡ now

  update_state-IsFresh :
      (n : Node F) (w : Outcome F) (f : Fit F) (solution : F) (now : ℕ)
      → n.reset ≡ true
      → IsFresh f now (update_state (update_state n w) (calibrated f solution now))
  unfolding update_state calibrate update_feed_forward
  update_state-IsFresh n w f solution now e = ground arith

  IsFresh-same : {f f' : Fit F} {now : ℕ} {n : Node F} → f ≡ f' → IsFresh f now n → IsFresh f' now n
  IsFresh-same {now = now} {n} e v = subst (λ f. IsFresh f now n) e v

  module _ (sense : ℕ → List F → F) (junk : List ℕ) (full : length junk ≡ max_size) where
    -- The command "r", whatever follows it in the line and while node 1 has the handler of its
    -- main loop installed (it has none that takes a reset while it calibrates or solves): the
    -- master takes it and node 1 gets it; and behind their second round from there, in which they
    -- calibrate, in whatever order their steps come, as long as no sender repeats a packet while
    -- the other node has an answer to give, both control again, on a new clock, with the low
    -- reference and bound and with distributed control, and with the gains and the feed-forward
    -- fitted to what the node itself senses with one lamp alone, for either lamp, and with both
    -- lamps off. The tables have a row for either lamp and a place for each duty.
    pub reset_recalibrates :
        (net : Network F) (cmd_buffer : List ℕ) (more : List (List ℕ)) (x a0 b0 a1 b1 : List F)
        (y_ext r0 r1 : F) (h : Hall F) (w0 w1 : Outcome F) (now0 now1 : ℕ)
        → words delimits (c_string cmd_buffer) ≡ (b'r' ∷ []) ∷ more
        → net.other.handler ≡ communication
        → length a0 ≡ length x
        → length b0 ≡ length x
        → length a1 ≡ length x
        → length b1 ≡ length x
        → Run sense junk x (begin_hall sense (a0 ∷ b0 ∷ []) (a1 ∷ b1 ∷ []) y_ext) h
        → h.n0.point ≡ finished
        → h.n1.point ≡ finished
        → (net' : Network F) × (command net cmd_buffer ≡ some net')
          × (let done =
                round
                  (round net' w0 w1)
                  (calibrated (fit sense junk x h.n0.cal) r0 now0)
                  (calibrated (fit sense junk x h.n1.cal) r1 now1) in
              IsFresh (fitted sense 0 x) now0 done.master
              × IsFresh (fitted sense 1 x) now1 done.other)
    unfolding round same_text
    reset_recalibrates net cmd_buffer more x a0 b0 a1 b1 y_ext r0 r1 h w0 w1 now0 now1 split main e0
          e1 e2 e3 run p0 p1 =
        let (m, sent, dest, got) =
          process_command-switch net.master.shared net.other cmd_buffer (b'r' ∷ []) more split refl
            main in
        let s : Shared F = switched net.master.shared (b'r' ∷ []) in
        let t : Node F = record (net.other) { shared = switched net.other.shared (b'r' ∷ []) } in
        let (_, _, fit0, fit1) =
          interleaved_fitted sense junk x full a0 b0 a1 b1 y_ext h e0 e1 e2 e3 run p0 p1 in
        let fresh0 =
          update_state-IsFresh (record (net.master) { shared = s }) w0 (fit sense junk x h.n0.cal)
            r0 now0 refl in
        let fresh1 = update_state-IsFresh t w1 (fit sense junk x h.n1.cal) r1 now1 refl in
        (
          _,
          command_lem net cmd_buffer m s t sent dest got,
          (IsFresh-same fit0 fresh0, IsFresh-same fit1 fresh1),
        )
