-- ===== src/W5300/Socket/Quiet.antt =====
-- What advancing a command leaves alone: it reads two registers of the socket, and writes none.
use dsp_sim_bridge.Common.{
  ℕ, ◌≡◌, refl, sym, ap, ◌∙◌, List, ℤ, ◌!=◌, ◌&&◌, ◌||◌, leb, is_positive, if_intro,
}
use dsp_sim_bridge.W5300.Registers.{max_sock_num, sn_cr, sn_ssr}
use dsp_sim_bridge.W5300.Hal.{Bus, get_sn_ssr, poll_sn_cr, read8}
use dsp_sim_bridge.W5300.Socket.{
  Socket, CommandPhase, phase_idle, phase_wait_cr_clear, phase_wait_target_state, phase_unlisted,
  is_command, command_send, command_recv, clear_udp_rx_datagram, complete_pending, command_taken,
  cr_polled, advance_cr, advance_phase, advance_pending, advance_target_state, target_reached,
  target_possible,
}

sn-complete_pending : (sk : Socket) → (complete_pending sk).sn ≡ sk.sn
unfolding complete_pending clear_udp_rx_datagram
sn-complete_pending sk =
    if_intro (λ (sk1 : Socket). sk1.sn ≡ sk.sn) (is_command sk.pending_command command_recv)
      (λ _. refl) (λ _. refl)

sn-command_taken : (sk : Socket) → (command_taken sk).1.sn ≡ sk.sn
unfolding command_taken
sn-command_taken sk =
    if_intro (λ (out : ℤ × Socket). out.1.sn ≡ sk.sn)
      (is_command sk.pending_command command_send || is_command sk.pending_command command_recv)
      (λ _. sn-complete_pending sk) (λ _. refl)

-- `view` is something of the chip for each socket that reading the socket's command and status
-- registers does not change.
module _ {W : Type 0} (bus : Bus W) (view : ℕ → W → List ℕ)
    (cr_quiet : (sn : ℕ) (w : W) → view sn (bus.read16 (sn_cr sn) w).1 ≡ view sn w)
    (ssr_quiet : (sn : ℕ) (w : W) → view sn (bus.read16 (sn_ssr sn) w).1 ≡ view sn w) where
  pub record IsQuiet (sk : Socket) (w : W) (out : ℤ × Socket × W) : Type 0 where
    pub stays : view sk.sn w ≡ view out.1.sn out.2

  quiet :
      (result : ℤ) (sk sk1 : Socket) (w w1 : W)
      → sk1.sn ≡ sk.sn
      → view sk.sn w1 ≡ view sk.sn w
      → IsQuiet sk w (result, sk1, w1)
  quiet result sk sk1 w w1 same_sn same = record {
    stays = sym same ∙ ap (λ n. view n w1) (sym same_sn);
  }

  view-poll_sn_cr : (sn : ℕ) (w : W) → view sn (poll_sn_cr bus sn w).1 ≡ view sn w
  unfolding poll_sn_cr read8
  view-poll_sn_cr sn w =
      if_intro (λ (out : ℤ × W). view sn out.1 ≡ view sn w) (leb max_sock_num sn) (λ _. refl)
        (λ _. cr_quiet sn w)

  view-get_sn_ssr : (sn : ℕ) (w : W) → view sn (get_sn_ssr bus sn w).1 ≡ view sn w
  unfolding get_sn_ssr read8
  view-get_sn_ssr sn w = ssr_quiet sn w

  advance_cr-IsQuiet : (sk : Socket) (w : W) → IsQuiet sk w (advance_cr bus sk w)
  unfolding advance_cr cr_polled
  advance_cr-IsQuiet sk w =
      let polled = poll_sn_cr bus sk.sn w in
      let same = view-poll_sn_cr sk.sn w in
      if_intro (IsQuiet sk w)
        (is_command sk.pending_command command_recv
          && sk.udp_rx_datagram_active != 0
          && (sk.udp_rx_data_remaining != 0 || sk.udp_rx_residual_valid != 0))
        (λ _. record { stays = refl })
        (λ _.
          if_intro (IsQuiet sk w) (is_positive polled.0)
            (λ _. quiet _ sk _ w _ (sn-command_taken sk) same) (λ _. quiet _ sk _ w _ refl same))

  advance_target_state-IsQuiet :
      (sk : Socket) (w : W) → IsQuiet sk w (advance_target_state bus sk w)
  unfolding advance_target_state
  advance_target_state-IsQuiet sk w =
      let (status, w1) = get_sn_ssr bus sk.sn w in
      let same = view-get_sn_ssr sk.sn w in
      if_intro (IsQuiet sk w) (target_reached sk.pending_command status)
        (λ _. quiet _ sk _ w _ (sn-complete_pending sk) same)
        (λ _.
          if_intro (IsQuiet sk w) (target_possible sk.pending_command status)
            (λ _. quiet _ sk _ w _ refl same) (λ _. quiet _ sk _ w _ refl same))

  advance_phase-IsQuiet :
      (phase : CommandPhase) (sk : Socket) (w : W) → IsQuiet sk w (advance_phase bus phase sk w)
  unfolding advance_phase
  advance_phase-IsQuiet phase_wait_cr_clear sk w = advance_cr-IsQuiet sk w
  advance_phase-IsQuiet phase_wait_target_state sk w = advance_target_state-IsQuiet sk w
  advance_phase-IsQuiet phase_idle sk w = record { stays = refl }
  advance_phase-IsQuiet phase_unlisted sk w = record { stays = refl }

  pub advance_pending-IsQuiet : (sk : Socket) (w : W) → IsQuiet sk w (advance_pending bus sk w)
  unfolding advance_pending
  advance_pending-IsQuiet sk w = advance_phase-IsQuiet sk.command_phase sk w
