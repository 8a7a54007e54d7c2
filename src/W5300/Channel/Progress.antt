-- ===== src/W5300/Channel/Progress.antt =====
-- How the close sequence of dsp/src/c2837x_w5300_channel.c goes on: call by call, and under its
-- timeout.
use dsp_sim_bridge.Common.{
  ◌^◌, ◌≡◌, ◌≤◌, refl, inl, inr, false, ℤ, pos, not, ◌==◌, ◌||◌, ◌&&◌, leb, sub32, if◌then◌else◌,
  if_intro, arith, ==→eq, Bool-cases,
}
use dsp_sim_bridge.W5300.Registers.{max_sock_num, sock_closed}
use dsp_sim_bridge.W5300.Hal.{Bus, is_socket_status, get_sn_ssr, get_sn_ir}
use dsp_sim_bridge.W5300.Socket.{
  is_phase, phase_idle, command_udp_open, command_dummy_send, command_close,
}
use dsp_sim_bridge.W5300.Socket.Commands.{is_free, socket_take_pending}
use dsp_sim_bridge.W5300.Socket.Closing.{
  check_close_erratum, dummy_tx_ready, issue_udp_open, issue_dummy_send, issue_close,
  poll_close_command,
}
use dsp_sim_bridge.W5300.Channel.{
  TcpChannel, CloseState, Platform, close_idle, close_wait_existing_cr, close_check_erratum,
  close_udp_open_issue, close_udp_open_wait_cr, close_udp_open_wait_state,
  close_dummy_wait_tx_space, close_dummy_send_issue, close_dummy_send_wait_cr,
  close_dummy_send_wait_result, close_close_issue, close_close_wait_cr, close_close_wait_state,
  close_faulted, close_unlisted, send_idle, is_close_idle, close_code, is_close_faulted,
  sync_platform_generation,
}
use dsp_sim_bridge.W5300.Channel.Close.{
  erratum_dummy_ip, erratum_dummy_port, begin_close, poll_step, close_in, continue_close,
  close_checked, close_channel,
}
use dsp_sim_bridge.W5300.Channel.Steps.{
  IsStep, IsClosing, close_fault-IsStep, close_done-IsStep, close_step-IsStep, close_issued-IsStep,
  udp_open_status-IsStep, dummy_send_result-IsStep, close_status-IsStep,
}

module _ {W : Type 0} (bus : Bus W) where
  dummy_send_status-IsStep :
      (c : TcpChannel) (w : W)
      → IsClosing c
      → close_code c.close_state ≤ 10
      → IsStep bus c (close_in bus close_dummy_send_wait_result c w).0
  unfolding close_in
  dummy_send_status-IsStep c w closing later =
      let P = λ (out : (ℤ × TcpChannel) × W). IsStep bus c out.0 in
      let (status, w1) = get_sn_ssr bus c.socket.sn w in
      let (ir, w2) = get_sn_ir bus c.socket.sn w1 in
      if_intro P (status == sock_closed)
        (λ t. close_done-IsStep bus c c w (==→eq status sock_closed t))
        (λ _.
          if_intro P (not (is_socket_status status)) (λ _. close_fault-IsStep bus c c)
            (λ _. dummy_send_result-IsStep bus ir c w2 closing later))

  -- The `switch`, at the step that the channel is at.
  close_in-IsStep :
      (state : CloseState) (c : TcpChannel) (w : W)
      → close_code c.close_state ≡ close_code state
      → IsClosing c
      → IsStep bus c (close_in bus state c w).0
  unfolding close_in poll_step
  close_in-IsStep close_wait_existing_cr c w at closing =
      let (result, sk, w1) = socket_take_pending bus c.socket w in
      close_step-IsStep bus result close_check_erratum c sk closing (omega (arith, at))
        (omega arith)
  close_in-IsStep close_check_erratum c w at closing =
      let (result, needed, w1) = check_close_erratum bus c.socket w in
      elim (Bool-cases needed) [
        | inl t ↦ rw t (
            close_step-IsStep bus result close_udp_open_issue c c.socket closing (omega (arith, at))
              (omega arith))
        | inr t ↦ rw t (
            close_step-IsStep bus result close_close_issue c c.socket closing (omega (arith, at))
              (omega arith))
      ]
  close_in-IsStep close_udp_open_issue c w at closing =
      let (result, sk, w1) = issue_udp_open bus c.socket erratum_dummy_port w in
      close_issued-IsStep bus result close_udp_open_wait_cr c sk closing (omega (arith, at))
        (omega arith)
  close_in-IsStep close_udp_open_wait_cr c w at closing =
      let (result, sk, w1) = poll_close_command bus c.socket command_udp_open w in
      close_step-IsStep bus result close_udp_open_wait_state c sk closing (omega (arith, at))
        (omega arith)
  close_in-IsStep close_udp_open_wait_state c w at closing =
      udp_open_status-IsStep bus (get_sn_ssr bus c.socket.sn w).0 c closing (omega (arith, at))
  close_in-IsStep close_dummy_wait_tx_space c w at closing =
      let (result, w1) = dummy_tx_ready bus c.socket w in
      close_step-IsStep bus result close_dummy_send_issue c c.socket closing (omega (arith, at))
        (omega arith)
  close_in-IsStep close_dummy_send_issue c w at closing =
      let (result, sk, w1) = issue_dummy_send bus c.socket erratum_dummy_ip erratum_dummy_port w in
      close_issued-IsStep bus result close_dummy_send_wait_cr c sk closing (omega (arith, at))
        (omega arith)
  close_in-IsStep close_dummy_send_wait_cr c w at closing =
      let (result, sk, w1) = poll_close_command bus c.socket command_dummy_send w in
      close_step-IsStep bus result close_dummy_send_wait_result c sk closing (omega (arith, at))
        (omega arith)
  close_in-IsStep close_dummy_send_wait_result c w at closing =
      dummy_send_status-IsStep c w closing (omega (arith, at))
  close_in-IsStep close_close_issue c w at closing =
      let (result, sk, w1) = issue_close bus c.socket w in
      close_issued-IsStep bus result close_close_wait_cr c sk closing (omega (arith, at))
        (omega arith)
  close_in-IsStep close_close_wait_cr c w at closing =
      let (result, sk, w1) = poll_close_command bus c.socket command_close w in
      close_step-IsStep bus result close_close_wait_state c sk closing (omega (arith, at))
        (omega arith)
  close_in-IsStep close_close_wait_state c w at closing =
      close_status-IsStep bus c w closing (omega (arith, at))
  close_in-IsStep close_idle c w at closing = close_fault-IsStep bus c c
  close_in-IsStep close_faulted c w at closing = close_fault-IsStep bus c c
  close_in-IsStep close_unlisted c w at closing = close_fault-IsStep bus c c

-- The state that a call starts from: at the first call, the close is begun now.
abbrev pub begun_at : {W : Type 0} → Platform W → TcpChannel → W → TcpChannel
begun_at platform c w =
    if is_close_idle c.close_state then record c { close_start_us = (platform.time_us w).0 } else c

module _ {W : Type 0} (bus : Bus W) (platform : Platform W) where
  begin_close-IsStep :
      (c : TcpChannel) (w : W)
      → c.faulted ≡ false
      → close_code c.close_state ≡ 0
      → IsStep bus
          (record c { close_start_us = (platform.time_us w).0 })
          (begin_close bus platform c w).0
  unfolding begin_close
  begin_close-IsStep c w sound at =
      let (now_us, w1) = platform.time_us w in
      let c1 = record c { close_start_us = now_us } in
      let status = (get_sn_ssr bus c.socket.sn w1).0 in
      let first = if is_free c.socket then close_check_erratum else close_wait_existing_cr in
      let c2 = record c1 { send_state = send_idle; pending_octets = 0; close_state = first } in
      let bounds : (1 ≤ close_code first) × (close_code first ≤ 12) =
        if_intro (λ s. (1 ≤ close_code s) × (close_code s ≤ 12)) (is_free c.socket)
          (λ _. (omega arith, omega arith)) (λ _. (omega arith, omega arith)) in
      let goes : IsStep bus c1 (pos 0, c2) = IsStep.going c2 (record {
        later = omega (arith, at);
        some_step = bounds.0;
        a_step = bounds.1;
        sound = sound;
        same_start = refl;
        same_timeout = refl;
        same_generation = refl;
      }) in
      if_intro (λ (out : (ℤ × TcpChannel) × W). IsStep bus c1 out.0)
        (is_free c.socket && is_phase c.socket.command_phase phase_idle)
        (λ _.
          if_intro (IsStep bus c1) (status == sock_closed)
            (λ t. close_done-IsStep bus c1 c1 w1 (==→eq status sock_closed t)) (λ _. goes))
        (λ _. goes)

  continue_close-IsStep :
      (c : TcpChannel) (w : W) → IsClosing c → IsStep bus c (continue_close bus platform c w).0
  unfolding continue_close
  continue_close-IsStep c w closing =
      let (now_us, w1) = platform.time_us w in
      if_intro (λ (out : (ℤ × TcpChannel) × W). IsStep bus c out.0)
        (leb c.close_timeout_us (sub32 now_us c.close_start_us)) (λ _. close_fault-IsStep bus c c)
        (λ _. close_in-IsStep bus c.close_state c w1 refl closing)

  close_checked-IsStep :
      (c : TcpChannel) (w : W)
      → c.faulted ≡ false
      → IsStep bus (begun_at platform c w) (close_checked bus platform c w).0
  unfolding close_checked
  close_checked-IsStep c w sound = elim (Bool-cases (is_close_idle c.close_state)) [
    | inl t ↦ rw t (begin_close-IsStep c w sound (==→eq (close_code c.close_state) 0 t))
    | inr t ↦ rw t (
        if_intro (λ (out : (ℤ × TcpChannel) × W). IsStep bus c out.0)
          (is_close_faulted c.close_state) (λ _. close_fault-IsStep bus c c)
          (λ _. continue_close-IsStep c w (record { some_step = ground arith; sound = sound })))
  ]

  -- A call of `close_channel` lets the close go on, at the same or a later step and under the same
  -- timeout, or ends it with the chip closed and the channel as after its initialisation, or leaves
  -- the channel faulted.
  pub close_channel-IsStep :
      (c : TcpChannel) (w : W)
      → IsStep bus
          (begun_at platform (sync_platform_generation platform c w) w)
          (close_channel bus platform c w).0
  unfolding close_channel
  close_channel-IsStep c w =
      let c1 = sync_platform_generation platform c w in
      let c2 = begun_at platform c1 w in
      let P = λ (out : (ℤ × TcpChannel) × W). IsStep bus c2 out.0 in
      if_intro P c1.faulted (λ t. IsStep.broken c1 t)
        (λ f.
          if_intro P
            (leb max_sock_num c1.socket.sn
              || not c1.time_us_set
              || c1.close_timeout_us == 0
              || leb (2 ^ 31) c1.close_timeout_us)
            (λ _. close_fault-IsStep bus c2 c1) (λ _. close_checked-IsStep c1 w f))
