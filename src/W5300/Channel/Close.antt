-- ===== src/W5300/Channel/Close.antt =====
-- `close_channel` of dsp/src/c2837x_w5300_channel.c: a sequence of steps, one for each call, with the
-- chip's erratum worked around, under one timeout.
use dsp_sim_bridge.Common.{
  ℕ, ◌^◌, true, ℤ, pos, failed, not, ◌==◌, ◌!=◌, ◌||◌, ◌&&◌, leb, sub32, is_negative, is_positive,
  if◌then◌else◌,
}
use dsp_sim_bridge.W5300.Registers.{max_sock_num, sock_closed, sock_udp}
use dsp_sim_bridge.W5300.Hal.{Bus, is_socket_status, get_sn_ssr, get_sn_ir, set_sn_ir}
use dsp_sim_bridge.W5300.Socket.{
  PendingCommand, is_phase, phase_idle, command_udp_open, command_dummy_send, command_close,
}
use dsp_sim_bridge.W5300.Socket.Commands.{is_free, socket_take_pending}
use dsp_sim_bridge.W5300.Socket.Closing.{
  check_close_erratum, dummy_tx_ready, issue_udp_open, issue_dummy_send, issue_close,
  poll_close_command, complete_close_command,
}
use dsp_sim_bridge.W5300.Channel.{
  TcpChannel, CloseState, Platform, send_idle, close_idle, close_wait_existing_cr,
  close_check_erratum, close_udp_open_issue, close_udp_open_wait_cr, close_udp_open_wait_state,
  close_dummy_wait_tx_space, close_dummy_send_issue, close_dummy_send_wait_cr,
  close_dummy_send_wait_result, close_close_issue, close_close_wait_cr, close_close_wait_state,
  close_faulted, close_unlisted, is_close_idle, is_close_faulted, reset_runtime,
  sync_platform_generation,
}
use dsp_sim_bridge.W5300.Channel.Sending.{send_result_bits}

abbrev pub erratum_dummy_ip : ℕ
erratum_dummy_ip = 1

abbrev pub erratum_dummy_port : ℕ
erratum_dummy_port = 5000

unfoldable pub close_fault : TcpChannel → ℤ × TcpChannel
close_fault c = (
  failed,
  record c {
    faulted = true;
    close_state = close_faulted;
    send_state = send_idle;
    pending_octets = 0;
  },
)

unfoldable pub close_done : TcpChannel → ℤ × TcpChannel
unfolding reset_runtime
close_done c = (pos 1, reset_runtime c)

-- The sequence goes on with another step in the next call.
abbrev pub close_at : CloseState → TcpChannel → ℤ × TcpChannel
close_at state c = (pos 0, record c { close_state = state })

-- After a step of the socket: its failure is a fault; when it is done, the next state.
unfoldable pub close_step : ℤ → CloseState → TcpChannel → ℤ × TcpChannel
unfolding close_fault
close_step result next c =
    if is_negative result
    then close_fault c
    else if is_positive result
    then close_at next c
    else (pos 0, c)

-- After a command was issued, or completed: its failure is a fault.
unfoldable pub close_issued : ℤ → CloseState → TcpChannel → ℤ × TcpChannel
unfolding close_fault
close_issued result next c = if is_negative result then close_fault c else close_at next c

-- CLOSE_UDP_OPEN_WAIT_STATE, by the status.
unfoldable pub udp_open_status : ℕ → TcpChannel → ℤ × TcpChannel
unfolding close_issued close_fault
udp_open_status status c =
    if status == sock_udp
    then (let (result, sk) = complete_close_command c.socket command_udp_open in
        close_issued result close_dummy_wait_tx_space (record c { socket = sk }))
    else if not (is_socket_status status)
    then close_fault c
    else (pos 0, c)

-- CLOSE_CLOSE_WAIT_STATE, by the status.
unfoldable pub close_status : ℕ → TcpChannel → ℤ × TcpChannel
unfolding close_fault close_done
close_status status c =
    if status == sock_closed
    then (let (result, sk) = complete_close_command c.socket command_close in
        let c1 = record c { socket = sk } in
        if is_negative result then close_fault c1 else close_done c1)
    else if not (is_socket_status status)
    then close_fault c
    else (pos 0, c)

module _ {W : Type 0} (bus : Bus W) where
  -- CLOSE_DUMMY_SEND_WAIT_RESULT, by the interrupts.
  unfoldable pub dummy_send_result : ℕ → TcpChannel → W → (ℤ × TcpChannel) × W
  unfolding close_issued
  dummy_send_result ir c w =
      if send_result_bits ir != 0
      then (let (result, sk) = complete_close_command c.socket command_dummy_send in
          (
            close_issued result close_close_issue (record c { socket = sk }),
            set_sn_ir bus c.socket.sn (send_result_bits ir) w,
          ))
      else ((pos 0, c), w)

  -- A command that the chip is to take before the sequence goes on.
  unfoldable pub poll_step : PendingCommand → CloseState → TcpChannel → W → (ℤ × TcpChannel) × W
  unfolding close_step
  poll_step command next c w =
      let (result, sk, w1) = poll_close_command bus c.socket command w in
      (close_step result next (record c { socket = sk }), w1)

  -- The `switch` of `close_channel`.
  unfoldable pub close_in : CloseState → TcpChannel → W → (ℤ × TcpChannel) × W
  unfolding close_step close_issued close_fault close_done udp_open_status dummy_send_result
      close_status poll_step
  close_in close_wait_existing_cr c w =
      let (result, sk, w1) = socket_take_pending bus c.socket w in
      (close_step result close_check_erratum (record c { socket = sk }), w1)
  close_in close_check_erratum c w =
      let (result, needed, w1) = check_close_erratum bus c.socket w in
      (close_step result (if needed then close_udp_open_issue else close_close_issue) c, w1)
  close_in close_udp_open_issue c w =
      let (result, sk, w1) = issue_udp_open bus c.socket erratum_dummy_port w in
      (close_issued result close_udp_open_wait_cr (record c { socket = sk }), w1)
  close_in close_udp_open_wait_cr c w = poll_step command_udp_open close_udp_open_wait_state c w
  close_in close_udp_open_wait_state c w =
      let (status, w1) = get_sn_ssr bus c.socket.sn w in (udp_open_status status c, w1)
  close_in close_dummy_wait_tx_space c w =
      let (result, w1) = dummy_tx_ready bus c.socket w in
      (close_step result close_dummy_send_issue c, w1)
  close_in close_dummy_send_issue c w =
      let (result, sk, w1) = issue_dummy_send bus c.socket erratum_dummy_ip erratum_dummy_port w in
      (close_issued result close_dummy_send_wait_cr (record c { socket = sk }), w1)
  close_in close_dummy_send_wait_cr c w =
      poll_step command_dummy_send close_dummy_send_wait_result c w
  close_in close_dummy_send_wait_result c w =
      let (status, w1) = get_sn_ssr bus c.socket.sn w in
      if status == sock_closed
      then (close_done c, w1)
      else if not (is_socket_status status)
      then (close_fault c, w1)
      else let (ir, w2) = get_sn_ir bus c.socket.sn w1 in dummy_send_result ir c w2
  close_in close_close_issue c w =
      let (result, sk, w1) = issue_close bus c.socket w in
      (close_issued result close_close_wait_cr (record c { socket = sk }), w1)
  close_in close_close_wait_cr c w = poll_step command_close close_close_wait_state c w
  close_in close_close_wait_state c w =
      let (status, w1) = get_sn_ssr bus c.socket.sn w in (close_status status c, w1)
  close_in close_idle c w = (close_fault c, w)
  close_in close_faulted c w = (close_fault c, w)
  close_in close_unlisted c w = (close_fault c, w)

module _ {W : Type 0} (bus : Bus W) (platform : Platform W) where
  -- The first call of a close.
  unfoldable pub begin_close : TcpChannel → W → (ℤ × TcpChannel) × W
  unfolding close_done
  begin_close c w =
      let (now_us, w1) = platform.time_us w in
      let c1 = record c { close_start_us = now_us } in
      let c2 = record c1 {
        send_state = send_idle;
        pending_octets = 0;
        close_state = if is_free c.socket then close_check_erratum else close_wait_existing_cr;
      } in
      if is_free c.socket && is_phase c.socket.command_phase phase_idle
      then (let (status, w2) = get_sn_ssr bus c.socket.sn w1 in
          (if status == sock_closed then close_done c1 else (pos 0, c2), w2))
      else ((pos 0, c2), w1)

  -- Behind the first call, under the timeout.
  unfoldable pub continue_close : TcpChannel → W → (ℤ × TcpChannel) × W
  unfolding close_in close_fault
  continue_close c w =
      let (now_us, w1) = platform.time_us w in
      if leb c.close_timeout_us (sub32 now_us c.close_start_us)
      then (close_fault c, w1)
      else close_in bus c.close_state c w1

  unfoldable pub close_checked : TcpChannel → W → (ℤ × TcpChannel) × W
  unfolding begin_close continue_close close_fault
  close_checked c w =
      if is_close_idle c.close_state
      then begin_close c w
      else if is_close_faulted c.close_state
      then (close_fault c, w)
      else continue_close c w

  -- The channel behind the test of its configuration.
  unfoldable pub close_channel : TcpChannel → W → (ℤ × TcpChannel) × W
  unfolding close_checked close_fault
  close_channel c w =
      let c1 = sync_platform_generation platform c w in
      if c1.faulted
      then ((failed, c1), w)
      else if leb max_sock_num c1.socket.sn
          || not c1.time_us_set
          || c1.close_timeout_us == 0
          || leb (2 ^ 31) c1.close_timeout_us
      then (close_fault c1, w)
      else close_checked c1 w
