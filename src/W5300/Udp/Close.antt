-- ===== src/W5300/Udp/Close.antt =====
-- `close_channel` of dsp/src/c2837x_w5300_udp_channel.c: a step for each call, under one timeout.
use dsp_sim_bridge.Common.{
  ℕ, ◌^◌, true, ℤ, pos, failed, not, ◌==◌, ◌||◌, ◌&&◌, leb, sub32, is_negative, is_positive,
  if◌then◌else◌,
}
use dsp_sim_bridge.W5300.Registers.{max_sock_num, sock_closed}
use dsp_sim_bridge.W5300.Hal.{Bus, is_socket_status, get_sn_ssr, poll_sn_cr}
use dsp_sim_bridge.W5300.Socket.{is_phase, phase_idle, command_close}
use dsp_sim_bridge.W5300.Socket.Commands.{is_free, socket_take_pending}
use dsp_sim_bridge.W5300.Socket.Closing.{issue_close, poll_close_command, complete_close_command}
use dsp_sim_bridge.W5300.Channel.{Platform}
use dsp_sim_bridge.W5300.Udp.{
  UdpChannel, UdpCloseState, UdpTxState, tx_idle, tx_wait_cr_clear, tx_wait_result, tx_unlisted,
  is_tx_idle, udp_close_idle, udp_close_wait_existing_cr, udp_close_issue, udp_close_wait_cr,
  udp_close_wait_state, udp_close_faulted, udp_close_unlisted, udp_close_code, is_udp_close_idle,
  udp_reset_runtime, reset_udp_tx, udp_sync_platform_generation,
}

unfoldable pub udp_close_fault : UdpChannel → ℤ × UdpChannel
unfolding reset_udp_tx
udp_close_fault c =
    (failed, reset_udp_tx (record c { faulted = true; close_state = udp_close_faulted }))

unfoldable pub udp_close_done : UdpChannel → ℤ × UdpChannel
unfolding udp_reset_runtime
udp_close_done c = (pos 1, udp_reset_runtime c)

-- The sequence goes on with another step in the next call.
abbrev pub udp_close_at : UdpCloseState → UdpChannel → ℤ × UdpChannel
udp_close_at state c = (pos 0, record c { close_state = state })

-- After a step of the socket: its failure is a fault; when it is done, the next state.
unfoldable pub udp_close_step : ℤ → UdpCloseState → UdpChannel → ℤ × UdpChannel
unfolding udp_close_fault
udp_close_step result next c =
    if is_negative result
    then udp_close_fault c
    else if is_positive result
    then udp_close_at next c
    else (pos 0, c)

-- CLOSE_WAIT_STATE, by the status.
unfoldable pub udp_close_status : ℕ → UdpChannel → ℤ × UdpChannel
unfolding udp_close_fault udp_close_done
udp_close_status status c =
    if status == sock_closed
    then (let (result, sk) = complete_close_command c.socket command_close in
        let c1 = record c { socket = sk } in
        if is_negative result then udp_close_fault c1 else udp_close_done c1)
    else if not (is_socket_status status)
    then udp_close_fault c
    else (pos 0, c)

module _ {W : Type 0} (bus : Bus W) where
  -- CLOSE_WAIT_EXISTING_CR, by the state of the transmission.
  unfoldable pub close_tx : UdpTxState → UdpChannel → W → (ℤ × UdpChannel) × W
  unfolding udp_close_step udp_close_fault reset_udp_tx
  close_tx tx_idle c w =
      let (result, sk, w1) = socket_take_pending bus c.socket w in
      (udp_close_step result udp_close_issue (record c { socket = sk }), w1)
  close_tx tx_wait_cr_clear c w =
      let (result, w1) = poll_sn_cr bus c.socket.sn w in
      (
        if is_negative result
            then udp_close_fault c
            else if is_positive result
            then udp_close_at udp_close_issue (reset_udp_tx c)
            else (pos 0, c),
        w1,
      )
  close_tx tx_wait_result c w = (udp_close_at udp_close_issue (reset_udp_tx c), w)
  close_tx tx_unlisted c w = (udp_close_fault c, w)

  -- The `switch` of `close_channel`.
  unfoldable pub udp_close_in : UdpCloseState → UdpChannel → W → (ℤ × UdpChannel) × W
  unfolding close_tx udp_close_step udp_close_fault udp_close_status
  udp_close_in udp_close_wait_existing_cr c w = close_tx c.tx_state c w
  udp_close_in udp_close_issue c w =
      let (result, sk, w1) = issue_close bus c.socket w in
      let c1 = record c { socket = sk } in
      (if is_negative result then udp_close_fault c1 else udp_close_at udp_close_wait_cr c1, w1)
  udp_close_in udp_close_wait_cr c w =
      let (result, sk, w1) = poll_close_command bus c.socket command_close w in
      (udp_close_step result udp_close_wait_state (record c { socket = sk }), w1)
  udp_close_in udp_close_wait_state c w =
      let (status, w1) = get_sn_ssr bus c.socket.sn w in (udp_close_status status c, w1)
  udp_close_in udp_close_idle c w = (udp_close_fault c, w)
  udp_close_in udp_close_faulted c w = (udp_close_fault c, w)
  udp_close_in udp_close_unlisted c w = (udp_close_fault c, w)

module _ {W : Type 0} (bus : Bus W) (platform : Platform W) where
  -- The first call of a close.
  unfoldable pub udp_begin_close : UdpChannel → W → (ℤ × UdpChannel) × W
  unfolding udp_close_done
  udp_begin_close c w =
      let (now_us, w1) = platform.time_us w in
      let c1 = record c { close_start_us = now_us } in
      let c2 = record c1 {
        close_state =
            if not (is_tx_idle c.tx_state) || not (is_free c.socket)
            then udp_close_wait_existing_cr
            else udp_close_issue;
      } in
      if is_free c.socket
        && is_phase c.socket.command_phase phase_idle
        && is_tx_idle c.tx_state
        && c.pending_octets == 0
      then (let (status, w2) = get_sn_ssr bus c.socket.sn w1 in
          (if status == sock_closed then udp_close_done c1 else (pos 0, c2), w2))
      else ((pos 0, c2), w1)

  -- Behind the first call, under the timeout.
  unfoldable pub udp_continue_close : UdpChannel → W → (ℤ × UdpChannel) × W
  unfolding udp_close_in udp_close_fault
  udp_continue_close c w =
      let (now_us, w1) = platform.time_us w in
      if leb c.close_timeout_us (sub32 now_us c.close_start_us)
      then (udp_close_fault c, w1)
      else udp_close_in bus c.close_state c w1

  unfoldable pub udp_close_checked : UdpChannel → W → (ℤ × UdpChannel) × W
  unfolding udp_begin_close udp_continue_close udp_close_fault
  udp_close_checked c w =
      if is_udp_close_idle c.close_state
      then udp_begin_close c w
      else if udp_close_code c.close_state == 5
      then (udp_close_fault c, w)
      else udp_continue_close c w

  unfoldable pub udp_close_channel : UdpChannel → W → (ℤ × UdpChannel) × W
  unfolding udp_close_checked udp_close_fault
  udp_close_channel c w =
      let c1 = udp_sync_platform_generation platform c w in
      if c1.faulted
      then ((failed, c1), w)
      else if leb max_sock_num c1.socket.sn
          || not c1.time_us_set
          || c1.close_timeout_us == 0
          || leb (2 ^ 31) c1.close_timeout_us
      then (udp_close_fault c1, w)
      else udp_close_checked c1 w
