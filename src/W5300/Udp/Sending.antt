-- ===== src/W5300/Udp/Sending.antt =====
-- `send` of dsp/src/c2837x_w5300_udp_channel.c: one datagram to the peer, submitted in one call and
-- confirmed in a later one.
use dsp_sim_bridge.Common.{
  ℕ, Option, none, some, List, ℤ, pos, negsuc, failed, not, ◌==◌, ◌!=◌, ◌||◌, ltb, is_odd,
  is_negative, is_positive, bit_set, if◌then◌else◌,
}
use dsp_sim_bridge.W5300.Registers.{ir_sendok, ir_timeout}
use dsp_sim_bridge.W5300.Hal.{Bus, poll_sn_cr, get_sn_ir, set_sn_ir}
use dsp_sim_bridge.W5300.Socket.{is_command, command_recv}
use dsp_sim_bridge.W5300.Socket.Datagram.{udp_send}
use dsp_sim_bridge.W5300.Udp.{
  UdpChannel, UdpTxState, tx_idle, tx_wait_cr_clear, tx_wait_result, tx_unlisted, is_tx_idle,
  reset_udp_tx, udp_operation_allowed, udp_max_data_bytes,
}
use dsp_sim_bridge.W5300.Udp.Control.{commit_datagram}

module _ {W : Type 0} where
  -- The label `send_error`.
  abbrev pub udp_send_error : UdpChannel → W → ℤ × UdpChannel × W
  udp_send_error c w = (failed, reset_udp_tx c, w)

  -- By the result of `c2837x_w5300_socket_udp_send` for `count` octets.
  unfoldable pub udp_submitted : ℤ → ℕ → UdpChannel → W → ℤ × UdpChannel × W
  unfolding reset_udp_tx
  udp_submitted (negsuc n) count c w = udp_send_error c w
  udp_submitted (pos n) count c w =
      if n == 0
      then (pos 0, c, w)
      else if n != count
      then udp_send_error c w
      else (pos 0, record c { tx_state = tx_wait_cr_clear; pending_octets = count }, w)

module _ {W : Type 0} (bus : Bus W) where
  -- `advance_udp_tx` once the chip has taken the command.
  unfoldable pub await_result : UdpChannel → W → ℤ × UdpChannel × W
  unfolding reset_udp_tx
  await_result c w =
      let (ir, w1) = get_sn_ir bus c.socket.sn w in
      if bit_set 3 ir
      then (failed, reset_udp_tx c, set_sn_ir bus c.socket.sn ir_timeout w1)
      else if bit_set 4 ir
      then (pos c.pending_octets, reset_udp_tx c, set_sn_ir bus c.socket.sn ir_sendok w1)
      else (pos 0, c, w1)

  -- `advance_udp_tx` by the state.
  unfoldable pub advance_tx_in : UdpTxState → UdpChannel → W → ℤ × UdpChannel × W
  unfolding await_result
  advance_tx_in tx_wait_cr_clear c w =
      let (result, w1) = poll_sn_cr bus c.socket.sn w in
      if is_positive result
      then await_result (record c { tx_state = tx_wait_result }) w1
      else (result, c, w1)
  advance_tx_in tx_wait_result c w = await_result c w
  advance_tx_in tx_idle c w = await_result c w
  advance_tx_in tx_unlisted c w = await_result c w

  unfoldable pub advance_udp_tx : UdpChannel → W → ℤ × UdpChannel × W
  unfolding advance_tx_in
  advance_udp_tx c w = advance_tx_in c.tx_state c w

  -- The data are not NULL.
  unfoldable pub submit_words : List ℕ → ℕ → ℕ → UdpChannel → W → ℤ × UdpChannel × W
  unfolding udp_submitted reset_udp_tx
  submit_words frame at count c w =
      if is_odd count || ltb udp_max_data_bytes count
      then udp_send_error c w
      else let (result, w1) =
          udp_send bus c.socket c.candidate_ip c.candidate_port frame (some at) count w in
        udp_submitted result count c w1

  -- No datagram is current.
  unfoldable pub udp_send_data : List ℕ → Option ℕ → ℕ → UdpChannel → W → ℤ × UdpChannel × W
  unfolding submit_words reset_udp_tx
  udp_send_data frame none count c w = if count == 0 then (pos 0, c, w) else udp_send_error c w
  udp_send_data frame (some at) count c w =
      if count == 0 then (pos 0, c, w) else submit_words frame at count c w

  -- There is no command pending, or none any more.
  unfoldable pub udp_send_released : List ℕ → Option ℕ → ℕ → UdpChannel → W → ℤ × UdpChannel × W
  unfolding udp_send_data reset_udp_tx
  udp_send_released frame data_words count c w =
      if c.datagram_active then udp_send_error c w else udp_send_data frame data_words count c w

  -- Nothing is submitted: a datagram that was received is released first.
  unfoldable pub udp_send_first : List ℕ → Option ℕ → ℕ → UdpChannel → W → ℤ × UdpChannel × W
  unfolding udp_send_released reset_udp_tx
  udp_send_first frame data_words count c w =
      let (result, c1, w1) = commit_datagram bus c w in
      if not c.candidate_valid
      then udp_send_error c w
      else if not (is_command c.socket.pending_command command_recv)
      then udp_send_released frame data_words count c w
      else if not c.datagram_active
      then udp_send_error c w
      else if is_negative result
      then udp_send_error c1 w1
      else if not (is_positive result)
      then (pos 0, c1, w1)
      else udp_send_released frame data_words count c1 w1

  -- The data are the frame's words from an index on, or `none` for NULL.
  unfoldable pub udp_channel_send : List ℕ → Option ℕ → ℕ → UdpChannel → W → ℤ × UdpChannel × W
  unfolding udp_send_first advance_udp_tx reset_udp_tx
  udp_channel_send frame data_words count c w =
      let (result, c1, w1) = advance_udp_tx c w in
      if not (udp_operation_allowed c)
      then (failed, c, w)
      else if is_tx_idle c.tx_state
      then udp_send_first frame data_words count c w
      else (result, if is_negative result then reset_udp_tx c1 else c1, w1)
