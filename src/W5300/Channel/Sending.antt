-- ===== src/W5300/Channel/Sending.antt =====
-- `send` of dsp/src/c2837x_w5300_channel.c: a piece of the frame is submitted in one call and
-- confirmed in a later one, when the chip reports that it was sent.
use dsp_sim_bridge.Common.{
  ℕ, Option, List, ℤ, pos, negsuc, failed, not, ◌==◌, ◌!=◌, ◌||◌, ltb, is_odd, is_negative, bit_set,
  if◌then◌else◌, ◌+◌,
}
use dsp_sim_bridge.W5300.Registers.{ir_sendok, ir_timeout}
use dsp_sim_bridge.W5300.Hal.{Bus, get_sn_ssr, get_sn_ir, set_sn_ir}
use dsp_sim_bridge.W5300.Socket.{Socket, is_command, command_send, command_recv}
use dsp_sim_bridge.W5300.Socket.Commands.{is_free}
use dsp_sim_bridge.W5300.Socket.Transfer.{
  even_octets, is_open_status, socket_send, advance_send_command, advance_recv_command,
}
use dsp_sim_bridge.W5300.Channel.{
  TcpChannel, SendState, send_idle, send_pending, send_unlisted, runtime_operation_allowed,
  forget_send,
}

-- `ir & (Sn_IR_SENDOK | Sn_IR_TIMEOUT)`
abbrev pub send_result_bits : ℕ → ℕ
send_result_bits ir =
    (if bit_set 4 ir then ir_sendok else 0) + (if bit_set 3 ir then ir_timeout else 0)

module _ {W : Type 0} where
  -- The label `send_error`.
  abbrev pub send_error : TcpChannel → W → ℤ × TcpChannel × W
  send_error c w = (failed, forget_send c, w)

  -- What a command's advance leaves: 0 while it goes on, as well as when it is done.
  unfoldable pub advanced : TcpChannel → ℤ × Socket × W → ℤ × TcpChannel × W
  advanced c (result, sk, w) =
      let c1 = record c { socket = sk } in
      if is_negative result then send_error c1 w else (pos 0, c1, w)

  -- By the result of `c2837x_w5300_socket_send` for `count` octets.
  unfoldable pub submitted : ℤ → ℕ → TcpChannel → W → ℤ × TcpChannel × W
  submitted (negsuc n) count c w = send_error c w
  submitted (pos n) count c w =
      if n == 0
      then (pos 0, c, w)
      else if is_odd n || ltb count n
      then send_error c w
      else (pos 0, record c { pending_octets = n; send_state = send_pending }, w)

module _ {W : Type 0} (bus : Bus W) where
  -- The status and interrupts of a piece whose SEND command the chip has taken.
  unfoldable pub confirm_piece : ℕ → ℕ → TcpChannel → W → ℤ × TcpChannel × W
  confirm_piece status ir c w =
      if bit_set 3 ir
      then send_error c (set_sn_ir bus c.socket.sn (send_result_bits ir) w)
      else if not (is_open_status status)
      then send_error c w
      else if not (bit_set 4 ir)
      then (pos 0, c, w)
      else (pos c.pending_octets, forget_send c, set_sn_ir bus c.socket.sn ir_sendok w)

  -- No command is pending any more; `c2837x_w5300_socket_advance_send_command` checks the phase.
  unfoldable pub await_confirmation : TcpChannel → W → ℤ × TcpChannel × W
  unfolding confirm_piece
  await_confirmation c w =
      let (result, sk, w1) = advance_send_command bus c.socket w in
      let c1 = record c { socket = sk } in
      if is_negative result
      then send_error c1 w1
      else let (status, w2) = get_sn_ssr bus c1.socket.sn w1 in
        let (ir, w3) = get_sn_ir bus c1.socket.sn w2 in confirm_piece status ir c1 w3

  -- A piece is pending.
  unfoldable pub send_more : TcpChannel → W → ℤ × TcpChannel × W
  unfolding advanced await_confirmation
  send_more c w =
      if c.pending_octets == 0 || is_odd c.pending_octets
      then send_error c w
      else if is_command c.socket.pending_command command_send
      then advanced c (advance_send_command bus c.socket w)
      else if not (is_free c.socket)
      then send_error c w
      else await_confirmation c w

  -- No piece and no command is pending.
  unfoldable pub submit_piece : List ℕ → Option ℕ → ℕ → TcpChannel → W → ℤ × TcpChannel × W
  unfolding submitted
  submit_piece frame data_words count c w =
      if count == 0
      then (pos 0, c, w)
      else let (result, sk, w1) = socket_send bus c.socket frame data_words count w in
        submitted result count (record c { socket = sk }) w1

  -- No piece is pending.
  unfoldable pub send_first : List ℕ → Option ℕ → ℕ → TcpChannel → W → ℤ × TcpChannel × W
  unfolding advanced submit_piece
  send_first frame data_words count c w =
      if c.pending_octets != 0
      then send_error c w
      else if is_command c.socket.pending_command command_recv
      then advanced c (advance_recv_command bus c.socket w)
      else if not (is_free c.socket)
      then send_error c w
      else submit_piece frame data_words (even_octets count) c w

  unfoldable pub send_in : SendState → List ℕ → Option ℕ → ℕ → TcpChannel → W → ℤ × TcpChannel × W
  unfolding send_more send_first
  send_in send_pending frame data_words count c w = send_more c w
  send_in send_idle frame data_words count c w = send_first frame data_words count c w
  send_in send_unlisted frame data_words count c w = send_error c w

  -- The data are the frame's words from an index on, or `none` for NULL.
  unfoldable pub send : List ℕ → Option ℕ → ℕ → TcpChannel → W → ℤ × TcpChannel × W
  unfolding send_in
  send frame data_words count c w =
      if not (runtime_operation_allowed c)
      then (failed, c, w)
      else send_in c.send_state frame data_words count c w
