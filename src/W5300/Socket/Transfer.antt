-- ===== src/W5300/Socket/Transfer.antt =====
-- Sending and receiving on a TCP socket: `c2837x_w5300_socket_send`, `c2837x_w5300_socket_recv` and
-- the functions that advance their commands, dsp/src/c2837x_w5300_socket.c.
use dsp_sim_bridge.Common.{
  ℕ, ◌+◌, ◌-◌, ◌%◌, Bool, Option, none, some, List, [], ◌||◌, ◌==◌, ltb, not, u16, ℤ, pos, failed,
  is_negative, if◌then◌else◌,
}
use dsp_sim_bridge.W5300.Registers.{
  cr_send, cr_recv, ir_sendok, ir_timeout, sock_established, sock_close_wait,
}
use dsp_sim_bridge.W5300.Hal.{
  Bus, get_sn_ssr, get_sn_tx_fsr, get_sn_rx_rsr, set_sn_ir, set_sn_tx_wrsr, write_stream,
  read_stream,
}
use dsp_sim_bridge.W5300.Socket.{
  Socket, is_command, is_phase, command_send, command_recv, phase_idle, phase_wait_cr_clear,
  PendingCommand, advance_pending, issue,
}
use dsp_sim_bridge.W5300.Socket.Commands.{is_free}

-- `n & ~1u`. An `unsigned int` of the C2837x has 16 bits, so that the mask keeps the low 16 bits of
-- `n` but the lowest one.
abbrev pub even_octets : ℕ → ℕ
even_octets n = u16 n - n % 2

abbrev pub at_most : ℕ → ℕ → ℕ
at_most limit n = if ltb limit n then limit else n

abbrev pub is_open_status : ℕ → Bool
is_open_status status = status == sock_established || status == sock_close_wait

-- `copy_size`
unfoldable pub copy_size : Socket → ℕ → ℕ → ℕ
copy_size sk rx_size capacity = even_octets (at_most sk.rx_mem_size (at_most capacity rx_size))

module _ {W : Type 0} (bus : Bus W) where
  -- The octets of the frame from the word index `at` on are handed to the chip.
  unfoldable pub submit : Socket → List ℕ → ℕ → ℕ → W → ℤ × Socket × W
  unfolding issue
  submit sk frame at chunk w =
      let w1 = set_sn_ir bus sk.sn (ir_sendok + ir_timeout) w in
      let w2 = set_sn_tx_wrsr bus sk.sn chunk (write_stream bus sk.sn frame at chunk w1) in
      let (result, sk1, w3) = issue bus sk cr_send command_send w2 in
      if is_negative result then (failed, sk1, w3) else (pos chunk, sk1, w3)

  -- `c2837x_w5300_socket_send` from the free size on, which is `none` if it was not stable.
  unfoldable pub send_sized : Option ℕ → Socket → List ℕ → ℕ → ℕ → W → ℤ × Socket × W
  unfolding submit
  send_sized none sk frame at count w = (failed, sk, w)
  send_sized (some free_size) sk frame at count w =
      let chunk = even_octets (at_most sk.tx_mem_size (at_most free_size count)) in
      if chunk == 0 then (pos 0, sk, w) else submit sk frame at chunk w

  -- `c2837x_w5300_socket_send` with no command pending.
  unfoldable pub send_free : Socket → List ℕ → ℕ → ℕ → W → ℤ × Socket × W
  unfolding send_sized
  send_free sk frame at count w =
      let (status, w1) = get_sn_ssr bus sk.sn w in
      if not (is_open_status status)
      then (pos 0, sk, w1)
      else let (free_size, w2) = get_sn_tx_fsr bus sk.sn w1 in
        send_sized free_size sk frame at count w2

  -- `c2837x_w5300_socket_send` on data that are not NULL: a pending command is left alone.
  unfoldable pub send_at : Socket → List ℕ → ℕ → ℕ → W → ℤ × Socket × W
  unfolding send_free
  send_at sk frame at count w =
      if is_free sk
      then (if is_phase sk.command_phase phase_idle
          then send_free sk frame at count w
          else (failed, sk, w))
      else if is_phase sk.command_phase phase_idle
      then (failed, sk, w)
      else (pos 0, sk, w)

  unfoldable pub send_words : Socket → List ℕ → Option ℕ → ℕ → W → ℤ × Socket × W
  unfolding send_at
  send_words sk frame none count w = (failed, sk, w)
  send_words sk frame (some at) count w = send_at sk frame at count w

  -- The data are the frame's words from an index on, or `none` for NULL.
  unfoldable pub socket_send : Socket → List ℕ → Option ℕ → ℕ → W → ℤ × Socket × W
  unfolding send_words
  socket_send sk frame data_words wire_byte_count w =
      if even_octets wire_byte_count == 0
      then (pos 0, sk, w)
      else send_words sk frame data_words (even_octets wire_byte_count) w

  -- The two functions that advance a SEND or RECV command.
  unfoldable pub advance_transfer : PendingCommand → Socket → W → ℤ × Socket × W
  unfolding advance_pending
  advance_transfer command sk w =
      if is_free sk
      then (if is_phase sk.command_phase phase_idle then pos 1 else failed, sk, w)
      else if not (is_command sk.pending_command command)
          || not (is_phase sk.command_phase phase_wait_cr_clear)
      then (failed, sk, w)
      else advance_pending bus sk w

  unfoldable pub advance_send_command : Socket → W → ℤ × Socket × W
  unfolding advance_transfer
  advance_send_command sk w = advance_transfer command_send sk w

  unfoldable pub advance_recv_command : Socket → W → ℤ × Socket × W
  unfolding advance_transfer
  advance_recv_command sk w = advance_transfer command_recv sk w

  -- The next octets are taken from the chip, which is told so.
  unfoldable pub fetch : Socket → ℕ → W → ℤ × List ℕ × Socket × W
  unfolding issue
  fetch sk size w =
      let (words, w1) = read_stream bus sk.sn size w in
      let (result, sk1, w2) = issue bus sk cr_recv command_recv w1 in
      if is_negative result then (failed, words, sk1, w2) else (pos size, words, sk1, w2)

  -- `c2837x_w5300_socket_recv` from the received size on, which is `none` if it was not stable.
  unfoldable pub recv_sized : Option ℕ → Socket → ℕ → W → ℤ × List ℕ × Socket × W
  unfolding copy_size fetch
  recv_sized none sk capacity w = (failed, [], sk, w)
  recv_sized (some rx_size) sk capacity w =
      if copy_size sk rx_size capacity == 0
      then (pos 0, [], sk, w)
      else fetch sk (copy_size sk rx_size capacity) w

  -- `c2837x_w5300_socket_recv` with no command pending.
  unfoldable pub recv_free : Socket → ℕ → W → ℤ × List ℕ × Socket × W
  unfolding recv_sized
  recv_free sk capacity w =
      let (status, w1) = get_sn_ssr bus sk.sn w in
      if not (is_open_status status)
      then (pos 0, [], sk, w1)
      else let (rx_size, w2) = get_sn_rx_rsr bus sk.sn w1 in recv_sized rx_size sk capacity w2

  -- A pending command is advanced, and nothing is received.
  unfoldable pub recv_pending : Socket → W → ℤ × List ℕ × Socket × W
  unfolding advance_pending
  recv_pending sk w =
      let (result, sk1, w1) = advance_pending bus sk w in
      (if is_negative result then failed else pos 0, [], sk1, w1)

  -- Whether `data_words` is set, the capacity; the result and the words stored.
  unfoldable pub socket_recv : Bool → ℕ → Socket → W → ℤ × List ℕ × Socket × W
  unfolding recv_free recv_pending
  socket_recv data_words_set capacity sk w =
      if even_octets capacity == 0
      then (pos 0, [], sk, w)
      else if not data_words_set
      then (failed, [], sk, w)
      else if is_free sk
      then (if is_phase sk.command_phase phase_idle
          then recv_free sk (even_octets capacity) w
          else (failed, [], sk, w))
      else if is_phase sk.command_phase phase_idle
      then (failed, [], sk, w)
      else recv_pending sk w
