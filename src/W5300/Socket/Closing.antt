-- ===== src/W5300/Socket/Closing.antt =====
-- The steps of dsp/src/c2837x_w5300_socket.c from which the TCP channel builds its close sequence.
use dsp_sim_bridge.Common.{
  ℕ, ◌%◌, Bool, false, Option, none, some, [], ◌∷◌, ◌||◌, ◌&&◌, not, ◌==◌, ◌!=◌, leb, ℤ, pos,
  failed, u16, low_word, high_word, ◌+◌, is_positive, if◌then◌else◌,
}
use dsp_sim_bridge.W5300.Registers.{
  sn_mr, sn_portr, sn_dipr, sn_dipr2, sn_dportr, mr_tcp, mr_udp, cr_open, cr_send, cr_close,
  ir_sendok, ir_timeout,
}
use dsp_sim_bridge.W5300.Hal.{
  Bus, get_sn_mr, get_sn_tx_fsr, set_sn_ir, set_sn_tx_wrsr, write_stream, poll_sn_cr,
}
use dsp_sim_bridge.W5300.Socket.{
  Socket, PendingCommand, is_command, is_phase, command_udp_open, command_dummy_send, command_close,
  phase_wait_cr_clear, phase_wait_target_state, socket_is_valid, clear_udp_rx_datagram,
  clear_socket_interrupts, complete_pending, issue,
}
use dsp_sim_bridge.W5300.Socket.Commands.{is_free}

module _ {W : Type 0} (bus : Bus W) where
  -- `*needed` by the mode and the free size; 0 while the size is not stable.
  unfoldable pub erratum_needed : Socket → ℕ → Option ℕ → ℤ × Bool
  erratum_needed sk mode none = (pos 0, false)
  erratum_needed sk mode (some free_octets) =
      (pos 1, mode % 16 == mr_tcp && free_octets != sk.tx_mem_size)

  -- The result, `*needed`, and the world; the socket is only read.
  unfoldable pub check_close_erratum : Socket → W → ℤ × Bool × W
  unfolding erratum_needed
  check_close_erratum sk w =
      if not (socket_is_valid sk) || not (is_free sk) || sk.tx_mem_size == 0
      then (failed, false, w)
      else let (mode, w1) = get_sn_mr bus sk.sn w in
        let (free_octets, w2) = get_sn_tx_fsr bus sk.sn w1 in
        let (result, needed) = erratum_needed sk mode free_octets in (result, needed, w2)

  unfoldable pub space_for_octet : Option ℕ → ℤ
  space_for_octet none = pos 0
  space_for_octet (some free_octets) = if leb 1 free_octets then pos 1 else pos 0

  unfoldable pub dummy_tx_ready : Socket → W → ℤ × W
  unfolding space_for_octet
  dummy_tx_ready sk w =
      if not (socket_is_valid sk) || not (is_free sk)
      then (failed, w)
      else let (free_octets, w1) = get_sn_tx_fsr bus sk.sn w in (space_for_octet free_octets, w1)

  unfoldable pub issue_udp_open : Socket → ℕ → W → ℤ × Socket × W
  unfolding issue
  issue_udp_open sk port w =
      if not (socket_is_valid sk) || not (is_free sk)
      then (failed, sk, w)
      else let w1 = clear_socket_interrupts bus sk.sn w in
        issue bus sk cr_open command_udp_open
          (bus.write16 (sn_portr sk.sn) port (bus.write16 (sn_mr sk.sn) mr_udp w1))

  -- Where a datagram goes: the destination registers.
  unfoldable pub set_destination : ℕ → ℕ → ℕ → W → W
  set_destination sn ip port w =
      bus.write16 (sn_dportr sn) port
        (bus.write16 (sn_dipr2 sn) (low_word ip) (bus.write16 (sn_dipr sn) (u16 (high_word ip)) w))

  unfoldable pub issue_dummy_send : Socket → ℕ → ℕ → W → ℤ × Socket × W
  unfolding set_destination issue
  issue_dummy_send sk ip port w =
      if not (socket_is_valid sk) || not (is_free sk)
      then (failed, sk, w)
      else let w1 =
          set_sn_ir bus sk.sn (ir_sendok + ir_timeout) (set_destination sk.sn ip port w) in
        issue bus sk cr_send command_dummy_send
          (set_sn_tx_wrsr bus sk.sn 1 (write_stream bus sk.sn (0 ∷ []) 0 1 w1))

  unfoldable pub issue_close : Socket → W → ℤ × Socket × W
  unfolding clear_udp_rx_datagram issue
  issue_close sk w =
      if not (socket_is_valid sk) || not (is_free sk)
      then (failed, sk, w)
      else issue bus (clear_udp_rx_datagram sk) cr_close command_close
          (clear_socket_interrupts bus sk.sn w)

  unfoldable pub poll_close_command : Socket → PendingCommand → W → ℤ × Socket × W
  poll_close_command sk expected w =
      if not (socket_is_valid sk)
        || not (is_command sk.pending_command expected)
        || not (is_phase sk.command_phase phase_wait_cr_clear)
      then (failed, sk, w)
      else let (result, w1) = poll_sn_cr bus sk.sn w in
        (
          result,
          if is_positive result then record sk { command_phase = phase_wait_target_state } else sk,
          w1,
        )

unfoldable pub complete_close_command : Socket → PendingCommand → ℤ × Socket
unfolding complete_pending
complete_close_command sk expected =
    if not (socket_is_valid sk)
      || not (is_command sk.pending_command expected)
      || not (is_phase sk.command_phase phase_wait_target_state)
    then (failed, sk)
    else (pos 1, complete_pending sk)
