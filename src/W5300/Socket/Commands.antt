-- ===== src/W5300/Socket/Commands.antt =====
-- The socket commands of dsp/src/c2837x_w5300_socket.c: open, listen, disconnect, and
-- `c2837x_w5300_socket_take_pending`. A call while a command is pending only advances that command.
use dsp_sim_bridge.Common.{
  ℕ, ◌+◌, Bool, ◌==◌, ◌!=◌, ℤ, pos, failed, not, if◌then◌else◌, is_positive,
}
use dsp_sim_bridge.W5300.Registers.{
  sn_mr, sn_ttlr, sn_tosr, sn_imr, sn_protor, sn_portr, mr_tcp, mr_udp, cr_open, cr_listen,
  cr_discon, sock_init,
}
use dsp_sim_bridge.W5300.Hal.{Bus, get_sn_ssr, poll_sn_cr}
use dsp_sim_bridge.W5300.Socket.{
  Socket, CommandPhase, is_command, command_none, command_open, command_listen, command_disconnect,
  command_native_udp_open, phase_idle, phase_wait_cr_clear, phase_wait_target_state, phase_unlisted,
  socket_is_valid, clear_udp_rx_datagram, clear_socket_interrupts, complete_pending, advance_for,
  issue,
}

abbrev pub is_free : Socket → Bool
is_free sk = is_command sk.pending_command command_none

module _ {W : Type 0} (bus : Bus W) where
  -- `c2837x_w5300_socket_udp_open` with no command pending.
  unfoldable pub start_udp_open : Socket → ℕ → W → ℤ × Socket × W
  unfolding clear_udp_rx_datagram issue
  start_udp_open sk port w =
      let w1 = clear_socket_interrupts bus sk.sn w in
      let w2 = bus.write16 (sn_portr sk.sn) port (bus.write16 (sn_mr sk.sn) mr_udp w1) in
      issue bus (clear_udp_rx_datagram sk) cr_open command_native_udp_open w2

  unfoldable pub socket_udp_open : Socket → ℕ → W → ℤ × Socket × W
  unfolding start_udp_open
  socket_udp_open sk port w =
      if not (socket_is_valid sk)
      then (failed, sk, w)
      else if not (is_free sk)
      then advance_for bus sk command_native_udp_open w
      else start_udp_open sk port w

  -- The registers that a TCP socket is given beside its mode and port.
  unfoldable pub write_tcp_options : ℕ → W → W
  write_tcp_options sn w =
      bus.write16 (sn_protor sn) 0x100
        (bus.write16 (sn_imr sn) 0x1F (bus.write16 (sn_tosr sn) 0 (bus.write16 (sn_ttlr sn) 128 w)))

  -- `c2837x_w5300_socket_open` of another protocol than UDP, with no command pending. The bits of
  -- the protocol and of the flags do not overlap.
  unfoldable pub start_open : Socket → ℕ → ℕ → ℕ → W → ℤ × Socket × W
  unfolding clear_udp_rx_datagram write_tcp_options issue
  start_open sk protocol port flags w =
      let w1 = clear_socket_interrupts bus sk.sn w in
      let w2 = bus.write16 (sn_mr sk.sn) (protocol + flags) w1 in
      let w3 = if protocol == mr_tcp then write_tcp_options sk.sn w2 else w2 in
      issue bus (clear_udp_rx_datagram sk) cr_open command_open
        (bus.write16 (sn_portr sk.sn) port w3)

  unfoldable pub socket_open : Socket → ℕ → ℕ → ℕ → W → ℤ × Socket × W
  unfolding socket_udp_open start_open
  socket_open sk protocol port flags w =
      if protocol == mr_udp
      then (if flags != 0 then (failed, sk, w) else socket_udp_open sk port w)
      else if not (socket_is_valid sk)
      then (failed, sk, w)
      else if not (is_free sk)
      then advance_for bus sk command_open w
      else start_open sk protocol port flags w

  -- `c2837x_w5300_socket_listen` with no command pending.
  unfoldable pub start_listen : Socket → W → ℤ × Socket × W
  unfolding issue
  start_listen sk w =
      let (status, w1) = get_sn_ssr bus sk.sn w in
      if status != sock_init
      then (failed, sk, w1)
      else issue bus sk cr_listen command_listen (clear_socket_interrupts bus sk.sn w1)

  unfoldable pub socket_listen : Socket → W → ℤ × Socket × W
  unfolding start_listen
  socket_listen sk w =
      if not (socket_is_valid sk)
      then (failed, sk, w)
      else if not (is_free sk)
      then advance_for bus sk command_listen w
      else start_listen sk w

  unfoldable pub socket_disconnect : Socket → W → ℤ × Socket × W
  unfolding issue
  socket_disconnect sk w =
      if not (socket_is_valid sk)
      then (failed, sk, w)
      else if not (is_free sk)
      then advance_for bus sk command_disconnect w
      else issue bus sk cr_discon command_disconnect w

  -- `c2837x_w5300_socket_take_pending` by the phase of the pending command: as soon as the chip has
  -- taken it, it is forgotten.
  unfoldable pub take_phase : CommandPhase → Socket → W → ℤ × Socket × W
  unfolding complete_pending
  take_phase phase_wait_cr_clear sk w =
      let (result, w1) = poll_sn_cr bus sk.sn w in
      if is_positive result then (pos 1, complete_pending sk, w1) else (result, sk, w1)
  take_phase phase_wait_target_state sk w = (pos 1, complete_pending sk, w)
  take_phase phase_idle sk w = (failed, sk, w)
  take_phase phase_unlisted sk w = (failed, sk, w)

  unfoldable pub socket_take_pending : Socket → W → ℤ × Socket × W
  unfolding take_phase
  socket_take_pending sk w =
      if not (socket_is_valid sk)
      then (failed, sk, w)
      else if is_free sk
      then (pos 1, sk, w)
      else take_phase sk.command_phase sk w
