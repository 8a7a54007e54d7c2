-- ===== src/W5300/Socket.antt =====
-- The socket layer's data and the helpers of dsp/src/c2837x_w5300_socket.c that its operations
-- share; types of dsp/inc/c2837x_w5300_socket.h. A NULL socket is not modelled.
pub mod Commands
pub mod Transfer
pub mod Closing
pub mod Datagram
pub mod Quiet
pub mod Bounds
pub mod Submitted
use dsp_sim_bridge.Common.{
  ℕ, ◌+◌, ◌*◌, ◌/◌, ◌%◌, ◌^◌, Bool, true, false, ◌&&◌, ◌||◌, not, ◌==◌, ◌!=◌, ltb, leb, ℤ, pos,
  failed, u16, is_negative, is_positive, if◌then◌else◌,
}
use dsp_sim_bridge.W5300.Registers.{
  max_sock_num, ir_reg, sock_closed, sock_arp, sock_init, sock_listen, sock_synrecv,
  sock_established, sock_close_wait, sock_fin_wait, sock_closing, sock_time_wait, sock_last_ack,
  sock_udp,
}
use dsp_sim_bridge.W5300.Hal.{Bus, is_socket_status, get_sn_ssr, set_sn_ir, issue_sn_cr, poll_sn_cr}

-- `C2837xW5300PendingCommand`; `command_unlisted` stands for values that the enumeration does not
-- name, which only a memory fault can leave in the field.
pub data PendingCommand : Type 0 where
  command_none command_open command_listen command_recv command_send : PendingCommand
  command_disconnect command_close command_udp_open command_native_udp_open : PendingCommand
  command_dummy_send command_unlisted : PendingCommand

-- `C2837xW5300CommandPhase`, with `phase_unlisted` likewise.
pub data CommandPhase : Type 0 where
  phase_idle phase_wait_cr_clear phase_wait_target_state phase_unlisted : CommandPhase

pub record Socket : Type 0 where
  pub sn : ℕ
  pub tx_mem_size : ℕ
  pub rx_mem_size : ℕ
  pub pending_command : PendingCommand
  pub command_phase : CommandPhase
  pub udp_rx_datagram_active : ℕ
  pub udp_rx_data_remaining : ℕ
  pub udp_rx_residual_byte : ℕ
  pub udp_rx_residual_valid : ℕ

-- The values of the enumeration's names, 10 standing for all that are greater.
abbrev pub command_code : PendingCommand → ℕ
command_code command_none = 0
command_code command_open = 1
command_code command_listen = 2
command_code command_recv = 3
command_code command_send = 4
command_code command_disconnect = 5
command_code command_close = 6
command_code command_udp_open = 7
command_code command_native_udp_open = 8
command_code command_dummy_send = 9
command_code command_unlisted = 10

abbrev pub phase_code : CommandPhase → ℕ
phase_code phase_idle = 0
phase_code phase_wait_cr_clear = 1
phase_code phase_wait_target_state = 2
phase_code phase_unlisted = 3

abbrev pub is_command : PendingCommand → PendingCommand → Bool
is_command a b = command_code a == command_code b

abbrev pub is_phase : CommandPhase → CommandPhase → Bool
is_phase a b = phase_code a == phase_code b

unfoldable pub socket_is_valid : Socket → Bool
socket_is_valid sk =
    if leb max_sock_num sk.sn
    then false
    else if ltb 9 (command_code sk.pending_command) || ltb 2 (phase_code sk.command_phase)
    then false
    else if ltb 1 sk.udp_rx_datagram_active
        || ltb 1 sk.udp_rx_residual_valid
        || (sk.udp_rx_datagram_active == 0
            && (sk.udp_rx_data_remaining != 0 || sk.udp_rx_residual_valid != 0))
    then false
    else if sk.udp_rx_residual_valid != 0 && sk.udp_rx_data_remaining == 0
    then false
    else (is_command sk.pending_command command_none && is_phase sk.command_phase phase_idle)
      || (not (is_command sk.pending_command command_none)
          && not (is_phase sk.command_phase phase_idle))

unfoldable pub clear_udp_rx_datagram : Socket → Socket
clear_udp_rx_datagram sk = record sk {
  udp_rx_datagram_active = 0;
  udp_rx_data_remaining = 0;
  udp_rx_residual_byte = 0;
  udp_rx_residual_valid = 0;
}

unfoldable pub udp_packet_info_u16 : ℕ → ℕ
udp_packet_info_u16 dsp_word = dsp_word % 2 ^ 8 * 2 ^ 8 + dsp_word / 2 ^ 8 % 2 ^ 8

-- Nothing pending any more; a RECV command ends the datagram.
unfoldable pub complete_pending : Socket → Socket
unfolding clear_udp_rx_datagram
complete_pending sk =
    let sk1 = if is_command sk.pending_command command_recv then clear_udp_rx_datagram sk else sk in
    record sk1 { pending_command = command_none; command_phase = phase_idle }

-- Whether a command has done its work in a socket status, by `advance_target_state`.
unfoldable pub target_reached : PendingCommand → ℕ → Bool
target_reached command_open status = status == sock_init
target_reached command_native_udp_open status = status == sock_udp
target_reached command_listen status =
    status == sock_listen
    || status == sock_synrecv
    || status == sock_established
    || status == sock_close_wait
target_reached command_disconnect status = status == sock_closed
target_reached command_close status = status == sock_closed
target_reached command_none status = false
target_reached command_recv status = false
target_reached command_send status = false
target_reached command_udp_open status = false
target_reached command_dummy_send status = false
target_reached command_unlisted status = false

-- Whether it may still do it, likewise.
unfoldable pub target_possible : PendingCommand → ℕ → Bool
target_possible command_open status = status == sock_closed || status == sock_arp
target_possible command_native_udp_open status = is_socket_status status
target_possible command_listen status = status == sock_init
target_possible command_disconnect status =
    status == sock_established
    || status == sock_close_wait
    || status == sock_fin_wait
    || status == sock_closing
    || status == sock_time_wait
    || status == sock_last_ack
target_possible command_close status = is_socket_status status
target_possible command_none status = false
target_possible command_recv status = false
target_possible command_send status = false
target_possible command_udp_open status = false
target_possible command_dummy_send status = false
target_possible command_unlisted status = false

-- The chip has taken the pending command.
unfoldable pub command_taken : Socket → ℤ × Socket
command_taken sk =
    if is_command sk.pending_command command_send || is_command sk.pending_command command_recv
    then (pos 1, complete_pending sk)
    else (pos 0, record sk { command_phase = phase_wait_target_state })

-- By the result of `c2837x_w5300_poll_sn_cr`.
unfoldable pub cr_polled : {W : Type 0} → ℤ × W → Socket → ℤ × Socket × W
unfolding command_taken
cr_polled (result, w) sk =
    if is_positive result
    then (let (taken, sk1) = command_taken sk in (taken, sk1, w))
    else (result, sk, w)

module _ {W : Type 0} (bus : Bus W) where
  unfoldable pub clear_socket_interrupts : ℕ → W → W
  clear_socket_interrupts sn w = bus.write16 ir_reg (u16 (2 ^ sn)) (set_sn_ir bus sn 0xFF w)

  unfoldable pub advance_target_state : Socket → W → ℤ × Socket × W
  advance_target_state sk w =
      let (status, w1) = get_sn_ssr bus sk.sn w in
      if target_reached sk.pending_command status
      then (pos 1, complete_pending sk, w1)
      else if target_possible sk.pending_command status
      then (pos 0, sk, w1)
      else (failed, sk, w1)

  -- Phase WAIT_CR_CLEAR.
  unfoldable pub advance_cr : Socket → W → ℤ × Socket × W
  unfolding cr_polled
  advance_cr sk w =
      if is_command sk.pending_command command_recv
        && sk.udp_rx_datagram_active != 0
        && (sk.udp_rx_data_remaining != 0 || sk.udp_rx_residual_valid != 0)
      then (failed, sk, w)
      else cr_polled (poll_sn_cr bus sk.sn w) sk

  unfoldable pub advance_phase : CommandPhase → Socket → W → ℤ × Socket × W
  unfolding advance_cr advance_target_state
  advance_phase phase_wait_cr_clear sk w = advance_cr sk w
  advance_phase phase_wait_target_state sk w = advance_target_state sk w
  advance_phase phase_idle sk w = (failed, sk, w)
  advance_phase phase_unlisted sk w = (failed, sk, w)

  unfoldable pub advance_pending : Socket → W → ℤ × Socket × W
  unfolding advance_phase
  advance_pending sk w = advance_phase sk.command_phase sk w

  unfoldable pub advance_for : Socket → PendingCommand → W → ℤ × Socket × W
  unfolding advance_pending
  advance_for sk requested w =
      let (result, sk1, w1) = advance_pending sk w in
      if is_negative result
      then (result, sk1, w1)
      else if is_positive result && is_command sk.pending_command requested
      then (pos 1, sk1, w1)
      else (pos 0, sk1, w1)

  unfoldable pub issue : Socket → ℕ → PendingCommand → W → ℤ × Socket × W
  issue sk command pending w =
      let (result, w1) = issue_sn_cr bus sk.sn command w in
      if is_negative result
      then (failed, sk, w1)
      else (pos 0, record sk { pending_command = pending; command_phase = phase_wait_cr_clear }, w1)
