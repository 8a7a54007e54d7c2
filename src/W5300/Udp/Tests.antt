-- ===== src/W5300/Udp/Tests.antt =====
-- The UDP transport on the simulated W5300, under the Core.
use dsp_sim_bridge.Common.{
  ℕ, ◌≡◌, refl, List, [], ◌∷◌, ◌++◌, true, false, some, is_positive, inr, arith,
}
use dsp_sim_bridge.Core.Types.{Ops, Block, wait_connection}
use dsp_sim_bridge.Core.Run.{init, run_times, executed, zeroed}
use dsp_sim_bridge.Core.Simulated.{sample_config}
use dsp_sim_bridge.W5300.Registers.{sock_udp, sn_tx_fifor}
use dsp_sim_bridge.W5300.Udp.{
  clear_candidate_and_datagram, clear_datagram, clear_socket_runtime, reset_udp_tx, stage_datagram,
  udp_channel_init, udp_operation_allowed, udp_reset_runtime, udp_sync_platform_generation,
  UdpChannel,
}
use dsp_sim_bridge.W5300.Udp.Receiving.{
  acquire_next_receive_datagram, data_read, header_octets, is_stray, payload_octets, read_at_most,
  receive_acquired, receive_allowed, receive_current, release_if, udp_receive,
}
use dsp_sim_bridge.W5300.Udp.Sending.{
  advance_tx_in, advance_udp_tx, await_result, submit_words, udp_channel_send, udp_send_data,
  udp_send_first, udp_send_released, udp_submitted,
}
use dsp_sim_bridge.W5300.Udp.Device.{blank, stored, udp_ops}
use dsp_sim_bridge.W5300.Udp.Control.{
  await_candidate, bind_candidate, candidate_found, commit_datagram, drop_current,
  udp_get_connection_state, udp_listen_channel, udp_open_channel,
}
use dsp_sim_bridge.W5300.Udp.Close.{
  close_tx, udp_begin_close, udp_close_channel, udp_close_checked, udp_close_done, udp_close_fault,
  udp_close_in, udp_close_status, udp_close_step, udp_continue_close,
}
use dsp_sim_bridge.W5300.Socket.Datagram.{
  UdpPacketInfo, copy_words_in, datagram_sized, datagram_words, discard_words, drop_datagram,
  packet_info_of, packet_info_sized, put_octet, read_datagram, size_available, submit_datagram,
  take_octet, take_residual, udp_commit_recv, udp_drop_data, udp_read_data, udp_read_packet_info,
  udp_rx_available, udp_send,
}
use dsp_sim_bridge.W5300.Hal.{
  clear_subr, get_sn_ir, get_sn_mr, get_sn_rx_rsr, get_sn_ssr, get_sn_tx_fsr, is_socket_status,
  issue_sn_cr, poll_sn_cr, read8, read_size, read_stable, read_stream, read_words, set_gar,
  set_pair, set_shar, set_sipr, set_sn_ir, set_sn_tx_wrsr, set_subr, swap16, write8, write_stream,
  write_words,
}
use dsp_sim_bridge.W5300.Socket.{
  advance_cr, advance_for, advance_pending, advance_phase, advance_target_state,
  clear_socket_interrupts, clear_udp_rx_datagram, command_taken, complete_pending, cr_polled, issue,
  socket_is_valid, target_possible, target_reached, udp_packet_info_u16,
}
use dsp_sim_bridge.W5300.Socket.Commands.{
  socket_disconnect, socket_listen, socket_open, socket_take_pending, socket_udp_open, start_listen,
  start_open, start_udp_open, take_phase, write_tcp_options,
}
use dsp_sim_bridge.W5300.Socket.Closing.{
  check_close_erratum, complete_close_command, dummy_tx_ready, erratum_needed, issue_close,
  issue_dummy_send, issue_udp_open, poll_close_command, set_destination, space_for_octet,
}
use dsp_sim_bridge.W5300.Socket.Transfer.{
  advance_recv_command, advance_send_command, advance_transfer, copy_size, fetch, recv_free,
  recv_pending, recv_sized, send_at, send_free, send_sized, send_words, socket_recv, socket_send,
  submit,
}
use dsp_sim_bridge.W5300.Udp.{tx_idle, udp_close_idle}
use dsp_sim_bridge.W5300.Udp.Stray.{peer_of, stray_dropped}
use dsp_sim_bridge.W5300.Udp.Peer.{peer_kept}
use dsp_sim_bridge.W5300.Simulated.{
  Chip, chip_bus, chip_platform, chip_adapter, chip_read, chip_write, values_at, register,
  sample_socket, sample_chip,
}

abbrev udp_chip : List ℕ → Chip
udp_chip arrived = record (sample_chip arrived) { status = sock_udp }

abbrev sample_udp : UdpChannel
sample_udp = record {
  socket = sample_socket;
  udp_port = 5000;
  time_us_set = true;
  close_timeout_us = 1_000_000;
  candidate_ip = 0;
  candidate_port = 0;
  candidate_valid = false;
  datagram_active = false;
  datagram_data_size = 0;
  datagram_consumed = 0;
  tx_state = tx_idle;
  pending_octets = 0;
  close_state = udp_close_idle;
  close_start_us = 0;
  faulted = false;
  observed_platform_generation = 0;
}

-- SIM_START with the right version and hash from 10.0.0.1, port 5000; a datagram of port 5001; one
-- INPUT_DATA with step index 0, and SIM_STOP. Each behind its PACKET-INFO, in network order.
abbrev datagrams : List ℕ
datagrams =
    (0x000A ∷ 0x0100 ∷ 0x8813 ∷ 0x0A00 ∷ 1 ∷ 6 ∷ 1 ∷ 0x5678 ∷ 0x1234 ∷ [])
    ++ (0x000A ∷ 0x0100 ∷ 0x8913 ∷ 0x0600 ∷ 4 ∷ 0 ∷ 99 ∷ [])
    ++ (0x000A ∷ 0x0100 ∷ 0x8813 ∷ 0x0E00 ∷ 2 ∷ 10 ∷ 0 ∷ 0 ∷ 7 ∷ 8 ∷ 9 ∷ [])
    ++ (0x000A ∷ 0x0100 ∷ 0x8813 ∷ 0x0400 ∷ 4 ∷ 0 ∷ [])

abbrev udp_block : List ℕ → Block (UdpChannel × Chip)
udp_block arrived = record {
  config = sample_config;
  runtime = zeroed;
  rx_frame_words = 0 ∷ 0 ∷ 0 ∷ 0 ∷ 0 ∷ 0 ∷ 0 ∷ [];
  tx_frame_words = 0 ∷ 0 ∷ 0 ∷ 0 ∷ 0 ∷ [];
  world = (sample_udp, udp_chip arrived);
}

abbrev udp_sim_ops : Ops (UdpChannel × Chip)
udp_sim_ops = udp_ops chip_bus chip_platform chip_adapter

-- Every step of the Core and the transport, on the simulated chip.
unfoldable on_udp_chip : ℕ → List ℕ → Block (UdpChannel × Chip)
unfolding executed clear_candidate_and_datagram clear_datagram clear_socket_runtime reset_udp_tx
    stage_datagram udp_channel_init udp_operation_allowed udp_reset_runtime
    udp_sync_platform_generation acquire_next_receive_datagram data_read header_octets is_stray
    payload_octets read_at_most receive_acquired receive_allowed receive_current release_if
    udp_receive advance_tx_in advance_udp_tx await_result submit_words udp_channel_send
    udp_send_data udp_send_first udp_send_released udp_submitted blank stored udp_ops
    await_candidate bind_candidate candidate_found commit_datagram drop_current
    udp_get_connection_state udp_listen_channel udp_open_channel close_tx udp_begin_close
    udp_close_channel udp_close_checked udp_close_done udp_close_fault udp_close_in udp_close_status
    udp_close_step udp_continue_close copy_words_in datagram_sized datagram_words discard_words
    drop_datagram packet_info_of packet_info_sized put_octet read_datagram size_available
    submit_datagram take_octet take_residual udp_commit_recv udp_drop_data udp_read_data
    udp_read_packet_info udp_rx_available udp_send clear_subr get_sn_ir get_sn_mr get_sn_rx_rsr
    get_sn_ssr get_sn_tx_fsr is_socket_status issue_sn_cr poll_sn_cr read8 read_size read_stable
    read_stream read_words set_gar set_pair set_shar set_sipr set_sn_ir set_sn_tx_wrsr set_subr
    swap16 write8 write_stream write_words advance_cr advance_for advance_pending advance_phase
    advance_target_state clear_socket_interrupts clear_udp_rx_datagram command_taken
    complete_pending cr_polled issue socket_is_valid target_possible target_reached
    udp_packet_info_u16 socket_disconnect socket_listen socket_open socket_take_pending
    socket_udp_open start_listen start_open start_udp_open take_phase write_tcp_options
    check_close_erratum complete_close_command dummy_tx_ready erratum_needed issue_close
    issue_dummy_send issue_udp_open poll_close_command set_destination space_for_octet
    advance_recv_command advance_send_command advance_transfer copy_size fetch recv_free
    recv_pending recv_sized send_at send_free send_sized send_words socket_recv socket_send submit
    register chip_read chip_write
on_udp_chip n arrived = run_times udp_sim_ops n (init udp_sim_ops (udp_block arrived))

-- The replies to the peer, RESPONSE(0) and OUTPUT_DATA, as if the other datagram had not been sent.
udp_session_runs :
    let b = on_udp_chip 60 datagrams in
    (values_at (sn_tx_fifor 0) b.world.1.writes ≡ 5 ∷ 2 ∷ 0 ∷ 3 ∷ 6 ∷ 0 ∷ 0 ∷ 7 ∷ [])
    × (b.runtime.state ≡ wait_connection)
unfolding on_udp_chip values_at
udp_session_runs = (refl, refl)

-- Bound to 10.0.0.1, port 5000, with no datagram current.
abbrev bound_udp : UdpChannel
bound_udp = record sample_udp {
  candidate_ip = 0x0A000001;
  candidate_port = 5000;
  candidate_valid = true;
}

-- A datagram of six octets from port 5001.
abbrev stray_info : UdpPacketInfo
stray_info = record { source_ip = 0x0A000001; source_port = 5001; data_size = 6 }

abbrev stray_chip : Chip
stray_chip = udp_chip (0x000A ∷ 0x0100 ∷ 0x8913 ∷ 0x0600 ∷ 4 ∷ 0 ∷ 99 ∷ [])

stray_dropped_example :
    let (result, words, c1, w2) = udp_receive chip_bus (5 ∷ 5 ∷ []) 4 bound_udp stray_chip in
    (is_positive result ≡ false) × (words ≡ 5 ∷ 5 ∷ []) × (peer_of c1 ≡ peer_of bound_udp)
unfolding on_udp_chip
stray_dropped_example =
    stray_dropped chip_bus (5 ∷ 5 ∷ []) 4 bound_udp stray_chip stray_info
      (udp_read_packet_info chip_bus sample_socket stray_chip).2
      (udp_read_packet_info chip_bus sample_socket stray_chip).3 refl refl refl refl
      (inr (λ e. omega (arith, e)))

peer_kept_example :
    let c = bound_udp in
    let w = stray_chip in
    (peer_of (udp_open_channel chip_bus chip_platform c w).1 ≡ peer_of c)
    × (peer_of (udp_listen_channel chip_bus chip_platform c w).1 ≡ peer_of c)
    × (peer_of (udp_get_connection_state chip_bus chip_platform c w).1 ≡ peer_of c)
    × (peer_of (udp_receive chip_bus (1 ∷ 2 ∷ []) 4 c w).2 ≡ peer_of c)
    × (peer_of (udp_channel_send chip_bus (1 ∷ 2 ∷ []) (some 0) 4 c w).1 ≡ peer_of c)
unfolding on_udp_chip
peer_kept_example =
    peer_kept chip_bus chip_platform bound_udp stray_chip (1 ∷ 2 ∷ []) (some 0) 4 refl refl
