-- ===== src/W5300/Tests.antt =====
-- The TCP transport on the simulated W5300, under the Core.
use dsp_sim_bridge.Common.{
  ℕ, zero, suc, false, ◌≤◌, ◌+◌, ◌≡◌, ◌/◌, refl, List, [], ◌∷◌, ◌++◌, take, arith, some,
}
use dsp_sim_bridge.Core.Types.{Ops, Block, wait_connection}
use dsp_sim_bridge.Core.Run.{init, run, run_times, executed}
use dsp_sim_bridge.Core.Invariant.{IsValid}
use dsp_sim_bridge.Core.Invariant.Preserved.{init-run_times-IsValid}
use dsp_sim_bridge.Core.Transfer.Reassembly.{Fed}
use dsp_sim_bridge.Core.Transfer.Transmission.{Drained}
use dsp_sim_bridge.W5300.Registers.{sn_cr, sn_tx_fifor}
use dsp_sim_bridge.W5300.Hal.{
  clear_subr, get_sn_ir, get_sn_mr, get_sn_rx_rsr, get_sn_ssr, get_sn_tx_fsr, is_socket_status,
  issue_sn_cr, poll_sn_cr, read8, read_size, read_stable, read_stream, read_words, set_gar,
  set_pair, set_shar, set_sipr, set_sn_ir, set_sn_tx_wrsr, set_subr, swap16, write8, write_stream,
  write_words,
}
use dsp_sim_bridge.W5300.Channel.{
  TcpChannel, send_idle, channel_init, reset_runtime, runtime_operation_allowed,
  sync_platform_generation,
}
use dsp_sim_bridge.W5300.Socket.{
  advance_cr, advance_for, advance_pending, advance_phase, advance_target_state,
  clear_socket_interrupts, clear_udp_rx_datagram, command_taken, complete_pending, cr_polled, issue,
  socket_is_valid, target_possible, target_reached, udp_packet_info_u16,
}
use dsp_sim_bridge.W5300.Device.{tcp_frame_reassembled, tcp_frame_delivered, tcp_ops}
use dsp_sim_bridge.W5300.Channel.Sending.{
  advanced, await_confirmation, confirm_piece, send, send_first, send_in, send_more, submit_piece,
  submitted,
}
use dsp_sim_bridge.W5300.Channel.Control.{
  get_connection_state, listen_channel, note_connection, open_channel, receive, state_of_status,
}
use dsp_sim_bridge.W5300.Channel.Close.{
  begin_close, close_channel, close_checked, close_done, close_fault, close_in, close_issued,
  close_status, close_step, continue_close, dummy_send_result, poll_step, udp_open_status,
}
use dsp_sim_bridge.W5300.Socket.Transfer.{
  advance_recv_command, advance_send_command, advance_transfer, copy_size, fetch, recv_free,
  recv_pending, recv_sized, send_at, send_free, send_sized, send_words, socket_recv, socket_send,
  submit,
}
use dsp_sim_bridge.W5300.Socket.Closing.{
  check_close_erratum, complete_close_command, dummy_tx_ready, erratum_needed, issue_close,
  issue_dummy_send, issue_udp_open, poll_close_command, set_destination, space_for_octet,
}
use dsp_sim_bridge.W5300.Socket.Commands.{
  socket_disconnect, socket_listen, socket_open, socket_take_pending, socket_udp_open, start_listen,
  start_open, start_udp_open, take_phase, write_tcp_options,
}
use dsp_sim_bridge.W5300.Channel.Steps.{IsStep}
use dsp_sim_bridge.W5300.Channel.Progress.{close_channel-IsStep}
use dsp_sim_bridge.W5300.Channel.Faults.{Closing, close_channel_bounded}
use dsp_sim_bridge.W5300.Channel.Sent.{Confirmed, piece_sent}
use dsp_sim_bridge.W5300.Simulated.{
  Chip, chip_bus, chip_platform, chip_adapter, chip_read, chip_write, values_at, register,
  chip_inbound, chip_outbound, chip_clock_quiet, chip_writes_quiet, sample_channel, sample_chip,
  sample_block,
}

-- SIM_START with the right version and hash, one INPUT_DATA with step index 0, and SIM_STOP.
abbrev session : List ℕ
session = 1 ∷ 6 ∷ 1 ∷ 0x5678 ∷ 0x1234 ∷ 2 ∷ 10 ∷ 0 ∷ 0 ∷ 7 ∷ 8 ∷ 9 ∷ 4 ∷ 0 ∷ []

abbrev ops : Ops (TcpChannel × Chip)
ops = tcp_ops chip_bus chip_platform chip_adapter

-- Every step of the Core and the transport, on the simulated chip.
unfoldable on_chip : ℕ → List ℕ → Block (TcpChannel × Chip)
unfolding executed is_socket_status swap16 read8 write8 issue_sn_cr poll_sn_cr get_sn_ssr get_sn_mr
    get_sn_ir set_sn_ir set_sn_tx_wrsr set_pair set_subr clear_subr set_gar set_sipr set_shar
    read_size read_stable get_sn_tx_fsr get_sn_rx_rsr write_words write_stream read_words
    read_stream reset_runtime runtime_operation_allowed sync_platform_generation channel_init
    socket_is_valid clear_udp_rx_datagram udp_packet_info_u16 complete_pending target_reached
    target_possible clear_socket_interrupts advance_target_state command_taken cr_polled advance_cr
    advance_phase advance_pending advance_for issue tcp_ops advanced confirm_piece
    await_confirmation send_more submitted submit_piece send_first send_in send state_of_status
    open_channel listen_channel note_connection get_connection_state receive close_fault close_done
    close_step close_issued begin_close udp_open_status dummy_send_result close_status poll_step
    close_in continue_close close_checked close_channel copy_size submit send_sized send_free
    send_at send_words socket_send advance_transfer advance_send_command advance_recv_command fetch
    recv_sized recv_free recv_pending socket_recv erratum_needed check_close_erratum space_for_octet
    dummy_tx_ready issue_udp_open set_destination issue_dummy_send issue_close poll_close_command
    complete_close_command start_udp_open socket_udp_open write_tcp_options start_open socket_open
    start_listen socket_listen socket_disconnect take_phase socket_take_pending register chip_read
    chip_write
on_chip n arrived = run_times ops n (init ops (sample_block arrived))

-- The whole session: two replies leave, RESPONSE(0) and OUTPUT_DATA, for eight commands of the
-- chip, and the last one is CLOSE's.
session_runs :
    let b = on_chip 60 session in
    (values_at (sn_tx_fifor 0) b.world.1.writes ≡ 5 ∷ 2 ∷ 0 ∷ 3 ∷ 6 ∷ 0 ∷ 0 ∷ 7 ∷ [])
    × (values_at (sn_cr 0) b.world.1.writes ≡ 64 ∷ 64 ∷ 32 ∷ 64 ∷ 64 ∷ 32 ∷ 64 ∷ 16 ∷ [])
    × (b.runtime.state ≡ wait_connection)
unfolding on_chip values_at
session_runs = (refl, refl, refl)

-- Accepted, with no octet received yet.
abbrev accepted : Block (TcpChannel × Chip)
accepted = on_chip 1 session

accepted-IsValid : IsValid accepted
unfolding on_chip
accepted-IsValid =
    init-run_times-IsValid ops 1 (sample_block session) (omega arith) refl (omega arith)
      (omega arith)

first_frame-Fed : Fed ops accepted (run ops (run ops (run ops accepted)))
unfolding on_chip
first_frame-Fed = Fed.more accepted refl (
    Fed.more (run ops accepted) refl (
      Fed.more (run ops (run ops accepted)) refl (Fed.done (run ops (run ops (run ops accepted))))))

tcp_frame_reassembled_example :
    let b = run ops (run ops (run ops accepted)) in
    take ((4 + b.runtime.rx_payload_length_octets) / 2) b.rx_frame_words ++ b.world.1.arrived
    ≡ session
unfolding on_chip
tcp_frame_reassembled_example =
    tcp_frame_reassembled chip_platform chip_adapter chip_inbound chip_clock_quiet accepted-IsValid
      refl first_frame-Fed refl

close_channel-IsStep_example :
    IsStep chip_bus
      (record sample_channel { close_start_us = 0 })
      (close_channel chip_bus chip_platform sample_channel (sample_chip [])).0
unfolding on_chip
close_channel-IsStep_example =
    close_channel-IsStep chip_bus chip_platform sample_channel (sample_chip [])

-- The channel after the first call of a close, while the chip is connected.
abbrev closing_channel : TcpChannel
closing_channel = (close_channel chip_bus chip_platform sample_channel (sample_chip [])).0.1

closing_channel-Closing : Closing chip_bus chip_platform 0 closing_channel
unfolding on_chip
closing_channel-Closing = Closing.begun sample_channel (sample_chip []) refl refl refl

abbrev late_chip : Chip
late_chip = record (sample_chip []) { clock = 1_000_000 }

close_channel_bounded_example :
    (close_channel chip_bus chip_platform closing_channel late_chip).0 ≡ close_fault closing_channel
unfolding on_chip
close_channel_bounded_example =
    close_channel_bounded chip_bus chip_platform late_chip closing_channel-Closing refl
      (omega arith)

abbrev faulted_channel : TcpChannel
faulted_channel = (close_fault sample_channel).1

-- A channel that is initialised again loses its fault, although the platform was not.
init_clears_fault :
    ((channel_init chip_platform faulted_channel (sample_chip [])).faulted ≡ false)
    × (faulted_channel.observed_platform_generation ≡ chip_platform.generation (sample_chip []))
unfolding on_chip
init_clears_fault = (refl, refl)

-- A channel from before the last initialisation of the platform.
abbrev old_channel : TcpChannel
old_channel = record faulted_channel { observed_platform_generation = 7 }

-- The first reply, which leaves in four calls.
abbrev replying : Block (TcpChannel × Chip)
replying = on_chip 5 session

replying-IsValid : IsValid replying
unfolding on_chip
replying-IsValid =
    init-run_times-IsValid ops 5 (sample_block session) (omega arith) refl (omega arith)
      (omega arith)

reply-Drained : Drained ops replying (run_times ops 4 replying)
unfolding on_chip
reply-Drained = Drained.more replying refl (
    Drained.more (run_times ops 1 replying) refl (
      Drained.more (run_times ops 2 replying) refl
        (Drained.more (run_times ops 3 replying) refl (Drained.done (run_times ops 4 replying)))))

tcp_frame_delivered_example :
    let b = run_times ops 4 replying in
    (b.world.0.send_state ≡ send_idle)
    × (values_at (sn_tx_fifor 0) b.world.1.writes ≡ 5 ∷ 2 ∷ 0 ∷ [])
unfolding on_chip values_at
tcp_frame_delivered_example =
    tcp_frame_delivered chip_platform chip_adapter chip_outbound chip_writes_quiet replying-IsValid
      refl refl refl reply-Drained refl

-- Three calls of send with six octets: a piece is submitted, its command taken, and it is confirmed.
abbrev after_send : ℕ → TcpChannel × Chip
after_send zero = (sample_channel, sample_chip [])
after_send (suc n) =
    let (c, w) = after_send n in
    let (result, c1, w1) = send chip_bus session (some 2) 6 c w in (c1, w1)

sample-Confirmed :
    Confirmed chip_bus session 2 6 6 sample_channel
      (sample_chip [])
      (after_send 3).0
      (after_send 3).1
unfolding on_chip
sample-Confirmed = Confirmed.waited (after_send 0).0 (after_send 0).1 refl (
    Confirmed.waited (after_send 1).0 (after_send 1).1 refl
      (Confirmed.confirmed (after_send 2).0 (after_send 2).1 refl))

piece_sent_example :
    ◌≤◌ 6 6 × (values_at (sn_tx_fifor 0) (after_send 3).1.writes ≡ 1 ∷ 0x5678 ∷ 0x1234 ∷ [])
unfolding on_chip values_at
piece_sent_example =
    piece_sent chip_outbound session 2 6 6 (omega arith) (omega arith) refl sample-Confirmed
