-- ===== src/Core/Run.antt =====
-- The connection service and the public entry points: `c2837x_block_accept_connection`,
-- `c2837x_block_service_wait_connection`, `C2837xBlock_Init`, `C2837xBlock_Run` and
-- `C2837xBlock_GetLastError` of dsp/src/c2837x_block.c.
use dsp_sim_bridge.Common.{
  ℕ, false, ℤ, pos, negsuc, Option, none, some, ◌==◌, is_negative, if◌then◌else◌,
}
use dsp_sim_bridge.Core.Types.{
  State, IoConnectionState, Error, Runtime, Ops, Block, inert, wait_connection, receiving,
  frame_ready, sending, unlisted, wait_sim_start, rx_header, wait_transfer, tx_done_close, closed,
  open_, listening, connected, peer_closed, connection_error, error_none, invalid_argument,
  disconnected, iodevice, internal,
}
use dsp_sim_bridge.Core.Config.{config_is_valid}
use dsp_sim_bridge.Wire.{build_response}
use dsp_sim_bridge.Core.Session.{
  latch_error, reset_rx, reset_tx, timeout_expired, start_receiving, start_sending, stop_algorithm,
  terminate_session, fail_session, start_error_response,
}
use dsp_sim_bridge.Core.Receive.{
  check_header, validate_header, receive_window, handle_header_result, stamp_progress,
  wait_timeout_us, receive_nothing, header_complete, accept_octets, receive_result,
  service_receiving,
}
use dsp_sim_bridge.Core.Frame.{
  start_simulation, handle_sim_start, output_frame, simulate_step, handle_input_data,
  service_frame_ready,
}
use dsp_sim_bridge.Core.Send.{
  finish_action, finish_sending, send_nothing, check_sent, confirm_octets, send_result,
  service_sending,
}

-- `memset` to 0 and the state INERT.
abbrev pub zeroed : Runtime
zeroed = record {
  state = inert;
  protocol_phase = wait_sim_start;
  rx_phase = rx_header;
  rx_header_received_octets = 0;
  rx_msg_type = 0;
  rx_payload_length_octets = 0;
  rx_payload_received_octets = 0;
  tx_total_octets = 0;
  tx_sent_octets = 0;
  expected_step_index = 0;
  progress_start_us = 0;
  receive_wait_kind = wait_transfer;
  algorithm_started = false;
  close_pending = false;
  primary_error_latched = false;
  normal_end_pending = false;
  tx_done_action = tx_done_close;
  response_error = 0;
  last_error = error_none;
}

module _ {W : Type 0} where
  -- The result of `close`: negative for a failure, 0 while it is busy, positive when it is done.
  unfoldable pub close_result : ℤ → Block W → Block W
  close_result (negsuc n) b = latch_error iodevice (record b {
    runtime = record b.runtime { close_pending = false; normal_end_pending = false };
  })
  close_result (pos n) b = if n == 0 then b else record b {
    runtime = record b.runtime {
      close_pending = false;
      last_error = if b.runtime.normal_end_pending then error_none else b.runtime.last_error;
      normal_end_pending = false;
      primary_error_latched = false;
    };
  }

  -- `open` and `listen` are asked for, and only a failure is looked at.
  unfoldable pub control_result : ℤ × W → Block W → Block W
  control_result (result, w) b =
      let b1 = record b { world = w } in if is_negative result then latch_error iodevice b1 else b1

module _ {W : Type 0} (ops : Ops W) where
  unfoldable pub accept_connection : Block W → Block W
  accept_connection b =
      let b1 = reset_tx (reset_rx b) in
      let (now_us, w) = ops.time_us (ops.reset_io b1.world) in
      start_receiving wait_transfer now_us (record b1 {
        runtime = record b1.runtime {
          protocol_phase = wait_sim_start;
          expected_step_index = 0;
          algorithm_started = false;
          close_pending = false;
          normal_end_pending = false;
          primary_error_latched = false;
        };
        world = w;
      })

  unfoldable pub connection_result : IoConnectionState → Block W → Block W
  connection_result closed b = control_result (ops.open_op b.world) b
  connection_result open_ b = control_result (ops.listen b.world) b
  connection_result listening b = b
  connection_result connected b = accept_connection b
  connection_result peer_closed b = fail_session ops disconnected b
  connection_result connection_error b = latch_error iodevice b

  unfoldable pub service_wait_connection : Block W → Block W
  service_wait_connection b =
      if b.runtime.close_pending
      then (let (result, w) = ops.close b.world in close_result result (record b { world = w }))
      else (let (connection_state, w) = ops.get_connection_state b.world in
          connection_result connection_state (record b { world = w }))

  -- `C2837xBlock_Init` at an instance that is not NULL.
  unfoldable pub init : Block W → Block W
  init b =
      if config_is_valid b.config
      then record b {
        runtime = record zeroed { state = wait_connection };
        world = ops.reset_io (ops.channel_init b.world);
      }
      else record b { runtime = record zeroed { last_error = invalid_argument } }

  unfoldable pub dispatch : State → Block W → Block W
  dispatch inert b = b
  dispatch wait_connection b = service_wait_connection b
  dispatch receiving b = service_receiving ops b
  dispatch frame_ready b = service_frame_ready ops b
  dispatch sending b = service_sending ops b
  dispatch unlisted b = fail_session ops internal b

  -- `C2837xBlock_Run` at an instance that is not NULL.
  unfoldable pub run : Block W → Block W
  run b = dispatch b.runtime.state b

  -- Calls of `C2837xBlock_Run` in a row: the main loop of the application.
  unfoldable pub run_times : ℕ → Block W → Block W
  run_times ℕ.zero b = b
  run_times (ℕ.suc n) b = run_times n (run b)

-- A NULL instance is `none`.
unfoldable pub get_last_error : {W : Type 0} → Option (Block W) → Error
get_last_error none = invalid_argument
get_last_error (some b) = b.runtime.last_error

-- Every step of the Core, for the modules that run it on concrete values.
unfoldable pub executed : {W : Type 0} → Ops W → Block W → Block W
unfolding config_is_valid run run_times init dispatch service_wait_connection connection_result
    control_result close_result accept_connection service_receiving receive_window receive_result
    receive_nothing accept_octets header_complete stamp_progress handle_header_result
    validate_header check_header service_frame_ready handle_sim_start start_simulation
    handle_input_data simulate_step output_frame service_sending send_result send_nothing
    confirm_octets check_sent finish_sending finish_action start_error_response build_response
    start_sending start_receiving reset_rx reset_tx latch_error timeout_expired wait_timeout_us
    terminate_session stop_algorithm fail_session
executed ops b = run ops b
