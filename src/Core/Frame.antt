-- ===== src/Core/Frame.antt =====
-- Acting on a complete frame: `c2837x_block_handle_sim_start`, `c2837x_block_handle_input_data`
-- and `c2837x_block_service_frame_ready` of dsp/src/c2837x_block.c.
use dsp_sim_bridge.Common.{
  ℕ, true, List, [], ◌∷◌, ◌==◌, ◌!=◌, is_zero, if◌then◌else◌, add32, join_words, low_word,
  high_word, get_or, drop, write_at,
}
use dsp_sim_bridge.Wire.{
  header_size_bytes, msg_sim_start, msg_input_data, msg_output_data, msg_sim_stop, err_ok,
  err_state, err_protocol_version, err_config_mismatch, err_internal, err_step_index,
  err_unknown_type, build_response,
}
use dsp_sim_bridge.Core.Types.{
  Ops, Block, protocol, algorithm_start, algorithm_step, tx_done_enter_sim_running,
  tx_done_advance_step, terminate_normal,
}
use dsp_sim_bridge.Core.Session.{start_sending, start_error_response, terminate_session}
use dsp_sim_bridge.Core.Receive.{is_waiting}

module _ {W : Type 0} (ops : Ops W) where
  -- The handshake is accepted unless `on_start` fails.
  unfoldable pub start_simulation : Block W → Block W
  start_simulation b =
      let (result, w) = ops.on_start b.world in
      let b1 = record b { world = w } in
      if is_zero result
      then (let (tx, frame_octets) = build_response b1.tx_frame_words err_ok in
          start_sending ops frame_octets tx_done_enter_sim_running (record b1 {
            runtime = record b1.runtime { algorithm_started = true };
            tx_frame_words = tx;
          }))
      else start_error_response ops algorithm_start err_internal b1

  unfoldable pub handle_sim_start : Block W → Block W
  handle_sim_start b =
      let payload = drop 2 b.rx_frame_words in
      let interface_hash = join_words (get_or payload 1 0) (get_or payload 2 0) in
      if is_waiting b.runtime.protocol_phase
      then (if get_or payload 0 0 != b.config.protocol_version
          then start_error_response ops protocol err_protocol_version b
          else if interface_hash != b.config.interface_hash
          then start_error_response ops protocol err_config_mismatch b
          else start_simulation b)
      else start_error_response ops protocol err_state b

  -- The four words in front of the user data, and the user data.
  unfoldable pub output_frame : ℕ → Block W → List ℕ
  output_frame step_index b = write_at 4 (ops.encode_output b.world) (
      write_at 0
        (msg_output_data
          ∷ b.config.output_payload_octets
          ∷ low_word step_index
          ∷ high_word step_index
          ∷ [])
        b.tx_frame_words)

  unfoldable pub simulate_step : ℕ → Block W → Block W
  simulate_step step_index b =
      let (result, w) = ops.on_step (ops.decode_input (drop 4 b.rx_frame_words) b.world) in
      let b1 = record b { world = w } in
      if is_zero result
      then start_sending ops (add32 header_size_bytes b1.config.output_payload_octets)
          tx_done_advance_step (record b1 { tx_frame_words = output_frame step_index b1 })
      else start_error_response ops algorithm_step err_internal b1

  unfoldable pub handle_input_data : Block W → Block W
  handle_input_data b =
      let payload = drop 2 b.rx_frame_words in
      let step_index = join_words (get_or payload 0 0) (get_or payload 1 0) in
      if step_index != b.runtime.expected_step_index
      then start_error_response ops protocol err_step_index b
      else simulate_step step_index b

  unfoldable pub service_frame_ready : Block W → Block W
  service_frame_ready b =
      let type = b.runtime.rx_msg_type in
      if type == msg_sim_start
      then handle_sim_start b
      else if type == msg_input_data
      then handle_input_data b
      else if type == msg_sim_stop
      then terminate_session ops terminate_normal b
      else start_error_response ops protocol err_unknown_type b
