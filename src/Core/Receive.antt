-- ===== src/Core/Receive.antt =====
-- Receiving a frame: `c2837x_block_validate_header`, `c2837x_block_handle_header_result` and
-- `c2837x_block_service_receiving` of dsp/src/c2837x_block.c.
use dsp_sim_bridge.Common.{
  ℕ, ◌/◌, Bool, true, false, ◌||◌, ℤ, pos, negsuc, ltb, ◌==◌, ◌!=◌, is_odd, if◌then◌else◌, add32,
  sub32, get_or, write_at,
}
use dsp_sim_bridge.Wire.{
  header_size_bytes, sim_start_payload_size_bytes, msg_sim_start, msg_input_data, msg_output_data,
  msg_sim_stop, msg_response, err_unknown_type, err_state, err_payload_length,
}
use dsp_sim_bridge.Core.Types.{
  Runtime, ProtocolPhase, RxPhase, HeaderResult, WaitKind, Ops, Block, wait_sim_start, sim_running,
  rx_header, rx_payload, wait_interaction, wait_transfer, header_valid, header_unknown_type,
  header_state_error, header_length_error, frame_ready, iodevice, timeout, protocol,
}
use dsp_sim_bridge.Core.Session.{timeout_expired, fail_session, start_error_response}

abbrev pub is_waiting : ProtocolPhase → Bool
is_waiting wait_sim_start = true
is_waiting sim_running = false

abbrev pub is_running : ProtocolPhase → Bool
is_running wait_sim_start = false
is_running sim_running = true

-- How many octets are still wanted, and the word of the frame where they go.
unfoldable pub receive_window : RxPhase → Runtime → ℕ × ℕ
receive_window rx_header r =
    (sub32 header_size_bytes r.rx_header_received_octets, r.rx_header_received_octets / 2)
receive_window rx_payload r = (
  sub32 r.rx_payload_length_octets r.rx_payload_received_octets,
  add32 header_size_bytes r.rx_payload_received_octets / 2,
)

module _ {W : Type 0} where
  -- The part of `c2837x_block_validate_header` behind the `switch`.
  unfoldable pub check_header : Bool → ℕ → ℕ → ℕ → Block W → HeaderResult × Block W
  check_header allowed expected_length type length b =
      if allowed
      then (if is_odd length
            || ltb b.config.max_payload_octets length
            || ltb b.config.rx_frame_capacity_octets (add32 header_size_bytes length)
            || length != expected_length
          then (header_length_error, b)
          else (
            header_valid,
            record b {
              runtime = record b.runtime { rx_msg_type = type; rx_payload_length_octets = length };
            },
          ))
      else (header_state_error, b)

  unfoldable pub validate_header : Block W → HeaderResult × Block W
  unfolding check_header
  validate_header b =
      let type = get_or b.rx_frame_words 0 0 in
      let length = get_or b.rx_frame_words 1 0 in
      let phase = b.runtime.protocol_phase in
      if type == msg_sim_start
      then check_header (is_waiting phase) sim_start_payload_size_bytes type length b
      else if type == msg_input_data
      then check_header (is_running phase) b.config.input_payload_octets type length b
      else if type == msg_sim_stop
      then check_header (is_running phase) 0 type length b
      else if type == msg_output_data || type == msg_response
      then (header_state_error, b)
      else (header_unknown_type, b)

module _ {W : Type 0} (ops : Ops W) where
  unfoldable pub handle_header_result : HeaderResult → Block W → Block W
  handle_header_result header_unknown_type b = start_error_response ops protocol err_unknown_type b
  handle_header_result header_state_error b = start_error_response ops protocol err_state b
  handle_header_result header_length_error b =
      start_error_response ops protocol err_payload_length b
  handle_header_result header_valid b = b

  -- `progress_start_us = time_us()`
  unfoldable pub stamp_progress : Block W → Block W
  stamp_progress b =
      let (now_us, w) = ops.time_us b.world in
      record b { runtime = record b.runtime { progress_start_us = now_us }; world = w }

  unfoldable pub wait_timeout_us : WaitKind → Block W → ℕ
  wait_timeout_us wait_interaction b = b.config.interaction_timeout_us
  wait_timeout_us wait_transfer b = b.config.transfer_timeout_us

  -- The branch `received_octets == 0`.
  unfoldable pub receive_nothing : Block W → Block W
  unfolding wait_timeout_us
  receive_nothing b =
      let (expired, b1) =
        timeout_expired ops b.runtime.progress_start_us
          (wait_timeout_us b.runtime.receive_wait_kind b) b in
      if expired then fail_session ops timeout b1 else b1

  -- The header is complete.
  unfoldable pub header_complete : HeaderResult → Block W → Block W
  header_complete header_valid b = stamp_progress (
      if b.runtime.rx_payload_length_octets == 0
      then record b { runtime = record b.runtime { state = frame_ready } }
      else record b { runtime = record b.runtime { rx_phase = rx_payload } })
  header_complete header_unknown_type b = handle_header_result header_unknown_type b
  header_complete header_state_error b = handle_header_result header_state_error b
  header_complete header_length_error b = handle_header_result header_length_error b

  -- The end of `c2837x_block_service_receiving`, in either phase.
  unfoldable pub accept_octets : RxPhase → ℕ → Block W → Block W
  accept_octets rx_header received b =
      let b1 = record b {
        runtime = record b.runtime {
          receive_wait_kind = wait_transfer;
          rx_header_received_octets = add32 b.runtime.rx_header_received_octets received;
        };
      } in
      if ltb b1.runtime.rx_header_received_octets header_size_bytes
      then stamp_progress b1
      else let (result, b2) = validate_header b1 in header_complete result b2
  accept_octets rx_payload received b =
      let b1 = record b {
        runtime = record b.runtime {
          receive_wait_kind = wait_transfer;
          rx_payload_received_octets = add32 b.runtime.rx_payload_received_octets received;
        };
      } in
      stamp_progress (
        if b1.runtime.rx_payload_received_octets == b1.runtime.rx_payload_length_octets
        then record b1 { runtime = record b1.runtime { state = frame_ready } }
        else b1)

  -- What follows the call of `receive`, by its result.
  unfoldable pub receive_result : ℤ → ℕ → Block W → Block W
  receive_result (negsuc n) remaining b = fail_session ops iodevice b
  receive_result (pos n) remaining b =
      if n == 0
      then receive_nothing b
      else if is_odd n || ltb remaining n
      then fail_session ops iodevice b
      else accept_octets b.runtime.rx_phase n b

  unfoldable pub service_receiving : Block W → Block W
  service_receiving b =
      let (remaining, at) = receive_window b.runtime.rx_phase b.runtime in
      let (received, words, w) = ops.receive remaining b.world in
      receive_result received remaining
        (record b { rx_frame_words = write_at at words b.rx_frame_words; world = w })
