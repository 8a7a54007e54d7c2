-- ===== src/Core/Invariant/Handling.antt =====
-- Acting on a frame keeps the invariant.
use dsp_sim_bridge.Common.{
  ℕ, ◌≡◌, Bool, true, false, List, arith, ◌==◌, ◌!=◌, is_zero, if_intro, length, length-write_at,
  refl, get_or, drop, join_words, ◌∙◌,
}
use mathlib.Core.Path.{subst}
use dsp_sim_bridge.Wire.{
  err_state, err_protocol_version, err_config_mismatch, err_internal, err_step_index,
  err_unknown_type, msg_sim_start, msg_input_data, msg_sim_stop,
}
use dsp_sim_bridge.Wire.Frames.{build_response_octets, length-build_response}
use dsp_sim_bridge.Core.Types.{
  Error, Config, Ops, Block, frame_ready, protocol, wait_sim_start, sim_running, algorithm_start,
  algorithm_step, terminate_normal,
}
use dsp_sim_bridge.Core.Session.{start_sending}
use dsp_sim_bridge.Core.Receive.{is_waiting}
use dsp_sim_bridge.Core.Frame.{
  start_simulation, handle_sim_start, output_frame, simulate_step, handle_input_data,
  service_frame_ready,
}
use dsp_sim_bridge.Core.Invariant.{Sound, IsSound, IsValid, StateOk}
use dsp_sim_bridge.Core.Invariant.Sending.{terminate_session-IsValid, start_error_response-IsValid}

-- A new transmit frame of the same size.
filled-Sound :
    {c : Config} {rx tx tx' : List ℕ} {latched : Bool} {error : Error}
    → length tx' ≡ length tx
    → Sound c rx tx latched error
    → Sound c rx tx' latched error
filled-Sound e s = record {
  in_range = s.in_range;
  limits = s.limits;
  rx_room = s.rx_room;
  tx_room = omega (arith, s.tx_room);
  latched_error = s.latched_error;
}

module _ {W : Type 0} (ops : Ops W) where
  length-output_frame :
      (step_index : ℕ) (b : Block W)
      → length (output_frame ops step_index b) ≡ length b.tx_frame_words
  unfolding output_frame
  length-output_frame step_index b =
      length-write_at 4 (ops.encode_output b.world) _ ∙ length-write_at 0 _ b.tx_frame_words

  start_simulation-IsValid :
      (b : Block W)
      → IsSound b
      → b.runtime.protocol_phase ≡ wait_sim_start
      → b.runtime.algorithm_started ≡ false
      → IsValid (start_simulation ops b)
  unfolding start_simulation start_sending
  start_simulation-IsValid b s p started =
      if_intro IsValid (is_zero (ops.on_start b.world).0)
        (λ _. record {
          sound = filled-Sound (length-build_response b.tx_frame_words 0) s;
          state_ok = ground (arith, build_response_octets b.tx_frame_words 0, s.limits);
        })
        (λ _.
          start_error_response-IsValid ops algorithm_start err_internal _ (λ e. cc) s
            (ground arith))

  handle_sim_start-IsValid :
      (b : Block W)
      → IsSound b
      → b.runtime.protocol_phase ≡ wait_sim_start
      → b.runtime.algorithm_started ≡ false
      → IsValid (handle_sim_start ops b)
  unfolding handle_sim_start
  handle_sim_start-IsValid b s p started =
      if_intro IsValid (is_waiting b.runtime.protocol_phase)
        (λ _.
          if_intro IsValid (get_or (drop 2 b.rx_frame_words) 0 0 != b.config.protocol_version)
            (λ _.
              start_error_response-IsValid ops protocol err_protocol_version b (λ e. cc) s
                (ground arith))
            (λ _.
              if_intro IsValid (join_words _ _ != b.config.interface_hash)
                (λ _.
                  start_error_response-IsValid ops protocol err_config_mismatch b (λ e. cc) s
                    (ground arith))
                (λ _. start_simulation-IsValid b s p started)))
        (λ _. start_error_response-IsValid ops protocol err_state b (λ e. cc) s (ground arith))

  simulate_step-IsValid :
      (step_index : ℕ) (b : Block W)
      → IsSound b
      → b.runtime.protocol_phase ≡ sim_running
      → b.runtime.algorithm_started ≡ true
      → IsValid (simulate_step ops step_index b)
  unfolding simulate_step start_sending
  simulate_step-IsValid step_index b s p started =
      let (result, w) = ops.on_step (ops.decode_input (drop 4 b.rx_frame_words) b.world) in
      if_intro IsValid (is_zero result)
        (λ _. record {
          sound = filled-Sound (length-output_frame step_index (record b { world = w })) s;
          state_ok = (
            ground (arith, s.limits, s.in_range),
            refl,
            ground (arith, s.limits, s.in_range),
            ground (arith, s.limits, s.in_range),
            (p, started),
          );
        })
        (λ _.
          start_error_response-IsValid ops algorithm_step err_internal (record b { world = w })
            (λ e. cc) s (ground arith))

  handle_input_data-IsValid :
      (b : Block W)
      → IsSound b
      → b.runtime.protocol_phase ≡ sim_running
      → b.runtime.algorithm_started ≡ true
      → IsValid (handle_input_data ops b)
  unfolding handle_input_data
  handle_input_data-IsValid b s p started =
      let step_index =
        join_words (get_or (drop 2 b.rx_frame_words) 0 0) (get_or (drop 2 b.rx_frame_words) 1 0) in
      if_intro IsValid (step_index != b.runtime.expected_step_index)
        (λ _. start_error_response-IsValid ops protocol err_step_index b (λ e. cc) s (ground arith))
        (λ _. simulate_step-IsValid step_index b s p started)

  pub service_frame_ready-IsValid :
      (b : Block W)
      → IsValid b
      → b.runtime.state ≡ frame_ready
      → IsValid (service_frame_ready ops b)
  unfolding service_frame_ready
  service_frame_ready-IsValid b v e =
      let a = subst (λ s. StateOk s b.config b.runtime) e v.state_ok in
      let type = b.runtime.rx_msg_type in
      if_intro IsValid (type == msg_sim_start)
        (λ h. handle_sim_start-IsValid b v.sound (ground (arith, a)) (ground (arith, a)))
        (λ _.
          if_intro IsValid (type == msg_input_data)
            (λ h. handle_input_data-IsValid b v.sound (ground (arith, a)) (ground (arith, a)))
            (λ _.
              if_intro IsValid (type == msg_sim_stop)
                (λ _. terminate_session-IsValid ops terminate_normal b v.sound)
                (λ _.
                  start_error_response-IsValid ops protocol err_unknown_type b (λ e. cc) v.sound
                    a.3)))
