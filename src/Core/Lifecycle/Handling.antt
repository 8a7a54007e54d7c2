-- ===== src/Core/Lifecycle/Handling.antt =====
-- The rule for the service that acts on a complete frame.
use dsp_sim_bridge.Common.{
  ◌≡◌, sym, Bool, true, false, ◌==◌, ◌!=◌, is_zero, arith, if_intro, drop, get_or, join_words,
}
use mathlib.Core.Path.{subst}
use dsp_sim_bridge.Wire.{
  err_state, err_protocol_version, err_config_mismatch, err_internal, err_step_index,
  err_unknown_type, msg_sim_start, msg_input_data, msg_sim_stop,
}
use dsp_sim_bridge.Core.Types.{
  Ops, Block, protocol, algorithm_start, algorithm_step, terminate_normal,
}
use dsp_sim_bridge.Core.Session.{start_sending}
use dsp_sim_bridge.Core.Receive.{is_waiting}
use dsp_sim_bridge.Core.Frame.{
  start_simulation, handle_sim_start, simulate_step, handle_input_data, service_frame_ready,
}
use dsp_sim_bridge.Core.Lifecycle.{Keeps, Holds}
use dsp_sim_bridge.Core.Lifecycle.Ending.{start_error_response-Holds, terminate_session-Holds}

module _ {W : Type 0} {ops : Ops W} {P : Bool → W → Type 0} (k : Keeps ops P) where
  pub start_simulation-Holds :
      (b : Block W)
      → b.runtime.algorithm_started ≡ false
      → Holds P b
      → Holds P (start_simulation ops b)
  unfolding start_simulation start_sending
  start_simulation-Holds b stopped h =
      let h' = subst (λ s. P s b.world) stopped h in
      if_intro (Holds P) (is_zero (ops.on_start b.world).0)
        (λ t. k.time_keeps true _ (k.start_ok b.world t h'))
        (λ f.
          start_error_response-Holds k algorithm_start err_internal _
            (subst (λ s. P s (ops.on_start b.world).1) (sym stopped) (k.start_failed b.world f h')))

  pub handle_sim_start-Holds :
      (b : Block W)
      → b.runtime.algorithm_started ≡ false
      → Holds P b
      → Holds P (handle_sim_start ops b)
  unfolding handle_sim_start
  handle_sim_start-Holds b stopped h =
      let payload = drop 2 b.rx_frame_words in
      if_intro (Holds P) (is_waiting b.runtime.protocol_phase)
        (λ _.
          if_intro (Holds P) (get_or payload 0 0 != b.config.protocol_version)
            (λ _. start_error_response-Holds k protocol err_protocol_version b h)
            (λ _.
              if_intro (Holds P)
                (join_words (get_or payload 1 0) (get_or payload 2 0) != b.config.interface_hash)
                (λ _. start_error_response-Holds k protocol err_config_mismatch b h)
                (λ _. start_simulation-Holds b stopped h)))
        (λ _. start_error_response-Holds k protocol err_state b h)

  pub handle_input_data-Holds : (b : Block W) → Holds P b → Holds P (handle_input_data ops b)
  unfolding handle_input_data simulate_step start_sending
  handle_input_data-Holds b h =
      let payload = drop 2 b.rx_frame_words in
      let index = join_words (get_or payload 0 0) (get_or payload 1 0) in
      let w = ops.decode_input (drop 4 b.rx_frame_words) b.world in
      let h' = k.step_keeps _ w (k.decode_keeps _ _ _ h) in
      if_intro (Holds P) (index != b.runtime.expected_step_index)
        (λ _. start_error_response-Holds k protocol err_step_index b h)
        (λ _.
          if_intro (Holds P) (is_zero (ops.on_step w).0) (λ _. k.time_keeps _ _ h')
            (λ _. start_error_response-Holds k algorithm_step err_internal _ h'))

  pub service_frame_ready-Holds :
      (b : Block W)
      → (b.runtime.rx_msg_type ≡ msg_sim_start → b.runtime.algorithm_started ≡ false)
      → Holds P b
      → Holds P (service_frame_ready ops b)
  unfolding service_frame_ready
  service_frame_ready-Holds b stopped h =
      let type = b.runtime.rx_msg_type in
      if_intro (Holds P) (type == msg_sim_start)
        (λ t. handle_sim_start-Holds b (stopped (ground arith)) h)
        (λ _.
          if_intro (Holds P) (type == msg_input_data) (λ _. handle_input_data-Holds b h)
            (λ _.
              if_intro (Holds P) (type == msg_sim_stop)
                (λ _. terminate_session-Holds k terminate_normal b h)
                (λ _. start_error_response-Holds k protocol err_unknown_type b h)))
