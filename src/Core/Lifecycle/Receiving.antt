-- ===== src/Core/Lifecycle/Receiving.antt =====
-- The rule for the services that wait for a connection and receive.
use dsp_sim_bridge.Common.{
  ℕ, ℤ, pos, negsuc, ◌≡◌, sym, inl, inr, ◌||◌, Bool, false, ltb, ◌==◌, is_odd, is_negative,
  if_intro, add32,
}
use mathlib.Core.Path.{subst}
use dsp_sim_bridge.Wire.{header_size_bytes, err_state, err_unknown_type, err_payload_length}
use dsp_sim_bridge.Core.Types.{
  HeaderResult, RxPhase, IoConnectionState, Ops, Block, protocol, iodevice, disconnected, closed,
  open_, listening, connected, peer_closed, connection_error, header_valid, header_unknown_type,
  header_state_error, header_length_error, rx_header, rx_payload,
}
use dsp_sim_bridge.Core.Session.{reset_rx, reset_tx, start_receiving}
use dsp_sim_bridge.Core.Receive.{
  validate_header, handle_header_result, receive_nothing, header_complete, accept_octets,
  receive_result, service_receiving, receive_window,
}
use dsp_sim_bridge.Core.Run.{
  accept_connection, close_result, control_result, connection_result, service_wait_connection,
}
use dsp_sim_bridge.Core.Invariant.Header.{validate_header_lem}
use dsp_sim_bridge.Core.Lifecycle.{Keeps, Holds}
use dsp_sim_bridge.Core.Lifecycle.Ending.{
  fail_session-Holds, latch_error-Holds, stamp_progress-Holds, start_error_response-Holds,
  timed_out-Holds,
}

module _ {W : Type 0} {ops : Ops W} {P : Bool → W → Type 0} (k : Keeps ops P) where
  pub validate_header-Holds : (b : Block W) → Holds P b → Holds P (validate_header b).1
  validate_header-Holds b h = elim (validate_header_lem b) [
    | inl v ↦ subst (Holds P) (sym v.1) h
    | inr v ↦ subst (Holds P) (sym v.1) h
  ]

  pub accept_connection-Holds :
      (b : Block W)
      → b.runtime.algorithm_started ≡ false
      → Holds P b
      → Holds P (accept_connection ops b)
  unfolding accept_connection start_receiving reset_rx reset_tx
  accept_connection-Holds b stopped h =
      k.time_keeps false _ (k.reset_keeps false _ (subst (λ s. P s b.world) stopped h))

  pub header_complete-Holds :
      (r : HeaderResult) (b : Block W) → Holds P b → Holds P (header_complete ops r b)
  unfolding header_complete handle_header_result
  header_complete-Holds header_valid b h =
      stamp_progress-Holds k _
        (if_intro (Holds P) (b.runtime.rx_payload_length_octets == 0) (λ _. h) (λ _. h))
  header_complete-Holds header_unknown_type b h =
      start_error_response-Holds k protocol err_unknown_type b h
  header_complete-Holds header_state_error b h = start_error_response-Holds k protocol err_state b h
  header_complete-Holds header_length_error b h =
      start_error_response-Holds k protocol err_payload_length b h

  pub accept_octets-Holds :
      (phase : RxPhase) (n : ℕ) (b : Block W) → Holds P b → Holds P (accept_octets ops phase n b)
  unfolding accept_octets
  accept_octets-Holds rx_header n b h =
      if_intro (Holds P) (ltb (add32 b.runtime.rx_header_received_octets n) header_size_bytes)
        (λ _. stamp_progress-Holds k _ h)
        (λ _. header_complete-Holds _ _ (validate_header-Holds _ h))
  accept_octets-Holds rx_payload n b h = stamp_progress-Holds k _ (
      if_intro (Holds P)
        (add32 b.runtime.rx_payload_received_octets n == b.runtime.rx_payload_length_octets)
        (λ _. h) (λ _. h))

  pub receive_result-Holds :
      (r : ℤ) (remaining : ℕ) (b : Block W) → Holds P b → Holds P (receive_result ops r remaining b)
  unfolding receive_result receive_nothing
  receive_result-Holds (negsuc n) remaining b h = fail_session-Holds k iodevice b h
  receive_result-Holds (pos n) remaining b h =
      if_intro (Holds P) (n == 0) (λ _. timed_out-Holds k _ _ b h)
        (λ _.
          if_intro (Holds P) (is_odd n || ltb remaining n) (λ _. fail_session-Holds k iodevice b h)
            (λ _. accept_octets-Holds b.runtime.rx_phase n b h))

  pub service_receiving-Holds : (b : Block W) → Holds P b → Holds P (service_receiving ops b)
  unfolding service_receiving
  service_receiving-Holds b h =
      let remaining = (receive_window b.runtime.rx_phase b.runtime).0 in
      receive_result-Holds (ops.receive remaining b.world).0 remaining _
        (k.receive_keeps _ remaining _ h)

  pub connection_result-Holds :
      (c : IoConnectionState) (b : Block W)
      → b.runtime.algorithm_started ≡ false
      → Holds P b
      → Holds P (connection_result ops c b)
  unfolding connection_result control_result
  connection_result-Holds closed b stopped h =
      if_intro (Holds P) (is_negative (ops.open_op b.world).0)
        (λ _. latch_error-Holds k iodevice _ (k.open_keeps _ _ h)) (λ _. k.open_keeps _ _ h)
  connection_result-Holds open_ b stopped h =
      if_intro (Holds P) (is_negative (ops.listen b.world).0)
        (λ _. latch_error-Holds k iodevice _ (k.listen_keeps _ _ h)) (λ _. k.listen_keeps _ _ h)
  connection_result-Holds listening b stopped h = h
  connection_result-Holds connected b stopped h = accept_connection-Holds b stopped h
  connection_result-Holds peer_closed b stopped h = fail_session-Holds k disconnected b h
  connection_result-Holds connection_error b stopped h = latch_error-Holds k iodevice b h

  pub close_result-Holds : (r : ℤ) (b : Block W) → Holds P b → Holds P (close_result r b)
  unfolding close_result
  close_result-Holds (negsuc n) b h = latch_error-Holds k iodevice _ h
  close_result-Holds (pos n) b h = if_intro (Holds P) (n == 0) (λ _. h) (λ _. h)

  pub service_wait_connection-Holds :
      (b : Block W)
      → b.runtime.algorithm_started ≡ false
      → Holds P b
      → Holds P (service_wait_connection ops b)
  unfolding service_wait_connection
  service_wait_connection-Holds b stopped h =
      if_intro (Holds P) b.runtime.close_pending
        (λ _. close_result-Holds (ops.close b.world).0 _ (k.close_keeps _ _ h))
        (λ _.
          connection_result-Holds (ops.get_connection_state b.world).0 _ stopped
            (k.connection_keeps _ _ h))
