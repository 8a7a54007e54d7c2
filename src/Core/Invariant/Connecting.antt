-- ===== src/Core/Invariant/Connecting.antt =====
-- The service that waits for a connection keeps an instance well formed.
use dsp_sim_bridge.Common.{ℤ, pos, negsuc, ◌≡◌, ◌≢◌, arith, ◌==◌, is_negative, if_intro}
use mathlib.Core.Path.{subst}
use dsp_sim_bridge.Core.Types.{
  Error, IoConnectionState, Ops, Block, wait_connection, iodevice, disconnected, error_none, closed,
  open_, listening, connected, peer_closed, connection_error,
}
use dsp_sim_bridge.Core.Session.{latch_error, reset_rx, reset_tx, start_receiving}
use dsp_sim_bridge.Core.Run.{
  accept_connection, close_result, control_result, connection_result, service_wait_connection,
}
use dsp_sim_bridge.Core.Invariant.{IsSound, IsValid, StateOk}
use dsp_sim_bridge.Core.Invariant.Sending.{fail_session-IsValid, at_state}

module _ {W : Type 0} (ops : Ops W) where
  accept_connection-IsValid : (b : Block W) → IsSound b → IsValid (accept_connection ops b)
  unfolding accept_connection reset_rx reset_tx start_receiving
  accept_connection-IsValid b s = record {
    sound = record {
      in_range = s.in_range;
      limits = s.limits;
      rx_room = s.rx_room;
      tx_room = s.tx_room;
      latched_error = λ h. cc;
    };
    state_ok = ground arith;
  }

  latch_error-IsValid :
      (error : Error) (b : Block W)
      → error ≢ error_none
      → IsSound b
      → StateOk wait_connection b.config b.runtime
      → b.runtime.state ≡ wait_connection
      → IsValid (latch_error error b)
  unfolding latch_error
  latch_error-IsValid error b h s a e =
      if_intro IsValid b.runtime.primary_error_latched
        (λ _. record { sound = s; state_ok = at_state _ _ e a })
        (λ _. record {
          sound = record {
            in_range = s.in_range;
            limits = s.limits;
            rx_room = s.rx_room;
            tx_room = s.tx_room;
            latched_error = λ _. h;
          };
          state_ok = at_state _ _ e a;
        })

  close_result-IsValid :
      (r : ℤ) (b : Block W)
      → IsSound b
      → StateOk wait_connection b.config b.runtime
      → b.runtime.state ≡ wait_connection
      → IsValid (close_result r b)
  unfolding close_result
  close_result-IsValid (negsuc n) b s a e = latch_error-IsValid iodevice _ (λ h. cc) s a e
  close_result-IsValid (pos n) b s a e =
      if_intro IsValid (n == 0) (λ _. record { sound = s; state_ok = at_state _ _ e a })
        (λ _. record {
          sound = record {
            in_range = s.in_range;
            limits = s.limits;
            rx_room = s.rx_room;
            tx_room = s.tx_room;
            latched_error = λ h. cc;
          };
          state_ok = at_state _ _ e a;
        })

  control_result-IsValid :
      (r : ℤ) (w : W) (b : Block W)
      → IsSound b
      → StateOk wait_connection b.config b.runtime
      → b.runtime.state ≡ wait_connection
      → IsValid (control_result (r, w) b)
  unfolding control_result
  control_result-IsValid r w b s a e =
      if_intro IsValid (is_negative r)
        (λ _. latch_error-IsValid iodevice (record b { world = w }) (λ h. cc) s a e)
        (λ _. record { sound = s; state_ok = at_state _ _ e a })

  connection_result-IsValid :
      (c : IoConnectionState) (b : Block W)
      → IsSound b
      → StateOk wait_connection b.config b.runtime
      → b.runtime.state ≡ wait_connection
      → IsValid (connection_result ops c b)
  unfolding connection_result
  connection_result-IsValid closed b s a e = control_result-IsValid _ _ b s a e
  connection_result-IsValid open_ b s a e = control_result-IsValid _ _ b s a e
  connection_result-IsValid listening b s a e = record { sound = s; state_ok = at_state _ _ e a }
  connection_result-IsValid connected b s a e = accept_connection-IsValid b s
  connection_result-IsValid peer_closed b s a e =
      fail_session-IsValid ops disconnected b (λ h. cc) s
  connection_result-IsValid connection_error b s a e =
      latch_error-IsValid iodevice b (λ h. cc) s a e

  pub service_wait_connection-IsValid :
      (b : Block W)
      → IsValid b
      → b.runtime.state ≡ wait_connection
      → IsValid (service_wait_connection ops b)
  unfolding service_wait_connection
  service_wait_connection-IsValid b v e =
      let a = subst (λ s. StateOk s b.config b.runtime) e v.state_ok in
      let (r, w) = ops.close b.world in
      let (c, w') = ops.get_connection_state b.world in
      if_intro IsValid b.runtime.close_pending
        (λ _. close_result-IsValid r (record b { world = w }) v.sound a e)
        (λ _. connection_result-IsValid c (record b { world = w' }) v.sound a e)
