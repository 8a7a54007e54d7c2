-- ===== src/Core/Invariant/Sending.antt =====
-- The shared operations and the services keep the invariant.
use dsp_sim_bridge.Common.{ℕ, ◌≡◌, arith, negsuc, pos, ℤ}
use dsp_sim_bridge.Core.Types.{
  Config, Runtime, State, TxDoneAction, terminate_error, tx_done_enter_sim_running,
  tx_done_receive_next, tx_done_advance_step, iodevice, timeout, sending,
}
use dsp_sim_bridge.Common.{sub32, is_odd, ltb, false, ◌/◌}
use dsp_sim_bridge.Core.Types.{Error, TerminationKind, Ops, Block, error_none, tx_done_close}
use mathlib.Core.Path.{subst}
use dsp_sim_bridge.Wire.Frames.{build_response_octets, length-build_response}
use dsp_sim_bridge.Common.{
  ◌||◌, sym, ◌==◌, if_intro, or_false_left, or_false_right, ◌≢◌, ◌%◌, ◌<◌, ◌≤◌,
}
use dsp_sim_bridge.Core.Session.{
  latch_error, terminate_session, fail_session, start_error_response, start_receiving,
  timeout_expired,
}
use dsp_sim_bridge.Core.Send.{
  check_sent, service_sending, finish_sending, finish_action, send_nothing, confirm_octets,
  send_result,
}
use dsp_sim_bridge.Core.Receive.{is_running, stamp_progress}
use dsp_sim_bridge.Core.Invariant.{IsSound, IsValid, ActionOk, StateOk}

pub at_state : (c : Config) (r : Runtime) {s t : State} → s ≡ t → StateOk t c r → StateOk s c r
at_state c r e a = subst (λ s. StateOk s c r) (sym e) a

unequal : (m n : ℕ) → m ≤ n → (m == n) ≡ false → m < n
unequal m n le ne = ground arith

module _ {W : Type 0} (ops : Ops W) where
  pub latch_error-IsSound :
      (error : Error) (b : Block W) → error ≢ error_none → IsSound b → IsSound (latch_error error b)
  unfolding latch_error
  latch_error-IsSound error b h s = ground arith

  pub terminate_session-IsValid :
      (kind : TerminationKind) (b : Block W) → IsSound b → IsValid (terminate_session ops kind b)
  unfolding terminate_session
  terminate_session-IsValid kind b s = ground arith

  pub fail_session-IsValid :
      (error : Error) (b : Block W)
      → error ≢ error_none
      → IsSound b
      → IsValid (fail_session ops error b)
  unfolding fail_session
  fail_session-IsValid error b h s = ground arith

  pub start_error_response-IsValid :
      (error : Error) (wire_error : ℕ) (b : Block W)
      → error ≢ error_none
      → IsSound b
      → b.runtime.algorithm_started ≡ is_running b.runtime.protocol_phase
      → IsValid (start_error_response ops error wire_error b)
  unfolding start_error_response
  start_error_response-IsValid error wire_error b h s a = ground (
    arith,
    build_response_octets b.tx_frame_words wire_error,
    length-build_response b.tx_frame_words wire_error,
  )

  finish_action-IsValid :
      (action : TxDoneAction) (now_us : ℕ) (b : Block W)
      → IsSound b
      → ActionOk action b.runtime.protocol_phase b.runtime.algorithm_started
          b.runtime.primary_error_latched
      → IsValid (finish_action ops action now_us b)
  unfolding finish_action start_receiving
  finish_action-IsValid tx_done_close now_us b s a = terminate_session-IsValid terminate_error b s
  finish_action-IsValid tx_done_enter_sim_running now_us b s a = record {
    sound = s;
    state_ok = ground arith;
  }
  finish_action-IsValid tx_done_receive_next now_us b s a = absurd a
  finish_action-IsValid tx_done_advance_step now_us b s a = record {
    sound = s;
    state_ok = ground arith;
  }

  send_nothing-IsValid :
      (b : Block W)
      → IsSound b
      → StateOk sending b.config b.runtime
      → b.runtime.state ≡ sending
      → IsValid (send_nothing ops b)
  unfolding send_nothing timeout_expired
  send_nothing-IsValid b s a e =
      let b1 = record b { world = (ops.time_us b.world).1 } in
      if_intro IsValid _ (λ _. fail_session-IsValid timeout b1 (λ h. cc) s)
        (λ _. record { sound = s; state_ok = at_state _ _ e a })

  check_sent-IsValid :
      (b : Block W)
      → IsSound b
      → b.runtime.state ≡ sending
      → b.runtime.tx_sent_octets ≤ b.runtime.tx_total_octets
      → b.runtime.tx_sent_octets % 2 ≡ 0
      → b.runtime.tx_total_octets % 2 ≡ 0
      → b.runtime.tx_total_octets ≤ b.config.tx_frame_capacity_octets
      → ActionOk b.runtime.tx_done_action b.runtime.protocol_phase b.runtime.algorithm_started
          b.runtime.primary_error_latched
      → IsValid (check_sent ops b)
  unfolding check_sent finish_sending
  check_sent-IsValid b s e le even_sent even room a =
      if_intro IsValid _ (λ _. finish_action-IsValid b.runtime.tx_done_action _ _ s a)
        (λ more. record {
          sound = s;
          state_ok = at_state _ _ e (unequal _ _ le more, even_sent, even, room, a);
        })

  confirm_octets-IsValid :
      (n : ℕ) (b : Block W)
      → IsSound b
      → StateOk sending b.config b.runtime
      → b.runtime.state ≡ sending
      → is_odd n ≡ false
      → ltb (sub32 b.runtime.tx_total_octets b.runtime.tx_sent_octets) n ≡ false
      → IsValid (confirm_octets ops n b)
  unfolding confirm_octets stamp_progress
  confirm_octets-IsValid n b s a e odd fits =
      check_sent-IsValid _ s e (ground (arith, s.limits)) (ground arith) a.2 a.3 a.4

  send_result-IsValid :
      (r : ℤ) (b : Block W)
      → IsSound b
      → StateOk sending b.config b.runtime
      → b.runtime.state ≡ sending
      → IsValid (send_result ops r (sub32 b.runtime.tx_total_octets b.runtime.tx_sent_octets) b)
  unfolding send_result
  send_result-IsValid (negsuc n) b s a e = fail_session-IsValid iodevice b (λ e. cc) s
  send_result-IsValid (pos n) b s a e =
      let remaining = sub32 b.runtime.tx_total_octets b.runtime.tx_sent_octets in
      if_intro IsValid (n == 0) (λ _. send_nothing-IsValid b s a e)
        (λ _.
          if_intro IsValid (is_odd n || ltb remaining n)
            (λ _. fail_session-IsValid iodevice b (λ e. cc) s)
            (λ good.
              confirm_octets-IsValid n b s a e (or_false_left (is_odd n) _ good)
                (or_false_right (is_odd n) _ good)))

  pub service_sending-IsValid :
      (b : Block W) → IsValid b → b.runtime.state ≡ sending → IsValid (service_sending ops b)
  unfolding service_sending
  service_sending-IsValid b v e =
      let (r, w) =
        ops.send b.tx_frame_words (b.runtime.tx_sent_octets / 2)
          (sub32 b.runtime.tx_total_octets b.runtime.tx_sent_octets) b.world in
      send_result-IsValid r (record b { world = w }) v.sound
        (subst (λ s. StateOk s b.config b.runtime) e v.state_ok) e
