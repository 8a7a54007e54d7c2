-- ===== src/Core/Lifecycle/Sending.antt =====
-- The rule for the service that sends.
use dsp_sim_bridge.Common.{ℕ, ℤ, pos, negsuc, ◌||◌, Bool, ltb, ◌==◌, is_odd, if_intro, ◌/◌}
use dsp_sim_bridge.Core.Types.{
  TxDoneAction, Ops, Block, iodevice, terminate_error, tx_done_close, tx_done_enter_sim_running,
  tx_done_receive_next, tx_done_advance_step,
}
use dsp_sim_bridge.Core.Session.{start_receiving}
use dsp_sim_bridge.Core.Send.{
  finish_action, finish_sending, send_nothing, check_sent, confirm_octets, send_result,
  service_sending,
}
use dsp_sim_bridge.Core.Lifecycle.{Keeps, Holds}
use dsp_sim_bridge.Core.Lifecycle.Ending.{
  fail_session-Holds, stamp_progress-Holds, terminate_session-Holds, timed_out-Holds,
}

module _ {W : Type 0} {ops : Ops W} {P : Bool → W → Type 0} (k : Keeps ops P) where
  pub finish_action-Holds :
      (a : TxDoneAction) (now_us : ℕ) (b : Block W)
      → Holds P b
      → Holds P (finish_action ops a now_us b)
  unfolding finish_action start_receiving
  finish_action-Holds tx_done_close now_us b h = terminate_session-Holds k terminate_error b h
  finish_action-Holds tx_done_enter_sim_running now_us b h = h
  finish_action-Holds tx_done_receive_next now_us b h = h
  finish_action-Holds tx_done_advance_step now_us b h = h

  pub check_sent-Holds : (b : Block W) → Holds P b → Holds P (check_sent ops b)
  unfolding check_sent finish_sending
  check_sent-Holds b h =
      if_intro (Holds P) (b.runtime.tx_sent_octets == b.runtime.tx_total_octets)
        (λ _. finish_action-Holds b.runtime.tx_done_action _ _ h) (λ _. h)

  pub send_result-Holds :
      (r : ℤ) (remaining : ℕ) (b : Block W) → Holds P b → Holds P (send_result ops r remaining b)
  unfolding send_result send_nothing confirm_octets
  send_result-Holds (negsuc n) remaining b h = fail_session-Holds k iodevice b h
  send_result-Holds (pos n) remaining b h =
      if_intro (Holds P) (n == 0) (λ _. timed_out-Holds k _ _ b h)
        (λ _.
          if_intro (Holds P) (is_odd n || ltb remaining n) (λ _. fail_session-Holds k iodevice b h)
            (λ _. check_sent-Holds _ (stamp_progress-Holds k _ h)))

  pub service_sending-Holds : (b : Block W) → Holds P b → Holds P (service_sending ops b)
  unfolding service_sending
  service_sending-Holds b h =
      send_result-Holds _ _ _ (k.send_keeps _ b.tx_frame_words (b.runtime.tx_sent_octets / 2) _ _ h)
