-- ===== src/Core/Lifecycle/Rule.antt =====
-- The rule: a predicate that the callbacks keep holds after every call of `C2837xBlock_Run`.
use dsp_sim_bridge.Common.{ℕ, zero, suc, Bool, arith}
use dsp_sim_bridge.Core.Types.{
  State, Ops, Block, inert, wait_connection, receiving, frame_ready, sending, unlisted,
}
use dsp_sim_bridge.Core.Run.{dispatch, run, run_times}
use dsp_sim_bridge.Core.Invariant.{IsValid, StateOk}
use dsp_sim_bridge.Core.Invariant.Preserved.{run-IsValid}
use dsp_sim_bridge.Core.Lifecycle.{Keeps, Holds}
use dsp_sim_bridge.Core.Lifecycle.Receiving.{service_receiving-Holds, service_wait_connection-Holds}
use dsp_sim_bridge.Core.Lifecycle.Handling.{service_frame_ready-Holds}
use dsp_sim_bridge.Core.Lifecycle.Sending.{service_sending-Holds}

module _ {W : Type 0} {ops : Ops W} {P : Bool → W → Type 0} (k : Keeps ops P) where
  pub dispatch-Holds :
      (s : State) (b : Block W)
      → StateOk s b.config b.runtime
      → Holds P b
      → Holds P (dispatch ops s b)
  unfolding dispatch
  dispatch-Holds inert b a h = h
  dispatch-Holds wait_connection b a h = service_wait_connection-Holds k b a.0 h
  dispatch-Holds receiving b a h = service_receiving-Holds k b h
  dispatch-Holds frame_ready b a h = service_frame_ready-Holds k b (λ t. ground (arith, a)) h
  dispatch-Holds sending b a h = service_sending-Holds k b h
  dispatch-Holds unlisted b a h = absurd a

  pub run-Holds : (b : Block W) → IsValid b → Holds P b → Holds P (run ops b)
  unfolding run
  run-Holds b v h = dispatch-Holds b.runtime.state b v.state_ok h

  pub run_times-Holds : (n : ℕ) (b : Block W) → IsValid b → Holds P b → Holds P (run_times ops n b)
  unfolding run_times
  run_times-Holds zero b v h = h
  run_times-Holds (suc n) b v h =
      run_times-Holds n (run ops b) (run-IsValid ops b v) (run-Holds b v h)
