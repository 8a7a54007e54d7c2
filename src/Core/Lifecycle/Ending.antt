-- ===== src/Core/Lifecycle/Ending.antt =====
-- The rule for the operations that the services share: errors, the end of a session, timeouts.
use dsp_sim_bridge.Common.{ℕ, ◌≡◌, sym, Bool, false, arith, if◌then◌else◌, if_intro}
use mathlib.Core.Path.{subst}
use dsp_sim_bridge.Core.Types.{Error, TerminationKind, Ops, Block, timeout, terminate_error}
use dsp_sim_bridge.Core.Session.{
  latch_error, fail_session, start_error_response, stop_algorithm, terminate_session,
  timeout_expired,
}
use dsp_sim_bridge.Core.Receive.{stamp_progress}
use dsp_sim_bridge.Core.Lifecycle.{Keeps, Holds}

algorithm_started-stop_algorithm :
    {W : Type 0} (ops : Ops W) (b : Block W)
    → (stop_algorithm ops b).runtime.algorithm_started ≡ false
unfolding stop_algorithm
algorithm_started-stop_algorithm ops b = ground arith

module _ {W : Type 0} {ops : Ops W} {P : Bool → W → Type 0} (k : Keeps ops P) where
  pub latch_error-Holds : (e : Error) (b : Block W) → Holds P b → Holds P (latch_error e b)
  unfolding latch_error
  latch_error-Holds e b h = if_intro (Holds P) b.runtime.primary_error_latched (λ _. h) (λ _. h)

  pub stop_algorithm-Holds : (b : Block W) → Holds P b → P false (stop_algorithm ops b).world
  unfolding stop_algorithm
  stop_algorithm-Holds b h =
      if_intro (λ (b' : Block W). P false b'.world) b.runtime.algorithm_started
        (λ t. k.stop_stops _ (subst (λ s. P s b.world) t h)) (λ f. subst (λ s. P s b.world) f h)

  pub terminate_session-Holds :
      (kind : TerminationKind) (b : Block W) → Holds P b → Holds P (terminate_session ops kind b)
  unfolding terminate_session
  terminate_session-Holds kind b h =
      subst (λ s. P s (ops.reset_io (stop_algorithm ops b).world))
        (sym (algorithm_started-stop_algorithm ops b))
        (k.reset_keeps _ _ (stop_algorithm-Holds b h))

  pub fail_session-Holds : (e : Error) (b : Block W) → Holds P b → Holds P (fail_session ops e b)
  unfolding fail_session
  fail_session-Holds e b h = terminate_session-Holds terminate_error _ (latch_error-Holds e b h)

  pub start_error_response-Holds :
      (e : Error) (wire : ℕ) (b : Block W) → Holds P b → Holds P (start_error_response ops e wire b)
  unfolding start_error_response
  start_error_response-Holds e wire b h = k.time_keeps _ _ (latch_error-Holds e b h)

  pub stamp_progress-Holds : (b : Block W) → Holds P b → Holds P (stamp_progress ops b)
  unfolding stamp_progress
  stamp_progress-Holds b h = k.time_keeps _ _ h

  pub timed_out-Holds :
      (start_us timeout_us : ℕ) (b : Block W)
      → Holds P b
      → let (expired, b1) = timeout_expired ops start_us timeout_us b in
        Holds P (if expired then fail_session ops timeout b1 else b1)
  unfolding timeout_expired
  timed_out-Holds start_us timeout_us b h =
      let h1 = k.time_keeps _ _ h in
      if_intro (Holds P) (timeout_expired ops start_us timeout_us b).0
        (λ _. fail_session-Holds timeout _ h1) (λ _. h1)
