-- ===== src/Core/Timeout.antt =====
-- Timeouts of dsp/src/c2837x_block.c: `c2837x_block_timeout_expired` in the services, on a
-- free-running 32-bit clock.
use dsp_sim_bridge.Common.{
  ℕ, ◌^◌, ◌<◌, ◌≡◌, refl, ap, sym, ◌∙◌, Bool, true, false, List, ℤ, pos, arith, leb, sub32, add32,
  sub32-add32, if◌then◌else◌, write_at, ◌/◌,
}
use mathlib.Core.Path.{subst⁻¹}
use dsp_sim_bridge.Core.Types.{
  Error, WaitKind, Config, Ops, Block, wait_connection, wait_interaction, wait_transfer, timeout,
}
use dsp_sim_bridge.Core.Session.{
  latch_error, stop_algorithm, terminate_session, fail_session, timeout_expired,
}
use dsp_sim_bridge.Core.Receive.{
  receive_window, wait_timeout_us, receive_nothing, receive_result, service_receiving,
}
use dsp_sim_bridge.Core.Send.{send_nothing, send_result, service_sending}

module _ {W : Type 0} (ops : Ops W) where
  -- Whether the session was ended with the error TIMEOUT, or went on as it was; an error that was
  -- recorded before stays.
  pub record IsTimedOut (expired : Bool) (before after : Block W) : Type 0 where
    pub state : after.runtime.state ≡ (if expired then wait_connection else before.runtime.state)
    pub close_pending :
        after.runtime.close_pending ≡ (if expired then true else before.runtime.close_pending)
    pub last_error : after.runtime.last_error ≡ (
        if expired
        then (if before.runtime.primary_error_latched then before.runtime.last_error else timeout)
        else before.runtime.last_error)

  last_error-stop_algorithm :
      (b : Block W) → (stop_algorithm ops b).runtime.last_error ≡ b.runtime.last_error
  unfolding stop_algorithm
  last_error-stop_algorithm b = ground arith

  last_error-latch_error :
      (e : Error) (b : Block W)
      → (latch_error e b).runtime.last_error
        ≡ (if b.runtime.primary_error_latched then b.runtime.last_error else e)
  unfolding latch_error
  last_error-latch_error e b = ground arith

  ended-IsTimedOut :
      (expired : Bool) (before b : Block W)
      → b.runtime ≡ before.runtime
      → IsTimedOut expired before (if expired then fail_session ops timeout b else b)
  unfolding fail_session terminate_session
  ended-IsTimedOut true before b same = record {
    state = refl;
    close_pending = refl;
    last_error =
        last_error-stop_algorithm (latch_error timeout b)
        ∙ last_error-latch_error timeout b
        ∙ ap (λ r. if r.primary_error_latched then r.last_error else timeout) same;
  }
  ended-IsTimedOut false before b same = record {
    state = ap (λ r. r.state) same;
    close_pending = ap (λ r. r.close_pending) same;
    last_error = ap (λ r. r.last_error) same;
  }

  -- The test of the services, on a clock that shows `elapsed` microseconds since `start_us`.
  waited-IsTimedOut :
      (start_us limit_us elapsed : ℕ) (before b : Block W)
      → start_us < 2 ^ 32
      → elapsed < 2 ^ 32
      → (ops.time_us b.world).0 ≡ add32 start_us elapsed
      → b.runtime ≡ before.runtime
      → let (expired, b1) = timeout_expired ops start_us limit_us b in
        IsTimedOut
          (leb limit_us elapsed)
          before
          (if expired then fail_session ops timeout b1 else b1)
  unfolding timeout_expired
  waited-IsTimedOut start_us limit_us elapsed before b hs he now same =
      let b1 = record b { world = (ops.time_us b.world).1 } in
      let delta : sub32 (ops.time_us b.world).0 start_us ≡ elapsed =
        ap (λ t. sub32 t start_us) now ∙ sub32-add32 start_us elapsed hs he in
      subst⁻¹
        (λ d.
          IsTimedOut (leb limit_us elapsed) before
            (if leb limit_us d then fail_session ops timeout b1 else b1))
        delta (ended-IsTimedOut (leb limit_us elapsed) before b1 same)

  -- The limit for what an instance waits for: the next frame from the PC, or the rest of a frame.
  abbrev pub limit_us : WaitKind → Config → ℕ
  limit_us wait_interaction c = c.interaction_timeout_us
  limit_us wait_transfer c = c.transfer_timeout_us

  wait_timeout_us-limit_us :
      (kind : WaitKind) (b : Block W) → wait_timeout_us ops kind b ≡ limit_us kind b.config
  unfolding wait_timeout_us
  wait_timeout_us-limit_us wait_interaction b = refl
  wait_timeout_us-limit_us wait_transfer b = refl

  -- What the device answers to the call that the service makes.
  abbrev pub received : Block W → ℤ × List ℕ × W
  received b = ops.receive (receive_window b.runtime.rx_phase b.runtime).0 b.world

  abbrev pub sent : Block W → ℤ × W
  sent b =
      ops.send b.tx_frame_words (b.runtime.tx_sent_octets / 2)
        (sub32 b.runtime.tx_total_octets b.runtime.tx_sent_octets) b.world

  -- If the device has received nothing, a receiving instance ends its session with the error TIMEOUT,
  -- unless an error was recorded before, exactly if the time since the last progress has reached the
  -- interaction timeout, where it waits for an interaction, or the transfer timeout, where it waits for
  -- a transfer, and goes on receiving otherwise; the clock may have wrapped around.
  pub service_receiving-IsTimedOut :
      (b : Block W) (elapsed : ℕ)
      → b.runtime.progress_start_us < 2 ^ 32
      → elapsed < 2 ^ 32
      → (received b).0 ≡ pos 0
      → (ops.time_us (received b).2).0 ≡ add32 b.runtime.progress_start_us elapsed
      → IsTimedOut
          (leb (limit_us b.runtime.receive_wait_kind b.config) elapsed)
          b
          (service_receiving ops b)
  unfolding service_receiving receive_result receive_nothing
  service_receiving-IsTimedOut b elapsed hs he nothing now =
      let (remaining, at) = receive_window b.runtime.rx_phase b.runtime in
      let b1 = record b {
        rx_frame_words = write_at at (received b).1 b.rx_frame_words;
        world = (received b).2;
      } in
      subst⁻¹
        (λ r.
          IsTimedOut (leb (limit_us b.runtime.receive_wait_kind b.config) elapsed) b
            (receive_result ops r remaining b1))
        nothing
        (rw (sym (wait_timeout_us-limit_us b.runtime.receive_wait_kind b1)) (
          waited-IsTimedOut b.runtime.progress_start_us
            (wait_timeout_us ops b1.runtime.receive_wait_kind b1) elapsed b b1 hs he now refl))

  -- If the device takes nothing, a sending instance ends its session with the error TIMEOUT, unless
  -- an error was recorded before, exactly if the time since the last progress has reached the
  -- transfer timeout, and goes on sending otherwise; the clock may have wrapped around.
  pub service_sending-IsTimedOut :
      (b : Block W) (elapsed : ℕ)
      → b.runtime.progress_start_us < 2 ^ 32
      → elapsed < 2 ^ 32
      → (sent b).0 ≡ pos 0
      → (ops.time_us (sent b).1).0 ≡ add32 b.runtime.progress_start_us elapsed
      → IsTimedOut (leb b.config.transfer_timeout_us elapsed) b (service_sending ops b)
  unfolding service_sending send_result send_nothing
  service_sending-IsTimedOut b elapsed hs he nothing now =
      let remaining = sub32 b.runtime.tx_total_octets b.runtime.tx_sent_octets in
      let b1 = record b { world = (sent b).1 } in
      subst⁻¹
        (λ r.
          IsTimedOut (leb b.config.transfer_timeout_us elapsed) b (send_result ops r remaining b1))
        nothing
        (waited-IsTimedOut b.runtime.progress_start_us b.config.transfer_timeout_us elapsed b b1 hs
          he now refl)
