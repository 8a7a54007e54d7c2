-- ===== src/Core/Transfer/Transmission.antt =====
-- A frame leaves as it was built, octet for octet.
use dsp_sim_bridge.Common.{
  ℕ, ◌<◌, ℤ, pos, negsuc, ◌+◌, ◌*◌, ◌/◌, ◌≡◌, ◌∙◌, ap, refl, sym, inl, inr, ◌||◌, true, false, List,
  ◌++◌, arith, take, drop, take-add, if_intro, is_odd, is_negative, ltb, ◌==◌, add32, sub32,
  or_false_right, ltb_false→le, ==→eq,
}
use mathlib.Core.Path.{subst, subst⁻¹}
use mathlib.Core.List.{append_assoc, append-nil}
use dsp_sim_bridge.Core.Types.{
  Error, TxDoneAction, Ops, Block, receiving, sending, timeout, iodevice, terminate_error,
  tx_done_close, tx_done_enter_sim_running, tx_done_receive_next, tx_done_advance_step,
}
use dsp_sim_bridge.Core.Session.{fail_session, terminate_session, timeout_expired, start_receiving}
use dsp_sim_bridge.Core.Receive.{stamp_progress}
use dsp_sim_bridge.Core.Send.{
  finish_action, finish_sending, send_nothing, check_sent, confirm_octets, send_result,
  service_sending,
}
use dsp_sim_bridge.Core.Run.{dispatch, run}
use dsp_sim_bridge.Core.Invariant.{IsValid, StateOk}
use dsp_sim_bridge.Core.Invariant.Bounds.{rest_fits}
use dsp_sim_bridge.Core.Invariant.Preserved.{run-IsValid}
use dsp_sim_bridge.Core.Transfer.{Sink}

-- Calls of `C2837xBlock_Run` from `b` to `b'`, each made while the instance was sending.
pub data Drained {W : Type 0} (ops : Ops W) : Block W → Block W → Type 0 where
  done : (b : Block W) → Drained ops b b
  more :
      (b : Block W) {b' : Block W}
      → b.runtime.state ≡ sending
      → Drained ops (run ops b) b'
      → Drained ops b b'

module _ {W : Type 0} {ops : Ops W} (sink : Sink ops) where
  -- Of the frame `tx` of `total` octets, what was confirmed follows `before`: the octets counted
  -- in `tx_sent_octets` while sending, all of them when the session goes on to receive.
  abbrev pub IsFlowing : List ℕ → List ℕ → ℕ → Block W → Type 0
  IsFlowing before tx total b =
      (b.runtime.state ≡ sending
        → (b.tx_frame_words ≡ tx)
          × (b.runtime.tx_total_octets ≡ total)
          × sink.Waits (before ++ take (b.runtime.tx_sent_octets / 2) tx) tx
              (b.runtime.tx_sent_octets / 2) (sub32 total b.runtime.tx_sent_octets) b.world)
      × (b.runtime.state ≡ receiving → sink.IsIdle (before ++ take (total / 2) tx) b.world)

  module _ (before tx : List ℕ) (total : ℕ) where
    terminate_session-IsFlowing :
        (b : Block W) → IsFlowing before tx total (terminate_session ops terminate_error b)
    unfolding terminate_session
    terminate_session-IsFlowing b = ((λ h. cc), (λ h. cc))

    fail_session-IsFlowing :
        (e : Error) (b : Block W) → IsFlowing before tx total (fail_session ops e b)
    unfolding fail_session terminate_session
    fail_session-IsFlowing e b = ((λ h. cc), (λ h. cc))

    finish_action-IsFlowing :
        (action : TxDoneAction) (now_us : ℕ) (b : Block W)
        → sink.IsIdle (before ++ take (total / 2) tx) b.world
        → IsFlowing before tx total (finish_action ops action now_us b)
    unfolding finish_action start_receiving
    finish_action-IsFlowing tx_done_close now_us b h = terminate_session-IsFlowing b
    finish_action-IsFlowing tx_done_enter_sim_running now_us b h = ((λ e. cc), (λ _. h))
    finish_action-IsFlowing tx_done_receive_next now_us b h = ((λ e. cc), (λ _. h))
    finish_action-IsFlowing tx_done_advance_step now_us b h = ((λ e. cc), (λ _. h))

    check_sent-IsFlowing :
        (b : Block W)
        → b.runtime.state ≡ sending
        → b.tx_frame_words ≡ tx
        → b.runtime.tx_total_octets ≡ total
        → sink.IsIdle (before ++ take (b.runtime.tx_sent_octets / 2) tx) b.world
        → IsFlowing before tx total (check_sent ops b)
    unfolding check_sent finish_sending
    check_sent-IsFlowing b e f t h =
        if_intro (IsFlowing before tx total) (b.runtime.tx_sent_octets == b.runtime.tx_total_octets)
          (λ all.
            finish_action-IsFlowing b.runtime.tx_done_action _ _
              (subst (λ n. sink.IsIdle (before ++ take (n / 2) tx) b.world) (==→eq _ _ all ∙ t) h))
          (λ _. ((λ _. (f, t, sink.idle_waits _ tx _ _ b.world h)), (λ r. cc)))

    -- The device confirms nothing and goes on waiting for the same octets.
    waiting-IsFlowing :
        (remaining : ℕ) (b : Block W)
        → b.runtime.state ≡ sending
        → IsFlowing before tx total b
        → IsFlowing before tx total (send_result ops (pos 0) remaining b)
    unfolding send_result send_nothing timeout_expired
    waiting-IsFlowing remaining b e h =
        let b1 = record b { world = (ops.time_us b.world).1 } in
        if_intro (IsFlowing before tx total) _ {y = b1} (λ _. fail_session-IsFlowing timeout b1)
          (λ _.
            ((λ _. ((h.0 e).0, (h.0 e).1, sink.time_waits _ tx _ _ b.world (h.0 e).2)), (λ r. cc)))

    -- The device confirms `2 * k` octets.
    confirmed-IsFlowing :
        (k remaining : ℕ) (b : Block W)
        → b.tx_frame_words ≡ tx
        → b.runtime.state ≡ sending
        → b.runtime.tx_total_octets ≡ total
        → 0 < k
        → (ltb remaining (2 * k) ≡ false
            → sink.IsIdle (before ++ take (add32 b.runtime.tx_sent_octets (2 * k) / 2) tx) b.world)
        → IsFlowing before tx total (send_result ops (pos (2 * k)) remaining b)
    unfolding send_result confirm_octets stamp_progress
    confirmed-IsFlowing k remaining b f e t some_words h =
        if_intro (IsFlowing before tx total) (2 * k == 0)
          (λ none. absurd (ground (arith, none, some_words)))
          (λ _.
            if_intro (IsFlowing before tx total) (is_odd (2 * k) || ltb remaining (2 * k))
              (λ _. fail_session-IsFlowing iodevice b)
              (λ ok.
                check_sent-IsFlowing _ e f t
                  (sink.time_idle _ b.world (h (or_false_right (is_odd (2 * k)) _ ok)))))

    failed_send :
        (r : ℤ) (remaining : ℕ) (b : Block W)
        → is_negative r ≡ true
        → IsFlowing before tx total (send_result ops r remaining b)
    unfolding send_result
    failed_send (pos n) remaining b bad = cc bad
    failed_send (negsuc n) remaining b bad = fail_session-IsFlowing iodevice b

    -- What `send` confirmed extends what was confirmed before.
    extended :
        (b : Block W) (k : ℕ)
        → IsValid b
        → b.runtime.state ≡ sending
        → ltb (sub32 b.runtime.tx_total_octets b.runtime.tx_sent_octets) (2 * k) ≡ false
        → let at = b.runtime.tx_sent_octets / 2 in
          (before ++ take at tx) ++ take k (drop at tx)
          ≡ before ++ take (add32 b.runtime.tx_sent_octets (2 * k) / 2) tx
    extended b k v e fits =
        let at = b.runtime.tx_sent_octets / 2 in
        let bounds = rest_fits b v e in
        let le = ltb_false→le _ (2 * k) fits in
        let small = v.sound.in_range.tx_capacity_u32 in
        let total_small = (subst (λ s. StateOk s b.config b.runtime) e v.state_ok).3 in
        let index : add32 b.runtime.tx_sent_octets (2 * k) / 2 ≡ at + k =
          omega (arith, bounds, le, small, total_small) in
        rw index (
          append_assoc before (take at tx) (take k (drop at tx))
          ∙ ap (λ l. before ++ l) (sym (take-add at k (at + k) tx refl)))

    service_sending-IsFlowing :
        (b : Block W)
        → IsValid b
        → b.runtime.state ≡ sending
        → IsFlowing before tx total b
        → IsFlowing before tx total (service_sending ops b)
    unfolding service_sending
    service_sending-IsFlowing b v e h =
        let remaining = sub32 b.runtime.tx_total_octets b.runtime.tx_sent_octets in
        let at = b.runtime.tx_sent_octets / 2 in
        let (r, w) = ops.send b.tx_frame_words at remaining b.world in
        let b1 = record b { world = w } in
        let (f, t, waits) = h.0 e in
        let base = before ++ take at tx in
        let given : sink.Waits base b.tx_frame_words at remaining b.world = rw (f, t) waits in
        let P = λ (x : ℤ). IsFlowing before tx total (send_result ops x remaining b1) in
        elim (sink.send_next base b.tx_frame_words at remaining b.world (rest_fits b v e).4 given) [
          | inl bad ↦ failed_send r remaining b1 bad
          | inr (inl (nothing, still)) ↦ subst⁻¹ P nothing (
              waiting-IsFlowing remaining b1 e (
                (λ _. (
                  f,
                  t,
                  subst (λ n. sink.Waits base tx at (sub32 n b.runtime.tx_sent_octets) w) t
                      (subst (λ l. sink.Waits base l at remaining w) f still),
                )),
                (λ r. cc),
              ))
          | inr (inr (k, counted, some_words, idle)) ↦ subst⁻¹ P counted (
              confirmed-IsFlowing k remaining b1 f e t some_words (λ fits.
                subst (λ l. sink.IsIdle l w) (extended b k v e fits)
                  (subst (λ l. sink.IsIdle (base ++ take k (drop at l)) w) f idle)))
        ]

    run_sending : (b : Block W) → b.runtime.state ≡ sending → run ops b ≡ service_sending ops b
    unfolding run dispatch
    run_sending b e = ap (λ s. dispatch ops s b) e

    Drained-IsFlowing :
        {b b' : Block W}
        → Drained ops b b'
        → IsValid b
        → IsFlowing before tx total b
        → IsFlowing before tx total b'
    Drained-IsFlowing (done b) v h = h
    Drained-IsFlowing (more b e rest) v h =
        Drained-IsFlowing rest (run-IsValid ops b v)
          (rw (run_sending b e) (service_sending-IsFlowing b v e h))

  -- A well-formed instance starts to send a frame, over a device that has confirmed some words and
  -- has nothing more submitted, and is run while it is sending until it goes on to receive. However
  -- few octets the device takes at a time, and although it confirms them only in later calls, it has
  -- then confirmed those words followed by exactly the words of the frame, in their order, up to the
  -- frame's total, and has nothing more submitted.
  pub frame_delivered :
      {b b' : Block W} (confirmed : List ℕ)
      → IsValid b
      → b.runtime.state ≡ sending
      → b.runtime.tx_sent_octets ≡ 0
      → sink.IsIdle confirmed b.world
      → Drained ops b b'
      → b'.runtime.state ≡ receiving
      → sink.IsIdle (confirmed ++ take (b.runtime.tx_total_octets / 2) b.tx_frame_words) b'.world
  frame_delivered {b} {b'} confirmed v e none idle drained e' =
      let tx = b.tx_frame_words in
      let start : IsFlowing confirmed tx b.runtime.tx_total_octets b = (
        (λ _. (refl, refl, sink.idle_waits _ tx _ _ b.world (rw (none, append-nil) idle))),
        (λ r. cc),
      ) in
      (Drained-IsFlowing confirmed tx b.runtime.tx_total_octets drained v start).1 e'
