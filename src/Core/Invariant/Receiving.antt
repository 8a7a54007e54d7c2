-- ===== src/Core/Invariant/Receiving.antt =====
-- Receiving keeps the invariant.
use dsp_sim_bridge.Common.{
  ℕ, ℤ, pos, negsuc, ◌≡◌, ◌<◌, ◌≤◌, ◌||◌, Bool, false, List, inl, inr, arith, ltb, ◌==◌, is_odd,
  sub32, add32, ◌+◌, ◌^◌, sym, if_intro, or_false_left, or_false_right, refl, write_at,
  length-write_at,
}
use mathlib.Core.Path.{subst}
use dsp_sim_bridge.Wire.{err_unknown_type, err_state, err_payload_length, header_size_bytes}
use dsp_sim_bridge.Core.Types.{
  State, Config, Runtime, Error, inert, wait_connection, sending, unlisted, HeaderResult, RxPhase,
  Ops, Block, receiving, frame_ready, rx_header, rx_payload, wait_transfer, header_valid,
  header_unknown_type, header_state_error, header_length_error, protocol, iodevice, timeout,
}
use dsp_sim_bridge.Core.Session.{timeout_expired}
use dsp_sim_bridge.Core.Receive.{
  is_running, receive_window, handle_header_result, stamp_progress, receive_nothing,
  header_complete, accept_octets, receive_result, service_receiving,
}
use dsp_sim_bridge.Core.Invariant.{
  Sound, IsSound, IsValid, StateOk, InRange, HasMessage, MessageAllowed, ReceivingOk,
}
use dsp_sim_bridge.Core.Invariant.Sending.{
  fail_session-IsValid, start_error_response-IsValid, at_state,
}
use dsp_sim_bridge.Core.Invariant.Header.{accepted, Validated, validate_header_lem}

pub written-Sound :
    {c : Config} {rx tx : List ℕ} {latched : Bool} {error : Error} (at : ℕ) (words : List ℕ)
    → Sound c rx tx latched error
    → Sound c (write_at at words rx) tx latched error
written-Sound {rx = rx} at words s = record {
  in_range = s.in_range;
  limits = s.limits;
  rx_room = omega (arith, s.rx_room, length-write_at at words rx);
  tx_room = s.tx_room;
  latched_error = s.latched_error;
}

StateOk-stamped :
    (s : State) (c : Config) (r : Runtime) (now_us : ℕ)
    → StateOk s c r
    → StateOk s c (record r { progress_start_us = now_us })
StateOk-stamped wait_connection c r now_us a = a
StateOk-stamped receiving c r now_us a = a
StateOk-stamped frame_ready c r now_us a = a
StateOk-stamped sending c r now_us a = a
StateOk-stamped inert c r now_us a = a
StateOk-stamped unlisted c r now_us a = a

pub at_phase :
    (c : Config) (r : Runtime) {p : RxPhase}
    → r.rx_phase ≡ p
    → StateOk receiving c r
    → ReceivingOk p r.rx_header_received_octets r.rx_payload_received_octets
        r.rx_payload_length_octets
        (HasMessage c r)
at_phase c r e a =
    subst
      (λ x.
        ReceivingOk x r.rx_header_received_octets r.rx_payload_received_octets
          r.rx_payload_length_octets (HasMessage c r))
      e a.0

of_phase :
    (h o n : ℕ) (M : Type 0) {p q : RxPhase} → p ≡ q → ReceivingOk q h o n M → ReceivingOk p h o n M
of_phase h o n M e a = subst (λ x. ReceivingOk x h o n M) (sym e) a

-- The payload has room for the octets that were asked for.
pub payload_rest :
    (received size n : ℕ)
    → size < 2 ^ 32
    → received < size
    → ltb (sub32 size received) n ≡ false
    → (add32 received n ≡ received + n) × (received + n ≤ size)
payload_rest received size n small lt fits = (ground arith, ground arith)

pub size-lt :
    {c : Config} (r : Runtime) → InRange c → HasMessage c r → r.rx_payload_length_octets < 2 ^ 32
size-lt r range m = ground arith

module _ {W : Type 0} (ops : Ops W) where
  stamp_progress-IsValid : (b : Block W) → IsValid b → IsValid (stamp_progress ops b)
  unfolding stamp_progress
  stamp_progress-IsValid b v = record {
    sound = v.sound;
    state_ok = StateOk-stamped b.runtime.state b.config b.runtime _ v.state_ok;
  }

  header_accepted-IsValid :
      (type size : ℕ) (b : Block W)
      → MessageAllowed b.config b.runtime.protocol_phase type size
      → IsSound b
      → b.runtime.state ≡ receiving
      → b.runtime.rx_header_received_octets ≡ 4
      → b.runtime.rx_payload_received_octets ≡ 0
      → b.runtime.algorithm_started ≡ is_running b.runtime.protocol_phase
      → IsValid (header_complete ops header_valid (accepted type size b))
  unfolding header_complete
  header_accepted-IsValid type size b m s e four none started = stamp_progress-IsValid _ (
      if_intro IsValid (size == 0)
        (λ h. record { sound = s; state_ok = (four, ground arith, m, started) })
        (λ h. record {
          sound = s;
          state_ok = at_state _ _ e ((four, ground arith, ground arith, m), started);
        }))

  header_complete-IsValid :
      (b : Block W) (out : HeaderResult × Block W)
      → Validated b out
      → IsSound b
      → b.runtime.state ≡ receiving
      → b.runtime.rx_header_received_octets ≡ 4
      → b.runtime.rx_payload_received_octets ≡ 0
      → b.runtime.algorithm_started ≡ is_running b.runtime.protocol_phase
      → IsValid (header_complete ops out.0 out.1)
  unfolding header_complete stamp_progress handle_header_result
  header_complete-IsValid b (header_valid, b') (inl h) s e four none started =
      rw h.1 (header_accepted-IsValid _ _ b h.2 s e four none started)
  header_complete-IsValid b (header_valid, b') (inr h) s e four none started = absurd (h.0 refl)
  header_complete-IsValid b (header_unknown_type, b') (inl h) s e four none started = cc h.0
  header_complete-IsValid b (header_unknown_type, b') (inr h) s e four none started =
      rw h.1 (start_error_response-IsValid ops protocol err_unknown_type b (λ e. cc) s started)
  header_complete-IsValid b (header_state_error, b') (inl h) s e four none started = cc h.0
  header_complete-IsValid b (header_state_error, b') (inr h) s e four none started =
      rw h.1 (start_error_response-IsValid ops protocol err_state b (λ e. cc) s started)
  header_complete-IsValid b (header_length_error, b') (inl h) s e four none started = cc h.0
  header_complete-IsValid b (header_length_error, b') (inr h) s e four none started =
      rw h.1 (start_error_response-IsValid ops protocol err_payload_length b (λ e. cc) s started)

  accept_octets-IsValid :
      (phase : RxPhase) (n : ℕ) (b : Block W)
      → IsSound b
      → b.runtime.state ≡ receiving
      → b.runtime.rx_phase ≡ phase
      → StateOk receiving b.config b.runtime
      → is_odd n ≡ false
      → ltb (receive_window phase b.runtime).0 n ≡ false
      → IsValid (accept_octets ops phase n b)
  unfolding accept_octets receive_window stamp_progress
  accept_octets-IsValid rx_header n b s e p a odd fits =
      let h = at_phase b.config b.runtime p a in
      let octets = add32 b.runtime.rx_header_received_octets n in
      if_intro IsValid (ltb octets header_size_bytes)
        (λ short.
          stamp_progress-IsValid
            (record b {
              runtime = record b.runtime {
                receive_wait_kind = wait_transfer;
                rx_header_received_octets = octets;
              };
            })
            (record {
              sound = s;
              state_ok =
                  at_state _ _ e (of_phase octets _ _ _ p (ground arith, ground arith, h.2), a.1);
            }))
        (λ full. header_complete-IsValid _ _ (validate_header_lem _) s e (ground arith) h.2 a.1)
  accept_octets-IsValid rx_payload n b s e p a odd fits =
      let h = at_phase b.config b.runtime p a in
      let octets = add32 b.runtime.rx_payload_received_octets n in
      let (sum, bound) =
        payload_rest b.runtime.rx_payload_received_octets b.runtime.rx_payload_length_octets n
          (size-lt b.runtime s.in_range h.3) h.1 fits in
      stamp_progress-IsValid _ (
        if_intro IsValid (octets == b.runtime.rx_payload_length_octets)
          (λ t. record { sound = s; state_ok = (h.0, ground arith, h.3, a.1) })
          (λ t. record {
            sound = s;
            state_ok =
                at_state _ _ e
                  (of_phase _ octets _ _ p (h.0, ground arith, ground arith, h.3), a.1);
          }))

  receive_nothing-IsValid :
      (b : Block W)
      → IsSound b
      → b.runtime.state ≡ receiving
      → StateOk receiving b.config b.runtime
      → IsValid (receive_nothing ops b)
  unfolding receive_nothing timeout_expired
  receive_nothing-IsValid b s e a =
      let b1 = record b { world = (ops.time_us b.world).1 } in
      if_intro IsValid _ (λ _. fail_session-IsValid ops timeout b1 (λ h. cc) s)
        (λ _. record { sound = s; state_ok = at_state _ _ e a })

  receive_result-IsValid :
      (r : ℤ) (b : Block W)
      → IsSound b
      → b.runtime.state ≡ receiving
      → StateOk receiving b.config b.runtime
      → IsValid (receive_result ops r (receive_window b.runtime.rx_phase b.runtime).0 b)
  unfolding receive_result
  receive_result-IsValid (negsuc n) b s e a = fail_session-IsValid ops iodevice b (λ e. cc) s
  receive_result-IsValid (pos n) b s e a =
      let remaining = (receive_window b.runtime.rx_phase b.runtime).0 in
      if_intro IsValid (n == 0) (λ _. receive_nothing-IsValid b s e a)
        (λ _.
          if_intro IsValid (is_odd n || ltb remaining n)
            (λ _. fail_session-IsValid ops iodevice b (λ e. cc) s)
            (λ good.
              accept_octets-IsValid b.runtime.rx_phase n b s e refl a
                (or_false_left (is_odd n) _ good) (or_false_right (is_odd n) _ good)))

  pub service_receiving-IsValid :
      (b : Block W) → IsValid b → b.runtime.state ≡ receiving → IsValid (service_receiving ops b)
  unfolding service_receiving
  service_receiving-IsValid b v e =
      let (r, words, w) = ops.receive (receive_window b.runtime.rx_phase b.runtime).0 b.world in
      receive_result-IsValid r _
        (written-Sound (receive_window b.runtime.rx_phase b.runtime).1 words v.sound) e
        (subst (λ s. StateOk s b.config b.runtime) e v.state_ok)
