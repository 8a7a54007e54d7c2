-- ===== src/Core/Transfer/Intact.antt =====
-- While a frame is being received, what has arrived and what is pending stay the same stream.
use dsp_sim_bridge.Common.{
  ℕ, ℤ, pos, negsuc, ◌+◌, ◌*◌, ◌/◌, ◌≤◌, ◌≡◌, refl, sym, ◌⊎◌, inl, inr, ◌||◌, Bool, true, false,
  List, ◌++◌, arith, ltb_false→le, get_or, length, take, write_at, take-write_at, if_intro, is_odd,
  is_negative, ltb, ◌==◌, add32, or_false_left, or_false_right,
}
use mathlib.Core.Path.{subst}
use mathlib.Core.List.{append_assoc}
use dsp_sim_bridge.Wire.{header_size_bytes}
use dsp_sim_bridge.Core.Types.{
  State, Error, HeaderResult, RxPhase, Runtime, Ops, Block, inert, wait_connection, receiving,
  frame_ready, sending, unlisted, rx_header, rx_payload, header_valid, header_unknown_type,
  header_state_error, header_length_error, timeout, iodevice, protocol, wait_transfer,
}
use dsp_sim_bridge.Core.Session.{
  fail_session, terminate_session, start_error_response, start_sending, timeout_expired,
}
use dsp_sim_bridge.Core.Receive.{
  receive_window, handle_header_result, stamp_progress, receive_nothing, header_complete,
  accept_octets, receive_result, service_receiving,
}
use dsp_sim_bridge.Core.Invariant.{IsValid, IsSound, StateOk}
use dsp_sim_bridge.Core.Invariant.Header.{Validated, validate_header_lem}
use dsp_sim_bridge.Core.Invariant.Receiving.{at_phase, payload_rest, size-lt, written-Sound}
use dsp_sim_bridge.Core.Invariant.Bounds.{window_fits}
use dsp_sim_bridge.Core.Transfer.{Source}

abbrev pub in_frame : State → Bool
in_frame receiving = true
in_frame frame_ready = true
in_frame inert = false
in_frame wait_connection = false
in_frame sending = false
in_frame unlisted = false

-- The number of words of the frame that have arrived.
abbrev pub received_words : Runtime → ℕ
received_words r = (r.rx_header_received_octets + r.rx_payload_received_octets) / 2

module _ {W : Type 0} {ops : Ops W} (source : Source ops) where
  -- While a frame is being received, what has arrived and what is still pending make up `stream`.
  abbrev pub IsIntact : List ℕ → Block W → Type 0
  IsIntact stream b =
      in_frame b.runtime.state ≡ true
      → take (received_words b.runtime) b.rx_frame_words ++ source.pending b.world ≡ stream

  pub fail_session-IsIntact :
      (stream : List ℕ) (e : Error) (b : Block W) → IsIntact stream (fail_session ops e b)
  unfolding fail_session terminate_session
  fail_session-IsIntact stream e b h = cc

  pub start_error_response-IsIntact :
      (stream : List ℕ) (e : Error) (wire : ℕ) (b : Block W)
      → IsIntact stream (start_error_response ops e wire b)
  unfolding start_error_response start_sending
  start_error_response-IsIntact stream e wire b h = cc

  pub stamp_progress-IsIntact :
      (stream : List ℕ) (b : Block W) → IsIntact stream b → IsIntact stream (stamp_progress ops b)
  unfolding stamp_progress
  stamp_progress-IsIntact stream b h f = rw (source.time_pending b.world) (h f)

  pub header_complete-IsIntact :
      (stream : List ℕ) (b : Block W) (out : HeaderResult × Block W)
      → Validated b out
      → take (received_words b.runtime) b.rx_frame_words ++ source.pending b.world ≡ stream
      → IsIntact stream (header_complete ops out.0 out.1)
  unfolding header_complete handle_header_result
  header_complete-IsIntact stream b (header_valid, b') (inl v) h = rw v.1 (
      stamp_progress-IsIntact stream _
        (if_intro (IsIntact stream) (get_or b.rx_frame_words 1 0 == 0) (λ _ _. h) (λ _ _. h)))
  header_complete-IsIntact stream b (header_valid, b') (inr v) h = absurd (v.0 refl)
  header_complete-IsIntact stream b (header_unknown_type, b') v h =
      start_error_response-IsIntact stream protocol _ b'
  header_complete-IsIntact stream b (header_state_error, b') v h =
      start_error_response-IsIntact stream protocol _ b'
  header_complete-IsIntact stream b (header_length_error, b') v h =
      start_error_response-IsIntact stream protocol _ b'

  pub accept_octets-IsIntact :
      (stream : List ℕ) (phase : RxPhase) (n : ℕ) (b : Block W)
      → IsSound b
      → StateOk receiving b.config b.runtime
      → b.runtime.rx_phase ≡ phase
      → is_odd n ≡ false
      → ltb (receive_window phase b.runtime).0 n ≡ false
      → take ((receive_window phase b.runtime).1 + n / 2) b.rx_frame_words ++ source.pending b.world
        ≡ stream
      → IsIntact stream (accept_octets ops phase n b)
  unfolding accept_octets receive_window
  accept_octets-IsIntact stream rx_header n b s a p odd fits h =
      let o = at_phase b.config b.runtime p a in
      let b1 = record b {
        runtime = record b.runtime {
          receive_wait_kind = wait_transfer;
          rx_header_received_octets = add32 b.runtime.rx_header_received_octets n;
        };
      } in
      let e : received_words b1.runtime ≡ b.runtime.rx_header_received_octets / 2 + n / 2 =
        ground (arith, o) in
      let h1 = subst (λ k. take k b.rx_frame_words ++ source.pending b.world ≡ stream) (sym e) h in
      if_intro (IsIntact stream) (ltb b1.runtime.rx_header_received_octets header_size_bytes)
        (λ _. stamp_progress-IsIntact stream b1 (λ _. h1))
        (λ _. header_complete-IsIntact stream b1 _ (validate_header_lem b1) h1)
  accept_octets-IsIntact stream rx_payload n b s a p odd fits h =
      let o = at_phase b.config b.runtime p a in
      let bound =
        payload_rest b.runtime.rx_payload_received_octets b.runtime.rx_payload_length_octets n
          (size-lt b.runtime s.in_range o.3) o.1 fits in
      let b1 = record b {
        runtime = record b.runtime {
          receive_wait_kind = wait_transfer;
          rx_payload_received_octets = add32 b.runtime.rx_payload_received_octets n;
        };
      } in
      let small = size-lt b.runtime s.in_range o.3 in
      let e : received_words b1.runtime
          ≡ add32 header_size_bytes b.runtime.rx_payload_received_octets / 2 + n / 2 =
        ground (arith, o, bound, small) in
      let h1 = subst (λ k. take k b.rx_frame_words ++ source.pending b.world ≡ stream) (sym e) h in
      stamp_progress-IsIntact stream _ (
        if_intro (IsIntact stream)
          (b1.runtime.rx_payload_received_octets == b.runtime.rx_payload_length_octets) (λ _ _. h1)
          (λ _ _. h1))

  pub receive_nothing-IsIntact :
      (stream : List ℕ) (b : Block W) → IsIntact stream b → IsIntact stream (receive_nothing ops b)
  unfolding receive_nothing timeout_expired
  receive_nothing-IsIntact stream b h =
      let b1 = record b { world = (ops.time_us b.world).1 } in
      let h1 : IsIntact stream b1 = λ f. rw (source.time_pending b.world) (h f) in
      if_intro (IsIntact stream) _ {y = b1} (λ _. fail_session-IsIntact stream timeout b1) (λ _. h1)

  pub failed_receive-IsIntact :
      (stream : List ℕ) (r : ℤ) (words : List ℕ) (remaining : ℕ) (b : Block W)
      → is_negative r ≡ true
      → IsIntact stream (receive_result ops r remaining b)
  unfolding receive_result
  failed_receive-IsIntact stream (pos n) words remaining b bad = cc bad
  failed_receive-IsIntact stream (negsuc n) words remaining b bad =
      fail_session-IsIntact stream iodevice b

  -- What `receive` stored extends what had arrived.
  stored :
      (stream words rest rx : List ℕ) (at k : ℕ)
      → k ≡ at + length words
      → k ≤ length rx
      → take at rx ++ (words ++ rest) ≡ stream
      → take k (write_at at words rx) ++ rest ≡ stream
  stored stream words rest rx at k e fits h =
      rw (take-write_at at k words rx e fits, append_assoc) h

  pub receive_result-IsIntact :
      (stream words : List ℕ) (r : ℤ) (b : Block W)
      → IsSound b
      → StateOk receiving b.config b.runtime
      → b.runtime.state ≡ receiving
      → (is_negative r ≡ true) ⊎ (r ≡ pos (2 * length words))
      → take (received_words b.runtime) b.rx_frame_words ++ (words ++ source.pending b.world)
        ≡ stream
      → let at = (receive_window b.runtime.rx_phase b.runtime).1 in
        let b1 = record b { rx_frame_words = write_at at words b.rx_frame_words } in
        IsIntact stream (receive_result ops r (receive_window b.runtime.rx_phase b.runtime).0 b1)
  unfolding receive_result
  receive_result-IsIntact stream words (negsuc n) b s a e law h =
      fail_session-IsIntact stream iodevice _
  receive_result-IsIntact stream words (pos n) b s a e (inl bad) h = cc bad
  receive_result-IsIntact stream words (pos n) b s a e (inr good) h =
      let (remaining, at) = receive_window b.runtime.rx_phase b.runtime in
      let fits = window_fits b.runtime.rx_phase b s a refl in
      let room = s.rx_room in
      let size : n ≡ 2 * length words = ground arith in
      let h' =
        subst (λ k. take k b.rx_frame_words ++ (words ++ source.pending b.world) ≡ stream)
          (sym fits.3) h in
      let b1 = record b { rx_frame_words = write_at at words b.rx_frame_words } in
      if_intro (IsIntact stream) (n == 0)
        (λ z. receive_nothing-IsIntact stream b1 (λ _.
          stored stream words _ b.rx_frame_words at (received_words b.runtime)
            (ground (arith, fits.3, size)) (ground (arith, fits, room)) h'))
        (λ _.
          if_intro (IsIntact stream) (is_odd n || ltb remaining n)
            (λ _. fail_session-IsIntact stream iodevice b1)
            (λ ok.
              let lt = ltb_false→le remaining n (or_false_right (is_odd n) _ ok) in
              accept_octets-IsIntact stream b.runtime.rx_phase n b1 (written-Sound at words s) a
                refl (or_false_left (is_odd n) _ ok) (or_false_right (is_odd n) _ ok)
                (stored stream words _ b.rx_frame_words at (at + n / 2) (omega (arith, size))
                  (omega (arith, size, lt, fits.2, room)) h')))

  pub service_receiving-IsIntact :
      (stream : List ℕ) (b : Block W)
      → IsValid b
      → b.runtime.state ≡ receiving
      → IsIntact stream b
      → IsIntact stream (service_receiving ops b)
  unfolding service_receiving
  service_receiving-IsIntact stream b v e h =
      let remaining = (receive_window b.runtime.rx_phase b.runtime).0 in
      let (r, words, w) = ops.receive remaining b.world in
      let a = subst (λ s. StateOk s b.config b.runtime) e v.state_ok in
      let h0 = h (rw e) in
      elim (source.receive_next remaining b.world) [
        | inl bad ↦ failed_receive-IsIntact stream r words _ _ bad
        | inr good ↦
            receive_result-IsIntact stream words r (record b { world = w }) v.sound a e (inr good.0)
              (subst (λ p. take (received_words b.runtime) b.rx_frame_words ++ p ≡ stream) good.1
                h0)
      ]
