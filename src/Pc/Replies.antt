-- ===== src/Pc/Replies.antt =====
-- What the functions of simulink/c2837x_block_protocol.c make of the frames that the DSP sends.
use dsp_sim_bridge.Common.{
  ℕ, ◌+◌, ◌*◌, ◌/◌, ◌%◌, ◌^◌, ◌≡◌, ◌≤◌, ◌<◌, refl, sym, ap, ◌∙◌, true, Option, none, some, List, [],
  ◌∷◌, ◌++◌, pos, failed, is_zero, ◌==◌, arith, length, length-append, octets, length-octets,
  absurd_bool, ltb, leb, is_odd, if◌then◌else◌, if_intro, take, get_or,
}
use mathlib.Core.Path.{subst⁻¹}
use mathlib.Core.List.{head-eq_of_cons-eq, tail-eq_of_cons-eq}
use dsp_sim_bridge.Wire.{msg_response, msg_output_data, err_ok, build_response}
use dsp_sim_bridge.Pc.Frames.{Socket, Frame, read_le16, recv_payload, check_received, recv_frame}
use dsp_sim_bridge.Pc.Link.{Inlet}
use dsp_sim_bridge.Pc.Messages.{check_response, wait_response, check_output_data, wait_output_data}

-- Equal lists split at the same place have equal parts.
append-parts :
    (xs ys : List ℕ) {us vs : List ℕ}
    → length xs ≡ length ys
    → xs ++ us ≡ ys ++ vs
    → (xs ≡ ys) × (us ≡ vs)
append-parts [] [] e h = (refl, h)
append-parts [] (y ∷ ys) e h = absurd (omega arith)
append-parts (x ∷ xs) [] e h = absurd (omega arith)
append-parts (x ∷ xs) (y ∷ ys) e h =
    let rest = append-parts xs ys (omega arith) (tail-eq_of_cons-eq h) in
    (let same = head-eq_of_cons-eq h in let others = rest.0 in cc, rest.1)

-- The frame of these words.
abbrev pub frame_of : ℕ → List ℕ → Frame
frame_of type ws = record { type = type; length = 2 * length ws; payload = octets ws }

module _ {S : Type 0} {io : Socket S} (inlet : Inlet io) where
  -- `recv_exact` takes octets that stand in front.
  recv_exact_lem :
      (os rest : List ℕ) (n timeout_ms : ℕ) (s : S)
      → inlet.incoming s ≡ os ++ rest
      → length os ≡ n
      → (is_zero (io.recv_exact n timeout_ms s).0 ≡ true)
        × ((io.recv_exact n timeout_ms s).1 ≡ os)
        × (inlet.incoming (io.recv_exact n timeout_ms s).2 ≡ rest)
  recv_exact_lem os rest n timeout_ms s e count =
      let ok =
        inlet.recv_ready n timeout_ms s
          (omega (arith, ap length e, length-append os rest, count)) in
      let parts =
        append-parts (io.recv_exact n timeout_ms s).1 os
          (inlet.recv_count n timeout_ms s ok ∙ sym count)
          (sym (inlet.recv_next n timeout_ms s ok) ∙ e) in
      (ok, parts.0, parts.1)

  -- The outcome of `recv_frame`: this frame, and `rest` is still to be read.
  pub record IsReceived (frame : Frame) (rest : List ℕ) (out : Option Frame × S) : Type 0 where
    pub received : out.0 ≡ some frame
    pub left : inlet.incoming out.1 ≡ rest

  recv_payload-IsReceived :
      (type : ℕ) (ws rest : List ℕ) (timeout_ms : ℕ) (s : S)
      → inlet.incoming s ≡ octets ws ++ rest
      → IsReceived (frame_of type ws) rest (recv_payload io type (2 * length ws) true timeout_ms s)
  unfolding recv_payload
  recv_payload-IsReceived type [] rest timeout_ms s e = record { received = refl; left = e }
  recv_payload-IsReceived type (w ∷ ws) rest timeout_ms s e =
      let n = 2 * length (w ∷ ws) in
      let os = octets (w ∷ ws) in
      let got = recv_exact_lem os rest n timeout_ms s e (length-octets (w ∷ ws)) in
      let P = IsReceived (frame_of type (w ∷ ws)) rest in
      if_intro P (ltb 0 n)
        (λ _.
          if_intro P (is_zero (io.recv_exact n timeout_ms s).0)
            (λ _. record {
              received = ap (λ l. some (record { type = type; length = n; payload = l })) got.1;
              left = got.2;
            })
            (λ f. absurd_bool got.0 f))
        (λ f. absurd (ground (arith, f)))

  check_received-IsReceived :
      (type : ℕ) (ws rest : List ℕ) (capacity timeout_ms : ℕ) (s : S)
      → type < 2 ^ 16
      → 2 * length ws < 2 ^ 16
      → 2 * length ws ≤ capacity
      → inlet.incoming s ≡ octets ws ++ rest
      → IsReceived
          (frame_of type ws)
          rest
          (check_received io (octets (type ∷ 2 * length ws ∷ [])) true capacity timeout_ms s)
  unfolding check_received read_le16
  check_received-IsReceived type ws rest capacity timeout_ms s small_type small_length room e =
      let n = 2 * length ws in
      let type_read : type % 2 ^ 8 + type / 2 ^ 8 % 2 ^ 8 * 2 ^ 8 ≡ type = omega arith in
      let length_read : n % 2 ^ 8 + n / 2 ^ 8 % 2 ^ 8 * 2 ^ 8 ≡ n = omega arith in
      let P = IsReceived (frame_of type ws) rest in
      rw (type_read, length_read)
        (if_intro P (is_odd n) (λ t. absurd (ground (arith, t)))
          (λ _.
            if_intro P (ltb capacity n) (λ t. absurd (ground (arith, t, room)))
              (λ _. recv_payload-IsReceived type ws rest timeout_ms s e)))

  -- If the words of a frame, as a DSP frame lays them out, are the next octets to be read, and the
  -- payload fits, `c2837x_protocol_recv_frame` succeeds with that type, length and payload, and
  -- reads nothing beyond the frame.
  pub recv_frame-IsReceived :
      (type : ℕ) (ws rest : List ℕ) (capacity timeout_ms : ℕ) (s : S)
      → type < 2 ^ 16
      → 2 * length ws < 2 ^ 16
      → 2 * length ws ≤ capacity
      → inlet.incoming s ≡ octets (type ∷ 2 * length ws ∷ ws) ++ rest
      → IsReceived (frame_of type ws) rest (recv_frame io true capacity timeout_ms s)
  unfolding recv_frame
  recv_frame-IsReceived type ws rest capacity timeout_ms s small_type small_length room e =
      let header = octets (type ∷ 2 * length ws ∷ []) in
      let got = recv_exact_lem header (octets ws ++ rest) 4 timeout_ms s e refl in
      let s1 = (io.recv_exact 4 timeout_ms s).2 in
      let P = IsReceived (frame_of type ws) rest in
      if_intro P (is_zero (io.recv_exact 4 timeout_ms s).0)
        (λ _.
          subst⁻¹ (λ h. P (check_received io h true capacity timeout_ms s1)) got.1
            (check_received-IsReceived type ws rest capacity timeout_ms s1 small_type small_length
              room got.2))
        (λ f. absurd_bool got.0 f)

  response_words :
      (tx : List ℕ) (e : ℕ)
      → 3 ≤ length tx
      → take 3 (build_response tx e).0 ≡ msg_response ∷ 2 ∷ e ∷ []
  unfolding build_response
  response_words [] e fits = absurd (omega arith)
  response_words (a ∷ []) e fits = absurd (omega arith)
  response_words (a ∷ b ∷ []) e fits = absurd (omega arith)
  response_words (a ∷ b ∷ c ∷ tx) e fits = refl

  -- If the RESPONSE frame that the DSP builds for an error code is what arrives,
  -- `c2837x_protocol_wait_response` returns 0 exactly if that code is the expected one, and -1
  -- otherwise.
  pub wait_response-build_response :
      (tx rest : List ℕ) (e expected timeout_ms : ℕ) (s : S)
      → 3 ≤ length tx
      → e < 2 ^ 16
      → inlet.incoming s ≡ octets (take 3 (build_response tx e).0) ++ rest
      → (wait_response io expected timeout_ms s).0 ≡ (if e == expected then pos 0 else failed)
  unfolding wait_response check_response read_le16
  wait_response-build_response tx rest e expected timeout_ms s fits small arrived =
      let r =
        recv_frame-IsReceived msg_response (e ∷ []) rest 2 timeout_ms s (omega arith) (omega arith)
          (omega arith) (arrived ∙ ap (λ l. octets l ++ rest) (response_words tx e fits)) in
      let code : e % 2 ^ 8 + e / 2 ^ 8 % 2 ^ 8 * 2 ^ 8 ≡ e = omega arith in
      subst⁻¹ (λ f. check_response expected f ≡ (if e == expected then pos 0 else failed))
        r.received (rw code refl)

  check_output_data_lem :
      (type : ℕ) (ws : List ℕ)
      → get_or ws 0 0 < 2 ^ 16
      → check_output_data (some (frame_of type ws)) ≡ (
          if type == msg_output_data
          then (some (octets ws), err_ok)
          else if type == msg_response
          then (none, get_or ws 0 0)
          else (none, err_ok))
  unfolding check_output_data read_le16
  check_output_data_lem type [] small = refl
  check_output_data_lem type (w ∷ ws) small =
      let code : w % 2 ^ 8 + w / 2 ^ 8 % 2 ^ 8 * 2 ^ 8 ≡ w = omega arith in
      let whole : leb 2 (2 * length (w ∷ ws)) ≡ true = ground arith in rw (code, whole) refl

  -- If a frame that fits arrives, `c2837x_protocol_wait_output_data` returns the payload and no error
  -- code for OUTPUT_DATA, fails with the code of the DSP, its first payload word, for RESPONSE, and
  -- fails without a code for any other type.
  pub wait_output_data-reply :
      (type : ℕ) (ws rest : List ℕ) (capacity timeout_ms : ℕ) (s : S)
      → type < 2 ^ 16
      → 2 * length ws < 2 ^ 16
      → 2 * length ws ≤ capacity
      → get_or ws 0 0 < 2 ^ 16
      → inlet.incoming s ≡ octets (type ∷ 2 * length ws ∷ ws) ++ rest
      → (wait_output_data io capacity timeout_ms s).0 ≡ (
          if type == msg_output_data
          then (some (octets ws), err_ok)
          else if type == msg_response
          then (none, get_or ws 0 0)
          else (none, err_ok))
  unfolding wait_output_data
  wait_output_data-reply type ws rest capacity timeout_ms s small_type small room small_code
        arrived =
      ap check_output_data
        (recv_frame-IsReceived type ws rest capacity timeout_ms s small_type small room
          arrived).received
      ∙ check_output_data_lem type ws small_code
