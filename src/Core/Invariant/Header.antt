-- ===== src/Core/Invariant/Header.antt =====
-- What `c2837x_block_validate_header` of dsp/src/c2837x_block.c finds, for the proofs about it.
use dsp_sim_bridge.Common.{
  ℕ, ◌≡◌, ◌≢◌, ◌||◌, Bool, true, false, ◌⊎◌, inl, inr, arith, ltb, ◌==◌, is_odd, add32, if_intro,
  refl, get_or, ◌!=◌,
}
use dsp_sim_bridge.Wire.{
  msg_sim_start, msg_input_data, msg_sim_stop, msg_output_data, msg_response, header_size_bytes,
}
use dsp_sim_bridge.Core.Types.{HeaderResult, Block, header_valid}
use dsp_sim_bridge.Core.Receive.{check_header, validate_header}
use dsp_sim_bridge.Core.Invariant.{MessageAllowed}

-- The block with the type and the size of an accepted header.
abbrev pub accepted : {W : Type 0} → ℕ → ℕ → Block W → Block W
accepted type size b = record b {
  runtime = record b.runtime { rx_msg_type = type; rx_payload_length_octets = size };
}

-- A header is accepted with the type and size that were checked, or leaves the block alone.
abbrev Checked : {W : Type 0} → Bool → ℕ → ℕ → ℕ → Block W → HeaderResult × Block W → Type 0
Checked allowed expected type size b out =
    (out.0 ≡ header_valid) × (out.1 ≡ accepted type size b) × (allowed ≡ true) × (size ≡ expected)
    ⊎ (out.0 ≢ header_valid) × (out.1 ≡ b)

module _ {W : Type 0} where
  check_header_lem :
      (allowed : Bool) (expected type size : ℕ) (b : Block W)
      → Checked allowed expected type size b (check_header allowed expected type size b)
  unfolding check_header
  check_header_lem false expected type size b = inr ((λ h. cc), refl)
  check_header_lem true expected type size b =
      if_intro (Checked true expected type size b)
        (is_odd size
          || ltb b.config.max_payload_octets size
          || ltb b.config.rx_frame_capacity_octets (add32 header_size_bytes size)
          || size != expected)
        (λ _. inr ((λ h. cc), refl)) (λ good. inl (refl, refl, refl, ground arith))

  -- `c2837x_block_validate_header` either accepts a header that the phase allows, and records its
  -- type and length, or changes nothing.
  abbrev pub Validated : Block W → HeaderResult × Block W → Type 0
  Validated b out =
      (out.0 ≡ header_valid)
        × (out.1 ≡ accepted (get_or b.rx_frame_words 0 0) (get_or b.rx_frame_words 1 0) b)
        × MessageAllowed b.config b.runtime.protocol_phase (get_or b.rx_frame_words 0 0)
            (get_or b.rx_frame_words 1 0)
      ⊎ (out.0 ≢ header_valid) × (out.1 ≡ b)

  Checked-Validated :
      (allowed : Bool) (expected : ℕ) (b : Block W) (out : HeaderResult × Block W)
      → Checked allowed expected (get_or b.rx_frame_words 0 0) (get_or b.rx_frame_words 1 0) b out
      → (allowed ≡ true
          → get_or b.rx_frame_words 1 0 ≡ expected
          → MessageAllowed b.config b.runtime.protocol_phase
              (get_or b.rx_frame_words 0 0)
              (get_or b.rx_frame_words 1 0))
      → Validated b out
  Checked-Validated allowed expected b out (inl h) k = inl (h.0, h.1, k h.2 h.3)
  Checked-Validated allowed expected b out (inr h) k = inr h

  pub validate_header_lem : (b : Block W) → Validated b (validate_header b)
  unfolding validate_header
  validate_header_lem b =
      if_intro (Validated b) (type == msg_sim_start)
        (λ h.
          Checked-Validated _ 6 b _ (check_header_lem _ 6 type size b)
            (λ a e. inl (ground arith, ground arith, e)))
        (λ _.
          if_intro (Validated b) (type == msg_input_data)
            (λ h.
              Checked-Validated _ input b _ (check_header_lem _ input type size b)
                (λ a e. inr (inl (ground arith, ground arith, e))))
            (λ _.
              if_intro (Validated b) (type == msg_sim_stop)
                (λ h.
                  Checked-Validated _ 0 b _ (check_header_lem _ 0 type size b)
                    (λ a e. inr (inr (ground arith, ground arith, e))))
                (λ _.
                  if_intro (Validated b) (type == msg_output_data || type == msg_response)
                    (λ _. inr ((λ h. cc), refl)) (λ _. inr ((λ h. cc), refl)))))
    where
      type : ℕ
      type = get_or b.rx_frame_words 0 0

      size : ℕ
      size = get_or b.rx_frame_words 1 0

      input : ℕ
      input = b.config.input_payload_octets
