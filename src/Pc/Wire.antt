-- ===== src/Pc/Wire.antt =====
-- The octets of the frames of simulink/c2837x_block_protocol.c are those of the words of the
-- frames of dsp/src/c2837x_block_protocol.c.
use dsp_sim_bridge.Common.{
  ℕ, ◌*◌, ◌/◌, ◌%◌, ◌^◌, ◌≡◌, ◌≤◌, refl, sym, ap, ◌∙◌, true, some, List, [], ◌∷◌, ◌++◌, ℤ, failed,
  is_zero, arith, length, octets, length-octets, absurd_bool, ltb, is_odd, zero, suc, low_word,
  high_word, take, if_intro,
}
use mathlib.Core.List.{append_assoc, append-nil}
use dsp_sim_bridge.Wire.{msg_sim_start}
use dsp_sim_bridge.Pc.Frames.{Socket, write_le16, write_le32, send_payload, send_frame}
use dsp_sim_bridge.Pc.Link.{Outlet}
use dsp_sim_bridge.Pc.Messages.{send_sim_start}

-- The octets of a 16-bit value are the octets of the word.
write_le16-octets : (v : ℕ) → write_le16 v ≡ octets (v ∷ [])
unfolding write_le16
write_le16-octets v = refl

write_le32-octets : (v : ℕ) → write_le32 v ≡ octets (low_word v ∷ high_word v ∷ [])
unfolding write_le32
write_le32-octets v =
    let b0 : v % 2 ^ 16 % 2 ^ 8 ≡ v % 2 ^ 8 = omega arith in
    let b1 : v % 2 ^ 16 / 2 ^ 8 % 2 ^ 8 ≡ v / 2 ^ 8 % 2 ^ 8 = omega arith in
    let b3 : v / 2 ^ 16 / 2 ^ 8 % 2 ^ 8 ≡ v / 2 ^ 24 % 2 ^ 8 = omega arith in rw (b0, b1, b3) refl

take-all : (n : ℕ) (xs : List ℕ) → length xs ≤ n → take n xs ≡ xs
take-all zero [] h = refl
take-all zero (x ∷ xs) h = absurd (omega arith)
take-all (suc n) [] h = refl
take-all (suc n) (x ∷ xs) h = ap (λ l. x ∷ l) (take-all n xs (omega arith))

-- The outcome of a sending function: if it reports success, the octets followed what was sent.
pub record IsSentAs {S : Type 0} {io : Socket S} (outlet : Outlet io) (before octets_ : List ℕ)
    (out : ℤ × S) : Type 0 where
  pub on_success : is_zero out.0 ≡ true → outlet.sent out.1 ≡ before ++ octets_

module _ {S : Type 0} {io : Socket S} (outlet : Outlet io) where
  failed-IsSentAs : (before os : List ℕ) (s : S) → IsSentAs outlet before os (failed, s)
  failed-IsSentAs before os s = record { on_success = λ t. absurd_bool t refl }

  send_payload-IsSentAs :
      (ws : List ℕ) (timeout_ms : ℕ) (s : S)
      → IsSentAs outlet
          (outlet.sent s)
          (octets ws)
          (send_payload io (2 * length ws) (some (octets ws)) timeout_ms s)
  unfolding send_payload
  send_payload-IsSentAs [] timeout_ms s = record {
    on_success = λ _. sym (append-nil (outlet.sent s));
  }
  send_payload-IsSentAs (w ∷ ws) timeout_ms s =
      let os = octets (w ∷ ws) in
      let n = 2 * length (w ∷ ws) in
      let whole : take n os ≡ os = take-all n os (omega (arith, length-octets (w ∷ ws))) in
      if_intro (IsSentAs outlet (outlet.sent s) os) (ltb 0 n)
        (λ _.
          if_intro (IsSentAs outlet (outlet.sent s) os)
            (is_zero (io.send_all (take n os) timeout_ms s).0)
            (λ ok. record {
              on_success = λ _.
                  outlet.send_next (take n os) timeout_ms s ok ∙ ap (λ l. outlet.sent s ++ l) whole;
            })
            (λ _. failed-IsSentAs _ _ _))
        (λ f. absurd (ground (arith, f)))

  -- If `c2837x_protocol_send_frame` reports success for a payload that consists of the octets of
  -- words, it has sent the octets of the words type, length and payload.
  pub send_frame-IsSentAs :
      (type : ℕ) (ws : List ℕ) (timeout_ms : ℕ) (s : S)
      → IsSentAs outlet
          (outlet.sent s)
          (octets (type ∷ 2 * length ws ∷ ws))
          (send_frame io type (2 * length ws) (some (octets ws)) timeout_ms s)
  unfolding send_frame write_le16
  send_frame-IsSentAs type ws timeout_ms s =
      let n = 2 * length ws in
      let header = octets (type ∷ n ∷ []) in
      let s1 = (io.send_all header timeout_ms s).1 in
      let P = IsSentAs outlet (outlet.sent s) (octets (type ∷ n ∷ ws)) in
      if_intro P (is_odd n) (λ _. failed-IsSentAs _ _ _)
        (λ _.
          if_intro P (is_zero (io.send_all header timeout_ms s).0)
            (λ ok. record {
              on_success = λ done.
                  (send_payload-IsSentAs ws timeout_ms s1).on_success done
                  ∙ ap (λ l. l ++ octets ws) (outlet.send_next header timeout_ms s ok)
                  ∙ append_assoc (outlet.sent s) header (octets ws);
            })
            (λ _. failed-IsSentAs _ _ _))

  -- If `c2837x_protocol_send_sim_start` reports success, it has sent the five words of the SIM_START
  -- frame: type, length, version, and the hash with its low word first.
  pub send_sim_start-IsSentAs :
      (protocol_version config_hash timeout_ms : ℕ) (s : S)
      → IsSentAs outlet
          (outlet.sent s)
          (octets (
            msg_sim_start
            ∷ 6
            ∷ protocol_version
            ∷ low_word config_hash
            ∷ high_word config_hash
            ∷ []))
          (send_sim_start io protocol_version config_hash timeout_ms s)
  unfolding send_sim_start write_le16
  send_sim_start-IsSentAs protocol_version config_hash timeout_ms s =
      rw (write_le32-octets config_hash) (
        send_frame-IsSentAs msg_sim_start
          (protocol_version ∷ low_word config_hash ∷ high_word config_hash ∷ []) timeout_ms s)
