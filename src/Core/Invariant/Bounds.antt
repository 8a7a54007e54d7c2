-- ===== src/Core/Invariant/Bounds.antt =====
-- The device is only ever pointed into the frame buffers.
use dsp_sim_bridge.Common.{
  ◌+◌, ◌*◌, ◌/◌, ◌%◌, ◌^◌, ◌≤◌, ◌<◌, ◌≡◌, refl, inl, inr, arith, length, sub32, write_at, ℕ,
}
use mathlib.Core.Path.{subst}
use dsp_sim_bridge.Core.Types.{
  RxPhase, Config, Runtime, Ops, Block, receiving, sending, rx_header, rx_payload,
}
use dsp_sim_bridge.Core.Receive.{receive_window, receive_result, service_receiving}
use dsp_sim_bridge.Core.Send.{send_result, service_sending}
use dsp_sim_bridge.Core.Invariant.{Limits, InRange, IsSound, IsValid, StateOk, HasMessage}
use dsp_sim_bridge.Core.Invariant.Receiving.{at_phase}

-- A frame that was announced fits the receive frame.
pub frame-le-capacity :
    (c : Config) (r : Runtime)
    → Limits c
    → InRange c
    → HasMessage c r
    → (4 + r.rx_payload_length_octets ≤ c.rx_frame_capacity_octets)
      × (r.rx_payload_length_octets % 2 ≡ 0)
      × (r.rx_payload_length_octets < 2 ^ 16)
frame-le-capacity c r l i (inl m) = ground (arith, m)
frame-le-capacity c r l i (inr (inl m)) = ground (arith, m)
frame-le-capacity c r l i (inr (inr m)) = ground (arith, m)

module _ {W : Type 0} where
  pub window_fits :
      (phase : RxPhase) (b : Block W)
      → IsSound b
      → StateOk receiving b.config b.runtime
      → b.runtime.rx_phase ≡ phase
      → let (remaining, at) = receive_window phase b.runtime in
        (0 < remaining)
        × (remaining % 2 ≡ 0)
        × (2 * at + remaining ≤ b.config.rx_frame_capacity_octets)
        × (at ≡ (b.runtime.rx_header_received_octets + b.runtime.rx_payload_received_octets) / 2)
        × (2 * at ≡ b.runtime.rx_header_received_octets + b.runtime.rx_payload_received_octets)
  unfolding receive_window
  window_fits rx_header b s a p =
      let o = at_phase b.config b.runtime p a in
      let l = s.limits.rx_start in
      (omega (arith, o), omega (arith, o), omega (arith, o, l), omega (arith, o), omega (arith, o))
  window_fits rx_payload b s a p =
      let o = at_phase b.config b.runtime p a in
      let f = frame-le-capacity b.config b.runtime s.limits s.in_range o.3 in
      (
        omega (arith, o.0, o.1, f),
        omega (arith, o.1, o.2, f),
        omega (arith, o.1, o.2, f),
        omega (arith, o.0, o.1, o.2, f),
        omega (arith, o.0, o.1, o.2, f),
      )

  -- What is left to send in a well-formed instance that is sending.
  pub rest_fits :
      (b : Block W)
      → IsValid b
      → b.runtime.state ≡ sending
      → let remaining = sub32 b.runtime.tx_total_octets b.runtime.tx_sent_octets in
        let at = b.runtime.tx_sent_octets / 2 in
        (0 < remaining)
        × (remaining % 2 ≡ 0)
        × (2 * at ≡ b.runtime.tx_sent_octets)
        × (2 * at + remaining ≡ b.runtime.tx_total_octets)
        × (2 * at + remaining ≤ 2 * length b.tx_frame_words)
  rest_fits b v e =
      let a = subst (λ s. StateOk s b.config b.runtime) e v.state_ok in
      let room = v.sound.tx_room in
      let cap = v.sound.in_range.tx_capacity_u32 in omega (arith, a.0, a.1, a.2, a.3, room, cap)

module _ {W : Type 0} (ops : Ops W) where
  -- What the service makes of the answer of a device that was asked for `room` octets and stores
  -- words from the word `at` of the receive frame on.
  abbrev pub after_receive : ℕ → ℕ → Block W → Block W
  after_receive at room b =
      let (received, words, w) = ops.receive room b.world in
      receive_result ops received room
        (record b { rx_frame_words = write_at at words b.rx_frame_words; world = w })

  -- What the service makes of the answer of a device that was given `octets` octets from the word
  -- `at` of the transmit frame on.
  abbrev pub after_send : ℕ → ℕ → Block W → Block W
  after_send at octets b =
      let (confirmed, w) = ops.send b.tx_frame_words at octets b.world in
      send_result ops confirmed octets (record b { world = w })

  -- The device is asked once: for a positive even number of octets, to be stored behind those that
  -- have arrived, within the receive frame.
  pub record IsAsked (b after : Block W) : Type 0 where
    pub at : ℕ
    pub room : ℕ
    pub positive : 0 < room
    pub even : room % 2 ≡ 0
    pub behind : 2 * at ≡ b.runtime.rx_header_received_octets + b.runtime.rx_payload_received_octets
    pub within_capacity : 2 * at + room ≤ b.config.rx_frame_capacity_octets
    pub within : 2 * at + room ≤ 2 * length b.rx_frame_words
    pub asked : after ≡ after_receive at room b

  -- The device is called once: with a positive even number of octets, the first that was not sent
  -- before and all up to the total, within the transmit frame.
  pub record IsGiven (b after : Block W) : Type 0 where
    pub at : ℕ
    pub octets_ : ℕ
    pub positive : 0 < octets_
    pub even : octets_ % 2 ≡ 0
    pub unsent : 2 * at ≡ b.runtime.tx_sent_octets
    pub to_the_end : 2 * at + octets_ ≡ b.runtime.tx_total_octets
    pub within : 2 * at + octets_ ≤ 2 * length b.tx_frame_words
    pub given : after ≡ after_send at octets_ b

  -- In a well-formed instance that is receiving, a call of the service asks the device once, for a
  -- positive even number of octets; they are stored directly behind those that have arrived, and
  -- that many lie within the receive frame's capacity and array.
  pub receive_in_bounds :
      (b : Block W) → IsValid b → b.runtime.state ≡ receiving → IsAsked b (service_receiving ops b)
  unfolding service_receiving
  receive_in_bounds b v e =
      let (room, at) = receive_window b.runtime.rx_phase b.runtime in
      let f =
        window_fits b.runtime.rx_phase b v.sound
          (subst (λ s. StateOk s b.config b.runtime) e v.state_ok) refl in
      let words = v.sound.rx_room in
      record {
        at = at;
        room = room;
        positive = f.0;
        even = f.1;
        behind = f.4;
        within_capacity = f.2;
        within = omega (arith, f.2, words);
        asked = refl;
      }

  -- In a well-formed instance that is sending, a call of the service gives the device once a
  -- positive even number of octets: from the first that was not confirmed before up to the total of
  -- the frame, all within the transmit frame's array.
  pub send_in_bounds :
      (b : Block W) → IsValid b → b.runtime.state ≡ sending → IsGiven b (service_sending ops b)
  unfolding service_sending
  send_in_bounds b v e =
      let f = rest_fits b v e in
      record {
        at = b.runtime.tx_sent_octets / 2;
        octets_ = sub32 b.runtime.tx_total_octets b.runtime.tx_sent_octets;
        positive = f.0;
        even = f.1;
        unsent = f.2;
        to_the_end = f.3;
        within = f.4;
        given = refl;
      }
