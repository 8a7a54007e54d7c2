-- ===== src/W5300/Channel/Sent.antt =====
-- A piece that `send` of dsp/src/c2837x_w5300_channel.c confirms was written to the chip once, over
-- however many calls.
use dsp_sim_bridge.Common.{
  ℕ, ◌*◌, ◌/◌, ◌≡◌, ◌≤◌, ◌<◌, refl, sym, ap, ◌∙◌, inl, inr, some, List, ◌++◌, ℤ, pos, is_negative,
  arith, length, take, drop, absurd_bool,
}
use mathlib.Core.List.{map}
use dsp_sim_bridge.W5300.Hal.{Bus, in_fifo}
use dsp_sim_bridge.W5300.Outbound.{Outbound}
use dsp_sim_bridge.W5300.Socket.Submitted.{written, piece}
use dsp_sim_bridge.W5300.Channel.{TcpChannel, send_idle}
use dsp_sim_bridge.W5300.Channel.Sending.{send}
use dsp_sim_bridge.W5300.Channel.Pieces.{same_number, Waits, IsSent, send-IsSent}

-- Calls of `send` with the same words: each returns 0 but the last, which confirms `n` octets.
pub data Confirmed {W : Type 0} (bus : Bus W) (frame : List ℕ) (at count n : ℕ)
    : TcpChannel → W → TcpChannel → W → Type 0 where
  confirmed :
      (c : TcpChannel) (w : W)
      → (send bus frame (some at) count c w).0 ≡ pos n
      → Confirmed bus frame at count n c w
          (send bus frame (some at) count c w).1
          (send bus frame (some at) count c w).2
  waited :
      (c : TcpChannel) (w : W) {c' : TcpChannel} {w' : W}
      → (send bus frame (some at) count c w).0 ≡ pos 0
      → Confirmed bus frame at count n
          (send bus frame (some at) count c w).1
          (send bus frame (some at) count c w).2
          c'
          w'
      → Confirmed bus frame at count n c w c' w'

module _ {W : Type 0} {bus : Bus W} (outbounds : (sn : ℕ) → Outbound bus sn) (frame : List ℕ)
    (at count n : ℕ) (some_octets : 0 < n) (fits : count ≤ 2 * length (drop at frame)) where
  confirmed-written :
      (base : List ℕ) (out : ℤ × TcpChannel × W)
      → out.0 ≡ pos n
      → IsSent outbounds frame at count base out
      → (n ≤ count) × (written outbounds out.1.socket out.2 ≡ base ++ piece outbounds frame at n)
  confirmed-written base out e s = elim s.outcome [
    | inl bad ↦ absurd_bool bad (ap is_negative e)
    | inr (inl (r, h)) ↦ absurd (omega (arith, some_octets, same_number (sym r ∙ e)))
    | inr (inr (k, r, _, room, _, _, sent)) ↦
        let k≡n = same_number (sym r ∙ e) in
        (omega (arith, room, k≡n), sent ∙ ap (λ m. base ++ piece outbounds frame at m) k≡n)
  ]

  waited-Waits :
      (base : List ℕ) (out : ℤ × TcpChannel × W)
      → out.0 ≡ pos 0
      → IsSent outbounds frame at count base out
      → Waits outbounds frame at count base out.1 out.2
  waited-Waits base out e s = elim s.outcome [
    | inl bad ↦ absurd_bool bad (ap is_negative e)
    | inr (inl (r, h)) ↦ h
    | inr (inr (k, r, positive, room, _, _, sent)) ↦
        absurd (omega (arith, positive, same_number (sym r ∙ e)))
  ]

  Confirmed-written :
      (base : List ℕ) {c : TcpChannel} {w : W} {c' : TcpChannel} {w' : W}
      → Confirmed bus frame at count n c w c' w'
      → Waits outbounds frame at count base c w
      → (n ≤ count) × (written outbounds c'.socket w' ≡ base ++ piece outbounds frame at n)
  Confirmed-written base (Confirmed.confirmed c w e) h =
      confirmed-written base _ e (send-IsSent outbounds frame at count base c w fits h)
  Confirmed-written base (Confirmed.waited c w e rest) h =
      Confirmed-written base rest
        (waited-Waits base _ e (send-IsSent outbounds frame at count base c w fits h))

  -- Calls of `send` with the same words on a channel that has nothing submitted, of which the last
  -- confirms `n` octets and the others return 0, have written exactly the words of these octets to the
  -- FIFO of the socket, once and in order; `n` is at most the number of octets given.
  pub piece_sent :
      {c c' : TcpChannel} {w w' : W}
      → c.send_state ≡ send_idle
      → Confirmed bus frame at count n c w c' w'
      → (n ≤ count)
        × (written outbounds c'.socket w'
            ≡ written outbounds c.socket w ++ map (in_fifo bus) (take (n / 2) (drop at frame)))
  piece_sent {c} {c'} {w} {w'} idle calls =
      Confirmed-written _ calls (inl (record { idle = idle; sent = refl }))
