-- ===== src/W5300/Channel/Pieces.antt =====
-- What one call of `send` of dsp/src/c2837x_w5300_channel.c leaves: nothing submitted, or a piece that is
-- written and not confirmed, or one that it confirms.
use dsp_sim_bridge.Common.{
  ℕ, ◌*◌, ◌≡◌, ◌≤◌, ◌<◌, refl, sym, ap, ◌∙◌, ◌⊎◌, inl, inr, true, some, List, ◌++◌, ℤ, pos, negsuc,
  is_negative, not, ◌==◌, ◌!=◌, ◌||◌, arith, length, drop, is_odd, ltb, bit_set, if_intro,
  absurd_bool, ==→eq, or_false_left, false,
}
use mathlib.Core.Path.{subst, subst⁻¹}
use dsp_sim_bridge.W5300.Registers.{ir_sendok}
use dsp_sim_bridge.W5300.Hal.{Bus, get_sn_ssr, get_sn_ir, set_sn_ir}
use dsp_sim_bridge.W5300.Socket.{Socket, is_command, command_send, command_recv}
use dsp_sim_bridge.W5300.Socket.Commands.{is_free}
use dsp_sim_bridge.W5300.Socket.Transfer.{
  even_octets, is_open_status, socket_send, advance_send_command, advance_recv_command,
}
use dsp_sim_bridge.W5300.Socket.Bounds.{even_octets_bounds}
use dsp_sim_bridge.W5300.Outbound.{
  Outbound, outgoing-get_sn_ssr, outgoing-get_sn_ir, outgoing-set_sn_ir,
}
use dsp_sim_bridge.W5300.Socket.Submitted.{
  written, piece, IsSubmitted, IsSubmitted-widened, socket_send-IsSubmitted,
  written-advance_transfer,
}
use dsp_sim_bridge.W5300.Channel.{TcpChannel, send_idle, send_pending, runtime_operation_allowed}
use dsp_sim_bridge.W5300.Channel.Sending.{
  send_result_bits, send_error, advanced, confirm_piece, await_confirmation, send_more, submitted,
  submit_piece, send_first, send_in, send,
}

pub same_number : {m n : ℕ} → pos m ≡ pos n → m ≡ n
same_number e = cc

module _ {W : Type 0} {bus : Bus W} (outbounds : (sn : ℕ) → Outbound bus sn) where
  -- Nothing is submitted.
  pub record IsIdle (base : List ℕ) (c : TcpChannel) (w : W) : Type 0 where
    pub idle : c.send_state ≡ send_idle
    pub sent : written outbounds c.socket w ≡ base

  module _ (frame : List ℕ) (at count : ℕ) (base : List ℕ) where
    -- A piece is written and not yet confirmed.
    pub record IsPending (c : TcpChannel) (w : W) : Type 0 where
      pub pending : c.send_state ≡ send_pending
      pub some_octets : 0 < c.pending_octets
      pub even : is_odd c.pending_octets ≡ false
      pub room : c.pending_octets ≤ count
      pub sent : written outbounds c.socket w ≡ base ++ piece outbounds frame at c.pending_octets

    abbrev pub Waits : TcpChannel → W → Type 0
    Waits c w = IsIdle base c w ⊎ IsPending c w

    pub record IsSent (out : ℤ × TcpChannel × W) : Type 0 where
      pub outcome :
          (is_negative out.0 ≡ true)
          ⊎ ((out.0 ≡ pos 0) × Waits out.1 out.2)
          ⊎ ((n : ℕ) × (out.0 ≡ pos n)
              × (0 < n)
              × (n ≤ count)
              × (is_odd n ≡ false)
              × (out.1.send_state ≡ send_idle)
              × (written outbounds out.1.socket out.2 ≡ base ++ piece outbounds frame at n))

    error-IsSent : (c : TcpChannel) (w : W) → IsSent (send_error c w)
    error-IsSent c w = record { outcome = inl refl }

    waiting-IsSent : (c : TcpChannel) (w : W) → Waits c w → IsSent (pos 0, c, w)
    waiting-IsSent c w h = record { outcome = inr (inl (refl, h)) }

    advanced-IsSent :
        (c : TcpChannel) (out : ℤ × Socket × W)
        → Waits (record c { socket = out.1 }) out.2
        → IsSent (advanced c out)
    unfolding advanced
    advanced-IsSent c (result, sk, w) h =
        if_intro IsSent (is_negative result) (λ _. error-IsSent (record c { socket = sk }) w)
          (λ _. waiting-IsSent (record c { socket = sk }) w h)

    -- What a count of submitted octets says.
    submitted_none :
        (n : ℕ) (sk : Socket) (w : W)
        → n ≡ 0
        → IsSubmitted outbounds frame at count base (pos n, sk, w)
        → written outbounds sk w ≡ base
    submitted_none n sk w e s = elim s.outcome [
      | inl bad ↦ absurd_bool bad refl
      | inr (inl (r, same)) ↦ same
      | inr (inr (k, r, some_octets, room, sent)) ↦
          absurd (omega (arith, e, some_octets, same_number r))
    ]

    submitted_some :
        (n : ℕ) (sk : Socket) (w : W)
        → 0 < n
        → IsSubmitted outbounds frame at count base (pos n, sk, w)
        → (n ≤ count) × (written outbounds sk w ≡ base ++ piece outbounds frame at n)
    submitted_some n sk w some_octets s = elim s.outcome [
      | inl bad ↦ absurd_bool bad refl
      | inr (inl (r, same)) ↦ absurd (omega (arith, some_octets, same_number r))
      | inr (inr (k, r, _, room, sent)) ↦ (
        omega (arith, room, same_number r),
        sent ∙ ap (λ m. base ++ piece outbounds frame at m) (sym (same_number r)),
      )
    ]

    submitted-IsSent :
        (result : ℤ) (limit : ℕ) (sk : Socket) (c : TcpChannel) (w : W)
        → c.send_state ≡ send_idle
        → IsSubmitted outbounds frame at count base (result, sk, w)
        → IsSent (submitted result limit (record c { socket = sk }) w)
    unfolding submitted
    submitted-IsSent (negsuc n) limit sk c w idle s = error-IsSent (record c { socket = sk }) w
    submitted-IsSent (pos n) limit sk c w idle s =
        let c1 = record c { socket = sk } in
        if_intro IsSent (n == 0)
          (λ t.
            waiting-IsSent c1 w
              (inl (record { idle = idle; sent = submitted_none n sk w (==→eq n 0 t) s })))
          (λ f.
            if_intro IsSent (is_odd n || ltb limit n) (λ _. error-IsSent c1 w)
              (λ ok.
                let (room, sent) = submitted_some n sk w (ground (arith, f)) s in
                waiting-IsSent (record c1 { pending_octets = n; send_state = send_pending }) w
                  (inr (record {
                    pending = refl;
                    some_octets = ground (arith, f);
                    even = or_false_left (is_odd n) _ ok;
                    room = room;
                    sent = sent;
                  }))))

    -- A call with nothing submitted.
    send_first-IsSent :
        (c : TcpChannel) (w : W)
        → count ≤ 2 * length (drop at frame)
        → IsIdle base c w
        → IsSent (send_first bus frame (some at) count c w)
    unfolding send_first submit_piece advance_recv_command
    send_first-IsSent c w fits i =
        let less = (even_octets_bounds count).2 in
        let out = socket_send bus c.socket frame (some at) (even_octets count) w in
        if_intro IsSent (c.pending_octets != 0) (λ _. error-IsSent c w)
          (λ _.
            if_intro IsSent (is_command c.socket.pending_command command_recv)
              (λ _. advanced-IsSent c (advance_recv_command bus c.socket w) (
                inl (record {
                  idle = i.idle;
                  sent = written-advance_transfer outbounds command_recv c.socket w ∙ i.sent;
                })))
              (λ _.
                if_intro IsSent (not (is_free c.socket)) (λ _. error-IsSent c w)
                  (λ _.
                    if_intro IsSent (even_octets count == 0) (λ _. waiting-IsSent c w (inl i))
                      (λ _. submitted-IsSent out.0 (even_octets count) out.1 c out.2 i.idle (
                        subst (λ b. IsSubmitted outbounds frame at count b out) i.sent
                          (IsSubmitted-widened outbounds frame at (even_octets count) count _ out
                            less
                            (socket_send-IsSubmitted outbounds frame at (even_octets count) c.socket
                              w (omega (arith, less, fits)))))))))

    confirm_piece-IsSent :
        (status ir : ℕ) (c : TcpChannel) (w : W)
        → IsPending c w
        → IsSent (confirm_piece bus status ir c w)
    unfolding confirm_piece
    confirm_piece-IsSent status ir c w p =
        if_intro IsSent (bit_set 3 ir)
          (λ _. error-IsSent c (set_sn_ir bus c.socket.sn (send_result_bits ir) w))
          (λ _.
            if_intro IsSent (not (is_open_status status)) (λ _. error-IsSent c w)
              (λ _.
                if_intro IsSent (not (bit_set 4 ir)) (λ _. waiting-IsSent c w (inr p))
                  (λ _. record {
                    outcome = inr (
                        inr (
                          c.pending_octets,
                          refl,
                          p.some_octets,
                          p.room,
                          p.even,
                          refl,
                          outgoing-set_sn_ir (outbounds c.socket.sn) ir_sendok w ∙ p.sent,
                        ));
                  })))

    -- A call while a piece is not yet confirmed.
    send_more-IsSent : (c : TcpChannel) (w : W) → IsPending c w → IsSent (send_more bus c w)
    unfolding send_more await_confirmation advance_send_command
    send_more-IsSent c w p =
        let same = written-advance_transfer outbounds command_send c.socket w in
        let (result, sk, w1) = advance_send_command bus c.socket w in
        let c1 = record c { socket = sk } in
        let (status, w2) = get_sn_ssr bus sk.sn w1 in
        let (ir, w3) = get_sn_ir bus sk.sn w2 in
        let o = outbounds sk.sn in
        if_intro IsSent (c.pending_octets == 0 || is_odd c.pending_octets) (λ _. error-IsSent c w)
          (λ _.
            if_intro IsSent (is_command c.socket.pending_command command_send)
              (λ _.
                advanced-IsSent c (result, sk, w1)
                  (inr (record {
                    pending = p.pending;
                    some_octets = p.some_octets;
                    even = p.even;
                    room = p.room;
                    sent = same ∙ p.sent;
                  })))
              (λ _.
                if_intro IsSent (not (is_free c.socket)) (λ _. error-IsSent c w)
                  (λ _.
                    if_intro IsSent (is_negative result) (λ _. error-IsSent c1 w1)
                      (λ _. confirm_piece-IsSent status ir c1 w3 (record {
                        pending = p.pending;
                        some_octets = p.some_octets;
                        even = p.even;
                        room = p.room;
                        sent = outgoing-get_sn_ir o w2 ∙ outgoing-get_sn_ssr o w1 ∙ same ∙ p.sent;
                      })))))

    pub send-IsSent :
        (c : TcpChannel) (w : W)
        → count ≤ 2 * length (drop at frame)
        → Waits c w
        → IsSent (send bus frame (some at) count c w)
    unfolding send send_in
    send-IsSent c w fits h =
        if_intro IsSent (not (runtime_operation_allowed c)) (λ _. record { outcome = inl refl })
          (λ _. elim h [
            | inl i ↦
                subst⁻¹ (λ s. IsSent (send_in bus s frame (some at) count c w)) i.idle
                  (send_first-IsSent c w fits i)
            | inr p ↦
                subst⁻¹ (λ s. IsSent (send_in bus s frame (some at) count c w)) p.pending
                  (send_more-IsSent c w p)
          ])
