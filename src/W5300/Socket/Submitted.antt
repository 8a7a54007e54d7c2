-- ===== src/W5300/Socket/Submitted.antt =====
-- What `c2837x_w5300_socket_send` of dsp/src/c2837x_w5300_socket.c writes to the FIFO of the socket.
use dsp_sim_bridge.Common.{
  ℕ, ◌+◌, ◌*◌, ◌/◌, ◌%◌, ◌^◌, ◌≡◌, ◌≤◌, ◌<◌, refl, sym, ap, ◌∙◌, ◌⊎◌, inl, inr, true, Option, none,
  some, List, ◌++◌, ℤ, pos, failed, is_negative, not, ◌==◌, ◌||◌, arith, length, take, drop,
  if_intro,
}
use mathlib.Core.List.{map}
use dsp_sim_bridge.W5300.Registers.{sn_cr, sn_ssr, cr_send, ir_sendok, ir_timeout}
use dsp_sim_bridge.W5300.Hal.{
  Bus, in_fifo, get_sn_ssr, get_sn_tx_fsr, set_sn_ir, set_sn_tx_wrsr, write_stream, issue_sn_cr,
}
use dsp_sim_bridge.W5300.Socket.{
  Socket, PendingCommand, is_command, is_phase, phase_idle, phase_wait_cr_clear, command_send,
  issue,
}
use dsp_sim_bridge.W5300.Socket.Commands.{is_free}
use dsp_sim_bridge.W5300.Socket.Transfer.{
  even_octets, at_most, is_open_status, submit, send_sized, send_free, send_at, send_words,
  socket_send, advance_transfer,
}
use dsp_sim_bridge.W5300.Socket.Quiet.{advance_pending-IsQuiet}
use dsp_sim_bridge.W5300.Socket.Bounds.{even_octets_bounds, at_most_bounds}
use dsp_sim_bridge.W5300.Outbound.{
  Outbound, outgoing-get_sn_ssr, outgoing-set_sn_ir, outgoing-set_sn_tx_wrsr, outgoing-issue_sn_cr,
  outgoing-get_sn_tx_fsr, outgoing-write_stream,
}

module _ {W : Type 0} {bus : Bus W} (outbounds : (sn : ℕ) → Outbound bus sn) where
  -- The words written to the FIFO of a socket.
  abbrev pub written : Socket → W → List ℕ
  written sk w = (outbounds sk.sn).outgoing w

  -- The words of the frame that make the first `n` octets from index `at` on, as the FIFO holds them.
  abbrev pub piece : List ℕ → ℕ → ℕ → List ℕ
  piece frame at n = map (in_fifo bus) (take (n / 2) (drop at frame))

  -- A socket's send: it fails, or does nothing, or writes a piece.
  pub record IsSubmitted (frame : List ℕ) (at count : ℕ) (base : List ℕ) (out : ℤ × Socket × W)
      : Type 0 where
    pub outcome :
        (is_negative out.0 ≡ true)
        ⊎ ((out.0 ≡ pos 0) × (written out.1 out.2 ≡ base))
        ⊎ ((n : ℕ) × (out.0 ≡ pos n)
            × (0 < n)
            × (n ≤ count)
            × (written out.1 out.2 ≡ base ++ piece frame at n))

  written-issue :
      (sk : Socket) (command : ℕ) (pending : PendingCommand) (w : W)
      → let (result, sk1, w1) = issue bus sk command pending w in written sk1 w1 ≡ written sk w
  unfolding issue
  written-issue sk command pending w =
      let same = outgoing-issue_sn_cr (outbounds sk.sn) command w in
      if_intro (λ (out : ℤ × Socket × W). written out.1 out.2 ≡ written sk w)
        (is_negative (issue_sn_cr bus sk.sn command w).0) (λ _. same) (λ _. same)

  module _ (frame : List ℕ) (at count : ℕ) (base : List ℕ)
      (fits : count ≤ 2 * length (drop at frame)) where
    submit-IsSubmitted :
        (sk : Socket) (chunk : ℕ) (w : W)
        → chunk % 2 ≡ 0
        → chunk < 2 ^ 16
        → 0 < chunk
        → chunk ≤ count
        → written sk w ≡ base
        → IsSubmitted frame at count base (submit bus sk frame at chunk w)
    unfolding submit
    submit-IsSubmitted sk chunk w even small some_octets room e =
        let o = outbounds sk.sn in
        let w1 = set_sn_ir bus sk.sn (ir_sendok + ir_timeout) w in
        let w2 = write_stream bus sk.sn frame at chunk w1 in
        let w3 = set_sn_tx_wrsr bus sk.sn chunk w2 in
        let out = issue bus sk cr_send command_send w3 in
        let after =
          written-issue sk cr_send command_send w3
          ∙ outgoing-set_sn_tx_wrsr o chunk w2
          ∙ outgoing-write_stream o frame at chunk w1 even small (omega arith)
          ∙ ap (λ l. l ++ piece frame at chunk)
              (outgoing-set_sn_ir o (ir_sendok + ir_timeout) w ∙ e) in
        if_intro (IsSubmitted frame at count base) (is_negative out.0) {x = (failed, out.1, out.2)}
          {y = (pos chunk, out.1, out.2)} (λ _. record { outcome = inl refl })
          (λ _. record { outcome = inr (inr (chunk, refl, some_octets, room, after)) })

    send_sized-IsSubmitted :
        (found : Option ℕ) (sk : Socket) (w : W)
        → written sk w ≡ base
        → IsSubmitted frame at count base (send_sized bus found sk frame at count w)
    unfolding send_sized
    send_sized-IsSubmitted none sk w e = record { outcome = inl refl }
    send_sized-IsSubmitted (some free_size) sk w e =
        let room = at_most_bounds sk.tx_mem_size (at_most free_size count) in
        let left = at_most_bounds free_size count in
        let chunk = even_octets (at_most sk.tx_mem_size (at_most free_size count)) in
        let (even, small, less) =
          even_octets_bounds (at_most sk.tx_mem_size (at_most free_size count)) in
        if_intro (IsSubmitted frame at count base) (chunk == 0) {x = (pos 0, sk, w)}
          (λ _. record { outcome = inr (inl (refl, e)) })
          (λ f.
            submit-IsSubmitted sk chunk w even small (ground (arith, f))
              (omega (arith, less, room.1, left.1)) e)

    send_free-IsSubmitted :
        (sk : Socket) (w : W)
        → written sk w ≡ base
        → IsSubmitted frame at count base (send_free bus sk frame at count w)
    unfolding send_free
    send_free-IsSubmitted sk w e =
        let o = outbounds sk.sn in
        let (status, w1) = get_sn_ssr bus sk.sn w in
        let same = outgoing-get_sn_ssr o w ∙ e in
        if_intro (IsSubmitted frame at count base) (not (is_open_status status))
          {x = (pos 0, sk, w1)} (λ _. record { outcome = inr (inl (refl, same)) })
          (λ _.
            send_sized-IsSubmitted (get_sn_tx_fsr bus sk.sn w1).0 sk (get_sn_tx_fsr bus sk.sn w1).1
              (outgoing-get_sn_tx_fsr o w1 ∙ same))

    send_at-IsSubmitted :
        (sk : Socket) (w : W)
        → written sk w ≡ base
        → IsSubmitted frame at count base (send_at bus sk frame at count w)
    unfolding send_at
    send_at-IsSubmitted sk w e =
        let P = IsSubmitted frame at count base in
        if_intro P (is_free sk)
          (λ _.
            if_intro P (is_phase sk.command_phase phase_idle) {y = (failed, sk, w)}
              (λ _. send_free-IsSubmitted sk w e) (λ _. record { outcome = inl refl }))
          (λ _.
            if_intro P (is_phase sk.command_phase phase_idle) {x = (failed, sk, w)}
              {y = (pos 0, sk, w)} (λ _. record { outcome = inl refl })
              (λ _. record { outcome = inr (inl (refl, e)) }))

  pub IsSubmitted-widened :
      (frame : List ℕ) (at fewer count : ℕ) (base : List ℕ) (out : ℤ × Socket × W)
      → fewer ≤ count
      → IsSubmitted frame at fewer base out
      → IsSubmitted frame at count base out
  IsSubmitted-widened frame at fewer count base out le s = record {
    outcome = elim s.outcome [
      | inl bad ↦ inl bad
      | inr (inl nothing) ↦ inr (inl nothing)
      | inr (inr (n, r, some_octets, room, sent)) ↦
          inr (inr (n, r, some_octets, omega (arith, room, le), sent))
    ];
  }

  pub socket_send-IsSubmitted :
      (frame : List ℕ) (at count : ℕ) (sk : Socket) (w : W)
      → count ≤ 2 * length (drop at frame)
      → IsSubmitted frame at count (written sk w) (socket_send bus sk frame (some at) count w)
  unfolding socket_send send_words
  socket_send-IsSubmitted frame at count sk w fits =
      let less = (even_octets_bounds count).2 in
      if_intro (IsSubmitted frame at count (written sk w)) (even_octets count == 0)
        {x = (pos 0, sk, w)} (λ _. record { outcome = inr (inl (refl, refl)) })
        (λ _. IsSubmitted-widened frame at (even_octets count) count _ _ less (
          send_at-IsSubmitted frame at (even_octets count) (written sk w)
            (omega (arith, less, fits)) sk w refl))

  -- Advancing a command writes nothing to the FIFO.
  pub written-advance_transfer :
      (command : PendingCommand) (sk : Socket) (w : W)
      → let (result, sk1, w1) = advance_transfer bus command sk w in written sk1 w1 ≡ written sk w
  unfolding advance_transfer
  written-advance_transfer command sk w =
      let P = λ (out : ℤ × Socket × W). written out.1 out.2 ≡ written sk w in
      let q =
        advance_pending-IsQuiet bus (λ sn w. (outbounds sn).outgoing w)
          (λ sn w. (outbounds sn).read_any (sn_cr sn) w)
          (λ sn w. (outbounds sn).read_any (sn_ssr sn) w) sk w in
      if_intro P (is_free sk) (λ _. refl)
        (λ _.
          if_intro P
            (not (is_command sk.pending_command command)
              || not (is_phase sk.command_phase phase_wait_cr_clear))
            (λ _. refl) (λ _. sym q.stays))
