-- ===== src/W5300/Channel/Received.antt =====
-- `receive` of dsp/src/c2837x_w5300_channel.c hands the words of the chip's stream over in order.
use dsp_sim_bridge.Common.{
  ℕ, ◌*◌, ◌%◌, ◌^◌, ◌≡◌, ◌≤◌, ◌<◌, refl, sym, ap, ◌∙◌, ◌⊎◌, inl, inr, Bool, true, Option, none,
  some, List, [], ◌++◌, ℤ, pos, failed, not, ◌==◌, ◌||◌, leb, arith, length, is_negative,
  Bool-cases, if_intro,
}
use mathlib.Core.List.{map}
use dsp_sim_bridge.W5300.Registers.{max_sock_num, sn_cr, sn_ssr, cr_recv}
use dsp_sim_bridge.W5300.Hal.{
  Bus, in_fifo, get_sn_ssr, get_sn_rx_rsr, issue_sn_cr, write8, read_stream,
}
use dsp_sim_bridge.W5300.Socket.{Socket, command_recv, is_phase, phase_idle, issue, advance_pending}
use dsp_sim_bridge.W5300.Socket.Commands.{is_free}
use dsp_sim_bridge.W5300.Socket.Quiet.{advance_pending-IsQuiet}
use dsp_sim_bridge.W5300.Socket.Transfer.{
  even_octets, is_open_status, copy_size, fetch, recv_sized, recv_free, recv_pending, socket_recv,
}
use dsp_sim_bridge.W5300.Socket.Bounds.{even_octets_bounds, copy_size_bounds}
use dsp_sim_bridge.W5300.Channel.{TcpChannel, runtime_operation_allowed}
use dsp_sim_bridge.W5300.Channel.Control.{receive}
use dsp_sim_bridge.W5300.Inbound.{
  Inbound, get_sn_ssr-incoming, get_sn_rx_rsr-IsSized, read_stream-incoming,
}

module _ {W : Type 0} {bus : Bus W} (inbounds : (sn : ℕ) → Inbound bus sn) where
  -- The words that a socket has yet to hand over, as the DSP stores them.
  abbrev pub coming : Socket → W → List ℕ
  coming sk w = map (in_fifo bus) ((inbounds sk.sn).incoming w)

  -- The outcome of receiving with `capacity` octets of room when the words `before` were to come: a
  -- failure, or what was stored and the words still to come make them up.
  pub record IsPassed (capacity : ℕ) (before : List ℕ) (out : ℤ × List ℕ × Socket × W)
      : Type 0 where
    pub outcome :
        (is_negative out.0 ≡ true)
        ⊎ ((out.0 ≡ pos (2 * length out.1))
            × (2 * length out.1 ≤ capacity)
            × (before ≡ out.1 ++ coming out.2 out.3))

  rejected-IsPassed :
      (capacity : ℕ) (before words : List ℕ) (sk : Socket) (w : W)
      → IsPassed capacity before (failed, words, sk, w)
  rejected-IsPassed capacity before words sk w = record { outcome = inl refl }

  idle-IsPassed :
      (capacity : ℕ) (before : List ℕ) (sk : Socket) (w : W)
      → before ≡ coming sk w
      → IsPassed capacity before (pos 0, [], sk, w)
  idle-IsPassed capacity before sk w e = record { outcome = inr (refl, omega arith, e) }

  IsPassed-widened :
      (few many : ℕ) (before : List ℕ) (out : ℤ × List ℕ × Socket × W)
      → few ≤ many
      → IsPassed few before out
      → IsPassed many before out
  IsPassed-widened few many before out le p = record {
    outcome = elim p.outcome [
      | inl bad ↦ inl bad
      | inr (r, room, kept) ↦ inr (r, omega (arith, room, le), kept)
    ];
  }

  -- The RECV command takes nothing from the FIFO.
  incoming-issue_sn_cr :
      (sn : ℕ) (w : W)
      → (inbounds sn).incoming (issue_sn_cr bus sn cr_recv w).1 ≡ (inbounds sn).incoming w
  unfolding issue_sn_cr write8
  incoming-issue_sn_cr sn w =
      if_intro (λ (out : ℤ × W). (inbounds sn).incoming out.1 ≡ (inbounds sn).incoming w)
        (leb max_sock_num sn || cr_recv == 0) (λ _. refl) (λ _. (inbounds sn).command_recv w)

  coming-issue :
      (sk : Socket) (w : W)
      → let (result, sk1, w1) = issue bus sk cr_recv command_recv w in coming sk1 w1 ≡ coming sk w
  unfolding issue
  coming-issue sk w =
      let same = ap (map (in_fifo bus)) (incoming-issue_sn_cr sk.sn w) in
      if_intro (λ (out : ℤ × Socket × W). coming out.1 out.2 ≡ coming sk w)
        (is_negative (issue_sn_cr bus sk.sn cr_recv w).0) (λ _. same) (λ _. same)

  fetch-IsPassed :
      (size capacity : ℕ) (before : List ℕ) (sk : Socket) (w : W)
      → size % 2 ≡ 0
      → size < 2 ^ 16
      → size ≤ capacity
      → size ≤ 2 * length ((inbounds sk.sn).incoming w)
      → before ≡ coming sk w
      → IsPassed capacity before (fetch bus sk size w)
  unfolding fetch
  fetch-IsPassed size capacity before sk w even small room arrived e =
      let read = read_stream-incoming (inbounds sk.sn) size w even small arrived in
      let words = (read_stream bus sk.sn size w).0 in
      let w1 = (read_stream bus sk.sn size w).1 in
      if_intro (IsPassed capacity before) (is_negative (issue bus sk cr_recv command_recv w1).0)
        (λ _. rejected-IsPassed _ _ _ _ _)
        (λ _. record {
          outcome = inr (
            ap pos (sym read.1),
            omega (arith, read.1, room),
            e ∙ read.0 ∙ ap (λ l. words ++ l) (sym (coming-issue sk w1)),
          );
        })

  recv_sized-IsPassed :
      (found : Option ℕ) (sk : Socket) (capacity : ℕ) (before : List ℕ) (w : W)
      → ((size : ℕ) → found ≡ some size → size ≤ 2 * length ((inbounds sk.sn).incoming w))
      → before ≡ coming sk w
      → IsPassed capacity before (recv_sized bus found sk capacity w)
  unfolding recv_sized
  recv_sized-IsPassed none sk capacity before w arrived e = rejected-IsPassed _ _ _ _ _
  recv_sized-IsPassed (some rx_size) sk capacity before w arrived e =
      let (even, small, received, room) = copy_size_bounds sk rx_size capacity in
      if_intro (IsPassed capacity before) (copy_size sk rx_size capacity == 0)
        (λ _. idle-IsPassed _ _ _ _ e)
        (λ _.
          fetch-IsPassed (copy_size sk rx_size capacity) capacity before sk w even small room
            (omega (arith, received, arrived rx_size refl)) e)

  recv_free-IsPassed :
      (sk : Socket) (capacity : ℕ) (w : W)
      → IsPassed capacity (coming sk w) (recv_free bus sk capacity w)
  unfolding recv_free
  recv_free-IsPassed sk capacity w =
      let (status, w1) = get_sn_ssr bus sk.sn w in
      let f = in_fifo bus in
      let same = sym (get_sn_ssr-incoming (inbounds sk.sn) w) in
      let sized = get_sn_rx_rsr-IsSized (inbounds sk.sn) w1 in
      if_intro (IsPassed capacity (coming sk w)) (not (is_open_status status))
        (λ _. idle-IsPassed _ _ _ _ (ap (map f) same))
        (λ _.
          recv_sized-IsPassed (get_sn_rx_rsr bus sk.sn w1).0 sk capacity (coming sk w)
            (get_sn_rx_rsr bus sk.sn w1).1
            (λ size e. omega (arith, sized.arrived size e, ap length sized.kept))
            (ap (map f) (same ∙ sym sized.kept)))

  recv_pending-IsPassed :
      (sk : Socket) (capacity : ℕ) (w : W) → IsPassed capacity (coming sk w) (recv_pending bus sk w)
  unfolding recv_pending
  recv_pending-IsPassed sk capacity w =
      let f = in_fifo bus in
      let q =
        advance_pending-IsQuiet bus (λ sn w. map f ((inbounds sn).incoming w))
          (λ sn w. ap (map f) ((inbounds sn).read_other (sn_cr sn) w (λ e. omega (arith, e))))
          (λ sn w. ap (map f) ((inbounds sn).read_other (sn_ssr sn) w (λ e. omega (arith, e)))) sk
          w in
      let out = advance_pending bus sk w in
      elim (Bool-cases (is_negative out.0)) [
        | inl t ↦ rw t (rejected-IsPassed _ _ _ _ _)
        | inr t ↦ rw t (idle-IsPassed _ _ _ _ q.stays)
      ]

  socket_recv-IsPassed :
      (data_words_set : Bool) (capacity : ℕ) (sk : Socket) (w : W)
      → IsPassed capacity (coming sk w) (socket_recv bus data_words_set capacity sk w)
  unfolding socket_recv
  socket_recv-IsPassed data_words_set capacity sk w =
      let P = IsPassed capacity (coming sk w) in
      if_intro P (even_octets capacity == 0) (λ _. idle-IsPassed _ _ _ _ refl)
        (λ _.
          if_intro P (not data_words_set) (λ _. rejected-IsPassed _ _ _ _ _)
            (λ _.
              if_intro P (is_free sk)
                (λ _.
                  if_intro P (is_phase sk.command_phase phase_idle)
                    (λ _.
                      IsPassed-widened (even_octets capacity) capacity _ _
                        (even_octets_bounds capacity).2
                        (recv_free-IsPassed sk (even_octets capacity) w))
                    (λ _. rejected-IsPassed _ _ _ _ _))
                (λ _.
                  if_intro P (is_phase sk.command_phase phase_idle)
                    (λ _. rejected-IsPassed _ _ _ _ _) (λ _. recv_pending-IsPassed sk capacity w))))

-- `receive` fails, or returns the number of octets of the words that it stored, no more than there was
-- room for, and those words, followed by what is still to come, are the words that the socket had
-- to hand over before.
pub record IsHandedOver {W : Type 0} {bus : Bus W} (inbounds : (sn : ℕ) → Inbound bus sn)
    (capacity : ℕ) (before : List ℕ) (out : ℤ × List ℕ × TcpChannel × W) : Type 0 where
  pub outcome :
      (is_negative out.0 ≡ true)
      ⊎ ((out.0 ≡ pos (2 * length out.1))
          × (2 * length out.1 ≤ capacity)
          × (before ≡ out.1 ++ coming inbounds out.2.socket out.3))

pub receive-IsHandedOver :
    {W : Type 0} {bus : Bus W} (inbounds : (sn : ℕ) → Inbound bus sn) (data_words_set : Bool)
    (capacity : ℕ) (c : TcpChannel) (w : W)
    → IsHandedOver inbounds capacity
        (coming inbounds c.socket w)
        (receive bus data_words_set capacity c w)
unfolding receive
receive-IsHandedOver {bus = bus} inbounds data_words_set capacity c w =
    let P = IsHandedOver inbounds capacity (coming inbounds c.socket w) in
    let passed =
      IsPassed-widened inbounds (even_octets capacity) capacity _ _ (even_octets_bounds capacity).2
        (socket_recv-IsPassed inbounds data_words_set (even_octets capacity) c.socket w) in
    if_intro P (not (runtime_operation_allowed c)) (λ _. record { outcome = inl refl })
      (λ _.
        if_intro P (even_octets capacity == 0) {x = (pos 0, [], c, w)}
          (λ _. record { outcome = inr (refl, omega arith, refl) })
          (λ _. record { outcome = passed.outcome }))
