-- ===== src/W5300/Outbound.antt =====
-- What is written to the transmit FIFO of a socket of the W5300.
use dsp_sim_bridge.Common.{
  ℕ, zero, suc, ◌+◌, ◌*◌, ◌/◌, ◌%◌, ◌^◌, ◌≡◌, ◌≢◌, ◌≤◌, ◌<◌, refl, sym, ap, ◌∙◌, false, Option, ℤ,
  List, [], ◌∷◌, ◌++◌, arith, length, get_or, take, drop, leb, ◌==◌, ◌||◌, add32, if_intro,
}
use mathlib.Core.List.{map, append_assoc, append-nil}
use dsp_sim_bridge.W5300.Registers.{
  max_sock_num, sn_cr, sn_ir, sn_ssr, sn_tx_wrsr, sn_tx_wrsr2, sn_tx_fifor,
}
use dsp_sim_bridge.W5300.Hal.{
  Bus, in_fifo, read8, write8, get_sn_ssr, get_sn_ir, set_sn_ir, set_sn_tx_wrsr, set_pair,
  issue_sn_cr, read_size, read_stable, get_sn_tx_fsr, write_words, write_stream,
  stable_read_attempts,
}

-- `outgoing` are the words written to the transmit FIFO of a socket, in their order: no other access
-- of the bus adds to them.
pub record Outbound {W : Type 0} (bus : Bus W) (sn : ℕ) : Type 0 where
  pub outgoing : W → List ℕ
  pub write_fifo :
      (value : ℕ) (w : W)
      → outgoing (bus.write16 (sn_tx_fifor sn) value w) ≡ outgoing w ++ (value ∷ [])
  pub write_other :
      (addr value : ℕ) (w : W)
      → addr ≢ sn_tx_fifor sn
      → outgoing (bus.write16 addr value w) ≡ outgoing w
  pub read_any : (addr : ℕ) (w : W) → outgoing (bus.read16 addr w).1 ≡ outgoing w

drop_next :
    (at : ℕ) (xs : List ℕ)
    → 1 ≤ length (drop at xs)
    → drop at xs ≡ get_or xs at 0 ∷ drop (suc at) xs
drop_next zero [] some_left = absurd (omega arith)
drop_next (suc at) [] some_left = absurd (omega arith)
drop_next zero (x ∷ xs) some_left = refl
drop_next (suc at) (x ∷ xs) some_left = drop_next at xs some_left

module _ {W : Type 0} {bus : Bus W} {sn : ℕ} (outbound : Outbound bus sn) where
  pub outgoing-get_sn_ssr :
      (w : W) → outbound.outgoing (get_sn_ssr bus sn w).1 ≡ outbound.outgoing w
  unfolding get_sn_ssr read8
  outgoing-get_sn_ssr w = outbound.read_any (sn_ssr sn) w

  pub outgoing-get_sn_ir : (w : W) → outbound.outgoing (get_sn_ir bus sn w).1 ≡ outbound.outgoing w
  unfolding get_sn_ir read8
  outgoing-get_sn_ir w = outbound.read_any (sn_ir sn) w

  pub outgoing-set_sn_ir :
      (ir : ℕ) (w : W) → outbound.outgoing (set_sn_ir bus sn ir w) ≡ outbound.outgoing w
  unfolding set_sn_ir write8
  outgoing-set_sn_ir ir w = outbound.write_other (sn_ir sn) _ w (λ e. omega (arith, e))

  pub outgoing-set_sn_tx_wrsr :
      (size : ℕ) (w : W) → outbound.outgoing (set_sn_tx_wrsr bus sn size w) ≡ outbound.outgoing w
  unfolding set_sn_tx_wrsr set_pair
  outgoing-set_sn_tx_wrsr size w =
      outbound.write_other (sn_tx_wrsr2 sn) _ _ (λ e. omega (arith, e))
      ∙ outbound.write_other (sn_tx_wrsr sn) _ w (λ e. omega (arith, e))

  pub outgoing-issue_sn_cr :
      (command : ℕ) (w : W)
      → outbound.outgoing (issue_sn_cr bus sn command w).1 ≡ outbound.outgoing w
  unfolding issue_sn_cr write8
  outgoing-issue_sn_cr command w =
      if_intro (λ (out : ℤ × W). outbound.outgoing out.1 ≡ outbound.outgoing w)
        (leb max_sock_num sn || command == 0) (λ _. refl)
        (λ _. outbound.write_other (sn_cr sn) _ w (λ e. omega (arith, e)))

  outgoing-read_size :
      (high low : ℕ) (w : W) → outbound.outgoing (read_size bus high low w).1 ≡ outbound.outgoing w
  unfolding read_size
  outgoing-read_size high low w = outbound.read_any low _ ∙ outbound.read_any high w

  outgoing-read_stable :
      (attempts high low : ℕ) (w : W)
      → outbound.outgoing (read_stable bus attempts high low w).1 ≡ outbound.outgoing w
  unfolding read_stable
  outgoing-read_stable zero high low w = refl
  outgoing-read_stable (suc attempts) high low w =
      let first = read_size bus high low w in
      let again = read_size bus high low first.1 in
      let same = outgoing-read_size high low first.1 ∙ outgoing-read_size high low w in
      if_intro (λ (out : Option ℕ × W). outbound.outgoing out.1 ≡ outbound.outgoing w)
        (first.0 == again.0) (λ _. same)
        (λ _. outgoing-read_stable attempts high low again.1 ∙ same)

  pub outgoing-get_sn_tx_fsr :
      (w : W) → outbound.outgoing (get_sn_tx_fsr bus sn w).1 ≡ outbound.outgoing w
  unfolding get_sn_tx_fsr
  outgoing-get_sn_tx_fsr w =
      if_intro (λ (out : Option ℕ × W). outbound.outgoing out.1 ≡ outbound.outgoing w)
        (leb max_sock_num sn) (λ _. refl) (λ _. outgoing-read_stable stable_read_attempts _ _ w)

  outgoing-write_words :
      (frame : List ℕ) (count at total i : ℕ) (w : W)
      → 2 * (i + count) ≤ total
      → count ≤ length (drop at frame)
      → outbound.outgoing (write_words bus sn frame at total i count w)
        ≡ outbound.outgoing w ++ map (in_fifo bus) (take count (drop at frame))
  unfolding write_words
  outgoing-write_words frame zero at total i w fits enough = sym (append-nil (outbound.outgoing w))
  outgoing-write_words frame (suc count) at total i w fits enough =
      let next = drop_next at frame (omega arith) in
      let fewer : length (drop at frame) ≡ suc (length (drop (suc at) frame)) = ap length next in
      let word = get_or frame at 0 in
      let f = in_fifo bus in
      let whole : leb total (i * 2 + 1) ≡ false = ground arith in
      let w1 = bus.write16 (sn_tx_fifor sn) (f word) w in
      let rest =
        outgoing-write_words frame count (suc at) total (suc i) w1 (omega arith) (omega arith) in
      rw whole (
        rest
        ∙ ap (λ l. l ++ map f (take count (drop (suc at) frame))) (outbound.write_fifo (f word) w)
        ∙ append_assoc (outbound.outgoing w) (f word ∷ [])
            (map f (take count (drop (suc at) frame)))
        ∙ ap (λ l. outbound.outgoing w ++ map f (take (suc count) l)) (sym next))

  -- A stream of an even number of octets of the frame.
  pub outgoing-write_stream :
      (frame : List ℕ) (at octets_ : ℕ) (w : W)
      → octets_ % 2 ≡ 0
      → octets_ < 2 ^ 16
      → octets_ ≤ 2 * length (drop at frame)
      → outbound.outgoing (write_stream bus sn frame at octets_ w)
        ≡ outbound.outgoing w ++ map (in_fifo bus) (take (octets_ / 2) (drop at frame))
  unfolding write_stream
  outgoing-write_stream frame at octets_ w even small enough =
      let rounds : add32 octets_ 1 / 2 ≡ octets_ / 2 = omega arith in
      rw rounds
        (outgoing-write_words frame (octets_ / 2) at octets_ 0 w (omega arith) (omega arith))
