-- ===== src/W5300/Inbound.antt =====
-- What the TCP transport relies on from the chip for what it receives: the words of a socket's
-- receive FIFO come in order, and its size register does not promise more than has arrived.
use dsp_sim_bridge.Common.{
  ℕ, zero, suc, ◌+◌, ◌*◌, ◌/◌, ◌%◌, ◌^◌, ◌≡◌, ◌≢◌, ◌≤◌, ◌<◌, refl, ap, ◌∙◌, false, Option, some,
  List, ◌∷◌, ◌++◌, arith, length, leb, ◌==◌, ==→eq, add32, if_intro,
}
use mathlib.Core.List.{map}
use dsp_sim_bridge.W5300.Registers.{
  max_sock_num, sn_cr, sn_ssr, sn_rx_rsr, sn_rx_rsr2, sn_rx_fifor, cr_recv,
}
use dsp_sim_bridge.W5300.Hal.{
  Bus, in_fifo, read8, get_sn_ssr, read_size, read_stable, get_sn_rx_rsr, read_words, read_stream,
  stable_read_attempts,
}

-- `incoming` are the words that reads of the receive FIFO of a socket will yield: those that have
-- arrived, then those that will. Two equal readings of the size in a row are a size that has
-- arrived.
pub record Inbound {W : Type 0} (bus : Bus W) (sn : ℕ) : Type 0 where
  pub incoming : W → List ℕ
  pub read_next :
      (w : W)
      → 1 ≤ length (incoming w)
      → incoming w ≡ (bus.read16 (sn_rx_fifor sn) w).0 ∷ incoming (bus.read16 (sn_rx_fifor sn) w).1
  pub read_other :
      (addr : ℕ) (w : W) → addr ≢ sn_rx_fifor sn → incoming (bus.read16 addr w).1 ≡ incoming w
  pub command_recv : (w : W) → incoming (bus.write16 (sn_cr sn) cr_recv w) ≡ incoming w
  pub size_arrived :
      (w : W)
      → (read_size bus (sn_rx_rsr sn) (sn_rx_rsr2 sn) w).0
        ≡ (read_size bus
            (sn_rx_rsr sn)
            (sn_rx_rsr2 sn)
            (read_size bus (sn_rx_rsr sn) (sn_rx_rsr2 sn) w).1).0
      → (read_size bus (sn_rx_rsr sn) (sn_rx_rsr2 sn) w).0 ≤ 2 * length (incoming w)

module _ {W : Type 0} {bus : Bus W} {sn : ℕ} (inbound : Inbound bus sn) where
  pub get_sn_ssr-incoming : (w : W) → inbound.incoming (get_sn_ssr bus sn w).1 ≡ inbound.incoming w
  unfolding get_sn_ssr read8
  get_sn_ssr-incoming w = inbound.read_other (sn_ssr sn) w (λ e. omega (arith, e))

  read_size-incoming :
      (w : W)
      → inbound.incoming (read_size bus (sn_rx_rsr sn) (sn_rx_rsr2 sn) w).1 ≡ inbound.incoming w
  unfolding read_size
  read_size-incoming w =
      inbound.read_other (sn_rx_rsr2 sn) (bus.read16 (sn_rx_rsr sn) w).1 (λ e. omega (arith, e))
      ∙ inbound.read_other (sn_rx_rsr sn) w (λ e. omega (arith, e))

  -- A size was found: it has arrived; in any case no word was taken.
  pub record IsSized (w : W) (out : Option ℕ × W) : Type 0 where
    pub kept : inbound.incoming out.1 ≡ inbound.incoming w
    pub arrived : (size : ℕ) → out.0 ≡ some size → size ≤ 2 * length (inbound.incoming w)

  read_stable-IsSized :
      (attempts : ℕ) (w : W) → IsSized w (read_stable bus attempts (sn_rx_rsr sn) (sn_rx_rsr2 sn) w)
  unfolding read_stable
  read_stable-IsSized zero w = record { kept = refl; arrived = λ size e. cc }
  read_stable-IsSized (suc attempts) w =
      let first = read_size bus (sn_rx_rsr sn) (sn_rx_rsr2 sn) w in
      let again = read_size bus (sn_rx_rsr sn) (sn_rx_rsr2 sn) first.1 in
      let same = read_size-incoming first.1 ∙ read_size-incoming w in
      let rest = read_stable-IsSized attempts again.1 in
      if_intro (IsSized w) (first.0 == again.0)
        (λ t. record {
          kept = same;
          arrived = λ size e.
              let found : first.0 ≡ size = cc in
              let le = inbound.size_arrived w (==→eq first.0 again.0 t) in omega (arith, le, found);
        })
        (λ _. record {
          kept = rest.kept ∙ same;
          arrived = λ size e. omega (arith, rest.arrived size e, ap length same);
        })

  pub get_sn_rx_rsr-IsSized : (w : W) → IsSized w (get_sn_rx_rsr bus sn w)
  unfolding get_sn_rx_rsr
  get_sn_rx_rsr-IsSized w =
      if_intro (IsSized w) (leb max_sock_num sn)
        (λ _. record { kept = refl; arrived = λ size e. cc })
        (λ _. read_stable-IsSized stable_read_attempts w)

  -- Whole words come as they stand in the FIFO.
  read_words-incoming :
      (count total i : ℕ) (w : W)
      → 2 * (i + count) ≤ total
      → count ≤ length (inbound.incoming w)
      → let (words, w1) = read_words bus sn total i count w in
        (map (in_fifo bus) (inbound.incoming w) ≡ words ++ map (in_fifo bus) (inbound.incoming w1))
        × (length words ≡ count)
  unfolding read_words
  read_words-incoming zero total i w fits enough = (refl, refl)
  read_words-incoming (suc count) total i w fits enough =
      let next = inbound.read_next w (omega arith) in
      let w1 = (bus.read16 (sn_rx_fifor sn) w).1 in
      let fewer : length (inbound.incoming w) ≡ suc (length (inbound.incoming w1)) =
        ap length next in
      let rest = read_words-incoming count total (suc i) w1 (omega arith) (omega arith) in
      let whole : leb total (i * 2 + 1) ≡ false = ground arith in
      let f = in_fifo bus in
      rw whole (
        ap (λ l. map f l) next ∙ ap (λ l. f (bus.read16 (sn_rx_fifor sn) w).0 ∷ l) rest.0,
        ap suc rest.1,
      )

  -- A stream of an even number of octets that have arrived.
  pub read_stream-incoming :
      (octets_ : ℕ) (w : W)
      → octets_ % 2 ≡ 0
      → octets_ < 2 ^ 16
      → octets_ ≤ 2 * length (inbound.incoming w)
      → let (words, w1) = read_stream bus sn octets_ w in
        (map (in_fifo bus) (inbound.incoming w) ≡ words ++ map (in_fifo bus) (inbound.incoming w1))
        × (2 * length words ≡ octets_)
  unfolding read_stream
  read_stream-incoming octets_ w even small enough =
      let rounds : add32 octets_ 1 / 2 ≡ octets_ / 2 = omega arith in
      let read = read_words-incoming (octets_ / 2) octets_ 0 w (omega arith) (omega arith) in
      rw rounds (read.0, omega (arith, read.1))
