-- ===== src/W5300/Hal.antt =====
-- Access to the W5300: the inline functions of dsp/inc/c2837x_w5300_hal.h, and the command, size and
-- stream functions of dsp/src/c2837x_w5300_hal.c.
use dsp_sim_bridge.Common.{
  ℕ, zero, suc, ◌+◌, ◌*◌, ◌/◌, ◌^◌, Bool, Option, none, some, List, [], ◌∷◌, ℤ, pos, failed, ◌||◌,
  ◌==◌, leb, u16, add32, join_words, low_word, high_word, low_octet, get_or, if◌then◌else◌,
}
use dsp_sim_bridge.W5300.Registers.{
  max_sock_num, shar0, shar2, shar4, gar0, gar2, subr0, subr2, sipr0, sipr2, sn_mr, sn_cr, sn_ir,
  sn_ssr, sn_tx_wrsr, sn_tx_wrsr2, sn_tx_fsr, sn_tx_fsr2, sn_rx_rsr, sn_rx_rsr2, sn_tx_fifor,
  sn_rx_fifor, sock_closed, sock_arp, sock_init, sock_listen, sock_synsent, sock_synrecv,
  sock_established, sock_fin_wait, sock_closing, sock_time_wait, sock_close_wait, sock_last_ack,
  sock_udp, sock_ipraw, sock_macraw, sock_pppoe,
}

-- The memory-mapped bus: `c2837x_w5300_read16` and `c2837x_w5300_write16`, a volatile access each,
-- and the global `c2837x_w5300_fifo_swap`, which is set for the life of the program.
pub record Bus (W : Type 0) : Type 0 where
  pub read16 : ℕ → W → ℕ × W
  pub write16 : ℕ → ℕ → W → W
  pub fifo_swap : Bool

-- `C2837X_W5300_STABLE_READ_ATTEMPTS`
abbrev pub stable_read_attempts : ℕ
stable_read_attempts = 3

unfoldable pub is_socket_status : ℕ → Bool
is_socket_status status =
    status == sock_closed
    || status == sock_arp
    || status == sock_init
    || status == sock_listen
    || status == sock_synsent
    || status == sock_synrecv
    || status == sock_established
    || status == sock_fin_wait
    || status == sock_closing
    || status == sock_time_wait
    || status == sock_close_wait
    || status == sock_last_ack
    || status == sock_udp
    || status == sock_ipraw
    || status == sock_macraw
    || status == sock_pppoe

-- `(value << 8) | (value >> 8)` of a 16-bit word.
unfoldable pub swap16 : ℕ → ℕ
swap16 value = u16 (value * 2 ^ 8) + value / 2 ^ 8

module _ {W : Type 0} (bus : Bus W) where
  unfoldable pub read8 : ℕ → W → ℕ × W
  read8 addr w = let (value, w1) = bus.read16 addr w in (low_octet value, w1)

  unfoldable pub write8 : ℕ → ℕ → W → W
  write8 addr value w = bus.write16 addr (low_octet value) w

  unfoldable pub issue_sn_cr : ℕ → ℕ → W → ℤ × W
  issue_sn_cr sn command w =
      if leb max_sock_num sn || command == 0
      then (failed, w)
      else (pos 0, write8 (sn_cr sn) command w)

  -- 1 when the chip has taken the command, 0 while it has not.
  unfoldable pub poll_sn_cr : ℕ → W → ℤ × W
  poll_sn_cr sn w =
      if leb max_sock_num sn
      then (failed, w)
      else let (command, w1) = read8 (sn_cr sn) w in (if command == 0 then pos 1 else pos 0, w1)

  unfoldable pub get_sn_ssr : ℕ → W → ℕ × W
  get_sn_ssr sn w = read8 (sn_ssr sn) w

  unfoldable pub get_sn_mr : ℕ → W → ℕ × W
  get_sn_mr sn w = read8 (sn_mr sn) w

  unfoldable pub get_sn_ir : ℕ → W → ℕ × W
  get_sn_ir sn w = read8 (sn_ir sn) w

  unfoldable pub set_sn_ir : ℕ → ℕ → W → W
  set_sn_ir sn ir w = write8 (sn_ir sn) ir w

  unfoldable pub set_sn_tx_wrsr : ℕ → ℕ → W → W
  set_sn_tx_wrsr sn size w =
      bus.write16 (sn_tx_wrsr2 sn) (low_word size)
        (bus.write16 (sn_tx_wrsr sn) (u16 (high_word size)) w)

  -- A 32-bit value in two registers, the high word first.
  unfoldable pub set_pair : ℕ → ℕ → ℕ → W → W
  set_pair high low value w =
      bus.write16 low (low_word value) (bus.write16 high (u16 (high_word value)) w)

  unfoldable pub set_subr : ℕ → W → W
  set_subr submask w = set_pair subr0 subr2 submask w

  unfoldable pub clear_subr : W → W
  clear_subr w = set_pair subr0 subr2 0 w

  unfoldable pub set_gar : ℕ → W → W
  set_gar gateway w = set_pair gar0 gar2 gateway w

  unfoldable pub set_sipr : ℕ → W → W
  set_sipr ip w = set_pair sipr0 sipr2 ip w

  unfoldable pub set_shar : ℕ → ℕ → ℕ → W → W
  set_shar mac01 mac23 mac45 w =
      bus.write16 shar4 mac45 (bus.write16 shar2 mac23 (bus.write16 shar0 mac01 w))

  -- A 32-bit size register, the high word read first.
  unfoldable pub read_size : ℕ → ℕ → W → ℕ × W
  read_size high low w =
      let (hi, w1) = bus.read16 high w in let (lo, w2) = bus.read16 low w1 in (join_words lo hi, w2)

  -- The loop of `c2837x_w5300_get_sn_tx_fsr` and `c2837x_w5300_get_sn_rx_rsr`: a value that is read
  -- twice in a row, or `none` for -1 when the attempts are used up.
  unfoldable pub read_stable : ℕ → ℕ → ℕ → W → Option ℕ × W
  unfolding read_size
  read_stable zero high low w = (none, w)
  read_stable (suc attempts) high low w =
      let (v1, w1) = read_size high low w in
      let (v2, w2) = read_size high low w1 in
      let rest = read_stable attempts high low w2 in if v1 == v2 then (some v1, w2) else rest

  unfoldable pub get_sn_tx_fsr : ℕ → W → Option ℕ × W
  get_sn_tx_fsr sn w =
      if leb max_sock_num sn
      then (none, w)
      else read_stable stable_read_attempts (sn_tx_fsr sn) (sn_tx_fsr2 sn) w

  unfoldable pub get_sn_rx_rsr : ℕ → W → Option ℕ × W
  get_sn_rx_rsr sn w =
      if leb max_sock_num sn
      then (none, w)
      else read_stable stable_read_attempts (sn_rx_rsr sn) (sn_rx_rsr2 sn) w

  -- A word as the FIFO register holds it.
  abbrev pub in_fifo : ℕ → ℕ
  in_fifo word = if bus.fifo_swap then word else swap16 word

  -- The last word of an odd count holds one octet.
  abbrev pub mask_last : ℕ → ℕ → ℕ → ℕ
  mask_last i wire_byte_count word =
      if leb wire_byte_count (i * 2 + 1) then low_octet word else word

  -- The loop of `c2837x_w5300_write_stream` from word `i` on, with `count` words to go; word `i` of
  -- the data stands at index `at` of the frame.
  unfoldable pub write_words : ℕ → List ℕ → ℕ → ℕ → ℕ → ℕ → W → W
  write_words sn frame at wire_byte_count i zero w = w
  write_words sn frame at wire_byte_count i (suc count) w =
      write_words sn frame (suc at) wire_byte_count (suc i) count
        (bus.write16 (sn_tx_fifor sn) (in_fifo (mask_last i wire_byte_count (get_or frame at 0))) w)

  -- The words of the frame from index `at` on, as far as the octets go.
  unfoldable pub write_stream : ℕ → List ℕ → ℕ → ℕ → W → W
  unfolding write_words
  write_stream sn frame at wire_byte_count w =
      write_words sn frame at wire_byte_count 0 (add32 wire_byte_count 1 / 2) w

  -- The loop of `c2837x_w5300_read_stream`, likewise: the words that are stored.
  unfoldable pub read_words : ℕ → ℕ → ℕ → ℕ → W → List ℕ × W
  read_words sn wire_byte_count i zero w = ([], w)
  read_words sn wire_byte_count i (suc count) w =
      let (value, w1) = bus.read16 (sn_rx_fifor sn) w in
      let (words, w2) = read_words sn wire_byte_count (suc i) count w1 in
      (mask_last i wire_byte_count (in_fifo value) ∷ words, w2)

  unfoldable pub read_stream : ℕ → ℕ → W → List ℕ × W
  unfolding read_words
  read_stream sn wire_byte_count w = read_words sn wire_byte_count 0 (add32 wire_byte_count 1 / 2) w
