-- ===== src/W5300/Socket/Datagram.antt =====
-- UDP on a socket: `c2837x_w5300_socket_udp_send` and the functions that receive a datagram piece by
-- piece, dsp/src/c2837x_w5300_socket.c.
use dsp_sim_bridge.Common.{
  ℕ, zero, suc, ◌+◌, ◌-◌, ◌/◌, Bool, Option, none, some, List, [], ◌∷◌, ◌||◌, ◌&&◌, ◌==◌, ◌!=◌, ltb,
  not, ℤ, pos, failed, is_odd, is_negative, get_or, write_at, add32, sub32, join_words, join_octets,
  low_octet, high_octet, if◌then◌else◌,
}
use dsp_sim_bridge.W5300.Registers.{cr_send, cr_recv, ir_sendok, ir_timeout, sock_udp}
use dsp_sim_bridge.W5300.Hal.{
  Bus, get_sn_ssr, get_sn_tx_fsr, get_sn_rx_rsr, set_sn_ir, set_sn_tx_wrsr, issue_sn_cr,
  write_stream, read_stream,
}
use dsp_sim_bridge.W5300.Socket.{Socket, is_command, command_recv, udp_packet_info_u16, issue}
use dsp_sim_bridge.W5300.Socket.Commands.{is_free}
use dsp_sim_bridge.W5300.Socket.Closing.{set_destination}
use dsp_sim_bridge.W5300.Socket.Transfer.{at_most, advance_recv_command}

-- `C2837X_W5300_UDP_PACKET_INFO_BYTES`
abbrev pub udp_packet_info_bytes : ℕ
udp_packet_info_bytes = 8

-- `C2837xW5300UdpPacketInfo`
pub record UdpPacketInfo : Type 0 where
  pub source_ip : ℕ
  pub source_port : ℕ
  pub data_size : ℕ

-- The fields of the four words of a PACKET-INFO, which are in network order.
unfoldable pub packet_info_of : List ℕ → UdpPacketInfo
unfolding udp_packet_info_u16
packet_info_of words = record {
  source_ip =
      join_words (udp_packet_info_u16 (get_or words 1 0)) (udp_packet_info_u16 (get_or words 0 0));
  source_port = udp_packet_info_u16 (get_or words 2 0);
  data_size = udp_packet_info_u16 (get_or words 3 0);
}

-- `data_words[i >> 1]` gets octet `i`: an even one starts the word, an odd one completes it.
unfoldable pub put_octet : ℕ → ℕ → List ℕ → List ℕ
put_octet i octet data_words =
    if is_odd i
    then write_at (i / 2) (join_octets (get_or data_words (i / 2) 0) octet ∷ []) data_words
    else write_at (i / 2) (octet ∷ []) data_words

-- The locals of `c2837x_w5300_socket_udp_read_data` in its loops: `output_index`,
-- `fifo_byte_count`, the residual of the socket, and the words stored.
pub record Copy : Type 0 where
  pub output_index : ℕ
  pub fifo_byte_count : ℕ
  pub residual_byte : ℕ
  pub residual_valid : ℕ
  pub data_words : List ℕ

-- The body of the inner loop for one octet; `more` says that `copy_size < remaining_before`.
unfoldable pub take_octet : Bool → ℕ → Copy → Copy
unfolding put_octet
take_octet more fifo_byte c =
    if c.fifo_byte_count != 0
    then record c {
      data_words = put_octet c.output_index fifo_byte c.data_words;
      output_index = add32 c.output_index 1;
      fifo_byte_count = c.fifo_byte_count - 1;
    }
    else if more && c.residual_valid == 0
    then record c { residual_byte = fifo_byte; residual_valid = 1 }
    else c

-- A residual octet is the first of the read.
unfoldable pub take_residual : Socket → ℕ → List ℕ → Copy
take_residual sk copy_size data_words =
    if sk.udp_rx_residual_valid != 0
    then record {
      output_index = 1;
      fifo_byte_count = sub32 copy_size 1;
      residual_byte = 0;
      residual_valid = 0;
      data_words = write_at 0 (low_octet sk.udp_rx_residual_byte ∷ []) data_words;
    }
    else record {
      output_index = 0;
      fifo_byte_count = copy_size;
      residual_byte = sk.udp_rx_residual_byte;
      residual_valid = sk.udp_rx_residual_valid;
      data_words = data_words;
    }

module _ {W : Type 0} (bus : Bus W) where
  -- The part of `c2837x_w5300_socket_udp_send` behind the size test.
  unfoldable pub submit_datagram : Socket → ℕ → ℕ → List ℕ → ℕ → ℕ → W → ℤ × W
  unfolding set_destination
  submit_datagram sk ip port frame at count w =
      let w1 = set_sn_ir bus sk.sn (ir_sendok + ir_timeout) (set_destination bus sk.sn ip port w) in
      let (result, w2) =
        issue_sn_cr bus sk.sn cr_send
          (set_sn_tx_wrsr bus sk.sn count (write_stream bus sk.sn frame at count w1)) in
      (if is_negative result then failed else pos count, w2)

  unfoldable pub datagram_sized : Option ℕ → Socket → ℕ → ℕ → List ℕ → ℕ → ℕ → W → ℤ × W
  unfolding submit_datagram
  datagram_sized none sk ip port frame at count w = (failed, w)
  datagram_sized (some free_size) sk ip port frame at count w =
      if ltb free_size count then (pos 0, w) else submit_datagram sk ip port frame at count w

  unfoldable pub datagram_words : Option ℕ → Socket → ℕ → ℕ → List ℕ → ℕ → W → ℤ × W
  unfolding datagram_sized
  datagram_words none sk ip port frame count w = (failed, w)
  datagram_words (some at) sk ip port frame count w =
      let (status, w1) = get_sn_ssr bus sk.sn w in
      if status != sock_udp
      then (pos 0, w1)
      else let (free_size, w2) = get_sn_tx_fsr bus sk.sn w1 in
        datagram_sized free_size sk ip port frame at count w2

  -- The whole datagram or nothing; the socket does not change. The data are the frame's words from
  -- an index on, or `none` for NULL.
  unfoldable pub udp_send : Socket → ℕ → ℕ → List ℕ → Option ℕ → ℕ → W → ℤ × W
  unfolding datagram_words
  udp_send sk ip port frame data_words wire_byte_count w =
      if not (is_free sk)
      then (failed, w)
      else if wire_byte_count == 0
      then (pos 0, w)
      else if is_odd wire_byte_count
      then (failed, w)
      else datagram_words data_words sk ip port frame wire_byte_count w

  unfoldable pub size_available : Option ℕ → ℤ
  size_available none = failed
  size_available (some rx_size) = if rx_size != 0 then pos 1 else pos 0

  unfoldable pub udp_rx_available : Socket → W → ℤ × W
  unfolding size_available
  udp_rx_available sk w =
      if not (is_free sk)
      then (pos 0, w)
      else let (status, w1) = get_sn_ssr bus sk.sn w in
        if status != sock_udp
        then (pos 0, w1)
        else if sk.udp_rx_datagram_active != 0
        then (pos 1, w1)
        else let (rx_size, w2) = get_sn_rx_rsr bus sk.sn w1 in (size_available rx_size, w2)

  -- A result other than 1 has no packet info.
  unfoldable pub packet_info_sized : Option ℕ → Socket → W → ℤ × Option UdpPacketInfo × Socket × W
  unfolding packet_info_of
  packet_info_sized none sk w = (failed, none, sk, w)
  packet_info_sized (some rx_size) sk w =
      if ltb rx_size udp_packet_info_bytes
      then (pos 0, none, sk, w)
      else let (words, w1) = read_stream bus sk.sn udp_packet_info_bytes w in
        let info = packet_info_of words in
        (
          pos 1,
          some info,
          record sk { udp_rx_datagram_active = 1; udp_rx_data_remaining = info.data_size },
          w1,
        )

  unfoldable pub udp_read_packet_info : Socket → W → ℤ × Option UdpPacketInfo × Socket × W
  unfolding packet_info_sized
  udp_read_packet_info sk w =
      if not (is_free sk)
      then (pos 0, none, sk, w)
      else if sk.udp_rx_datagram_active != 0
      then (failed, none, sk, w)
      else let (status, w1) = get_sn_ssr bus sk.sn w in
        if status != sock_udp
        then (pos 0, none, sk, w1)
        else let (rx_size, w2) = get_sn_rx_rsr bus sk.sn w1 in packet_info_sized rx_size sk w2

  -- The outer loop: one word of the FIFO in each round, its low octet first.
  unfoldable pub copy_words_in : ℕ → Bool → ℕ → Copy → W → Copy × W
  unfolding take_octet
  copy_words_in sn more zero c w = (c, w)
  copy_words_in sn more (suc rounds) c w =
      let (words, w1) = read_stream bus sn 2 w in
      let fifo_word = get_or words 0 0 in
      copy_words_in sn more rounds
        (take_octet more (high_octet fifo_word) (take_octet more (low_octet fifo_word) c)) w1

  -- `c2837x_w5300_socket_udp_read_data` behind its guards.
  unfoldable pub read_datagram : Socket → List ℕ → ℕ → W → ℤ × List ℕ × Socket × W
  unfolding take_residual copy_words_in
  read_datagram sk data_words capacity w =
      let copy_size = at_most sk.udp_rx_data_remaining capacity in
      let start = take_residual sk copy_size data_words in
      let (done, w1) =
        copy_words_in sk.sn (ltb copy_size sk.udp_rx_data_remaining)
          (add32 start.fifo_byte_count 1 / 2) start w in
      (
        pos copy_size,
        done.data_words,
        record sk {
          udp_rx_residual_byte = done.residual_byte;
          udp_rx_residual_valid = done.residual_valid;
          udp_rx_data_remaining = sub32 sk.udp_rx_data_remaining copy_size;
        },
        w1,
      )

  -- `none` stands for NULL; the words are the buffer's afterwards.
  unfoldable pub udp_read_data : Socket → Option (List ℕ) → ℕ → W → ℤ × List ℕ × Socket × W
  unfolding read_datagram
  udp_read_data sk none capacity w = (if capacity == 0 then pos 0 else failed, [], sk, w)
  udp_read_data sk (some data_words) capacity w =
      if capacity == 0
        || not (is_free sk)
        || sk.udp_rx_datagram_active == 0
        || sk.udp_rx_data_remaining == 0
      then (pos 0, data_words, sk, w)
      else let (status, w1) = get_sn_ssr bus sk.sn w in
        if status != sock_udp
        then (pos 0, data_words, sk, w1)
        else read_datagram sk data_words capacity w1

  -- The loop of `c2837x_w5300_socket_udp_drop_data`.
  unfoldable pub discard_words : ℕ → ℕ → W → W
  discard_words sn zero w = w
  discard_words sn (suc count) w = discard_words sn count (read_stream bus sn 2 w).1

  -- `c2837x_w5300_socket_udp_drop_data` behind its guards.
  unfoldable pub drop_datagram : Socket → W → ℤ × Socket × W
  unfolding discard_words
  drop_datagram sk w =
      let residual = sk.udp_rx_residual_valid != 0 in
      let physical_size =
        if residual then sub32 sk.udp_rx_data_remaining 1 else sk.udp_rx_data_remaining in
      (
        pos sk.udp_rx_data_remaining,
        record sk {
          udp_rx_residual_byte = if residual then 0 else sk.udp_rx_residual_byte;
          udp_rx_residual_valid = 0;
          udp_rx_data_remaining = 0;
        },
        discard_words sk.sn (add32 physical_size 1 / 2) w,
      )

  unfoldable pub udp_drop_data : Socket → W → ℤ × Socket × W
  unfolding drop_datagram
  udp_drop_data sk w =
      if not (is_free sk) || sk.udp_rx_datagram_active == 0
      then (pos 0, sk, w)
      else let (status, w1) = get_sn_ssr bus sk.sn w in
        if status != sock_udp then (pos 0, sk, w1) else drop_datagram sk w1

  unfoldable pub udp_commit_recv : Socket → W → ℤ × Socket × W
  unfolding issue advance_recv_command
  udp_commit_recv sk w =
      if sk.udp_rx_datagram_active == 0
        || sk.udp_rx_data_remaining != 0
        || sk.udp_rx_residual_valid != 0
      then (failed, sk, w)
      else if is_command sk.pending_command command_recv
      then advance_recv_command bus sk w
      else if not (is_free sk)
      then (failed, sk, w)
      else let (status, w1) = get_sn_ssr bus sk.sn w in
        if status != sock_udp then (failed, sk, w1) else issue bus sk cr_recv command_recv w1
