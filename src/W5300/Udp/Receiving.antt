-- ===== src/W5300/Udp/Receiving.antt =====
-- `receive` of dsp/src/c2837x_w5300_udp_channel.c: the octets of the peer's datagrams, the header of
-- each against its size.
use dsp_sim_bridge.Common.{
  ℕ, ◌+◌, ◌-◌, ◌/◌, Bool, Option, none, some, List, ℤ, pos, negsuc, failed, not, ◌==◌, ◌!=◌, ◌||◌,
  ◌&&◌, ltb, is_odd, is_negative, is_positive, get_or, add32, sub32, if◌then◌else◌,
}
use dsp_sim_bridge.W5300.Hal.{Bus}
use dsp_sim_bridge.W5300.Socket.{is_command, command_recv}
use dsp_sim_bridge.W5300.Socket.Transfer.{at_most}
use dsp_sim_bridge.W5300.Socket.Datagram.{UdpPacketInfo, udp_read_packet_info, udp_read_data}
use dsp_sim_bridge.W5300.Udp.{
  UdpChannel, stage_datagram, udp_operation_allowed, udp_header_bytes, udp_max_data_bytes,
}
use dsp_sim_bridge.W5300.Udp.Control.{commit_datagram, drop_current}

-- A datagram of another sender than the peer.
unfoldable pub is_stray : UdpPacketInfo → UdpChannel → Bool
is_stray info c =
    c.candidate_valid && (info.source_ip != c.candidate_ip || info.source_port != c.candidate_port)

module _ {W : Type 0} (bus : Bus W) where
  -- By the result of `acquire_packet_info`, which has an info only if it is 1.
  unfoldable pub receive_acquired : ℤ → Option UdpPacketInfo → UdpChannel → W → ℤ × UdpChannel × W
  unfolding is_stray stage_datagram drop_current
  receive_acquired result none c w = (result, c, w)
  receive_acquired result (some info) c w =
      let staged = stage_datagram info c in
      if is_stray info staged
      then (let (dropped, c1, w1) = drop_current bus staged w in
          (if is_negative dropped then failed else pos 0, c1, w1))
      else (pos 1, staged, w)

  unfoldable pub acquire_next_receive_datagram : UdpChannel → W → ℤ × UdpChannel × W
  unfolding receive_acquired
  acquire_next_receive_datagram c w =
      let (result, info, sk, w1) = udp_read_packet_info bus c.socket w in
      receive_acquired result info (record c { socket = sk }) w1

  -- The whole of the datagram was handed over: it is released.
  unfoldable pub release_if : Bool → ℕ → List ℕ → UdpChannel → W → ℤ × List ℕ × UdpChannel × W
  release_if complete n words c w =
      if complete
      then (let (result, c1, w1) = commit_datagram bus c w in
          (if is_negative result then failed else pos n, words, c1, w1))
      else (pos n, words, c, w)

  -- Octets of the header arrived: the last ones hold the length, which is to match the datagram's.
  unfoldable pub header_octets : ℕ → ℕ → List ℕ → UdpChannel → W → ℤ × List ℕ × UdpChannel × W
  unfolding release_if
  header_octets consumed_before n words c w =
      if ltb c.datagram_consumed udp_header_bytes
      then (pos n, words, c, w)
      else if c.datagram_data_size != udp_header_bytes + get_or words (1 - consumed_before / 2) 0
      then (failed, words, c, w)
      else release_if (c.datagram_data_size == udp_header_bytes) n words c w

  -- Octets of the payload arrived.
  unfoldable pub payload_octets : ℕ → List ℕ → UdpChannel → W → ℤ × List ℕ × UdpChannel × W
  unfolding release_if
  payload_octets n words c w = release_if (c.datagram_consumed == c.datagram_data_size) n words c w

  -- By the result of `c2837x_w5300_socket_udp_read_data`, in the header or behind it.
  unfoldable pub data_read : Bool → ℤ → ℕ → List ℕ → UdpChannel → W → ℤ × List ℕ × UdpChannel × W
  unfolding header_octets payload_octets
  data_read in_header (negsuc n) read_capacity words c w = (failed, words, c, w)
  data_read in_header (pos n) read_capacity words c w =
      let c1 = record c { datagram_consumed = add32 c.datagram_consumed n } in
      if n == 0
      then (pos 0, words, c, w)
      else if is_odd n || ltb read_capacity n
      then (failed, words, c, w)
      else if in_header
      then header_octets c.datagram_consumed n words c1 w
      else payload_octets n words c1 w

  -- The capacity is not zero, and at most `left` octets are wanted.
  unfoldable pub read_at_most : ℕ → List ℕ → ℕ → UdpChannel → W → ℤ × List ℕ × UdpChannel × W
  unfolding data_read
  read_at_most left buffer capacity c w =
      let read_capacity = at_most left capacity in
      let (result, words, sk, w1) = udp_read_data bus c.socket (some buffer) read_capacity w in
      data_read (ltb c.datagram_consumed udp_header_bytes) result read_capacity words
        (record c { socket = sk }) w1

  -- A datagram of the peer is current.
  unfoldable pub receive_current : List ℕ → ℕ → UdpChannel → W → ℤ × List ℕ × UdpChannel × W
  unfolding read_at_most
  receive_current buffer capacity c w =
      if ltb c.datagram_data_size udp_header_bytes || ltb udp_max_data_bytes c.datagram_data_size
      then (failed, buffer, c, w)
      else if capacity == 0
      then (pos 0, buffer, c, w)
      else if ltb c.datagram_consumed udp_header_bytes
      then read_at_most (udp_header_bytes - c.datagram_consumed) buffer capacity c w
      else read_at_most (sub32 c.datagram_data_size c.datagram_consumed) buffer capacity c w

  -- The current datagram is being released, or read; or the next one is looked for.
  unfoldable pub receive_allowed : List ℕ → ℕ → UdpChannel → W → ℤ × List ℕ × UdpChannel × W
  unfolding receive_current acquire_next_receive_datagram
  receive_allowed buffer capacity c w =
      let (acquired, c2, w2) = acquire_next_receive_datagram c w in
      if c.datagram_active
      then (if is_command c.socket.pending_command command_recv
          then (let (result, c1, w1) = commit_datagram bus c w in
              (if is_negative result then failed else pos 0, buffer, c1, w1))
          else receive_current buffer capacity c w)
      else if not c.candidate_valid
      then (pos 0, buffer, c, w)
      else if is_negative acquired
      then (failed, buffer, c2, w2)
      else if not (is_positive acquired)
      then (pos 0, buffer, c2, w2)
      else receive_current buffer capacity c2 w2

  -- The buffer, whose words are returned as they are afterwards, and the room in octets.
  unfoldable pub udp_receive : List ℕ → ℕ → UdpChannel → W → ℤ × List ℕ × UdpChannel × W
  unfolding receive_allowed
  udp_receive buffer capacity c w =
      if not (udp_operation_allowed c)
      then (failed, buffer, c, w)
      else receive_allowed buffer capacity c w
