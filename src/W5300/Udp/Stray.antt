-- ===== src/W5300/Udp/Stray.antt =====
-- `receive` of dsp/src/c2837x_w5300_udp_channel.c keeps the peer, and drops the datagrams of others.
use dsp_sim_bridge.Common.{
  ℕ, ◌≡◌, ◌≢◌, ◌⊎◌, inl, inr, arith, refl, ap, ◌∙◌, Bool, true, false, Option, none, some, List, ℤ,
  pos, negsuc, failed, not, ◌==◌, ◌!=◌, ◌||◌, ltb, is_odd, is_negative, is_positive, get_or, add32,
  ◌+◌, ◌-◌, ◌/◌, sub32, if_intro, absurd_bool,
}
use dsp_sim_bridge.W5300.Hal.{Bus}
use dsp_sim_bridge.W5300.Socket.{Socket, is_command, command_recv}
use dsp_sim_bridge.W5300.Socket.Transfer.{at_most}
use dsp_sim_bridge.W5300.Socket.Datagram.{
  UdpPacketInfo, udp_read_packet_info, udp_read_data, udp_drop_data, udp_commit_recv,
}
use dsp_sim_bridge.W5300.Udp.{
  UdpChannel, clear_datagram, stage_datagram, udp_operation_allowed, udp_header_bytes,
  udp_max_data_bytes,
}
use dsp_sim_bridge.W5300.Udp.Control.{commit_datagram, drop_current}
use dsp_sim_bridge.W5300.Udp.Receiving.{
  is_stray, receive_acquired, acquire_next_receive_datagram, release_if, header_octets,
  payload_octets, data_read, read_at_most, receive_current, receive_allowed, udp_receive,
}

-- The peer: its address and port, and whether it is bound.
abbrev pub peer_of : UdpChannel → ℕ × ℕ × Bool
peer_of c = (c.candidate_ip, c.candidate_port, c.candidate_valid)

-- The channel that an operation leaves has the peer `p`.
pub record IsKept {A W : Type 0} (p : ℕ × ℕ × Bool) (out : A × UdpChannel × W) : Type 0 where
  pub peer : peer_of out.1 ≡ p

pub record IsRead {W : Type 0} (p : ℕ × ℕ × Bool) (out : ℤ × List ℕ × UdpChannel × W) : Type 0 where
  pub peer : peer_of out.2 ≡ p

-- No octet is handed over, and the buffer stays as it was.
record IsUnread {W : Type 0} (buffer : List ℕ) (out : ℤ × List ℕ × UdpChannel × W) : Type 0 where
  nothing : is_positive out.0 ≡ false
  same : out.1 ≡ buffer

other_sender :
    (info : UdpPacketInfo) (c : UdpChannel)
    → c.candidate_valid ≡ true
    → (info.source_ip ≢ c.candidate_ip) ⊎ (info.source_port ≢ c.candidate_port)
    → is_stray info c ≡ true
unfolding is_stray
other_sender info c bound (inl ip) = ground (arith, bound, ip)
other_sender info c bound (inr port) = ground (arith, bound, port)

module _ {W : Type 0} (bus : Bus W) where
  pub commit_datagram-IsKept :
      (c : UdpChannel) (w : W) → IsKept (peer_of c) (commit_datagram bus c w)
  unfolding commit_datagram clear_datagram
  commit_datagram-IsKept c w =
      let (result, sk, w1) = udp_commit_recv bus c.socket w in
      record {
        peer =
            if_intro (λ (c1 : UdpChannel). peer_of c1 ≡ peer_of c) (is_positive result) (λ _. refl)
              (λ _. refl);
      }

  drop_current-IsKept : (c : UdpChannel) (w : W) → IsKept (peer_of c) (drop_current bus c w)
  unfolding drop_current
  drop_current-IsKept c w =
      let (dropped, sk, w1) = udp_drop_data bus c.socket w in
      let c1 = record c { socket = sk } in
      if_intro (IsKept (peer_of c)) (is_negative dropped) (λ _. record { peer = refl })
        (λ _. commit_datagram-IsKept (record c1 { datagram_consumed = c1.datagram_data_size }) w1)

  receive_acquired-IsKept :
      (result : ℤ) (info : Option UdpPacketInfo) (c : UdpChannel) (w : W)
      → IsKept (peer_of c) (receive_acquired bus result info c w)
  unfolding receive_acquired stage_datagram
  receive_acquired-IsKept result none c w = record { peer = refl }
  receive_acquired-IsKept result (some info) c w =
      let staged = stage_datagram info c in
      if_intro (IsKept (peer_of c)) (is_stray info staged)
        (λ _. record { peer = (drop_current-IsKept staged w).peer }) (λ _. record { peer = refl })

  acquire-IsKept :
      (c : UdpChannel) (w : W) → IsKept (peer_of c) (acquire_next_receive_datagram bus c w)
  unfolding acquire_next_receive_datagram
  acquire-IsKept c w =
      let (result, info, sk, w1) = udp_read_packet_info bus c.socket w in
      receive_acquired-IsKept result info (record c { socket = sk }) w1

  release_if-IsRead :
      (complete : Bool) (n : ℕ) (words : List ℕ) (c : UdpChannel) (w : W)
      → IsRead (peer_of c) (release_if bus complete n words c w)
  unfolding release_if
  release_if-IsRead complete n words c w =
      if_intro (IsRead (peer_of c)) complete
        (λ _. record { peer = (commit_datagram-IsKept c w).peer }) (λ _. record { peer = refl })

  header_octets-IsRead :
      (before n : ℕ) (words : List ℕ) (c : UdpChannel) (w : W)
      → IsRead (peer_of c) (header_octets bus before n words c w)
  unfolding header_octets
  header_octets-IsRead before n words c w =
      if_intro (IsRead (peer_of c)) (ltb c.datagram_consumed udp_header_bytes)
        (λ _. record { peer = refl })
        (λ _.
          if_intro (IsRead (peer_of c))
            (c.datagram_data_size != udp_header_bytes + get_or words (1 - before / 2) 0)
            (λ _. record { peer = refl })
            (λ _. release_if-IsRead (c.datagram_data_size == udp_header_bytes) n words c w))

  data_read-IsRead :
      (in_header : Bool) (result : ℤ) (room : ℕ) (words : List ℕ) (c : UdpChannel) (w : W)
      → IsRead (peer_of c) (data_read bus in_header result room words c w)
  unfolding data_read payload_octets
  data_read-IsRead in_header (negsuc n) room words c w = record { peer = refl }
  data_read-IsRead in_header (pos n) room words c w =
      let c1 = record c { datagram_consumed = add32 c.datagram_consumed n } in
      let P = IsRead (peer_of c) in
      if_intro P (n == 0) (λ _. record { peer = refl })
        (λ _.
          if_intro P (is_odd n || ltb room n) (λ _. record { peer = refl })
            (λ _.
              if_intro P in_header (λ _. header_octets-IsRead c.datagram_consumed n words c1 w)
                (λ _.
                  release_if-IsRead (c1.datagram_consumed == c1.datagram_data_size) n words c1 w)))

  read_at_most-IsRead :
      (left : ℕ) (buffer : List ℕ) (capacity : ℕ) (c : UdpChannel) (w : W)
      → IsRead (peer_of c) (read_at_most bus left buffer capacity c w)
  unfolding read_at_most
  read_at_most-IsRead left buffer capacity c w =
      let room = at_most left capacity in
      let (result, words, sk, w1) = udp_read_data bus c.socket (some buffer) room w in
      data_read-IsRead (ltb c.datagram_consumed udp_header_bytes) result room words
        (record c { socket = sk }) w1

  receive_current-IsRead :
      (buffer : List ℕ) (capacity : ℕ) (c : UdpChannel) (w : W)
      → IsRead (peer_of c) (receive_current bus buffer capacity c w)
  unfolding receive_current
  receive_current-IsRead buffer capacity c w =
      let P = IsRead (peer_of c) in
      if_intro P
        (ltb c.datagram_data_size udp_header_bytes || ltb udp_max_data_bytes c.datagram_data_size)
        (λ _. record { peer = refl })
        (λ _.
          if_intro P (capacity == 0) (λ _. record { peer = refl })
            (λ _.
              if_intro P (ltb c.datagram_consumed udp_header_bytes)
                (λ _.
                  read_at_most-IsRead (udp_header_bytes - c.datagram_consumed) buffer capacity c w)
                (λ _.
                  read_at_most-IsRead (sub32 c.datagram_data_size c.datagram_consumed) buffer
                    capacity c w)))

  pub udp_receive-IsRead :
      (buffer : List ℕ) (capacity : ℕ) (c : UdpChannel) (w : W)
      → IsRead (peer_of c) (udp_receive bus buffer capacity c w)
  unfolding udp_receive receive_allowed
  udp_receive-IsRead buffer capacity c w =
      let P = IsRead (peer_of c) in
      let (acquired, c2, w2) = acquire_next_receive_datagram bus c w in
      let k = acquire-IsKept c w in
      if_intro P (not (udp_operation_allowed c)) (λ _. record { peer = refl })
        (λ _.
          if_intro P c.datagram_active
            (λ _.
              if_intro P (is_command c.socket.pending_command command_recv)
                (λ _. record { peer = (commit_datagram-IsKept c w).peer })
                (λ _. receive_current-IsRead buffer capacity c w))
            (λ _.
              if_intro P (not c.candidate_valid) (λ _. record { peer = refl })
                (λ _.
                  if_intro P (is_negative acquired) (λ _. record { peer = k.peer })
                    (λ _.
                      if_intro P (not (is_positive acquired)) (λ _. record { peer = k.peer })
                        (λ _. record {
                          peer = (receive_current-IsRead buffer capacity c2 w2).peer ∙ k.peer;
                        })))))

  -- A datagram of another sender is dropped: its octets reach neither the buffer nor the count.
  stray-acquired :
      (info : UdpPacketInfo) (c : UdpChannel) (w : W)
      → is_stray info c ≡ true
      → is_positive (receive_acquired bus (pos 1) (some info) c w).0 ≡ false
  unfolding receive_acquired stage_datagram is_stray
  stray-acquired info c w stray =
      let (dropped, c1, w1) = drop_current bus (stage_datagram info c) w in
      rw stray (
        if_intro (λ r. is_positive r ≡ false) (is_negative dropped) {x = failed} {y = pos 0}
          (λ _. refl) (λ _. refl))

  -- When the next datagram of a channel that is bound, and has no current one, comes from another
  -- address or another port than the peer's, the call of receive that finds it returns no octets and
  -- leaves the buffer and the peer as they were.
  pub stray_dropped :
      (buffer : List ℕ) (capacity : ℕ) (c : UdpChannel) (w : W) (info : UdpPacketInfo) (sk : Socket)
      (w1 : W)
      → udp_operation_allowed c ≡ true
      → c.candidate_valid ≡ true
      → c.datagram_active ≡ false
      → udp_read_packet_info bus c.socket w ≡ (pos 1, some info, sk, w1)
      → (info.source_ip ≢ c.candidate_ip) ⊎ (info.source_port ≢ c.candidate_port)
      → let (result, words, c1, w2) = udp_receive bus buffer capacity c w in
        (is_positive result ≡ false) × (words ≡ buffer) × (peer_of c1 ≡ peer_of c)
  unfolding udp_receive receive_allowed acquire_next_receive_datagram is_stray
  stray_dropped buffer capacity c w info sk w1 allowed bound none_yet found other =
      let stray = other_sender info c bound other in
      let peer = (udp_receive-IsRead buffer capacity c w).peer in
      let acquired = (acquire_next_receive_datagram bus c w).0 in
      let nothing : is_positive acquired ≡ false =
        ap
          (λ (r : ℤ × Option UdpPacketInfo × Socket × W).
            is_positive (receive_acquired bus r.0 r.1 (record c { socket = r.2 }) r.3).0)
          found
        ∙ stray-acquired info (record c { socket = sk }) w1 stray in
      let P = IsUnread buffer in
      let unread =
        if_intro P (not (udp_operation_allowed c)) (λ _. record { nothing = refl; same = refl })
          (λ _.
            if_intro P c.datagram_active (λ t. absurd_bool t none_yet)
              (λ _.
                if_intro P (not c.candidate_valid) (λ _. record { nothing = refl; same = refl })
                  (λ _.
                    if_intro P (is_negative acquired) (λ _. record { nothing = refl; same = refl })
                      (λ _.
                        if_intro P (not (is_positive acquired))
                          (λ _. record { nothing = refl; same = refl })
                          (λ f. absurd_bool (ap not nothing) f))))) in
      (unread.nothing, unread.same, peer)
