-- ===== src/W5300/Udp/Peer.antt =====
-- The peer of the UDP transport, dsp/src/c2837x_w5300_udp_channel.c: once a sender is bound, no
-- operation but a close that ends or a new initialisation changes it.
use dsp_sim_bridge.Common.{
  ℕ, ◌≡◌, refl, ◌∙◌, true, Option, none, some, List, ℤ, pos, negsuc, not, ◌==◌, ◌!=◌, ◌||◌, ltb,
  is_odd, is_negative, is_positive, bit_set, if_intro, eq→==, absurd_bool,
}
use dsp_sim_bridge.W5300.Registers.{sock_closed, sock_udp}
use dsp_sim_bridge.W5300.Hal.{Bus, get_sn_ssr, get_sn_ir, poll_sn_cr}
use dsp_sim_bridge.W5300.Socket.{is_command, command_recv, command_native_udp_open}
use dsp_sim_bridge.W5300.Socket.Datagram.{udp_send}
use dsp_sim_bridge.W5300.Channel.{Platform}
use dsp_sim_bridge.W5300.Udp.{
  UdpChannel, UdpTxState, tx_idle, tx_wait_cr_clear, tx_wait_result, tx_unlisted,
  udp_operation_allowed, udp_sync_platform_generation, reset_udp_tx, is_tx_idle, udp_max_data_bytes,
}
use dsp_sim_bridge.W5300.Udp.Control.{
  commit_datagram, udp_open_channel, udp_listen_channel, await_candidate, udp_get_connection_state,
}
use dsp_sim_bridge.W5300.Udp.Receiving.{udp_receive}
use dsp_sim_bridge.W5300.Udp.Sending.{
  udp_submitted, await_result, advance_tx_in, advance_udp_tx, submit_words, udp_send_data,
  udp_send_released, udp_send_first, udp_channel_send,
}
use dsp_sim_bridge.W5300.Udp.Stray.{peer_of, IsKept, commit_datagram-IsKept, udp_receive-IsRead}

module _ {W : Type 0} (bus : Bus W) where
  await_result-IsKept : (c : UdpChannel) (w : W) → IsKept (peer_of c) (await_result bus c w)
  unfolding await_result reset_udp_tx
  await_result-IsKept c w =
      let (ir, w1) = get_sn_ir bus c.socket.sn w in
      if_intro (IsKept (peer_of c)) (bit_set 3 ir) (λ _. record { peer = refl })
        (λ _.
          if_intro (IsKept (peer_of c)) (bit_set 4 ir) (λ _. record { peer = refl })
            (λ _. record { peer = refl }))

  advance_tx_in-IsKept :
      (state : UdpTxState) (c : UdpChannel) (w : W)
      → IsKept (peer_of c) (advance_tx_in bus state c w)
  unfolding advance_tx_in
  advance_tx_in-IsKept tx_wait_cr_clear c w =
      let (result, w1) = poll_sn_cr bus c.socket.sn w in
      if_intro (IsKept (peer_of c)) (is_positive result)
        (λ _. record {
          peer = (await_result-IsKept (record c { tx_state = tx_wait_result }) w1).peer;
        })
        (λ _. record { peer = refl })
  advance_tx_in-IsKept tx_wait_result c w = await_result-IsKept c w
  advance_tx_in-IsKept tx_idle c w = await_result-IsKept c w
  advance_tx_in-IsKept tx_unlisted c w = await_result-IsKept c w

  udp_submitted-IsKept :
      (result : ℤ) (count : ℕ) (c : UdpChannel) (w : W)
      → IsKept (peer_of c) (udp_submitted result count c w)
  unfolding udp_submitted reset_udp_tx
  udp_submitted-IsKept (negsuc n) count c w = record { peer = refl }
  udp_submitted-IsKept (pos n) count c w =
      if_intro (IsKept (peer_of c)) (n == 0) (λ _. record { peer = refl })
        (λ _.
          if_intro (IsKept (peer_of c)) (n != count) (λ _. record { peer = refl })
            (λ _. record { peer = refl }))

  udp_send_data-IsKept :
      (frame : List ℕ) (data_words : Option ℕ) (count : ℕ) (c : UdpChannel) (w : W)
      → IsKept (peer_of c) (udp_send_data bus frame data_words count c w)
  unfolding udp_send_data submit_words reset_udp_tx
  udp_send_data-IsKept frame none count c w =
      if_intro (IsKept (peer_of c)) (count == 0) (λ _. record { peer = refl })
        (λ _. record { peer = refl })
  udp_send_data-IsKept frame (some at) count c w =
      let (result, w1) =
        udp_send bus c.socket c.candidate_ip c.candidate_port frame (some at) count w in
      if_intro (IsKept (peer_of c)) (count == 0) (λ _. record { peer = refl })
        (λ _.
          if_intro (IsKept (peer_of c)) (is_odd count || ltb udp_max_data_bytes count)
            (λ _. record { peer = refl }) (λ _. udp_submitted-IsKept result count c w1))

  udp_send_released-IsKept :
      (frame : List ℕ) (data_words : Option ℕ) (count : ℕ) (c : UdpChannel) (w : W)
      → IsKept (peer_of c) (udp_send_released bus frame data_words count c w)
  unfolding udp_send_released reset_udp_tx
  udp_send_released-IsKept frame data_words count c w =
      if_intro (IsKept (peer_of c)) c.datagram_active (λ _. record { peer = refl })
        (λ _. udp_send_data-IsKept frame data_words count c w)

  udp_send_first-IsKept :
      (frame : List ℕ) (data_words : Option ℕ) (count : ℕ) (c : UdpChannel) (w : W)
      → IsKept (peer_of c) (udp_send_first bus frame data_words count c w)
  unfolding udp_send_first reset_udp_tx
  udp_send_first-IsKept frame data_words count c w =
      let P = IsKept (peer_of c) in
      let (result, c1, w1) = commit_datagram bus c w in
      let k = commit_datagram-IsKept bus c w in
      if_intro P (not c.candidate_valid) (λ _. record { peer = refl })
        (λ _.
          if_intro P (not (is_command c.socket.pending_command command_recv))
            (λ _. udp_send_released-IsKept frame data_words count c w)
            (λ _.
              if_intro P (not c.datagram_active) (λ _. record { peer = refl })
                (λ _.
                  if_intro P (is_negative result) (λ _. record { peer = k.peer })
                    (λ _.
                      if_intro P (not (is_positive result)) (λ _. record { peer = k.peer })
                        (λ _. record {
                          peer =
                              (udp_send_released-IsKept frame data_words count c1 w1).peer ∙ k.peer;
                        })))))

  udp_channel_send-IsKept :
      (frame : List ℕ) (data_words : Option ℕ) (count : ℕ) (c : UdpChannel) (w : W)
      → IsKept (peer_of c) (udp_channel_send bus frame data_words count c w)
  unfolding udp_channel_send advance_udp_tx reset_udp_tx
  udp_channel_send-IsKept frame data_words count c w =
      let P = IsKept (peer_of c) in
      let (result, c1, w1) = advance_udp_tx bus c w in
      let k = advance_tx_in-IsKept c.tx_state c w in
      if_intro P (not (udp_operation_allowed c)) (λ _. record { peer = refl })
        (λ _.
          if_intro P (is_tx_idle c.tx_state) (λ _. udp_send_first-IsKept frame data_words count c w)
            (λ _. record {
              peer =
                  if_intro (λ (c2 : UdpChannel). peer_of c2 ≡ peer_of c) (is_negative result)
                    {x = reset_udp_tx c1} {y = c1} (λ _. k.peer) (λ _. k.peer);
            }))

  udp_same_generation :
      (platform : Platform W) (c : UdpChannel) (w : W)
      → platform.generation w ≡ c.observed_platform_generation
      → udp_sync_platform_generation platform c w ≡ c
  unfolding udp_sync_platform_generation
  udp_same_generation platform c w e =
      rw (eq→== (platform.generation w) c.observed_platform_generation e) refl

  open-IsKept :
      (platform : Platform W) (c : UdpChannel) (w : W)
      → platform.generation w ≡ c.observed_platform_generation
      → IsKept (peer_of c) (udp_open_channel bus platform c w)
  unfolding udp_open_channel
  open-IsKept platform c w same = rw (udp_same_generation platform c w same) (
      if_intro (IsKept (peer_of c)) (not (udp_operation_allowed c)) (λ _. record { peer = refl })
        (λ _. record { peer = refl }))

  listen-IsKept :
      (platform : Platform W) (c : UdpChannel) (w : W)
      → platform.generation w ≡ c.observed_platform_generation
      → IsKept (peer_of c) (udp_listen_channel bus platform c w)
  unfolding udp_listen_channel
  listen-IsKept platform c w same = rw (udp_same_generation platform c w same) (
      if_intro (IsKept (peer_of c)) (not (udp_operation_allowed c)) (λ _. record { peer = refl })
        (λ _. record { peer = refl }))

  await_candidate-IsKept :
      (c : UdpChannel) (w : W)
      → c.candidate_valid ≡ true
      → IsKept (peer_of c) (await_candidate bus c w)
  unfolding await_candidate
  await_candidate-IsKept c w bound =
      if_intro (IsKept (peer_of c)) c.candidate_valid (λ _. record { peer = refl })
        (λ f. absurd_bool bound f)

  connection-IsKept :
      (platform : Platform W) (c : UdpChannel) (w : W)
      → c.candidate_valid ≡ true
      → platform.generation w ≡ c.observed_platform_generation
      → IsKept (peer_of c) (udp_get_connection_state bus platform c w)
  unfolding udp_get_connection_state
  connection-IsKept platform c w bound same =
      let P = IsKept (peer_of c) in
      let (status, w1) = get_sn_ssr bus c.socket.sn w in
      rw (udp_same_generation platform c w same) (
        if_intro P (not (udp_operation_allowed c)) (λ _. record { peer = refl })
          (λ _.
            if_intro P
              (is_command c.socket.pending_command command_native_udp_open || status == sock_closed)
              (λ _. record { peer = refl })
              (λ _.
                if_intro P (status == sock_udp) (λ _. await_candidate-IsKept c w1 bound)
                  (λ _. record { peer = refl }))))

  -- Once a peer is bound, open, listen, get_connection_state, receive and send keep it, unless the
  -- platform was initialised again.
  pub peer_kept :
      (platform : Platform W) (c : UdpChannel) (w : W) (words : List ℕ) (data_words : Option ℕ)
      (count : ℕ)
      → c.candidate_valid ≡ true
      → platform.generation w ≡ c.observed_platform_generation
      → (peer_of (udp_open_channel bus platform c w).1 ≡ peer_of c)
        × (peer_of (udp_listen_channel bus platform c w).1 ≡ peer_of c)
        × (peer_of (udp_get_connection_state bus platform c w).1 ≡ peer_of c)
        × (peer_of (udp_receive bus words count c w).2 ≡ peer_of c)
        × (peer_of (udp_channel_send bus words data_words count c w).1 ≡ peer_of c)
  peer_kept platform c w words data_words count bound same = (
    (open-IsKept platform c w same).peer,
    (listen-IsKept platform c w same).peer,
    (connection-IsKept platform c w bound same).peer,
    (udp_receive-IsRead bus words count c w).peer,
    (udp_channel_send-IsKept words data_words count c w).peer,
  )
