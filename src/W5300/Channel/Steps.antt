-- ===== src/W5300/Channel/Steps.antt =====
-- What one call of `close_channel` of dsp/src/c2837x_w5300_channel.c may come to, and that each of its
-- steps does.
use dsp_sim_bridge.Common.{
  ℕ, ◌≡◌, ◌≤◌, refl, true, false, ℤ, pos, failed, not, ◌==◌, ◌!=◌, is_negative, is_positive,
  if_intro, arith, ==→eq,
}
use dsp_sim_bridge.W5300.Registers.{sock_closed, sock_udp}
use dsp_sim_bridge.W5300.Hal.{Bus, is_socket_status, get_sn_ssr}
use dsp_sim_bridge.W5300.Socket.{Socket, command_close}
use dsp_sim_bridge.W5300.Socket.Closing.{complete_close_command}
use dsp_sim_bridge.W5300.Channel.{
  TcpChannel, CloseState, close_dummy_wait_tx_space, close_close_issue, close_code, reset_runtime,
}
use dsp_sim_bridge.W5300.Channel.Sending.{send_result_bits}
use dsp_sim_bridge.W5300.Channel.Close.{
  close_fault, close_done, close_at, close_step, close_issued, udp_open_status, dummy_send_result,
  close_status,
}

-- `c` is in the close that `c0` was in, at the same or a later step.
pub record IsGoing (c0 c : TcpChannel) : Type 0 where
  pub later : close_code c0.close_state ≤ close_code c.close_state
  pub some_step : 1 ≤ close_code c.close_state
  pub a_step : close_code c.close_state ≤ 12
  pub sound : c.faulted ≡ false
  pub same_start : c.close_start_us ≡ c0.close_start_us
  pub same_timeout : c.close_timeout_us ≡ c0.close_timeout_us
  pub same_generation : c.observed_platform_generation ≡ c0.observed_platform_generation

-- What a call of `close_channel` comes to, from the channel `c0` and its result: the close goes on,
-- or the chip has been seen closed and the channel is as after its initialisation, or it is faulted.
pub data IsStep {W : Type 0} (bus : Bus W) (c0 : TcpChannel) : ℤ × TcpChannel → Type 0 where
  going : (c : TcpChannel) → IsGoing c0 c → IsStep bus c0 (pos 0, c)
  ended :
      (c : TcpChannel) (w : W)
      → (get_sn_ssr bus c0.socket.sn w).0 ≡ sock_closed
      → c ≡ reset_runtime c
      → IsStep bus c0 (pos 1, c)
  broken : (c : TcpChannel) → c.faulted ≡ true → IsStep bus c0 (failed, c)

-- A close is under way, and the channel is not faulted.
pub record IsClosing (c : TcpChannel) : Type 0 where
  pub some_step : 1 ≤ close_code c.close_state
  pub sound : c.faulted ≡ false

module _ {W : Type 0} (bus : Bus W) where
  pub close_fault-IsStep : (c0 c : TcpChannel) → IsStep bus c0 (close_fault c)
  unfolding close_fault
  close_fault-IsStep c0 c = IsStep.broken _ refl

  pub close_done-IsStep :
      (c0 c : TcpChannel) (w : W)
      → (get_sn_ssr bus c0.socket.sn w).0 ≡ sock_closed
      → IsStep bus c0 (close_done c)
  unfolding close_done reset_runtime
  close_done-IsStep c0 c w seen = IsStep.ended _ w seen refl

  pub close_at-IsStep :
      (next : CloseState) (c : TcpChannel) (sk : Socket)
      → IsClosing c
      → close_code c.close_state ≤ close_code next
      → close_code next ≤ 12
      → IsStep bus c (close_at next (record c { socket = sk }))
  close_at-IsStep next c sk closing later a_step = IsStep.going _ (record {
    later = later;
    some_step = omega (arith, closing.some_step);
    a_step = a_step;
    sound = closing.sound;
    same_start = refl;
    same_timeout = refl;
    same_generation = refl;
  })

  -- The step is taken again in the next call.
  pub again-IsStep :
      (c : TcpChannel) (sk : Socket)
      → IsClosing c
      → close_code c.close_state ≤ 12
      → IsStep bus c (pos 0, record c { socket = sk })
  again-IsStep c sk closing a_step = close_at-IsStep c.close_state c sk closing (omega arith) a_step

  pub close_step-IsStep :
      (result : ℤ) (next : CloseState) (c : TcpChannel) (sk : Socket)
      → IsClosing c
      → close_code c.close_state ≤ close_code next
      → close_code next ≤ 12
      → IsStep bus c (close_step result next (record c { socket = sk }))
  unfolding close_step
  close_step-IsStep result next c sk closing later a_step =
      if_intro (IsStep bus c) (is_negative result)
        (λ _. close_fault-IsStep c (record c { socket = sk }))
        (λ _.
          if_intro (IsStep bus c) (is_positive result)
            (λ _. close_at-IsStep next c sk closing later a_step)
            (λ _. again-IsStep c sk closing (omega arith)))

  pub close_issued-IsStep :
      (result : ℤ) (next : CloseState) (c : TcpChannel) (sk : Socket)
      → IsClosing c
      → close_code c.close_state ≤ close_code next
      → close_code next ≤ 12
      → IsStep bus c (close_issued result next (record c { socket = sk }))
  unfolding close_issued
  close_issued-IsStep result next c sk closing later a_step =
      if_intro (IsStep bus c) (is_negative result)
        (λ _. close_fault-IsStep c (record c { socket = sk }))
        (λ _. close_at-IsStep next c sk closing later a_step)

  pub udp_open_status-IsStep :
      (status : ℕ) (c : TcpChannel)
      → IsClosing c
      → close_code c.close_state ≤ 6
      → IsStep bus c (udp_open_status status c)
  unfolding udp_open_status
  udp_open_status-IsStep status c closing later =
      if_intro (IsStep bus c) (status == sock_udp)
        (λ _. close_issued-IsStep _ close_dummy_wait_tx_space c _ closing later (omega arith))
        (λ _.
          if_intro (IsStep bus c) (not (is_socket_status status)) (λ _. close_fault-IsStep c c)
            (λ _. again-IsStep c c.socket closing (omega arith)))

  pub dummy_send_result-IsStep :
      (ir : ℕ) (c : TcpChannel) (w : W)
      → IsClosing c
      → close_code c.close_state ≤ 10
      → IsStep bus c (dummy_send_result bus ir c w).0
  unfolding dummy_send_result
  dummy_send_result-IsStep ir c w closing later =
      if_intro (λ (out : (ℤ × TcpChannel) × W). IsStep bus c out.0) (send_result_bits ir != 0)
        (λ _. close_issued-IsStep _ close_close_issue c _ closing later (omega arith))
        (λ _. again-IsStep c c.socket closing (omega arith))

  pub close_status-IsStep :
      (c : TcpChannel) (w : W)
      → IsClosing c
      → close_code c.close_state ≤ 12
      → IsStep bus c (close_status (get_sn_ssr bus c.socket.sn w).0 c)
  unfolding close_status
  close_status-IsStep c w closing a_step =
      let status = (get_sn_ssr bus c.socket.sn w).0 in
      let c1 = record c { socket = (complete_close_command c.socket command_close).1 } in
      if_intro (IsStep bus c) (status == sock_closed)
        (λ t.
          if_intro (IsStep bus c) (is_negative (complete_close_command c.socket command_close).0)
            (λ _. close_fault-IsStep c c1)
            (λ _. close_done-IsStep c c1 w (==→eq status sock_closed t)))
        (λ _.
          if_intro (IsStep bus c) (not (is_socket_status status)) (λ _. close_fault-IsStep c c)
            (λ _. again-IsStep c c.socket closing (omega arith)))
