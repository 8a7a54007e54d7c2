-- ===== src/W5300/Channel/Faults.antt =====
-- The close timeout, and the platform generation in dsp/src/c2837x_w5300_channel.c.
use dsp_sim_bridge.Common.{
  ℕ, ◌≡◌, ◌≤◌, refl, ◌∙◌, true, false, ℤ, pos, not, ◌||◌, ◌^◌, leb, sub32, ◌==◌, if_intro, arith,
  eq→==,
}
use dsp_sim_bridge.W5300.Registers.{max_sock_num}
use dsp_sim_bridge.W5300.Hal.{Bus}
use dsp_sim_bridge.W5300.Socket.{command_none, phase_idle}
use dsp_sim_bridge.W5300.Channel.{
  TcpChannel, Platform, is_close_idle, is_close_faulted, close_code, sync_platform_generation,
  send_idle, close_idle,
}
use dsp_sim_bridge.W5300.Channel.Close.{close_fault, close_channel, close_checked, continue_close}
use dsp_sim_bridge.W5300.Channel.Steps.{IsStep, IsGoing}
use dsp_sim_bridge.W5300.Channel.Progress.{close_channel-IsStep}

-- A channel in a close that was begun when the clock said `start`: every call up to now has
-- returned 0. In between, anything may have happened to the chip, but no platform initialisation.
pub data Closing {W : Type 0} (bus : Bus W) (platform : Platform W) (start : ℕ)
    : TcpChannel → Type 0 where
  begun :
      (c : TcpChannel) (w : W)
      → is_close_idle (sync_platform_generation platform c w).close_state ≡ true
      → (platform.time_us w).0 ≡ start
      → (close_channel bus platform c w).0.0 ≡ pos 0
      → Closing bus platform start (close_channel bus platform c w).0.1
  again :
      (c : TcpChannel) (w : W)
      → Closing bus platform start c
      → platform.generation w ≡ c.observed_platform_generation
      → (close_channel bus platform c w).0.0 ≡ pos 0
      → Closing bus platform start (close_channel bus platform c w).0.1

module _ {W : Type 0} (bus : Bus W) (platform : Platform W) where
  same_generation :
      (c : TcpChannel) (w : W)
      → platform.generation w ≡ c.observed_platform_generation
      → sync_platform_generation platform c w ≡ c
  unfolding sync_platform_generation
  same_generation c w e = rw (eq→== (platform.generation w) c.observed_platform_generation e) refl

  IsStep-IsGoing :
      (c0 : TcpChannel) {out : ℤ × TcpChannel}
      → IsStep bus c0 out
      → out.0 ≡ pos 0
      → IsGoing c0 out.1
  IsStep-IsGoing c0 (IsStep.going c g) e = g
  IsStep-IsGoing c0 (IsStep.ended c w seen fresh) e = cc
  IsStep-IsGoing c0 (IsStep.broken c bad) e = cc

  record IsBegun (start : ℕ) (c : TcpChannel) : Type 0 where
    some_step : 1 ≤ close_code c.close_state
    a_step : close_code c.close_state ≤ 12
    sound : c.faulted ≡ false
    same_start : c.close_start_us ≡ start

  Closing-IsBegun : {start : ℕ} {c : TcpChannel} → Closing bus platform start c → IsBegun start c
  Closing-IsBegun (Closing.begun c w idle now going) =
      let g = IsStep-IsGoing _ (close_channel-IsStep bus platform c w) going in
      record {
        some_step = g.some_step;
        a_step = g.a_step;
        sound = g.sound;
        same_start = g.same_start ∙ rw idle now;
      }
  Closing-IsBegun (Closing.again c w closing same going) =
      let b = Closing-IsBegun closing in
      let under_way : is_close_idle c.close_state ≡ false = ground (arith, b.some_step) in
      let g = IsStep-IsGoing _ (close_channel-IsStep bus platform c w) going in
      record {
        some_step = g.some_step;
        a_step = g.a_step;
        sound = g.sound;
        same_start = g.same_start ∙ rw (same_generation c w same) (rw under_way b.same_start);
      }

  -- When the timeout has passed, the next call of the close ends it: as a fault, whatever the chip does.
  pub close_channel_bounded :
      {start : ℕ} {c : TcpChannel} (w : W)
      → Closing bus platform start c
      → platform.generation w ≡ c.observed_platform_generation
      → c.close_timeout_us ≤ sub32 (platform.time_us w).0 start
      → (close_channel bus platform c w).0 ≡ close_fault c
  unfolding close_channel close_checked continue_close
  close_channel_bounded {start} {c} w closing same late =
      let b = Closing-IsBegun closing in
      let under_way : is_close_idle c.close_state ≡ false = ground (arith, b.some_step) in
      let not_faulted : is_close_faulted c.close_state ≡ false = ground (arith, b.a_step) in
      let elapsed : leb c.close_timeout_us (sub32 (platform.time_us w).0 start) ≡ true =
        ground (arith, late) in
      rw (same_generation c w same) (
        rw b.sound (
          if_intro (λ (out : (ℤ × TcpChannel) × W). out.0 ≡ close_fault c)
            (leb max_sock_num c.socket.sn
              || not c.time_us_set
              || c.close_timeout_us == 0
              || leb (2 ^ 31) c.close_timeout_us)
            (λ _. refl) (λ _. rw under_way (rw not_faulted (rw b.same_start (rw elapsed refl))))))

  -- A channel of the present generation with no command, no piece, no close and no fault, on the
  -- same socket, port and timeout.
  abbrev pub renewed : TcpChannel → W → TcpChannel
  renewed c w = record {
    socket = record c.socket { pending_command = command_none; command_phase = phase_idle };
    tcp_port = c.tcp_port;
    time_us_set = c.time_us_set;
    close_timeout_us = c.close_timeout_us;
    connected = false;
    send_state = send_idle;
    pending_octets = 0;
    faulted = false;
    close_state = close_idle;
    close_start_us = 0;
    observed_platform_generation = platform.generation w;
  }
