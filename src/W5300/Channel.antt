-- ===== src/W5300/Channel.antt =====
-- The TCP transport: dsp/src/c2837x_w5300_channel.c and dsp/inc/c2837x_w5300_channel.h. A NULL
-- channel is not modelled.
pub mod Control
pub mod Sending
pub mod Close
pub mod Received
pub mod Steps
pub mod Progress
pub mod Faults
pub mod Pieces
pub mod Sent
use dsp_sim_bridge.Common.{ℕ, Bool, true, false, ◌&&◌, not, ◌==◌, if◌then◌else◌}
use dsp_sim_bridge.W5300.Socket.{Socket, command_none, phase_idle}

-- `C2837xW5300SendState`; the unlisted constructors stand for values that the enumerations do not
-- name.
pub data SendState : Type 0 where
  send_idle send_pending send_unlisted : SendState

-- `C2837xW5300CloseState`
pub data CloseState : Type 0 where
  close_idle close_wait_existing_cr close_check_erratum close_udp_open_issue : CloseState
  close_udp_open_wait_cr close_udp_open_wait_state close_dummy_wait_tx_space : CloseState
  close_dummy_send_issue close_dummy_send_wait_cr close_dummy_send_wait_result : CloseState
  close_close_issue close_close_wait_cr close_close_wait_state close_faulted : CloseState
  close_unlisted : CloseState

-- `C2837xW5300Channel`. The pointer `time_us` is set or NULL; the clock itself belongs to the
-- platform.
pub record TcpChannel : Type 0 where
  pub socket : Socket
  pub tcp_port : ℕ
  pub time_us_set : Bool
  pub close_timeout_us : ℕ
  pub connected : Bool
  pub send_state : SendState
  pub pending_octets : ℕ
  pub faulted : Bool
  pub close_state : CloseState
  pub close_start_us : ℕ
  pub observed_platform_generation : ℕ

-- What the channels use of the platform: the clock, and `c2837x_block_platform_generation`, a
-- counter of hardware initialisations.
pub record Platform (W : Type 0) : Type 0 where
  pub time_us : W → ℕ × W
  pub generation : W → ℕ

-- The values of the enumeration's names.
abbrev pub close_code : CloseState → ℕ
close_code close_idle = 0
close_code close_wait_existing_cr = 1
close_code close_check_erratum = 2
close_code close_udp_open_issue = 3
close_code close_udp_open_wait_cr = 4
close_code close_udp_open_wait_state = 5
close_code close_dummy_wait_tx_space = 6
close_code close_dummy_send_issue = 7
close_code close_dummy_send_wait_cr = 8
close_code close_dummy_send_wait_result = 9
close_code close_close_issue = 10
close_code close_close_wait_cr = 11
close_code close_close_wait_state = 12
close_code close_faulted = 13
close_code close_unlisted = 14

abbrev pub is_close_idle : CloseState → Bool
is_close_idle state = close_code state == 0

abbrev pub is_close_faulted : CloseState → Bool
is_close_faulted state = close_code state == 13

unfoldable pub reset_runtime : TcpChannel → TcpChannel
reset_runtime c = record c {
  connected = false;
  socket = record c.socket { pending_command = command_none; command_phase = phase_idle };
  send_state = send_idle;
  pending_octets = 0;
  faulted = false;
  close_state = close_idle;
  close_start_us = 0;
}

unfoldable pub runtime_operation_allowed : TcpChannel → Bool
runtime_operation_allowed c = not c.faulted && is_close_idle c.close_state

-- No SEND in progress.
abbrev pub forget_send : TcpChannel → TcpChannel
forget_send c = record c { send_state = send_idle; pending_octets = 0 }

module _ {W : Type 0} (platform : Platform W) where
  unfoldable pub sync_platform_generation : TcpChannel → W → TcpChannel
  unfolding reset_runtime
  sync_platform_generation c w =
      if platform.generation w == c.observed_platform_generation
      then c
      else record (reset_runtime c) { observed_platform_generation = platform.generation w }

  unfoldable pub channel_init : TcpChannel → W → TcpChannel
  unfolding reset_runtime
  channel_init c w = record (reset_runtime c) {
    observed_platform_generation = platform.generation w;
  }
