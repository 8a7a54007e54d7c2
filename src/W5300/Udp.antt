-- ===== src/W5300/Udp.antt =====
-- The UDP transport: dsp/src/c2837x_w5300_udp_channel.c and dsp/inc/c2837x_w5300_udp_channel.h. A
-- NULL channel is not modelled.
pub mod Control
pub mod Receiving
pub mod Sending
pub mod Close
pub mod Device
pub mod Stray
pub mod Peer
mod Tests
use dsp_sim_bridge.Common.{ℕ, Bool, true, false, ◌&&◌, not, ◌==◌, if◌then◌else◌}
use dsp_sim_bridge.W5300.Socket.{Socket, command_none, phase_idle}
use dsp_sim_bridge.W5300.Socket.Datagram.{UdpPacketInfo}
use dsp_sim_bridge.W5300.Channel.{Platform}

-- `C2837xW5300UdpTxState`; the unlisted constructors stand for values that the enumerations do not
-- name.
pub data UdpTxState : Type 0 where
  tx_idle tx_wait_cr_clear tx_wait_result tx_unlisted : UdpTxState

-- `C2837xW5300UdpCloseState`
pub data UdpCloseState : Type 0 where
  udp_close_idle udp_close_wait_existing_cr udp_close_issue udp_close_wait_cr : UdpCloseState
  udp_close_wait_state udp_close_faulted udp_close_unlisted : UdpCloseState

-- `C2837xW5300UdpChannel`. The pointer `time_us` is set or NULL; the clock itself belongs to the
-- platform.
pub record UdpChannel : Type 0 where
  pub socket : Socket
  pub udp_port : ℕ
  pub time_us_set : Bool
  pub close_timeout_us : ℕ
  pub candidate_ip : ℕ
  pub candidate_port : ℕ
  pub candidate_valid : Bool
  pub datagram_active : Bool
  pub datagram_data_size : ℕ
  pub datagram_consumed : ℕ
  pub tx_state : UdpTxState
  pub pending_octets : ℕ
  pub close_state : UdpCloseState
  pub close_start_us : ℕ
  pub faulted : Bool
  pub observed_platform_generation : ℕ

-- The values of the enumerations' names.
abbrev pub udp_close_code : UdpCloseState → ℕ
udp_close_code udp_close_idle = 0
udp_close_code udp_close_wait_existing_cr = 1
udp_close_code udp_close_issue = 2
udp_close_code udp_close_wait_cr = 3
udp_close_code udp_close_wait_state = 4
udp_close_code udp_close_faulted = 5
udp_close_code udp_close_unlisted = 6

abbrev pub tx_code : UdpTxState → ℕ
tx_code tx_idle = 0
tx_code tx_wait_cr_clear = 1
tx_code tx_wait_result = 2
tx_code tx_unlisted = 3

abbrev pub is_udp_close_idle : UdpCloseState → Bool
is_udp_close_idle state = udp_close_code state == 0

abbrev pub is_tx_idle : UdpTxState → Bool
is_tx_idle state = tx_code state == 0

abbrev pub udp_header_bytes : ℕ
udp_header_bytes = 4

abbrev pub udp_max_data_bytes : ℕ
udp_max_data_bytes = 1472

unfoldable pub clear_socket_runtime : Socket → Socket
clear_socket_runtime sk = record sk {
  pending_command = command_none;
  command_phase = phase_idle;
  udp_rx_datagram_active = 0;
  udp_rx_data_remaining = 0;
  udp_rx_residual_byte = 0;
  udp_rx_residual_valid = 0;
}

unfoldable pub clear_datagram : UdpChannel → UdpChannel
clear_datagram c = record c {
  datagram_active = false;
  datagram_data_size = 0;
  datagram_consumed = 0;
}

unfoldable pub clear_candidate_and_datagram : UdpChannel → UdpChannel
unfolding clear_datagram
clear_candidate_and_datagram c =
    clear_datagram (record c { candidate_ip = 0; candidate_port = 0; candidate_valid = false })

unfoldable pub udp_reset_runtime : UdpChannel → UdpChannel
unfolding clear_candidate_and_datagram clear_socket_runtime
udp_reset_runtime c = record (clear_candidate_and_datagram c) {
  socket = clear_socket_runtime c.socket;
  tx_state = tx_idle;
  pending_octets = 0;
  faulted = false;
  close_state = udp_close_idle;
  close_start_us = 0;
}

unfoldable pub udp_operation_allowed : UdpChannel → Bool
udp_operation_allowed c = not c.faulted && is_udp_close_idle c.close_state

unfoldable pub stage_datagram : UdpPacketInfo → UdpChannel → UdpChannel
stage_datagram info c = record c {
  datagram_active = true;
  datagram_data_size = info.data_size;
  datagram_consumed = 0;
}

unfoldable pub reset_udp_tx : UdpChannel → UdpChannel
reset_udp_tx c = record c { tx_state = tx_idle; pending_octets = 0 }

module _ {W : Type 0} (platform : Platform W) where
  unfoldable pub udp_sync_platform_generation : UdpChannel → W → UdpChannel
  unfolding udp_reset_runtime
  udp_sync_platform_generation c w =
      if platform.generation w == c.observed_platform_generation
      then c
      else record (udp_reset_runtime c) { observed_platform_generation = platform.generation w }

  unfoldable pub udp_channel_init : UdpChannel → W → UdpChannel
  unfolding udp_reset_runtime
  udp_channel_init c w = record (udp_reset_runtime c) {
    observed_platform_generation = platform.generation w;
  }
