-- ===== src/W5300/Udp/Control.antt =====
-- The current datagram, `open_channel`, `listen_channel` and `get_connection_state` of
-- dsp/src/c2837x_w5300_udp_channel.c.
use dsp_sim_bridge.Common.{
  true, Option, none, some, ℤ, pos, failed, not, ◌==◌, ◌||◌, is_negative, is_positive,
  if◌then◌else◌,
}
use dsp_sim_bridge.Core.Types.{IoConnectionState, closed, listening, connected, connection_error}
use dsp_sim_bridge.W5300.Registers.{sock_closed, sock_udp}
use dsp_sim_bridge.W5300.Hal.{Bus, get_sn_ssr}
use dsp_sim_bridge.W5300.Socket.{is_command, command_native_udp_open}
use dsp_sim_bridge.W5300.Socket.Commands.{socket_udp_open}
use dsp_sim_bridge.W5300.Socket.Datagram.{
  UdpPacketInfo, udp_read_packet_info, udp_drop_data, udp_commit_recv,
}
use dsp_sim_bridge.W5300.Channel.{Platform}
use dsp_sim_bridge.W5300.Udp.{
  UdpChannel, clear_datagram, stage_datagram, udp_operation_allowed, udp_sync_platform_generation,
}

-- A datagram is there: its sender becomes the peer.
unfoldable pub bind_candidate : UdpPacketInfo → UdpChannel → UdpChannel
unfolding stage_datagram
bind_candidate info c = stage_datagram info (record c {
  candidate_ip = info.source_ip;
  candidate_port = info.source_port;
  candidate_valid = true;
})

-- By the result of `acquire_packet_info`, which has an info only if it is 1.
unfoldable pub candidate_found :
    {W : Type 0} → ℤ → Option UdpPacketInfo → UdpChannel → W → IoConnectionState × UdpChannel × W
unfolding bind_candidate
candidate_found result none c w = (if is_negative result then connection_error else listening, c, w)
candidate_found result (some info) c w = (connected, bind_candidate info c, w)

module _ {W : Type 0} (bus : Bus W) where
  unfoldable pub commit_datagram : UdpChannel → W → ℤ × UdpChannel × W
  unfolding clear_datagram
  commit_datagram c w =
      let (result, sk, w1) = udp_commit_recv bus c.socket w in
      let c1 = record c { socket = sk } in
      (result, if is_positive result then clear_datagram c1 else c1, w1)

  -- `drop_datagram`
  unfoldable pub drop_current : UdpChannel → W → ℤ × UdpChannel × W
  unfolding commit_datagram
  drop_current c w =
      let (dropped, sk, w1) = udp_drop_data bus c.socket w in
      let c1 = record c { socket = sk } in
      if is_negative dropped
      then (failed, c1, w1)
      else commit_datagram (record c1 { datagram_consumed = c1.datagram_data_size }) w1

  unfoldable pub udp_open_channel : Platform W → UdpChannel → W → ℤ × UdpChannel × W
  udp_open_channel platform c w =
      let c1 = udp_sync_platform_generation platform c w in
      if not (udp_operation_allowed c1)
      then (failed, c1, w)
      else let (result, sk, w1) = socket_udp_open bus c1.socket c1.udp_port w in
        (result, record c1 { socket = sk }, w1)

  unfoldable pub udp_listen_channel : Platform W → UdpChannel → W → ℤ × UdpChannel × W
  udp_listen_channel platform c w =
      let c1 = udp_sync_platform_generation platform c w in
      if not (udp_operation_allowed c1)
      then (failed, c1, w)
      else let (status, w1) = get_sn_ssr bus c1.socket.sn w in
        (if status == sock_udp then pos 1 else failed, c1, w1)

  -- Status SOCK_UDP.
  unfoldable pub await_candidate : UdpChannel → W → IoConnectionState × UdpChannel × W
  unfolding candidate_found
  await_candidate c w =
      if c.candidate_valid
      then (connected, c, w)
      else if c.datagram_active
      then (connection_error, c, w)
      else let (result, info, sk, w1) = udp_read_packet_info bus c.socket w in
        candidate_found result info (record c { socket = sk }) w1

  unfoldable pub udp_get_connection_state :
      Platform W → UdpChannel → W → IoConnectionState × UdpChannel × W
  unfolding await_candidate
  udp_get_connection_state platform c w =
      let c1 = udp_sync_platform_generation platform c w in
      if not (udp_operation_allowed c1)
      then (connection_error, c1, w)
      else let (status, w1) = get_sn_ssr bus c1.socket.sn w in
        if is_command c1.socket.pending_command command_native_udp_open || status == sock_closed
        then (closed, c1, w1)
        else if status == sock_udp
        then await_candidate c1 w1
        else (connection_error, c1, w1)
