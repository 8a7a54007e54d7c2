-- ===== src/W5300/Channel/Control.antt =====
-- `open_channel`, `listen_channel`, `get_connection_state` and `receive` of
-- dsp/src/c2837x_w5300_channel.c.
use dsp_sim_bridge.Common.{
  ℕ, Bool, true, false, List, [], ℤ, pos, failed, not, ◌==◌, ◌||◌, if◌then◌else◌,
}
use dsp_sim_bridge.Core.Types.{
  IoConnectionState, closed, open_, listening, connected, peer_closed, connection_error,
}
use dsp_sim_bridge.W5300.Registers.{
  mr_tcp, mr_align, ir_con, sock_closed, sock_arp, sock_init, sock_listen, sock_synsent,
  sock_synrecv, sock_established, sock_fin_wait, sock_closing, sock_time_wait, sock_close_wait,
  sock_last_ack,
}
use dsp_sim_bridge.W5300.Hal.{Bus, get_sn_ssr, set_sn_ir}
use dsp_sim_bridge.W5300.Socket.{Socket}
use dsp_sim_bridge.W5300.Socket.Commands.{socket_open, socket_listen}
use dsp_sim_bridge.W5300.Socket.Transfer.{even_octets, socket_recv}
use dsp_sim_bridge.W5300.Channel.{
  TcpChannel, Platform, runtime_operation_allowed, sync_platform_generation,
}

-- The connection state that a socket status stands for.
unfoldable pub state_of_status : ℕ → IoConnectionState
state_of_status status =
    if status == sock_closed
    then closed
    else if status == sock_arp
        || status == sock_synsent
        || status == sock_synrecv
        || status == sock_listen
    then listening
    else if status == sock_init
    then open_
    else if status == sock_established
    then connected
    else if status == sock_fin_wait
        || status == sock_closing
        || status == sock_time_wait
        || status == sock_close_wait
        || status == sock_last_ack
    then peer_closed
    else connection_error

module _ {W : Type 0} (bus : Bus W) (platform : Platform W) where
  -- The result of a socket function, put back into the channel.
  abbrev pub with_socket : TcpChannel → ℤ × Socket × W → ℤ × TcpChannel × W
  with_socket c (result, sk, w) = (result, record c { socket = sk }, w)

  unfoldable pub open_channel : TcpChannel → W → ℤ × TcpChannel × W
  open_channel c w =
      let c1 = sync_platform_generation platform c w in
      if not (runtime_operation_allowed c1)
      then (failed, c1, w)
      else with_socket c1 (socket_open bus c1.socket mr_tcp c1.tcp_port mr_align w)

  unfoldable pub listen_channel : TcpChannel → W → ℤ × TcpChannel × W
  listen_channel c w =
      let c1 = sync_platform_generation platform c w in
      if not (runtime_operation_allowed c1)
      then (failed, c1, w)
      else with_socket c1 (socket_listen bus c1.socket w)

  -- `connected` follows the status; the CON interrupt is acknowledged when a connection is new.
  unfoldable pub note_connection : ℕ → TcpChannel → W → TcpChannel × W
  note_connection status c w =
      if status == sock_established
      then (
        record c { connected = true },
        if c.connected then w else set_sn_ir bus c.socket.sn ir_con w,
      )
      else (record c { connected = false }, w)

  unfoldable pub get_connection_state : TcpChannel → W → IoConnectionState × TcpChannel × W
  unfolding note_connection
  get_connection_state c w =
      let c1 = sync_platform_generation platform c w in
      if not (runtime_operation_allowed c1)
      then (connection_error, c1, w)
      else let (status, w1) = get_sn_ssr bus c1.socket.sn w in
        let (c2, w2) = note_connection status c1 w1 in (state_of_status status, c2, w2)

module _ {W : Type 0} (bus : Bus W) where
  -- Whether `data_words` is set, the capacity; the result and the words stored.
  unfoldable pub receive : Bool → ℕ → TcpChannel → W → ℤ × List ℕ × TcpChannel × W
  receive data_words_set capacity c w =
      if not (runtime_operation_allowed c)
      then (failed, [], c, w)
      else if even_octets capacity == 0
      then (pos 0, [], c, w)
      else let (result, words, sk, w1) =
          socket_recv bus data_words_set (even_octets capacity) c.socket w in
        (result, words, record c { socket = sk }, w1)
