-- ===== src/Sci/Session.antt =====
-- Control of the SCI channel, dsp/src/c2837x_block_sci.c: the control pin, session cleanup, and
-- the operations init, open, listen, connection state and close. A NULL channel, which the Core
-- rejects with its configuration, is not modelled.
use dsp_sim_bridge.Common.{
  ℕ, Bool, true, false, Option, none, some, ℤ, pos, failed, ◌&&◌, ◌!=◌, is_negative, if◌then◌else◌,
}
use dsp_sim_bridge.Core.Types.{
  IoConnectionState, closed, open_, listening, connected, peer_closed, connection_error,
}
use dsp_sim_bridge.Sci.Types.{
  SciModule, CtrlTxActiveLevel, SciDescriptor, ChannelRuntime, Peripheral, Hardware, Channel,
  module_a, module_b, module_c, module_d, module_unlisted, active_low, active_high, scia, scib,
  scic, scid, no_ctrl_gpio,
}

unfoldable pub ctrl_rx_level : CtrlTxActiveLevel → ℕ
ctrl_rx_level active_high = 0
ctrl_rx_level active_low = 1

unfoldable pub ctrl_tx_level : CtrlTxActiveLevel → ℕ
ctrl_tx_level active_high = 1
ctrl_tx_level active_low = 0

abbrev pub has_ctrl : Option SciDescriptor → Bool
has_ctrl none = false
has_ctrl (some config) = config.ctrl.gpio != no_ctrl_gpio

-- `none` is NULL.
abbrev pub registers : SciModule → Option Peripheral
registers module_a = some scia
registers module_b = some scib
registers module_c = some scic
registers module_d = some scid
registers module_unlisted = none

unfoldable pub clear_tx_pending : ChannelRuntime → ChannelRuntime
clear_tx_pending r = record r {
  software_pending = false;
  tx_pending_data_words = none;
  tx_pending_total_octets = 0;
  tx_pending_queued_octets = 0;
}

module _ {H : Type 0} where
  -- The channel in another connection state.
  abbrev pub in_connection : IoConnectionState → Channel H → Channel H
  in_connection state c = record c { runtime = record c.runtime { connection_state = state } }

  -- The `if` of `open_channel`, on the connection state.
  unfoldable pub open_in : IoConnectionState → Channel H → ℤ × Channel H
  open_in closed c = (pos 0, in_connection open_ c)
  open_in open_ c = (failed, c)
  open_in listening c = (failed, c)
  open_in connected c = (failed, c)
  open_in peer_closed c = (failed, c)
  open_in connection_error c = (failed, c)

  unfoldable pub open_channel : Channel H → ℤ × Channel H
  unfolding open_in
  open_channel c = open_in c.runtime.connection_state c

module _ {H : Type 0} (hw : Hardware H) where
  -- Drive the control pin, where the channel has one, to the level of a direction.
  unfoldable pub drive_ctrl : (CtrlTxActiveLevel → ℕ) → Option SciDescriptor → H → H
  drive_ctrl level none h = h
  drive_ctrl level (some config) h =
      if has_ctrl (some config)
      then hw.write_pin config.ctrl.gpio (level config.ctrl.tx_active_level) h
      else h

  unfoldable pub reset_software_runtime : Channel H → Channel H
  unfolding clear_tx_pending drive_ctrl
  reset_software_runtime c = record c {
    runtime = record (clear_tx_pending c.runtime) {
      rx_staging_octet = 0;
      rx_staging_valid = false;
      ctrl_tx_active = false;
    };
    hardware = drive_ctrl ctrl_rx_level c.hardware_config c.hardware;
  }

  -- The seven register writes of `c2837x_block_sci_session_cleanup`, the first one innermost.
  unfoldable pub reset_peripheral : Peripheral → H → H
  reset_peripheral p h = hw.write_swreset p true (
      hw.write_txfiforeset p true (
        hw.write_rxfiforeset p true (
          hw.write_txfiforeset p false (
            hw.write_rxfiforeset p false
              (hw.write_rxffovrclr p true (hw.write_swreset p false h))))))

  unfoldable pub reset_registers : Option Peripheral → H → H
  unfolding reset_peripheral
  reset_registers none h = h
  reset_registers (some p) h = reset_peripheral p h

  -- `c2837x_block_sci_session_cleanup` behind the reset of the software's state.
  unfoldable pub cleanup_hardware : Option SciDescriptor → Channel H → ℤ × Channel H
  unfolding reset_registers
  cleanup_hardware none c = (failed, c)
  cleanup_hardware (some config) c =
      (pos 0, record c { hardware = reset_registers (registers config.sci_module) c.hardware })

  unfoldable pub session_cleanup : Channel H → ℤ × Channel H
  unfolding cleanup_hardware reset_software_runtime
  session_cleanup c = cleanup_hardware c.hardware_config (reset_software_runtime c)

  -- RXFFOVF is read only if RXERROR is 0.
  unfoldable pub has_rx_error : Peripheral → H → Bool × H
  has_rx_error p h =
      let (error, h1) = hw.rxerror p h in if error then (true, h1) else hw.rxffovf p h1

  unfoldable pub close_after_error : Channel H → Channel H
  unfolding session_cleanup
  close_after_error c =
      let c1 = (session_cleanup c).1 in
      record c1 {
        runtime = record c1.runtime { connection_state = closed; session_cleanup_done = true };
      }

  unfoldable pub channel_init : Channel H → Channel H
  unfolding reset_software_runtime
  channel_init c = reset_software_runtime (record c {
    runtime = record c.runtime { connection_state = closed; session_cleanup_done = false };
  })

  -- `listen_channel` in an open channel.
  unfoldable pub listen_open : Channel H → ℤ × Channel H
  listen_open c =
      if c.runtime.session_cleanup_done
      then (pos 0, in_connection listening c)
      else let (result, c1) = session_cleanup c in
        if is_negative result then (failed, c1) else (
          pos 0,
          record c1 {
            runtime = record c1.runtime {
              session_cleanup_done = true;
              connection_state = listening;
            };
          },
        )

  unfoldable pub listen_in : IoConnectionState → Channel H → ℤ × Channel H
  unfolding listen_open
  listen_in closed c = (failed, c)
  listen_in open_ c = listen_open c
  listen_in listening c = (failed, c)
  listen_in connected c = (failed, c)
  listen_in peer_closed c = (failed, c)
  listen_in connection_error c = (failed, c)

  unfoldable pub listen_channel : Channel H → ℤ × Channel H
  unfolding listen_in
  listen_channel c = listen_in c.runtime.connection_state c

  -- `get_connection_state` of a listening channel, on the registers that its configuration names.
  unfoldable pub poll_registers : Option Peripheral → Channel H → IoConnectionState × Channel H
  poll_registers none c = (connection_error, close_after_error c)
  poll_registers (some p) c =
      let (error, h1) = has_rx_error p c.hardware in
      let c1 = record c { hardware = h1 } in
      if error
      then (connection_error, close_after_error c1)
      else let (level, h2) = hw.rxffst p h1 in
        let c2 = record c { hardware = h2 } in
        if level != 0 then (connected, in_connection connected c2) else (listening, c2)

  unfoldable pub poll_listening : Option SciDescriptor → Channel H → IoConnectionState × Channel H
  unfolding poll_registers
  poll_listening none c = (connection_error, close_after_error c)
  poll_listening (some config) c = poll_registers (registers config.sci_module) c

  -- The `switch` of `get_connection_state`.
  unfoldable pub connection_state_in : IoConnectionState → Channel H → IoConnectionState × Channel H
  unfolding poll_listening
  connection_state_in closed c = (closed, c)
  connection_state_in open_ c = (open_, c)
  connection_state_in connected c = (connected, c)
  connection_state_in listening c = poll_listening c.hardware_config c
  connection_state_in peer_closed c = (connection_error, close_after_error c)
  connection_state_in connection_error c = (connection_error, close_after_error c)

  unfoldable pub get_connection_state : Channel H → IoConnectionState × Channel H
  unfolding connection_state_in
  get_connection_state c = connection_state_in c.runtime.connection_state c

  abbrev pub is_closed : IoConnectionState → Bool
  is_closed closed = true
  is_closed open_ = false
  is_closed listening = false
  is_closed connected = false
  is_closed peer_closed = false
  is_closed connection_error = false

  unfoldable pub close_channel : Channel H → ℤ × Channel H
  close_channel c =
      let (result, c1) =
        if c.runtime.session_cleanup_done && is_closed c.runtime.connection_state
        then (pos 0, c)
        else session_cleanup c in
      (
        if is_negative result then failed else pos 1,
        record c1 {
          runtime = record c1.runtime { connection_state = closed; session_cleanup_done = true };
        },
      )
