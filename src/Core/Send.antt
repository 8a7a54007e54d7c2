-- ===== src/Core/Send.antt =====
-- Sending a frame: `c2837x_block_finish_sending` and `c2837x_block_service_sending` of
-- dsp/src/c2837x_block.c.
use dsp_sim_bridge.Common.{
  ℕ, ◌/◌, ◌||◌, ℤ, pos, negsuc, ltb, ◌==◌, is_odd, if◌then◌else◌, add32, sub32,
}
use dsp_sim_bridge.Core.Types.{
  TxDoneAction, Ops, Block, tx_done_close, tx_done_enter_sim_running, tx_done_receive_next,
  tx_done_advance_step, wait_interaction, sim_running, terminate_error, iodevice, timeout,
}
use dsp_sim_bridge.Core.Session.{timeout_expired, start_receiving, terminate_session, fail_session}
use dsp_sim_bridge.Core.Receive.{stamp_progress}

module _ {W : Type 0} (ops : Ops W) where
  -- The `if` chain of `c2837x_block_finish_sending` on the saved action.
  unfoldable pub finish_action : TxDoneAction → ℕ → Block W → Block W
  finish_action tx_done_enter_sim_running now_us b =
      start_receiving wait_interaction now_us (record b {
        runtime = record b.runtime { protocol_phase = sim_running; expected_step_index = 0 };
      })
  finish_action tx_done_receive_next now_us b = start_receiving wait_interaction now_us b
  finish_action tx_done_advance_step now_us b = start_receiving wait_interaction now_us (record b {
    runtime = record b.runtime { expected_step_index = add32 b.runtime.expected_step_index 1 };
  })
  finish_action tx_done_close now_us b = terminate_session ops terminate_error b

  unfoldable pub finish_sending : ℕ → Block W → Block W
  finish_sending now_us b =
      finish_action b.runtime.tx_done_action now_us
        (record b { runtime = record b.runtime { tx_done_action = tx_done_close } })

  -- The branch `sent_octets == 0`.
  unfoldable pub send_nothing : Block W → Block W
  send_nothing b =
      let (expired, b1) =
        timeout_expired ops b.runtime.progress_start_us b.config.transfer_timeout_us b in
      if expired then fail_session ops timeout b1 else b1

  -- The last test of `c2837x_block_service_sending`.
  unfoldable pub check_sent : Block W → Block W
  check_sent b =
      if b.runtime.tx_sent_octets == b.runtime.tx_total_octets
      then finish_sending b.runtime.progress_start_us b
      else b

  unfoldable pub confirm_octets : ℕ → Block W → Block W
  confirm_octets sent b = check_sent (
      stamp_progress ops (record b {
        runtime = record b.runtime { tx_sent_octets = add32 b.runtime.tx_sent_octets sent };
      }))

  -- What follows the call of `send`, by its result.
  unfoldable pub send_result : ℤ → ℕ → Block W → Block W
  send_result (negsuc n) remaining b = fail_session ops iodevice b
  send_result (pos n) remaining b =
      if n == 0
      then send_nothing b
      else if is_odd n || ltb remaining n
      then fail_session ops iodevice b
      else confirm_octets n b

  unfoldable pub service_sending : Block W → Block W
  service_sending b =
      let remaining = sub32 b.runtime.tx_total_octets b.runtime.tx_sent_octets in
      let (sent, w) = ops.send b.tx_frame_words (b.runtime.tx_sent_octets / 2) remaining b.world in
      send_result sent remaining (record b { world = w })
