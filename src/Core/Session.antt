-- ===== src/Core/Session.antt =====
-- The small operations of dsp/src/c2837x_block.c that the services share: latching an error,
-- timeouts, resetting, starting to receive or to send, ending the session.
use dsp_sim_bridge.Common.{ℕ, Bool, true, false, leb, sub32, if◌then◌else◌}
use dsp_sim_bridge.Wire.{err_ok, build_response}
use dsp_sim_bridge.Core.Types.{
  Error, WaitKind, TxDoneAction, TerminationKind, Ops, Block, rx_header, tx_done_close, receiving,
  sending, wait_connection, wait_sim_start, terminate_normal, terminate_error,
}

module _ {W : Type 0} where
  unfoldable pub latch_error : Error → Block W → Block W
  latch_error error b = if b.runtime.primary_error_latched then b else record b {
    runtime = record b.runtime { last_error = error; primary_error_latched = true };
  }

  unfoldable pub reset_rx : Block W → Block W
  reset_rx b = record b {
    runtime = record b.runtime {
      rx_phase = rx_header;
      rx_header_received_octets = 0;
      rx_msg_type = 0;
      rx_payload_length_octets = 0;
      rx_payload_received_octets = 0;
    };
  }

  unfoldable pub reset_tx : Block W → Block W
  reset_tx b = record b {
    runtime = record b.runtime {
      tx_total_octets = 0;
      tx_sent_octets = 0;
      response_error = err_ok;
      tx_done_action = tx_done_close;
    };
  }

  unfoldable pub start_receiving : WaitKind → ℕ → Block W → Block W
  unfolding reset_rx
  start_receiving wait_kind start_us b =
      let b1 = reset_rx b in
      record b1 {
        runtime = record b1.runtime {
          receive_wait_kind = wait_kind;
          progress_start_us = start_us;
          state = receiving;
        };
      }

module _ {W : Type 0} (ops : Ops W) where
  -- Whether the time is up, and the block after the clock was read.
  unfoldable pub timeout_expired : ℕ → ℕ → Block W → Bool × Block W
  timeout_expired start_us timeout_us b =
      let (now_us, w) = ops.time_us b.world in
      (leb timeout_us (sub32 now_us start_us), record b { world = w })

  unfoldable pub start_sending : ℕ → TxDoneAction → Block W → Block W
  start_sending total_octets action b =
      let (now_us, w) = ops.time_us b.world in
      record b {
        runtime = record b.runtime {
          tx_total_octets = total_octets;
          tx_sent_octets = 0;
          tx_done_action = action;
          progress_start_us = now_us;
          state = sending;
        };
        world = w;
      }

  -- `on_stop` is called only if the algorithm was started.
  unfoldable pub stop_algorithm : Block W → Block W
  stop_algorithm b =
      if b.runtime.algorithm_started
      then record b {
        runtime = record b.runtime { algorithm_started = false };
        world = ops.on_stop b.world;
      }
      else b

  abbrev is_normal : TerminationKind → Bool
  is_normal terminate_normal = true
  is_normal terminate_error = false

  unfoldable pub terminate_session : TerminationKind → Block W → Block W
  unfolding stop_algorithm reset_rx reset_tx
  terminate_session kind b =
      let b1 = stop_algorithm b in
      let b2 = reset_tx (reset_rx (record b1 { world = ops.reset_io b1.world })) in
      record b2 {
        runtime = record b2.runtime {
          protocol_phase = wait_sim_start;
          expected_step_index = 0;
          close_pending = true;
          normal_end_pending = is_normal kind;
          state = wait_connection;
        };
      }

  -- The ending that several services share: record the error, then end the session.
  unfoldable pub fail_session : Error → Block W → Block W
  unfolding latch_error terminate_session
  fail_session error b = terminate_session terminate_error (latch_error error b)

  unfoldable pub start_error_response : Error → ℕ → Block W → Block W
  unfolding latch_error start_sending
  start_error_response primary_error wire_error b =
      let b1 = latch_error primary_error b in
      let (tx, frame_octets) = build_response b1.tx_frame_words wire_error in
      start_sending frame_octets tx_done_close (record b1 {
        runtime = record b1.runtime { response_error = wire_error };
        tx_frame_words = tx;
      })
