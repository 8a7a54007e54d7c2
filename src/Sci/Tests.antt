-- ===== src/Sci/Tests.antt =====
-- Runs of the SCI transport on a simulated port, and concrete instances of its theorems.
use dsp_sim_bridge.Common.{ℕ, zero, suc, ◌≡◌, refl, true, some, List, [], ◌∷◌, ◌++◌, arith, take}
use dsp_sim_bridge.Sci.Types.{Channel, scib}
use dsp_sim_bridge.Sci.Receive.{receive}
use dsp_sim_bridge.Sci.Send.{
  pending_mismatch, pending_corrupt, ctrl_inconsistent, octet_at, queue_octets, write_octets,
  send_connected, send_configured, send_registers, begin_pending, make_pending, advance_pending,
  confirm_pending, fill_fifo, send,
}
use dsp_sim_bridge.Sci.Session.{
  has_rx_error, drive_ctrl, ctrl_rx_level, ctrl_tx_level, clear_tx_pending,
}
use dsp_sim_bridge.Sci.Delivered.{wire_octets}
use dsp_sim_bridge.Sci.Conserved.{IsConserved}
use dsp_sim_bridge.Sci.Refinement.{registered_stream, receive-IsConserved}
use dsp_sim_bridge.Sci.Sent.{Confirmed, confirmed, waited, frame_sent}
use dsp_sim_bridge.Sci.Simulated.{
  Port, port_hardware, port_inlet, port_outlet, sample_descriptor, sample_channel,
}

-- Five octets are ready: two words, and the last octet is staged.
receive_test : (receive port_hardware true 64 sample_channel).1 ≡ 0x0201 ∷ 0x0403 ∷ []
unfolding receive has_rx_error
receive_test = refl

receive-IsConserved_example :
    IsConserved
      (registered_stream port_inlet (some scib))
      64
      (1 ∷ 2 ∷ 3 ∷ 4 ∷ 5 ∷ [])
      (receive port_hardware true 64 sample_channel)
receive-IsConserved_example = receive-IsConserved port_inlet true 64 sample_channel

abbrev sample_frame : List ℕ
sample_frame = 7 ∷ 0x0201 ∷ 0x0403 ∷ 3 ∷ 4 ∷ 5 ∷ 6 ∷ 7 ∷ 8 ∷ 9 ∷ 10 ∷ []

abbrev after : Channel Port → Channel Port
after c = (send port_hardware sample_frame (some 1) 20 c).1

abbrev after_calls : ℕ → Channel Port
after_calls zero = sample_channel
after_calls (suc n) = after (after_calls n)

-- The first call drives the pin; the second fills the FIFO with 16 octets; the third finds it full;
-- the fourth finds room for the other 4; the next two find that it has not drained, and the seventh
-- that the last octet has not left; the eighth confirms.
sample-Confirmed : Confirmed port_hardware sample_frame 1 20 sample_channel (after_calls 8)
unfolding send pending_mismatch pending_corrupt ctrl_inconsistent octet_at queue_octets write_octets
    send_connected send_configured send_registers begin_pending make_pending advance_pending
    confirm_pending fill_fifo drive_ctrl ctrl_rx_level ctrl_tx_level clear_tx_pending
sample-Confirmed = waited (after_calls 0) refl (
    waited (after_calls 1) refl (
      waited (after_calls 2) refl (
        waited (after_calls 3) refl (
          waited (after_calls 4) refl (
            waited (after_calls 5) refl
              (waited (after_calls 6) refl (confirmed (after_calls 7) refl)))))))

frame_sent_example : (after_calls 8).hardware.written ≡ [] ++ take 20 (wire_octets sample_frame 1)
frame_sent_example =
    frame_sent (port_outlet scib) sample_descriptor refl sample_frame 1 20 (omega arith)
      (omega arith) (omega arith) refl refl sample-Confirmed
