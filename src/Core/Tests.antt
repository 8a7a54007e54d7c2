-- ===== src/Core/Tests.antt =====
-- The Core run on the simulated device, and its theorems at those runs.
use dsp_sim_bridge.Common.{ℕ, ◌+◌, ◌/◌, ◌≡◌, refl, true, false, List, [], ◌∷◌, ◌++◌, arith, take}
use dsp_sim_bridge.Core.Types.{
  Block, wait_connection, receiving, sim_running, wait_sim_start, error_none,
}
use dsp_sim_bridge.Core.Config.{config_is_valid}
use dsp_sim_bridge.Core.Run.{init, run, run_times, executed}
use dsp_sim_bridge.Core.Invariant.{InRange, IsValid}
use dsp_sim_bridge.Core.Invariant.Accepted.{IsAccepted, config_is_valid_iff}
use dsp_sim_bridge.Core.Invariant.Preserved.{init-run_times-IsValid}
use dsp_sim_bridge.Core.Invariant.Bounds.{IsAsked, IsGiven, receive_in_bounds, send_in_bounds}
use dsp_sim_bridge.Core.Lifecycle.Balance.{as_number, starts-stops_paired}
use dsp_sim_bridge.Core.Transfer.Reassembly.{Fed, frame_reassembled}
use dsp_sim_bridge.Core.Transfer.Transmission.{Drained, frame_delivered}
use dsp_sim_bridge.Core.Receive.{service_receiving}
use dsp_sim_bridge.Core.Send.{service_sending}
use dsp_sim_bridge.Core.Timeout.{
  IsTimedOut, service_receiving-IsTimedOut, service_sending-IsTimedOut,
}
use dsp_sim_bridge.Core.Frame.{handle_sim_start, handle_input_data}
use dsp_sim_bridge.Core.Replies.{
  IsReplying, handle_sim_start-IsReplying, handle_input_data-IsReplying,
}
use dsp_sim_bridge.Core.Simulated.{
  Sim, sim_ops, sim_source, sim_sink, sim_counters, sample_config, sample,
}

-- SIM_START with the right version and hash, one INPUT_DATA with step index 0, and SIM_STOP.
abbrev session : List ℕ
session = 1 ∷ 6 ∷ 1 ∷ 0x5678 ∷ 0x1234 ∷ 2 ∷ 10 ∷ 0 ∷ 0 ∷ 7 ∷ 8 ∷ 9 ∷ 4 ∷ 0 ∷ []

sample_config-InRange : InRange sample_config
sample_config-InRange = omega arith

config-accepted : config_is_valid sample_config ≡ true
unfolding executed
config-accepted = refl

-- The whole session, with one word moved in each call: two replies leave, RESPONSE(0) and
-- OUTPUT_DATA, the algorithm is started and stopped once, and no error remains.
session_runs :
    let b = run_times sim_ops 27 (init sim_ops (sample session 1)) in
    (b.world.outbox ≡ 5 ∷ 2 ∷ 0 ∷ 3 ∷ 6 ∷ 0 ∷ 0 ∷ 7 ∷ [])
    × (b.world.starts ≡ 1)
    × (b.world.stops ≡ 1)
    × (b.runtime.state ≡ wait_connection)
    × (b.runtime.last_error ≡ error_none)
unfolding executed
session_runs = (refl, refl, refl, refl, refl)

config_is_valid_iff_example : IsAccepted sample_config
config_is_valid_iff_example =
    (config_is_valid_iff sample_config sample_config-InRange).0 config-accepted

init-run_times-IsValid_example : IsValid (run_times sim_ops 12 (init sim_ops (sample session 1)))
init-run_times-IsValid_example =
    init-run_times-IsValid sim_ops 12 (sample session 1) sample_config-InRange config-accepted
      (omega arith) (omega arith)

-- Accepted, with no octet received yet.
abbrev listening_block : Block Sim
unfolding executed
listening_block = run_times sim_ops 1 (init sim_ops (sample session 2))

listening_block-IsValid : IsValid listening_block
unfolding executed
listening_block-IsValid =
    init-run_times-IsValid sim_ops 1 (sample session 2) sample_config-InRange config-accepted
      (omega arith) (omega arith)

receive_in_bounds_example :
    IsAsked sim_ops listening_block (service_receiving sim_ops listening_block)
unfolding executed
receive_in_bounds_example = receive_in_bounds sim_ops listening_block listening_block-IsValid refl

-- The first reply, ready to be sent.
abbrev replying_block : Block Sim
unfolding executed
replying_block = run_times sim_ops 5 (init sim_ops (sample session 2))

replying_block-IsValid : IsValid replying_block
unfolding executed
replying_block-IsValid =
    init-run_times-IsValid sim_ops 5 (sample session 2) sample_config-InRange config-accepted
      (omega arith) (omega arith)

send_in_bounds_example : IsGiven sim_ops replying_block (service_sending sim_ops replying_block)
unfolding executed
send_in_bounds_example = send_in_bounds sim_ops replying_block replying_block-IsValid refl

starts-stops_paired_example :
    let b = run_times sim_ops 12 (init sim_ops (sample session 1)) in
    b.world.starts ≡ b.world.stops + as_number b.runtime.algorithm_started
starts-stops_paired_example =
    starts-stops_paired sim_counters 12 (sample session 1) sample_config-InRange config-accepted
      (omega arith) (omega arith) refl

first_frame-Fed : Fed sim_ops listening_block (run_times sim_ops 3 listening_block)
unfolding executed
first_frame-Fed = Fed.more listening_block refl (
    Fed.more (run sim_ops listening_block) refl (
      Fed.more (run_times sim_ops 2 listening_block) refl
        (Fed.done (run_times sim_ops 3 listening_block))))

frame_reassembled_example :
    let b = run_times sim_ops 3 listening_block in
    take ((4 + b.runtime.rx_payload_length_octets) / 2) b.rx_frame_words ++ b.world.inbox ≡ session
unfolding executed
frame_reassembled_example =
    frame_reassembled sim_source listening_block-IsValid refl first_frame-Fed refl

reply-Drained : Drained sim_ops replying_block (run_times sim_ops 2 replying_block)
unfolding executed
reply-Drained = Drained.more replying_block refl (
    Drained.more (run sim_ops replying_block) refl
      (Drained.done (run_times sim_ops 2 replying_block)))

frame_delivered_example :
    (run_times sim_ops 2 replying_block).world.outbox
    ≡ [] ++ take (6 / 2) replying_block.tx_frame_words
unfolding executed
frame_delivered_example =
    frame_delivered sim_sink [] replying_block-IsValid refl refl refl reply-Drained refl

-- A receiving and a sending instance, with a device that moves nothing, after a long time.
abbrev silent_receiving : Block Sim
unfolding executed
silent_receiving =
    let b = run_times sim_ops 1 (init sim_ops (sample [] 2)) in
    record b { world = record b.world { clock = 6_000_000 } }

service_receiving-IsTimedOut_example :
    IsTimedOut sim_ops true silent_receiving (service_receiving sim_ops silent_receiving)
unfolding executed
service_receiving-IsTimedOut_example =
    service_receiving-IsTimedOut sim_ops silent_receiving 6_000_000 (omega arith) (omega arith) refl
      refl

abbrev silent_sending : Block Sim
unfolding executed
silent_sending = record replying_block {
  world = record replying_block.world { chunk = 0; clock = 2_000_000 };
}

service_sending-IsTimedOut_example :
    IsTimedOut sim_ops true silent_sending (service_sending sim_ops silent_sending)
unfolding executed
service_sending-IsTimedOut_example =
    service_sending-IsTimedOut sim_ops silent_sending 1999996 (omega arith) (omega arith) refl refl

-- A SIM_START frame that has arrived, and an INPUT_DATA frame with step index 0.
abbrev started_frame : Block Sim
unfolding executed
started_frame = run_times sim_ops 4 (init sim_ops (sample session 2))

handle_sim_start-IsReplying_example :
    IsReplying sim_ops
      (record {
        frame = 5 ∷ 2 ∷ 0 ∷ 0 ∷ 0 ∷ [];
        octets_ = 6;
        started = true;
        outcome = record {
          state = receiving;
          protocol_phase = sim_running;
          expected_step_index = 0;
          close_pending = false;
          started = true;
        };
      })
      (handle_sim_start sim_ops started_frame)
unfolding executed
handle_sim_start-IsReplying_example = handle_sim_start-IsReplying sim_ops started_frame refl

abbrev input_frame : Block Sim
unfolding executed
input_frame = record (sample session 2) { rx_frame_words = 2 ∷ 10 ∷ 0 ∷ 0 ∷ 7 ∷ 8 ∷ 9 ∷ [] }

handle_input_data-IsReplying_example :
    IsReplying sim_ops
      (record {
        frame = 3 ∷ 6 ∷ 0 ∷ 0 ∷ 7 ∷ [];
        octets_ = 10;
        started = false;
        outcome = record {
          state = receiving;
          protocol_phase = wait_sim_start;
          expected_step_index = 1;
          close_pending = false;
          started = false;
        };
      })
      (handle_input_data sim_ops input_frame)
unfolding executed
handle_input_data-IsReplying_example = handle_input_data-IsReplying sim_ops input_frame
