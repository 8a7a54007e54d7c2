-- ===== src/Core/Simulated.antt =====
-- A simulated device and algorithm: concrete callbacks on which the Core is run, and which meet
-- the hypotheses of its theorems.
use dsp_sim_bridge.Common.{
  ℕ, zero, suc, ◌≡◌, ◌<◌, ◌⊎◌, ap, inl, arith, ◌+◌, ◌*◌, ◌/◌, refl, sym, inr, true, pos, List, [],
  ◌∷◌, ◌++◌, length, take, drop, take-append-drop, min, get_or,
}
use mathlib.Core.List.{append-nil}
use dsp_sim_bridge.Core.Types.{Config, Ops, Block, connected}
use dsp_sim_bridge.Core.Run.{zeroed}
use dsp_sim_bridge.Core.Lifecycle.Balance.{Counters}
use dsp_sim_bridge.Core.Transfer.{Source, Sink}

-- The words still to arrive, the words that left, how many words move in one call, the clock,
-- the input and output words of the algorithm, and how often it was started and stopped.
pub record Sim : Type 0 where
  pub inbox : List ℕ
  pub outbox : List ℕ
  pub chunk : ℕ
  pub clock : ℕ
  pub input : List ℕ
  pub output : List ℕ
  pub starts : ℕ
  pub stops : ℕ

abbrev pub moved : ℕ → Sim → ℕ
moved n w = min w.chunk (n / 2)

abbrev pub sim_ops : Ops Sim
sim_ops = record {
  channel_init = λ w. w;
  open_op = λ w. (pos 0, w);
  listen = λ w. (pos 0, w);
  get_connection_state = λ w. (connected, w);
  receive = λ n w.
      let words = take (moved n w) w.inbox in
      (pos (2 * length words), words, record w { inbox = drop (moved n w) w.inbox });
  send = λ tx at n w.
      (pos (2 * moved n w), record w { outbox = w.outbox ++ take (moved n w) (drop at tx) });
  close = λ w. (pos 1, w);
  reset_io = λ w. record w { input = []; output = [] };
  on_start = λ w. (pos 0, record w { starts = w.starts + 1 });
  decode_input = λ words w. record w { input = words };
  on_step = λ w. (pos 0, record w { output = get_or w.input 0 0 ∷ [] });
  encode_output = λ w. w.output;
  on_stop = λ w. record w { stops = w.stops + 1 };
  time_us = λ w. (w.clock, record w { clock = w.clock + 1 });
}

abbrev pub sim_source : Source sim_ops
sim_source = record {
  pending = λ w. w.inbox;
  receive_next = λ n w. inr (refl, sym (take-append-drop (moved n w) w.inbox));
  time_pending = λ w. refl;
}

-- None of the words, or some.
pub moved_words :
    (k : ℕ) (words : List ℕ) {sent base : List ℕ}
    → sent ≡ base
    → ((pos (2 * k) ≡ pos 0) × (sent ++ take k words ≡ base))
      ⊎ ((j : ℕ) × (pos (2 * k) ≡ pos (2 * j))
          × (0 < j)
          × (sent ++ take k words ≡ base ++ take j words))
moved_words zero words h = inl (refl, rw append-nil h)
moved_words (suc k) words h = inr (suc k, refl, omega arith, ap (λ l. l ++ take (suc k) words) h)

abbrev pub sim_sink : Sink sim_ops
sim_sink = record {
  IsIdle = λ base w. w.outbox ≡ base;
  Waits = λ base tx at n w. w.outbox ≡ base;
  idle_waits = λ base tx at n w h. h;
  time_idle = λ base w h. h;
  time_waits = λ base tx at n w h. h;
  send_next = λ base tx at n w fits h. inr (moved_words (moved n w) (drop at tx) h);
}

abbrev pub sim_counters : Counters sim_ops
sim_counters = record {
  starts = λ w. w.starts;
  stops = λ w. w.stops;
  init_counts = λ w. (refl, refl);
  open_counts = λ w. (refl, refl);
  listen_counts = λ w. (refl, refl);
  connection_counts = λ w. (refl, refl);
  receive_counts = λ n w. (refl, refl);
  send_counts = λ tx at n w. (refl, refl);
  close_counts = λ w. (refl, refl);
  reset_counts = λ w. (refl, refl);
  decode_counts = λ words w. (refl, refl);
  step_counts = λ w. (refl, refl);
  time_counts = λ w. (refl, refl);
  start_counts = λ w. (refl, refl);
  stop_counts = λ w. (refl, refl);
}

-- The sizes, version, hash and timeouts of `sample_config` in dsp/src/c2837x_block_config.c.
abbrev pub sample_config : Config
sample_config = record {
  config_set = true;
  iodevice_ops_set = true;
  iodevice_channel_set = true;
  rx_frame_words_set = true;
  tx_frame_words_set = true;
  input_object_set = true;
  output_object_set = true;
  algorithm_set = true;
  time_us_set = true;
  ops_set = record {
    channel_init = true;
    open_op = true;
    listen = true;
    get_connection_state = true;
    receive = true;
    send = true;
    close = true;
  };
  adapter_set = record {
    reset_io = true;
    on_start = true;
    decode_input = true;
    on_step = true;
    encode_output = true;
    on_stop = true;
  };
  rx_frame_capacity_octets = 14;
  tx_frame_capacity_octets = 10;
  protocol_version = 1;
  interface_hash = 0x12345678;
  input_payload_octets = 10;
  output_payload_octets = 6;
  max_payload_octets = 1024;
  interaction_timeout_us = 5_000_000;
  transfer_timeout_us = 1_000_000;
}

-- An instance as the program starts, with words to come and a number of words moved per call.
abbrev pub sample : List ℕ → ℕ → Block Sim
sample inbox chunk = record {
  config = sample_config;
  runtime = zeroed;
  rx_frame_words = 0 ∷ 0 ∷ 0 ∷ 0 ∷ 0 ∷ 0 ∷ 0 ∷ [];
  tx_frame_words = 0 ∷ 0 ∷ 0 ∷ 0 ∷ 0 ∷ [];
  world = record {
    inbox = inbox;
    outbox = [];
    chunk = chunk;
    clock = 0;
    input = [];
    output = [];
    starts = 0;
    stops = 0;
  };
}
