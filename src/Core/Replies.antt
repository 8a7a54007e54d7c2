-- ===== src/Core/Replies.antt =====
-- What the Core answers to the PC: `c2837x_block_handle_sim_start` and
-- `c2837x_block_handle_input_data` of dsp/src/c2837x_block.c against the reply that each is due.
use dsp_sim_bridge.Common.{
  ℕ, ◌≡◌, refl, ap, ◌∙◌, eq→==, arith, Bool, true, false, List, [], ◌∷◌, ◌!=◌, is_zero,
  if◌then◌else◌, if_intro, if_both, get_or, get_or-drop, drop, sym, join_words, low_word, high_word,
  write_at, add32, ℤ,
}
use dsp_sim_bridge.Wire.{
  build_response, err_ok, err_internal, err_step_index, err_protocol_version, err_config_mismatch,
}
use dsp_sim_bridge.Wire.Frames.{build_response_octets}
use dsp_sim_bridge.Core.Types.{
  State, ProtocolPhase, Error, Ops, Block, sending, receiving, wait_connection, wait_sim_start,
  sim_running, protocol, algorithm_start, algorithm_step, tx_done_close, terminate_error,
}
use dsp_sim_bridge.Core.Session.{
  latch_error, start_sending, start_receiving, start_error_response, stop_algorithm,
  terminate_session,
}
use dsp_sim_bridge.Core.Send.{check_sent, finish_sending, finish_action}
use dsp_sim_bridge.Core.Receive.{is_waiting}
use dsp_sim_bridge.Core.Frame.{
  start_simulation, handle_sim_start, output_frame, simulate_step, handle_input_data,
}

-- Where an instance stands when its reply has left.
pub record Outcome : Type 0 where
  pub state : State
  pub protocol_phase : ProtocolPhase
  pub expected_step_index : ℕ
  pub close_pending : Bool
  pub started : Bool

-- A reply: the transmit frame, its octets, whether the algorithm is started by then, and where the
-- instance stands when the last octet was confirmed.
pub record Reply : Type 0 where
  pub frame : List ℕ
  pub octets_ : ℕ
  pub started : Bool
  pub outcome : Outcome

-- The session is over: it waits to be closed, and the algorithm is stopped.
abbrev pub session_over : Outcome
session_over = record {
  state = wait_connection;
  protocol_phase = wait_sim_start;
  expected_step_index = 0;
  close_pending = true;
  started = false;
}

index_expected : (i j : ℕ) → (i != j) ≡ false → i ≡ j
index_expected i j f = ground arith

-- A RESPONSE frame: the type 5, two octets, the error code.
response_words :
    (tx : List ℕ) (code : ℕ) → (build_response tx code).0 ≡ write_at 0 (5 ∷ 2 ∷ code ∷ []) tx
unfolding build_response
response_words [] code = refl
response_words (x ∷ []) code = refl
response_words (x ∷ y ∷ []) code = refl
response_words (x ∷ y ∷ z ∷ tx) code = refl

module _ {W : Type 0} (ops : Ops W) where
  -- The last octet of what is sent was confirmed, and the clock and the world are these.
  abbrev pub all_confirmed : ℕ → W → Block W → Block W
  all_confirmed now_us w b = record b {
    runtime = record b.runtime {
      tx_sent_octets = b.runtime.tx_total_octets;
      progress_start_us = now_us;
    };
    world = w;
  }

  pub record IsAt (outcome : Outcome) (b : Block W) : Type 0 where
    pub state : b.runtime.state ≡ outcome.state
    pub protocol_phase : b.runtime.protocol_phase ≡ outcome.protocol_phase
    pub expected_step_index : b.runtime.expected_step_index ≡ outcome.expected_step_index
    pub close_pending : b.runtime.close_pending ≡ outcome.close_pending
    pub started : b.runtime.algorithm_started ≡ outcome.started

  -- The instance begins to send this reply; and where it stands when the reply has left.
  pub record IsReplying (reply : Reply) (after : Block W) : Type 0 where
    pub state : after.runtime.state ≡ sending
    pub frame : after.tx_frame_words ≡ reply.frame
    pub total : after.runtime.tx_total_octets ≡ reply.octets_
    pub unsent : after.runtime.tx_sent_octets ≡ 0
    pub started : after.runtime.algorithm_started ≡ reply.started
    pub left :
        (now_us : ℕ) (w : W) → IsAt reply.outcome (check_sent ops (all_confirmed now_us w after))

  check_sent-all_confirmed :
      (now_us : ℕ) (w : W) (b : Block W)
      → check_sent ops (all_confirmed now_us w b)
        ≡ finish_sending ops now_us (all_confirmed now_us w b)
  unfolding check_sent
  check_sent-all_confirmed now_us w b =
      rw (eq→== b.runtime.tx_total_octets b.runtime.tx_total_octets refl) refl

  algorithm_started-stop_algorithm :
      (b : Block W) → (stop_algorithm ops b).runtime.algorithm_started ≡ false
  unfolding stop_algorithm
  algorithm_started-stop_algorithm b = ground arith

  terminate_session-IsAt :
      (b : Block W) → IsAt session_over (terminate_session ops terminate_error b)
  unfolding terminate_session
  terminate_session-IsAt b = record {
    state = refl;
    protocol_phase = refl;
    expected_step_index = refl;
    close_pending = refl;
    started = algorithm_started-stop_algorithm b;
  }

  closing-IsAt :
      (now_us : ℕ) (w : W) (b : Block W)
      → b.runtime.tx_done_action ≡ tx_done_close
      → IsAt session_over (check_sent ops (all_confirmed now_us w b))
  unfolding finish_sending finish_action
  closing-IsAt now_us w b e =
      let b1 = all_confirmed now_us w b in
      rw (check_sent-all_confirmed now_us w b) (
        rw e (
          terminate_session-IsAt
            (record b1 { runtime = record b1.runtime { tx_done_action = tx_done_close } })))

module _ {W : Type 0} where
  -- A RESPONSE frame with an error code, after which the session is closed.
  abbrev pub refusal : ℕ → Block W → Reply
  refusal code b = record {
    frame = write_at 0 (5 ∷ 2 ∷ code ∷ []) b.tx_frame_words;
    octets_ = 6;
    started = b.runtime.algorithm_started;
    outcome = session_over;
  }

  -- RESPONSE(0), after which the simulation runs from step 0.
  abbrev pub acceptance : Block W → Reply
  acceptance b = record {
    frame = write_at 0 (5 ∷ 2 ∷ 0 ∷ []) b.tx_frame_words;
    octets_ = 6;
    started = true;
    outcome = record {
      state = receiving;
      protocol_phase = sim_running;
      expected_step_index = 0;
      close_pending = b.runtime.close_pending;
      started = true;
    };
  }

  -- The version and hash that a SIM_START frame carries.
  abbrev pub offered_version : Block W → ℕ
  offered_version b = get_or b.rx_frame_words 2 0

  abbrev pub offered_hash : Block W → ℕ
  offered_hash b = join_words (get_or b.rx_frame_words 3 0) (get_or b.rx_frame_words 4 0)

  abbrev pub offered_step : Block W → ℕ
  offered_step b = join_words (get_or b.rx_frame_words 2 0) (get_or b.rx_frame_words 3 0)

  latch_error-same :
      (e : Error) (b : Block W)
      → ((latch_error e b).tx_frame_words ≡ b.tx_frame_words)
        × ((latch_error e b).runtime.algorithm_started ≡ b.runtime.algorithm_started)
  unfolding latch_error
  latch_error-same e b =
      if_intro
        (λ (b' : Block W).
          (b'.tx_frame_words ≡ b.tx_frame_words)
          × (b'.runtime.algorithm_started ≡ b.runtime.algorithm_started))
        b.runtime.primary_error_latched (λ _. (refl, refl)) (λ _. (refl, refl))

module _ {W : Type 0} (ops : Ops W) where
  start_error_response-IsReplying :
      (e : Error) (code : ℕ) (b : Block W)
      → IsReplying ops (refusal code b) (start_error_response ops e code b)
  unfolding start_error_response start_sending
  start_error_response-IsReplying e code b = record {
    state = refl;
    frame =
        response_words (latch_error e b).tx_frame_words code
        ∙ ap (λ tx. write_at 0 (5 ∷ 2 ∷ code ∷ []) tx) (latch_error-same e b).0;
    total = build_response_octets (latch_error e b).tx_frame_words code;
    unsent = refl;
    started = (latch_error-same e b).1;
    left = λ now_us w. closing-IsAt ops now_us w (start_error_response ops e code b) refl;
  }

  -- The reply that a SIM_START is due: version, hash and `on_start` are looked at in this order.
  abbrev pub handshake_reply : Block W → Reply
  handshake_reply b =
      if offered_version b != b.config.protocol_version
      then refusal 6 b
      else if offered_hash b != b.config.interface_hash
      then refusal 3 b
      else if is_zero (ops.on_start b.world).0
      then acceptance b
      else refusal 5 b

  start_simulation-IsReplying :
      (b : Block W)
      → IsReplying ops
          (if is_zero (ops.on_start b.world).0 then acceptance b else refusal 5 b)
          (start_simulation ops b)
  unfolding start_simulation start_sending finish_sending finish_action start_receiving
  start_simulation-IsReplying b =
      if_both (IsReplying ops) (is_zero (ops.on_start b.world).0)
        (λ _. record {
          state = refl;
          frame = response_words b.tx_frame_words 0;
          total = build_response_octets b.tx_frame_words err_ok;
          unsent = refl;
          started = refl;
          left = λ now_us w. rw (check_sent-all_confirmed ops now_us w _) (record {
            state = refl;
            protocol_phase = refl;
            expected_step_index = refl;
            close_pending = refl;
            started = refl;
          });
        })
        (λ _.
          start_error_response-IsReplying algorithm_start err_internal
            (record b { world = (ops.on_start b.world).1 }))

  -- In a session that waits for SIM_START, that frame is answered at once with a RESPONSE: code 6 for
  -- a wrong version, else 3 for a wrong hash, else 5 for an algorithm that does not start; when that has
  -- left, the session is over, waits to be closed, and the algorithm is stopped. Else the code is 0, the
  -- algorithm is started, and when the reply has left, the instance receives, the simulation runs and
  -- step 0 is expected.
  pub handle_sim_start-IsReplying :
      (b : Block W)
      → is_waiting b.runtime.protocol_phase ≡ true
      → IsReplying ops (handshake_reply b) (handle_sim_start ops b)
  unfolding handle_sim_start
  handle_sim_start-IsReplying b waiting =
      rw
        (
          sym (get_or-drop 2 0 b.rx_frame_words 0),
          sym (get_or-drop 2 1 b.rx_frame_words 0),
          sym (get_or-drop 2 2 b.rx_frame_words 0),
          waiting,
        )
        (let payload = drop 2 b.rx_frame_words in
          if_both (IsReplying ops) (get_or payload 0 0 != b.config.protocol_version)
            (λ _. start_error_response-IsReplying protocol err_protocol_version b)
            (λ _.
              if_both (IsReplying ops)
                (join_words (get_or payload 1 0) (get_or payload 2 0) != b.config.interface_hash)
                (λ _. start_error_response-IsReplying protocol err_config_mismatch b)
                (λ _. start_simulation-IsReplying b)))

  -- The world after the input of a step was decoded and the algorithm was called.
  abbrev pub stepped : Block W → ℤ × W
  stepped b = ops.on_step (ops.decode_input (drop 4 b.rx_frame_words) b.world)

  -- The reply that an INPUT_DATA is due: its step index, then the result of `on_step`.
  abbrev pub step_reply : Block W → Reply
  step_reply b =
      if offered_step b != b.runtime.expected_step_index
      then refusal 7 b
      else if is_zero (stepped b).0
      then record {
        frame = write_at 4 (ops.encode_output (stepped b).1) (
            write_at 0
              (3
                ∷ b.config.output_payload_octets
                ∷ low_word b.runtime.expected_step_index
                ∷ high_word b.runtime.expected_step_index
                ∷ [])
              b.tx_frame_words);
        octets_ = add32 4 b.config.output_payload_octets;
        started = b.runtime.algorithm_started;
        outcome = record {
          state = receiving;
          protocol_phase = b.runtime.protocol_phase;
          expected_step_index = add32 b.runtime.expected_step_index 1;
          close_pending = b.runtime.close_pending;
          started = b.runtime.algorithm_started;
        };
      }
      else refusal 5 b

  -- An INPUT_DATA frame is answered at once: with RESPONSE code 7 for a wrong step index, or 5 for a
  -- failing step, and when that has left, the session is over, waits to be closed, and the algorithm is
  -- stopped; else with the expected step index and the output of the algorithm for this input, and when
  -- that has left, the instance receives and the next step index is expected.
  pub handle_input_data-IsReplying :
      (b : Block W) → IsReplying ops (step_reply b) (handle_input_data ops b)
  unfolding handle_input_data simulate_step start_sending output_frame finish_sending finish_action
      start_receiving
  handle_input_data-IsReplying b =
      rw (sym (get_or-drop 2 0 b.rx_frame_words 0), sym (get_or-drop 2 1 b.rx_frame_words 0))
        (let payload = drop 2 b.rx_frame_words in
          let index = join_words (get_or payload 0 0) (get_or payload 1 0) in
          if_both (IsReplying ops) (index != b.runtime.expected_step_index)
            (λ _. start_error_response-IsReplying protocol err_step_index b)
            (λ f.
              if_both (IsReplying ops) (is_zero (stepped b).0)
                (λ _. record {
                  state = refl;
                  frame =
                      ap
                        (λ i. write_at 4 (ops.encode_output (stepped b).1) (
                          write_at 0
                            (3 ∷ b.config.output_payload_octets ∷ low_word i ∷ high_word i ∷ [])
                            b.tx_frame_words))
                        (index_expected index b.runtime.expected_step_index f);
                  total = refl;
                  unsent = refl;
                  started = refl;
                  left = λ now_us w. rw (check_sent-all_confirmed ops now_us w _) (record {
                    state = refl;
                    protocol_phase = refl;
                    expected_step_index = refl;
                    close_pending = refl;
                    started = refl;
                  });
                })
                (λ _.
                  start_error_response-IsReplying algorithm_step err_internal
                    (record b { world = (stepped b).1 }))))
