-- ===== src/Core/Lifecycle/Balance.antt =====
-- `on_start` and `on_stop` come in pairs.
use dsp_sim_bridge.Common.{
  ℕ, ◌+◌, ◌*◌, ◌≤◌, ◌≡◌, Bool, true, false, List, arith, is_zero, length, if◌then◌else◌,
}
use dsp_sim_bridge.Core.Types.{Ops, Block}
use dsp_sim_bridge.Core.Config.{config_is_valid}
use dsp_sim_bridge.Core.Run.{init, run_times}
use dsp_sim_bridge.Core.Invariant.{InRange}
use dsp_sim_bridge.Core.Invariant.Preserved.{init-IsValid}
use dsp_sim_bridge.Core.Lifecycle.{Keeps, Holds}
use dsp_sim_bridge.Core.Lifecycle.Rule.{run_times-Holds}

-- Two counters of the world that only the adapter moves: `starts` grows with each `on_start` that
-- returns 0, `stops` with each `on_stop`.
pub record Counters {W : Type 0} (ops : Ops W) : Type 0 where
  pub starts : W → ℕ
  pub stops : W → ℕ
  pub init_counts :
      (w : W) → (starts (ops.channel_init w) ≡ starts w) × (stops (ops.channel_init w) ≡ stops w)
  pub open_counts :
      (w : W) → (starts (ops.open_op w).1 ≡ starts w) × (stops (ops.open_op w).1 ≡ stops w)
  pub listen_counts :
      (w : W) → (starts (ops.listen w).1 ≡ starts w) × (stops (ops.listen w).1 ≡ stops w)
  pub connection_counts :
      (w : W)
      → (starts (ops.get_connection_state w).1 ≡ starts w)
        × (stops (ops.get_connection_state w).1 ≡ stops w)
  pub receive_counts :
      (n : ℕ) (w : W)
      → (starts (ops.receive n w).2 ≡ starts w) × (stops (ops.receive n w).2 ≡ stops w)
  pub send_counts :
      (tx : List ℕ) (at n : ℕ) (w : W)
      → (starts (ops.send tx at n w).1 ≡ starts w) × (stops (ops.send tx at n w).1 ≡ stops w)
  pub close_counts :
      (w : W) → (starts (ops.close w).1 ≡ starts w) × (stops (ops.close w).1 ≡ stops w)
  pub reset_counts :
      (w : W) → (starts (ops.reset_io w) ≡ starts w) × (stops (ops.reset_io w) ≡ stops w)
  pub decode_counts :
      (words : List ℕ) (w : W)
      → (starts (ops.decode_input words w) ≡ starts w)
        × (stops (ops.decode_input words w) ≡ stops w)
  pub step_counts :
      (w : W) → (starts (ops.on_step w).1 ≡ starts w) × (stops (ops.on_step w).1 ≡ stops w)
  pub time_counts :
      (w : W) → (starts (ops.time_us w).1 ≡ starts w) × (stops (ops.time_us w).1 ≡ stops w)
  pub start_counts :
      (w : W)
      → (starts (ops.on_start w).1
          ≡ (if is_zero (ops.on_start w).0 then starts w + 1 else starts w))
        × (stops (ops.on_start w).1 ≡ stops w)
  pub stop_counts :
      (w : W) → (starts (ops.on_stop w) ≡ starts w) × (stops (ops.on_stop w) ≡ stops w + 1)

abbrev pub as_number : Bool → ℕ
as_number true = 1
as_number false = 0

module _ {W : Type 0} {ops : Ops W} (m : Counters ops) where
  -- One more start than stops while the algorithm runs, as many otherwise.
  abbrev pub IsBalanced : Bool → W → Type 0
  IsBalanced started w = m.starts w ≡ m.stops w + as_number started

  Keeps-IsBalanced : Keeps ops IsBalanced
  Keeps-IsBalanced = record {
    open_keeps = λ s w h. omega (arith, m.open_counts w);
    listen_keeps = λ s w h. omega (arith, m.listen_counts w);
    connection_keeps = λ s w h. omega (arith, m.connection_counts w);
    receive_keeps = λ s n w h. omega (arith, m.receive_counts n w);
    send_keeps = λ s tx at n w h. omega (arith, m.send_counts tx at n w);
    close_keeps = λ s w h. omega (arith, m.close_counts w);
    reset_keeps = λ s w h. omega (arith, m.reset_counts w);
    decode_keeps = λ s words w h. omega (arith, m.decode_counts words w);
    step_keeps = λ s w h. omega (arith, m.step_counts w);
    time_keeps = λ s w h. omega (arith, m.time_counts w);
    start_ok = λ w t h. ground (arith, m.start_counts w);
    start_failed = λ w f h. ground (arith, m.start_counts w);
    stop_stops = λ w h. omega (arith, m.stop_counts w);
  }

  init-IsBalanced :
      (b : Block W)
      → config_is_valid b.config ≡ true
      → IsBalanced false b.world
      → Holds IsBalanced (init ops b)
  unfolding init
  init-IsBalanced b ok h =
      ground (arith, m.reset_counts (ops.channel_init b.world), m.init_counts b.world)

  -- Take two counters of the world that only the adapter moves, one at each successful `on_start`
  -- and one at each `on_stop`, equal at first. After `C2837xBlock_Init` of an accepted
  -- configuration with frames of the stated sizes and any number of calls of `C2837xBlock_Run`,
  -- there is exactly one more start than stops if `algorithm_started` is set, and as many
  -- otherwise: no algorithm is started twice without a stop, or stopped without a start, on any
  -- error path.
  pub starts-stops_paired :
      (n : ℕ) (b : Block W)
      → InRange b.config
      → config_is_valid b.config ≡ true
      → b.config.rx_frame_capacity_octets ≤ 2 * length b.rx_frame_words
      → b.config.tx_frame_capacity_octets ≤ 2 * length b.tx_frame_words
      → m.starts b.world ≡ m.stops b.world
      → let b' = run_times ops n (init ops b) in
        m.starts b'.world ≡ m.stops b'.world + as_number b'.runtime.algorithm_started
  starts-stops_paired n b range ok rx tx even =
      run_times-Holds Keeps-IsBalanced n (init ops b) (init-IsValid ops b range ok rx tx)
        (init-IsBalanced b ok (omega arith))
