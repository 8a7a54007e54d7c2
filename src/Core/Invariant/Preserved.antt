-- ===== src/Core/Invariant/Preserved.antt =====
-- The invariant from `C2837xBlock_Init` on, through any number of calls of `C2837xBlock_Run`.
use dsp_sim_bridge.Common.{ℕ, zero, suc, ◌≡◌, ◌≤◌, ◌*◌, true, length, if_intro, refl}
use mathlib.Core.Path.{subst}
use dsp_sim_bridge.Core.Types.{
  State, Ops, Block, inert, wait_connection, receiving, frame_ready, sending, unlisted,
}
use dsp_sim_bridge.Core.Config.{config_is_valid}
use dsp_sim_bridge.Core.Run.{init, dispatch, run, run_times}
use dsp_sim_bridge.Core.Invariant.{InRange, IsValid, StateOk}
use dsp_sim_bridge.Core.Invariant.Accepted.{config_is_valid_iff}
use dsp_sim_bridge.Core.Invariant.Sending.{service_sending-IsValid}
use dsp_sim_bridge.Core.Invariant.Receiving.{service_receiving-IsValid}
use dsp_sim_bridge.Core.Invariant.Handling.{service_frame_ready-IsValid}
use dsp_sim_bridge.Core.Invariant.Connecting.{service_wait_connection-IsValid}

module _ {W : Type 0} (ops : Ops W) where
  dispatch-IsValid :
      (s : State) (b : Block W) → b.runtime.state ≡ s → IsValid b → IsValid (dispatch ops s b)
  unfolding dispatch
  dispatch-IsValid inert b e v = absurd (subst (λ s. StateOk s b.config b.runtime) e v.state_ok)
  dispatch-IsValid wait_connection b e v = service_wait_connection-IsValid ops b v e
  dispatch-IsValid receiving b e v = service_receiving-IsValid ops b v e
  dispatch-IsValid frame_ready b e v = service_frame_ready-IsValid ops b v e
  dispatch-IsValid sending b e v = service_sending-IsValid ops b v e
  dispatch-IsValid unlisted b e v = absurd (subst (λ s. StateOk s b.config b.runtime) e v.state_ok)

  -- Each call of `C2837xBlock_Run` keeps the invariant, whatever the device, the algorithm and
  -- the clock return.
  pub run-IsValid : (b : Block W) → IsValid b → IsValid (run ops b)
  unfolding run
  run-IsValid b v = dispatch-IsValid b.runtime.state b refl v

  pub init-IsValid :
      (b : Block W)
      → InRange b.config
      → config_is_valid b.config ≡ true
      → b.config.rx_frame_capacity_octets ≤ 2 * length b.rx_frame_words
      → b.config.tx_frame_capacity_octets ≤ 2 * length b.tx_frame_words
      → IsValid (init ops b)
  unfolding init
  init-IsValid b range ok rx tx =
      if_intro IsValid (config_is_valid b.config)
        (λ _. record {
          sound = record {
            in_range = range;
            limits = ((config_is_valid_iff b.config range).0 ok).limits;
            rx_room = rx;
            tx_room = tx;
            latched_error = λ h. cc;
          };
          state_ok = (refl, refl);
        })
        (λ bad. absurd (cc))

  pub run_times-IsValid : (n : ℕ) (b : Block W) → IsValid b → IsValid (run_times ops n b)
  unfolding run_times
  run_times-IsValid zero b v = v
  run_times-IsValid (suc n) b v = run_times-IsValid n (run ops b) (run-IsValid b v)

  -- If the fields of the configuration fit their C types, the configuration is accepted and the
  -- two frame arrays are as large as it says, then after `C2837xBlock_Init` and any number of
  -- calls of `C2837xBlock_Run` the instance is well formed: receive and send progress stay even
  -- and within the frame, a message is only acted on in the phase that allows it, the algorithm
  -- runs exactly while a simulation is open, and a latched error is an error. This holds for
  -- every device, algorithm and clock.
  pub init-run_times-IsValid :
      (n : ℕ) (b : Block W)
      → InRange b.config
      → config_is_valid b.config ≡ true
      → b.config.rx_frame_capacity_octets ≤ 2 * length b.rx_frame_words
      → b.config.tx_frame_capacity_octets ≤ 2 * length b.tx_frame_words
      → IsValid (run_times ops n (init ops b))
  init-run_times-IsValid n b range ok rx tx =
      run_times-IsValid n (init ops b) (init-IsValid b range ok rx tx)
