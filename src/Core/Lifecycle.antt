-- ===== src/Core/Lifecycle.antt =====
-- What every call of `C2837xBlock_Run` preserves of the world, when each callback preserves it:
-- a rule for predicates on the world and on whether the algorithm is started.
pub mod Ending
pub mod Receiving
pub mod Handling
pub mod Sending
pub mod Rule
pub mod Balance
use dsp_sim_bridge.Common.{ℕ, Bool, true, false, List, ◌≡◌, is_zero}
use dsp_sim_bridge.Core.Types.{Ops, Block}

-- Every callback of the device, the clock and the adapter keeps `P`; a successful `on_start` of a
-- stopped algorithm starts it, and `on_stop` stops it.
pub record Keeps {W : Type 0} (ops : Ops W) (P : Bool → W → Type 0) : Type 0 where
  pub open_keeps : (s : Bool) (w : W) → P s w → P s (ops.open_op w).1
  pub listen_keeps : (s : Bool) (w : W) → P s w → P s (ops.listen w).1
  pub connection_keeps : (s : Bool) (w : W) → P s w → P s (ops.get_connection_state w).1
  pub receive_keeps : (s : Bool) (n : ℕ) (w : W) → P s w → P s (ops.receive n w).2
  pub send_keeps : (s : Bool) (tx : List ℕ) (at n : ℕ) (w : W) → P s w → P s (ops.send tx at n w).1
  pub close_keeps : (s : Bool) (w : W) → P s w → P s (ops.close w).1
  pub reset_keeps : (s : Bool) (w : W) → P s w → P s (ops.reset_io w)
  pub decode_keeps : (s : Bool) (words : List ℕ) (w : W) → P s w → P s (ops.decode_input words w)
  pub step_keeps : (s : Bool) (w : W) → P s w → P s (ops.on_step w).1
  pub time_keeps : (s : Bool) (w : W) → P s w → P s (ops.time_us w).1
  pub start_ok : (w : W) → is_zero (ops.on_start w).0 ≡ true → P false w → P true (ops.on_start w).1
  pub start_failed :
      (w : W) → is_zero (ops.on_start w).0 ≡ false → P false w → P false (ops.on_start w).1
  pub stop_stops : (w : W) → P true w → P false (ops.on_stop w)

abbrev pub Holds : {W : Type 0} → (Bool → W → Type 0) → Block W → Type 0
Holds P b = P b.runtime.algorithm_started b.world
