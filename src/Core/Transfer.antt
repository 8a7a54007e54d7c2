-- ===== src/Core/Transfer.antt =====
-- What passes between the device and the frames of the Core: the octets that arrive and leave.
pub mod Intact
pub mod Reassembly
pub mod Transmission
use dsp_sim_bridge.Common.{
  ℕ, ◌+◌, ◌*◌, ◌/◌, ◌≡◌, ◌≤◌, ◌<◌, ◌⊎◌, Bool, true, false, ℤ, pos, List, ◌++◌, length, take, drop,
  is_negative,
}
use dsp_sim_bridge.Core.Types.{State, Ops, Block, receiving, frame_ready}
use dsp_sim_bridge.Core.Run.{run}

-- A device that delivers a stream: `pending` are the words that it has yet to hand over. A call
-- of `receive` fails, or hands over the next words and returns how many octets they are.
pub record Source {W : Type 0} (ops : Ops W) : Type 0 where
  pub pending : W → List ℕ
  pub receive_next :
      (n : ℕ) (w : W)
      → let (r, words, w') = ops.receive n w in
        (is_negative r ≡ true) ⊎ ((r ≡ pos (2 * length words)) × (pending w ≡ words ++ pending w'))
  pub time_pending : (w : W) → pending (ops.time_us w).1 ≡ pending w

-- A device that takes a stream, a piece at a time. `IsIdle base w`: the words that it has confirmed
-- are `base`, and nothing more was submitted. `Waits base tx at n w`: it has confirmed `base`, and all
-- that was submitted since is a beginning of the `n` octets of the frame `tx` from the word `at` on,
-- maybe nothing. A call of `send` with these octets fails, or returns 0 and leaves it waiting for the
-- same octets, or confirms a beginning of them that this call or an earlier one has submitted.
pub record Sink {W : Type 0} (ops : Ops W) : Type 1 where
  pub IsIdle : List ℕ → W → Type 0
  pub Waits : List ℕ → List ℕ → ℕ → ℕ → W → Type 0
  pub idle_waits : (base tx : List ℕ) (at n : ℕ) (w : W) → IsIdle base w → Waits base tx at n w
  pub time_idle : (base : List ℕ) (w : W) → IsIdle base w → IsIdle base (ops.time_us w).1
  pub time_waits :
      (base tx : List ℕ) (at n : ℕ) (w : W)
      → Waits base tx at n w
      → Waits base tx at n (ops.time_us w).1
  pub send_next :
      (base tx : List ℕ) (at n : ℕ) (w : W)
      → 2 * at + n ≤ 2 * length tx
      → Waits base tx at n w
      → let (r, w') = ops.send tx at n w in
        (is_negative r ≡ true)
        ⊎ ((r ≡ pos 0) × Waits base tx at n w')
        ⊎ ((k : ℕ) × (r ≡ pos (2 * k)) × (0 < k) × IsIdle (base ++ take k (drop at tx)) w')
