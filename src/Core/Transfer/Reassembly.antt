-- ===== src/Core/Transfer/Reassembly.antt =====
-- A frame is put together from the octets in the order of their arrival.
use dsp_sim_bridge.Common.{ℕ, ◌+◌, ◌/◌, ◌≡◌, ap, List, ◌++◌, arith, take}
use mathlib.Core.Path.{subst}
use dsp_sim_bridge.Core.Types.{Ops, Block, receiving, frame_ready}
use dsp_sim_bridge.Core.Receive.{service_receiving}
use dsp_sim_bridge.Core.Run.{dispatch, run}
use dsp_sim_bridge.Core.Invariant.{IsValid, StateOk}
use dsp_sim_bridge.Core.Invariant.Preserved.{run-IsValid}
use dsp_sim_bridge.Core.Transfer.{Source}
use dsp_sim_bridge.Core.Transfer.Intact.{IsIntact, received_words, service_receiving-IsIntact}

-- Calls of `C2837xBlock_Run` from `b` to `b'`, each made while the instance was receiving.
pub data Fed {W : Type 0} (ops : Ops W) : Block W → Block W → Type 0 where
  done : (b : Block W) → Fed ops b b
  more :
      (b : Block W) {b' : Block W}
      → b.runtime.state ≡ receiving
      → Fed ops (run ops b) b'
      → Fed ops b b'

Fed-IsValid : {W : Type 0} {ops : Ops W} {b b' : Block W} → Fed ops b b' → IsValid b → IsValid b'
Fed-IsValid (done b) v = v
Fed-IsValid {ops = ops} (more b e rest) v = Fed-IsValid rest (run-IsValid ops b v)

module _ {W : Type 0} {ops : Ops W} (source : Source ops) where
  run_receiving : (b : Block W) → b.runtime.state ≡ receiving → run ops b ≡ service_receiving ops b
  unfolding run dispatch
  run_receiving b e = ap (λ s. dispatch ops s b) e

  Fed-IsIntact :
      (stream : List ℕ) {b b' : Block W}
      → Fed ops b b'
      → IsValid b
      → IsIntact source stream b
      → IsIntact source stream b'
  Fed-IsIntact stream (done b) v h = h
  Fed-IsIntact stream (more b e rest) v h =
      Fed-IsIntact stream rest (run-IsValid ops b v)
        (rw (run_receiving b e) (service_receiving-IsIntact source stream b v e h))

  -- A well-formed instance is waiting for the first octet of a frame, and is run while it is
  -- receiving until the frame is ready. However the device cuts the octets into pieces, the
  -- receive frame then begins with exactly the words that were pending at first, in their order,
  -- as many as the header and its payload length say, and the device has the rest still to hand
  -- over: nothing is lost, repeated or reordered.
  pub frame_reassembled :
      {b b' : Block W}
      → IsValid b
      → received_words b.runtime ≡ 0
      → Fed ops b b'
      → b'.runtime.state ≡ frame_ready
      → take ((4 + b'.runtime.rx_payload_length_octets) / 2) b'.rx_frame_words
          ++ source.pending b'.world
        ≡ source.pending b.world
  frame_reassembled {b} {b'} v none fed e =
      let start : IsIntact source (source.pending b.world) b = λ _. rw none in
      let a = subst (λ s. StateOk s b'.config b'.runtime) e (Fed-IsValid fed v).state_ok in
      let all : received_words b'.runtime ≡ (4 + b'.runtime.rx_payload_length_octets) / 2 =
        omega (arith, a.0, a.1) in
      subst (λ k. take k b'.rx_frame_words ++ source.pending b'.world ≡ source.pending b.world) all
        (Fed-IsIntact _ fed v start (rw e))
