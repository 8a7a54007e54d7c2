-- ===== src/Wire/Frames.antt =====
-- What the frame builders return: how many octets, and into which words.
use dsp_sim_bridge.Common.{ℕ, ◌≡◌, refl, List, [], ◌∷◌, arith, length, length-write_at}
use dsp_sim_bridge.Common.{write_at}
use dsp_sim_bridge.Wire.{build_response}

pub build_response_octets : (tx : List ℕ) (e : ℕ) → (build_response tx e).1 ≡ 6
unfolding build_response
build_response_octets tx e = refl

pub length-build_response : (tx : List ℕ) (e : ℕ) → length (build_response tx e).0 ≡ length tx
unfolding build_response
length-build_response tx e = omega (
  arith,
  length-write_at 2 (e ∷ []) (write_at 1 (2 ∷ []) (write_at 0 (5 ∷ []) tx)),
  length-write_at 1 (2 ∷ []) (write_at 0 (5 ∷ []) tx),
  length-write_at 0 (5 ∷ []) tx,
)
