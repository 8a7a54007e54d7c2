-- ===== src/W5300/Socket/Bounds.antt =====
-- The sizes of a piece in dsp/src/c2837x_w5300_socket.c: even, within 16 bits, and no more than there
-- is room for.
use dsp_sim_bridge.Common.{ℕ, ◌%◌, ◌^◌, ◌≡◌, ◌≤◌, ◌<◌, arith, ltb, if_intro}
use dsp_sim_bridge.W5300.Socket.{Socket}
use dsp_sim_bridge.W5300.Socket.Transfer.{even_octets, at_most, copy_size}

pub even_octets_bounds :
    (n : ℕ) → (even_octets n % 2 ≡ 0) × (even_octets n < 2 ^ 16) × (even_octets n ≤ n)
even_octets_bounds n = omega arith

pub at_most_bounds : (limit n : ℕ) → (at_most limit n ≤ limit) × (at_most limit n ≤ n)
at_most_bounds limit n =
    if_intro (λ m. (m ≤ limit) × (m ≤ n)) (ltb limit n) (λ t. ground arith) (λ f. ground arith)

pub copy_size_bounds :
    (sk : Socket) (rx_size capacity : ℕ)
    → (copy_size sk rx_size capacity % 2 ≡ 0)
      × (copy_size sk rx_size capacity < 2 ^ 16)
      × (copy_size sk rx_size capacity ≤ rx_size)
      × (copy_size sk rx_size capacity ≤ capacity)
unfolding copy_size
copy_size_bounds sk rx_size capacity =
    let outer = at_most_bounds sk.rx_mem_size (at_most capacity rx_size) in
    let inner = at_most_bounds capacity rx_size in
    let n = at_most sk.rx_mem_size (at_most capacity rx_size) in
    let bounded = even_octets_bounds n in
    (
      bounded.0,
      bounded.1,
      omega (arith, outer, inner, bounded.2),
      omega (arith, outer, inner, bounded.2),
    )
