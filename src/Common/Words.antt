-- ===== src/Common/Words.antt =====
-- Unsigned machine words: numbers below 2^16 and 2^32, with the wrap-around of C written out.
use Prim.Native.Nat.{ℕ, ◌+◌, ◌-◌, ◌*◌, ◌/◌, ◌%◌, ◌^◌, ◌<◌}
use mathlib.Core.Path.{◌≡◌, refl}
use mathlib.Core.List.{List, [], ◌∷◌}
use mathlib.Core.Bool.{Bool}
use dsp_sim_bridge.Common.Lists.{length}
use dsp_sim_bridge.Common.Tests.{is_odd}
use native.Mathlib.Omega.{arith}

abbrev pub u16 : ℕ → ℕ
u16 n = n % 2 ^ 16

abbrev pub u32 : ℕ → ℕ
u32 n = n % 2 ^ 32

abbrev pub add32 : ℕ → ℕ → ℕ
add32 a b = (a + b) % 2 ^ 32

abbrev pub sub32 : ℕ → ℕ → ℕ
sub32 a b = (a + 2 ^ 32 - b) % 2 ^ 32

-- `lo | (hi << 16)` of two 16-bit words, and the two words of a 32-bit value.
abbrev pub join_words : ℕ → ℕ → ℕ
join_words lo hi = lo + hi * 2 ^ 16

abbrev pub low_word : ℕ → ℕ
low_word n = n % 2 ^ 16

abbrev pub high_word : ℕ → ℕ
high_word n = n / 2 ^ 16

-- `lo | (hi << 8)` of two octets, and the octets of a 16-bit word.
abbrev pub join_octets : ℕ → ℕ → ℕ
join_octets lo hi = lo + hi * 2 ^ 8

abbrev pub low_octet : ℕ → ℕ
low_octet n = n % 2 ^ 8

abbrev pub high_octet : ℕ → ℕ
high_octet n = n / 2 ^ 8 % 2 ^ 8

-- The octets of a sequence of words in wire order, the low octet of each word first.
abbrev pub octets : List ℕ → List ℕ
octets [] = []
octets (w ∷ ws) = low_octet w ∷ high_octet w ∷ octets ws

pub length-octets : (ws : List ℕ) → length (octets ws) ≡ 2 * length ws
length-octets [] = refl
length-octets (w ∷ ws) = omega (arith, length-octets ws)

-- The modular difference of two readings of a 32-bit counter is the time between them,
-- whether or not the counter wrapped.
pub sub32-add32 :
    (start elapsed : ℕ)
    → start < 2 ^ 32
    → elapsed < 2 ^ 32
    → sub32 (add32 start elapsed) start ≡ elapsed
sub32-add32 start elapsed hs he = omega arith

-- `(n & (1u << i)) != 0u`
abbrev pub bit_set : ℕ → ℕ → Bool
bit_set i n = is_odd (n / 2 ^ i)
