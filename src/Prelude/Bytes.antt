-- ===== src/Prelude/Bytes.antt =====
-- Little-endian bytes of a number, and the number of some bytes.
use rust_ebpf_demo.Prelude.{ℕ, zero, suc, ◌+◌, ◌*◌, ◌/◌, ◌%◌, ◌^◌, ◌<◌, ◌≡◌, List, [], ◌∷◌, arith}

-- The `n` lowest bytes of `x`, the lowest first.
abbrev pub to_le : ℕ → ℕ → List ℕ
to_le zero x = []
to_le (suc n) x = (x % 256) ∷ to_le n (x / 256)

abbrev pub from_le : List ℕ → ℕ
from_le [] = 0
from_le (b ∷ bs) = b + 256 * from_le bs

pub to_le-mod : (x : ℕ) → to_le 4 x ≡ to_le 4 (x % 2 ^ 32)
to_le-mod x = ground arith

pub from_le-to_le_8 : (x : ℕ) → x < 2 ^ 64 → from_le (to_le 8 x) ≡ x
from_le-to_le_8 x h = omega arith

pub from_le-to_le_4 : (x : ℕ) → x < 2 ^ 32 → from_le (to_le 4 x) ≡ x
from_le-to_le_4 x h = omega arith
