-- ===== src/Clib/Words.antt =====
-- Conversions between the integer types of C on a 64-bit machine, in two's complement.
use rust_ebpf_demo.Prelude.{
  ℕ, inl, inr, Bool-cases, ltb→lt, ◌-◌, ◌^◌, ◌<◌, ◌≡◌, arith, ltb, if◌then◌else◌,
}
use rust_ebpf_demo.Prelude.Int.{ℤ, pos, negsuc}
use rust_ebpf_demo.Bpf.Insn.{word}

-- The integer that a 32-bit pattern stands for.
abbrev pub signed_32 : ℕ → ℤ
signed_32 w = if ltb w (2 ^ 31) then pos w else negsuc (2 ^ 32 - w - 1)

-- The conversion of a wider integer to `int`.
abbrev pub to_int : ℤ → ℤ
to_int z = signed_32 (word 32 z)

-- The range of an `int`.
abbrev pub IsInt : ℤ → Type 0
IsInt (pos n) = n < 2 ^ 31
IsInt (negsuc n) = n < 2 ^ 31

word_32-lt : (z : ℤ) → word 32 z < 2 ^ 32
word_32-lt (pos n) = omega arith
word_32-lt (negsuc n) = omega arith

signed_32-IsInt : (w : ℕ) → w < 2 ^ 32 → IsInt (signed_32 w)
signed_32-IsInt w h = elim (Bool-cases (ltb w (2 ^ 31))) [
  | inl e ↦ rw e (ltb→lt _ _ e)
  | inr e ↦ rw e (ground arith)
]

pub to_int-IsInt : (z : ℤ) → IsInt (to_int z)
to_int-IsInt z = signed_32-IsInt (word 32 z) (word_32-lt z)

pub to_int_id : (z : ℤ) → IsInt z → to_int z ≡ z
to_int_id (pos n) h = ground arith
to_int_id (negsuc n) h = ground arith

-- The integer that a 64-bit pattern stands for.
abbrev pub signed_64 : ℕ → ℤ
signed_64 w = if ltb w (2 ^ 63) then pos w else negsuc (2 ^ 64 - w - 1)
