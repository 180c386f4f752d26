-- ===== src/Bpf/Encode.antt =====
-- The eight bytes of an instruction: as c/write_bpf_insn.c writes a `struct bpf_insn`, and as
-- `parse_instruction` of opensnoop/debug.py reads them.
use Prim.Native.Nat.{bit_and}
use rust_ebpf_demo.Prelude.{
  ℕ, ◌+◌, ◌-◌, ◌*◌, ◌/◌, ◌%◌, ◌^◌, ◌<◌, ◌≡◌, ◌∙◌, List, ◌∷◌, ◌++◌, take, drop, ltb, if◌then◌else◌,
  arith,
}
use rust_ebpf_demo.Prelude.Int.{ℤ, pos, negsuc}
use rust_ebpf_demo.Prelude.Bytes.{to_le, from_le}
use rust_ebpf_demo.Bpf.Insn.{BpfInsn, word}
use rust_ebpf_demo.Bpf.Bits.{low_nibble, high_nibble}

-- The integer that a pattern of `w + 1` bits stands for.
abbrev pub signed : ℕ → ℕ → ℤ
signed w x = if ltb x (2 ^ w) then pos x else negsuc (2 * 2 ^ w - x - 1)

-- The first nibble of a byte is its lower one.
abbrev pub encode_insn : BpfInsn → List ℕ
encode_insn i =
    i.code % 256
    ∷ (i.dst_reg % 16 + 16 * (i.src_reg % 16))
    ∷ (to_le 2 (word 16 i.off) ++ to_le 4 (word 32 i.imm))

abbrev pub parse_instruction : List ℕ → BpfInsn
parse_instruction bytes =
    let src_and_dst = from_le (take 1 (drop 1 bytes)) in
    record {
      code = from_le (take 1 bytes);
      dst_reg = bit_and src_and_dst 0x0f;
      src_reg = bit_and src_and_dst 0xf0 / 16;
      off = signed 15 (from_le (take 2 (drop 2 bytes)));
      imm = signed 31 (from_le (take 4 (drop 4 bytes)));
    }

-- The integers of `w + 1` bits.
abbrev pub IsSigned : ℕ → ℤ → Type 0
IsSigned w (pos n) = n < 2 ^ w
IsSigned w (negsuc n) = n < 2 ^ w

-- The fields are values of their types.
pub record IsInsn (i : BpfInsn) : Type 0 where
  pub code : i.code < 256
  pub dst_reg : i.dst_reg < 16
  pub src_reg : i.src_reg < 16
  pub off : IsSigned 15 i.off
  pub imm : IsSigned 31 i.imm

signed-word_16 : (z : ℤ) → IsSigned 15 z → signed 15 (from_le (to_le 2 (word 16 z))) ≡ z
signed-word_16 (pos n) h =
    let e : from_le (to_le 2 (n % 2 ^ 16)) ≡ n = omega arith in rw e (ground arith)
signed-word_16 (negsuc n) h =
    let e : from_le (to_le 2 (2 ^ 16 - 1 - n % 2 ^ 16)) ≡ 2 ^ 16 - 1 - n = omega arith in
    rw e (ground arith)

signed-word_32 : (z : ℤ) → IsSigned 31 z → signed 31 (from_le (to_le 4 (word 32 z))) ≡ z
signed-word_32 (pos n) h =
    let e : from_le (to_le 4 (n % 2 ^ 32)) ≡ n = omega arith in rw e (ground arith)
signed-word_32 (negsuc n) h =
    let e : from_le (to_le 4 (2 ^ 32 - 1 - n % 2 ^ 32)) ≡ 2 ^ 32 - 1 - n = omega arith in
    rw e (ground arith)

-- Reading the bytes of an instruction gives it back, if its fields are values of their types: 8 bits,
-- two nibbles, 16 and 32 signed bits.
pub parse_instruction-encode_insn : (i : BpfInsn) → IsInsn i → parse_instruction (encode_insn i) ≡ i
parse_instruction-encode_insn i h =
    let b = i.dst_reg % 16 + 16 * (i.src_reg % 16) + 256 * 0 in
    let code : i.code % 256 + 256 * 0 ≡ i.code = omega (arith, h.code) in
    let dst : bit_and b 0x0f ≡ i.dst_reg = low_nibble b ∙ omega (arith, h.dst_reg) in
    let src : bit_and b 0xf0 / 16 ≡ i.src_reg = high_nibble b ∙ omega (arith, h.src_reg) in
    λ t. record {
      code = code t;
      dst_reg = dst t;
      src_reg = src t;
      off = signed-word_16 i.off h.off t;
      imm = signed-word_32 i.imm h.imm t;
    }
