-- ===== src/Bpf/Insn.antt =====
-- `struct bpf_insn`, as c/write_bpf_insn.c quotes it, and the opcodes that opensnoop/debug.py names.
use rust_ebpf_demo.Prelude.{ℕ, ◌-◌, ◌^◌, ◌%◌, Option, none, some, ◌==◌, if◌then◌else◌}
use rust_ebpf_demo.Prelude.Int.{ℤ, pos, negsuc}

pub record BpfInsn : Type 0 where
  pub code : ℕ
  pub dst_reg : ℕ
  pub src_reg : ℕ
  pub off : ℤ
  pub imm : ℤ

abbrev pub insn : ℕ → ℕ → ℕ → ℤ → ℤ → BpfInsn
insn code dst src off imm = record {
  code = code;
  dst_reg = dst;
  src_reg = src;
  off = off;
  imm = imm;
}

-- The numbers behind `BPF_REG_0` to `BPF_REG_10`.
abbrev pub r0 : ℕ
r0 = 0

abbrev pub r1 : ℕ
r1 = 1

abbrev pub r2 : ℕ
r2 = 2

abbrev pub r3 : ℕ
r3 = 3

abbrev pub r4 : ℕ
r4 = 4

abbrev pub r5 : ℕ
r5 = 5

abbrev pub r6 : ℕ
r6 = 6

abbrev pub r7 : ℕ
r7 = 7

abbrev pub r8 : ℕ
r8 = 8

abbrev pub r10 : ℕ
r10 = 10

-- What an opcode does. The names are those of the kernel's macros: `k` takes the immediate and
-- `x` the source register; `dw`, `w` and `b` are 8, 4 and 1 bytes.
pub data Op : Type 0 where
  ld_dw ldx_dw stx_dw stx_w stx_b mov_k mov_x add_k lsh_k rsh_k and_x : Op
  jeq_k jne_k jne_x call exit : Op

-- The opcodes that occur in the repository's programs.
abbrev pub decode_op : ℕ → Option Op
decode_op c =
    if c == 0x18
    then some ld_dw
    else if c == 0x79
    then some ldx_dw
    else if c == 0x7b
    then some stx_dw
    else if c == 0x63
    then some stx_w
    else if c == 0x73
    then some stx_b
    else if c == 0xb7
    then some mov_k
    else if c == 0xbf
    then some mov_x
    else if c == 0x07
    then some add_k
    else if c == 0x67
    then some lsh_k
    else if c == 0x77
    then some rsh_k
    else if c == 0x5f
    then some and_x
    else if c == 0x15
    then some jeq_k
    else if c == 0x55
    then some jne_k
    else if c == 0x5d
    then some jne_x
    else if c == 0x85
    then some call
    else if c == 0x95
    then some exit
    else none

-- The w-bit pattern of an immediate, in two's complement.
abbrev pub word : ℕ → ℤ → ℕ
word w (pos n) = n % 2 ^ w
word w (negsuc n) = (2 ^ w - 1) - n % 2 ^ w
