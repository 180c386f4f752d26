-- ===== src/Generator.antt =====
-- `generate_c_function` of opensnoop/debug.py, by which opensnoop/opensnoop.py writes
-- opensnoop/generated_bytecode.h: from bytecode to a C function that stores the instructions into an
-- array. The function is kept as its parameters and its assignments; Text has the bytes.
pub mod Meaning
pub mod Header
pub mod Text
pub mod Rebound
pub mod Read
pub mod Members
pub mod Assigns
pub mod Back
pub mod Print
pub mod Listing
use Prim.Native.String.{String}
use rust_ebpf_demo.Prelude.{
  ℕ, zero, suc, ◌+◌, Bool, true, false, ◌&&◌, Option, none, some, List, [], ◌∷◌, ◌==◌,
  if◌then◌else◌, length, take, drop, map,
}
use rust_ebpf_demo.Prelude.Int.{ℤ, pos, negsuc, ltb_ℤ}
use rust_ebpf_demo.Bpf.Insn.{BpfInsn}
use rust_ebpf_demo.Bpf.Encode.{parse_instruction}

-- The parameter that stands for an immediate value.
pub record Placeholder : Type 0 where
  pub param_type : String
  pub param_name : String
  pub imm : ℤ

-- What is assigned to `imm`: a number, the parameter `fd<n>`, or the placeholder's parameter.
pub data Immediate : Type 0 where
  number : ℤ → Immediate
  fd : ℤ → Immediate
  param : Immediate

-- `instructions[index] = (struct bpf_insn) { ... };`
pub record Assign : Type 0 where
  pub index : ℕ
  pub code : ℕ
  pub dst_reg : ℕ
  pub src_reg : ℕ
  pub off : ℤ
  pub imm : Immediate

-- The name, the placeholder's parameter, the numbers of the parameters `fd<n>`, and the body.
pub record CFunction : Type 0 where
  pub name : String
  pub placeholder : Option (String × String)
  pub fds : List ℤ
  pub assigns : List Assign

abbrev pub same_ℤ : ℤ → ℤ → Bool
same_ℤ (pos m) (pos n) = m == n
same_ℤ (pos m) (negsuc n) = false
same_ℤ (negsuc m) (pos n) = false
same_ℤ (negsuc m) (negsuc n) = m == n

-- Eight bytes each; the fuel is at least the number of bytes.
unfoldable pub get_list_of_instructions : ℕ → List ℕ → List (List ℕ)
get_list_of_instructions zero bytecode = []
get_list_of_instructions (suc fuel) [] = []
get_list_of_instructions (suc fuel) (b ∷ bs) =
    take 8 (b ∷ bs) ∷ get_list_of_instructions fuel (drop 8 (b ∷ bs))

abbrev pub is_fd : BpfInsn → Bool
is_fd i = i.code == 0x18 && i.src_reg == 1

abbrev pub placed : Option Placeholder → ℤ → Immediate
placed none imm = number imm
placed (some p) imm = if same_ℤ imm p.imm then param else number imm

abbrev pub immediate : Option Placeholder → BpfInsn → Immediate
immediate placeholder i = if is_fd i then fd i.imm else placed placeholder i.imm

-- A set of numbers as the list that `sort` makes of it.
abbrev pub add_fd : ℤ → List ℤ → List ℤ
add_fd z [] = z ∷ []
add_fd z (x ∷ xs) =
    let more = add_fd z xs in
    if same_ℤ z x then x ∷ xs else (if ltb_ℤ z x then z ∷ (x ∷ xs) else x ∷ more)

abbrev pub fds_of : List BpfInsn → List ℤ
fds_of [] = []
fds_of (i ∷ is) = let more = fds_of is in if is_fd i then add_fd i.imm more else more

abbrev pub assign : Option Placeholder → ℕ → BpfInsn → Assign
assign placeholder index i = record {
  index = index;
  code = i.code;
  dst_reg = i.dst_reg;
  src_reg = i.src_reg;
  off = i.off;
  imm = immediate placeholder i;
}

abbrev pub assigns_from : Option Placeholder → ℕ → List BpfInsn → List Assign
assigns_from placeholder index [] = []
assigns_from placeholder index (i ∷ is) =
    assign placeholder index i ∷ assigns_from placeholder (suc index) is

abbrev pub signature_of : Option Placeholder → Option (String × String)
signature_of none = none
signature_of (some p) = some (p.param_type, p.param_name)

unfoldable pub generate_c_function : String → List ℕ → Option Placeholder → CFunction
unfolding get_list_of_instructions
generate_c_function name bytecode placeholder =
    let insns = map parse_instruction (get_list_of_instructions (length bytecode) bytecode) in
    record {
      name = name;
      placeholder = signature_of placeholder;
      fds = fds_of insns;
      assigns = assigns_from placeholder 0 insns;
    }

-- The placeholders of opensnoop/opensnoop.py.
abbrev pub placeholder_tid : Placeholder
placeholder_tid = record { param_type = "int"; param_name = "tid"; imm = pos 123456 }

abbrev pub placeholder_pid : Placeholder
placeholder_pid = record { param_type = "int"; param_name = "pid"; imm = pos 654321 }
