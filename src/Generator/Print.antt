-- ===== src/Generator/Print.antt =====
-- The arrays of instructions that print_bpf_insns of opensnoop/debug.py and print_bpf_insn_struct of
-- c/bpf_trace_printk.py print, and how they are read back.
use Prim.Native.String.{String}
use rust_ebpf_demo.Prelude.{
  ◌>>=◌, ℕ, zero, suc, ◌<◌, ◌≤◌, ◌≡◌, refl, ap, ◌∙◌, true, false, Option, none, some, List, [], ◌∷◌,
  ◌++◌, Every, length, drop, map, arith,
}
use rust_ebpf_demo.Bpf.Insn.{BpfInsn}
use rust_ebpf_demo.Bpf.Encode.{parse_instruction, IsInsn}
use rust_ebpf_demo.Clib.Text.{codes, starts_with}
use rust_ebpf_demo.Clib.Decimal.{decimal}
use rust_ebpf_demo.Clib.Printf.{decimal_ℤ}
use rust_ebpf_demo.Generator.{get_list_of_instructions}
use rust_ebpf_demo.Generator.Meaning.{bytes_of, get_list_of_instructions-bytes_of}
use rust_ebpf_demo.Generator.Text.{fill, text_line, hex}
use rust_ebpf_demo.Generator.Read.{expect, skip, decimal_ℤ-Lacks, read_ℤ, read_ℤ-decimal_ℤ}
use rust_ebpf_demo.Generator.Members.{
  read_members, read_insn, then_some, read_members_lem, insn_members, insn_members-IsMember,
  read_insn-insn_members,
}
use rust_ebpf_demo.Generator.Back.{longer, length-fill_first, IsSigned-IsShort, offset-IsShort}

abbrev bpf_insn_template : List (List ℕ)
bpf_insn_template =
    text_line "  ((struct bpf_insn) {" (codes "      .code    = 0x")
    ∷ text_line "," (codes "      .dst_reg = BPF_REG_")
    ∷ text_line "," (codes "      .src_reg = BPF_REG_")
    ∷ text_line "," (codes "      .off     = ")
    ∷ text_line "," (codes "      .imm     = ")
    ∷ text_line "," (text_line "  })," [])
    ∷ []

abbrev insn_values : BpfInsn → List (List ℕ)
insn_values i =
    hex i.code ∷ decimal i.dst_reg ∷ decimal i.src_reg ∷ decimal_ℤ i.off ∷ decimal_ℤ i.imm ∷ []

abbrev pub insns_text : List BpfInsn → List ℕ → List ℕ
insns_text [] rest = rest
insns_text (i ∷ more) rest = fill bpf_insn_template (insn_values i) (insns_text more rest)

abbrev end_of_array : List ℕ
end_of_array = text_line "};" []

abbrev pub bytecode_text : List ℕ → List ℕ
bytecode_text bytecode =
    insns_text (map parse_instruction (get_list_of_instructions (length bytecode) bytecode))
      end_of_array

abbrev pub print_bpf_insns : List ℕ → String → List ℕ
print_bpf_insns bytecode array_name = text_line "// GENERATED FILE: See opensnoop.py." (
    text_line "#include <bcc/libbpf.h>" (
      10 ∷ codes "struct bpf_insn "
      ++ (codes array_name ++ text_line "[] = {" (bytecode_text bytecode))))

abbrev pub print_bpf_insn_struct : List ℕ → List ℕ
print_bpf_insn_struct bytecode = text_line "struct bpf_insn prog[] = {" (bytecode_text bytecode)

-- `((struct bpf_insn) {`, five members, and `}),`.
abbrev read_element : List ℕ → Option (BpfInsn × List ℕ)
read_element text = do
  opened ← expect (text_line "((struct bpf_insn) {" []) (skip text)
  members ← read_members 5 opened
  rest ← expect (text_line "})," []) (skip members.1)
  i ← read_insn read_ℤ members.0
  some (i, rest)

-- The instructions up to the brace that closes the array.
unfoldable pub read_insns : ℕ → List ℕ → Option (List BpfInsn)
read_insns zero text = none
read_insns (suc fuel) text = elim (starts_with text (codes "}")) [
  | true ↦ some []
  | false ↦ do first ← read_element text; more ← read_insns fuel first.1; some (first.0 ∷ more)
]

read_element-insn_values :
    (i : BpfInsn) (rest : List ℕ)
    → IsInsn i
    → read_element (fill bpf_insn_template (insn_values i) rest) ≡ some (i, rest)
read_element-insn_values i rest h =
    let imm = decimal_ℤ i.imm in
    let ms = insn_members i.code i.dst_reg i.src_reg i.off imm in
    let plain = decimal_ℤ-Lacks b',' i.imm refl refl in
    let valid = insn_members-IsMember i.code i.dst_reg i.src_reg i.off imm h.code plain in
    then_some _ (read_members_lem ms (text_line "  })," rest) valid) (
      then_some (λ j. some (j, rest))
        (read_insn-insn_members i.code i.dst_reg i.src_reg i.off imm h.code read_ℤ i.imm
          (omega (arith, h.dst_reg)) (omega (arith, h.src_reg)) (offset-IsShort i.off h.off)
          (read_ℤ-decimal_ℤ i.imm (IsSigned-IsShort i.imm h.imm)))
        refl)

read_insns-insns_text :
    (fuel : ℕ) (xs : List BpfInsn)
    → length xs < fuel
    → Every IsInsn xs
    → read_insns fuel (insns_text xs end_of_array) ≡ some xs
unfolding read_insns
read_insns-insns_text zero xs enough h = absurd (omega (arith, enough))
read_insns-insns_text (suc fuel) [] enough h = refl
read_insns-insns_text (suc fuel) (i ∷ more) enough (valid, h) =
    let rest = insns_text more end_of_array in
    then_some _ (read_element-insn_values i rest valid) (
      then_some (λ others. some (i ∷ others))
        (read_insns-insns_text fuel more (omega (arith, enough)) h) refl)

length-insns_text : (xs : List BpfInsn) → length xs ≤ length (insns_text xs end_of_array)
length-insns_text [] = omega arith
length-insns_text (i ∷ more) =
    let rest = insns_text more end_of_array in
    longer (length-insns_text more) (
      length-fill_first (text_line "  ((struct bpf_insn) {" (codes "      .code    = 0x"))
        (drop 1 bpf_insn_template) (hex i.code) (drop 1 (insn_values i)) rest (omega arith))

-- The instructions behind the line that begins the array.
abbrev pub read_array : List ℕ → Option (List BpfInsn)
read_array text = let body = drop 27 text in read_insns (suc (length body)) body

-- The array that is printed for the bytes of a program, whose fields are values of their types, holds
-- that program.
pub read_array-print_bpf_insn_struct :
    (xs : List BpfInsn)
    → Every IsInsn xs
    → read_array (print_bpf_insn_struct (bytes_of xs)) ≡ some xs
read_array-print_bpf_insn_struct xs h =
    let parsed = get_list_of_instructions-bytes_of (length (bytes_of xs)) xs (omega arith) h in
    let body = insns_text xs end_of_array in
    ap (λ is. read_insns (suc (length (insns_text is end_of_array))) (insns_text is end_of_array))
      parsed
    ∙ read_insns-insns_text (suc (length body)) xs (omega (arith, length-insns_text xs)) h
