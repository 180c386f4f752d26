-- ===== src/Tests/Generator.antt =====
-- Generated functions on a blank array.
use mathlib.Core.Option
use rust_ebpf_demo.Prelude.{
  ℕ, if◌then◌else◌, ◌>>=◌, Every, ◌≡◌, refl, List, [], ◌∷◌, none, some, map, arith,
}
use rust_ebpf_demo.Prelude.Int.{ℤ, pos, neg}
use rust_ebpf_demo.Bpf.Insn.{BpfInsn, insn}
use rust_ebpf_demo.Probe.Bytecode.Store.{store_all}
use rust_ebpf_demo.Probe.Bytecode.Entry.{
  generate_trace_entry, generate_trace_entry_tid, generate_trace_entry_pid,
}
use rust_ebpf_demo.Probe.Bytecode.Return.{generate_trace_return}
use rust_ebpf_demo.Generator.{
  generate_c_function, get_list_of_instructions, placeholder_tid, number,
}
use rust_ebpf_demo.Generator.Meaning.{execute, bytes_of}
use rust_ebpf_demo.Generator.Text.{assigns_text, function_text, text_line, preamble}
use rust_ebpf_demo.Generator.Listing.{
  listed_text, print_list_of_instructions, list_from, decode_instruction,
}
use rust_ebpf_demo.Generator.Read.{until}
use rust_ebpf_demo.Generator.Assigns.{fd_value, store_each, read_assigns}
use rust_ebpf_demo.Generator.Rebound.{Rebounds}
use rust_ebpf_demo.Clib.Strtol.{value_from, strtol}
use rust_ebpf_demo.Generator.Back.{read_function, read_function-generate_c_function}
use rust_ebpf_demo.Clib.Decimal.{decimal, digits}
use rust_ebpf_demo.Clib.Text.{codes, starts_with}
use rust_ebpf_demo.Bpf.Encode.{IsInsn}
use rust_ebpf_demo.Generator.Header.{
  entry_function, tid_function, pid_function, return_function, two_fds, header-generated,
}
use rust_ebpf_demo.Tests.World.{blank}

header-generated_example :
    (execute (pos 7) (λ n. pos 5) (blank 82) tid_function.assigns
      ≡ generate_trace_entry_tid (blank 82) (pos 7) (pos 5))
    × (execute (pos 8) (λ n. pos 5) (blank 82) pid_function.assigns
        ≡ generate_trace_entry_pid (blank 82) (pos 8) (pos 5))
    × (execute (pos 7) (λ n. pos 5) (blank 82) entry_function.assigns
        ≡ generate_trace_entry (blank 82) (pos 5))
    × (execute (pos 7) (two_fds (pos 5) (pos 6)) (blank 82) return_function.assigns
        ≡ generate_trace_return (blank 82) (pos 5) (pos 6))
    × (tid_function.fds ≡ pos 3 ∷ [])
    × (pid_function.fds ≡ pos 3 ∷ [])
    × (entry_function.fds ≡ pos 3 ∷ [])
    × (return_function.fds ≡ pos 3 ∷ pos 4 ∷ [])
header-generated_example = header-generated (blank 82) (pos 7) (pos 8) (pos 5) (pos 6)

-- A program with a descriptor and the number of the placeholder.
abbrev program : List BpfInsn
program = insn 0x18 1 1 (pos 0) (pos 3) ∷ insn 0x55 1 0 (neg 2) (pos 123456) ∷ []

abbrev program_IsInsn : Every IsInsn program
program_IsInsn = (
  record {
    code = omega arith;
    dst_reg = omega arith;
    src_reg = omega arith;
    off = omega arith;
    imm = omega arith;
  },
  (
    record {
      code = omega arith;
      dst_reg = omega arith;
      src_reg = omega arith;
      off = omega arith;
      imm = omega arith;
    },
    tt,
  ),
)

-- The name of a descriptor stands for 77, and any other for 8.
abbrev named : List ℕ → ℤ
named name = if starts_with name (codes "fd") then pos 77 else pos 8

read_function-generate_c_function_example :
    (ys : List BpfInsn) × Rebounds
      (named (codes "tid"))
      (fd_value named)
      (some placeholder_tid)
      program
      ys
    × ((read_function named
            (function_text (generate_c_function "f" (bytes_of program) (some placeholder_tid)))
          >>= store_each (blank 2))
        ≡ store_all (blank 2) ys)
read_function-generate_c_function_example =
    read_function-generate_c_function "f" (some placeholder_tid) named (blank 2) program
      program_IsInsn (omega arith)
      (record { no_number = refl; no_comma = (refl, (refl, (refl, tt))) }) (refl, tt)
      (refl, (refl, (refl, (refl, (refl, (refl, (refl, (refl, (refl, tt)))))))))

-- The instructions that are stored.
rebound_program :
    (read_function named
        (function_text (generate_c_function "f" (bytes_of program) (some placeholder_tid)))
      >>= store_each (blank 2))
    ≡ some (insn 0x18 1 1 (pos 0) (pos 77) ∷ insn 0x55 1 0 (neg 2) (pos 8) ∷ [])
unfolding read_function generate_c_function read_assigns get_list_of_instructions decimal digits
    value_from strtol
rebound_program = refl

-- The bytes of the first assignment of `generate_trace_entry`, as they stand in the header.
first_assignment :
    assigns_text none
      (record {
        index = 0;
        code = 0x79;
        dst_reg = 7;
        src_reg = 1;
        off = pos 104;
        imm = number (pos 0);
      }
        ∷ [])
      []
    ≡ text_line "  instructions[0] = (struct bpf_insn) {" (
        text_line "      .code    = 0x79," (
          text_line "      .dst_reg = BPF_REG_7," (
            text_line "      .src_reg = BPF_REG_1," (
              text_line "      .off     = 104,"
                (text_line "      .imm     = 0," (text_line "  };" []))))))
unfolding decimal digits
first_assignment = refl

-- The first line of `generate_trace_entry_pid`, up to its break.
first_line :
    (until 10 (function_text pid_function)).0
    ≡ codes "void generate_trace_entry_pid(struct bpf_insn instructions[], int pid, int fd3) {"
unfolding decimal digits generate_c_function get_list_of_instructions
first_line = refl

-- The first ten lines of the header.
header_preamble :
    preamble 35 28 32 35 82 []
    ≡ text_line "// GENERATED FILE: See opensnoop.py." (
        text_line "#include <bcc/libbpf.h>" (
          text_line "#include <stdlib.h>" (
            text_line "" (
              text_line "#define MAX_NUM_TRACE_ENTRY_INSTRUCTIONS 35" (
                text_line "#define NUM_TRACE_ENTRY_INSTRUCTIONS 28" (
                  text_line "#define NUM_TRACE_ENTRY_TID_INSTRUCTIONS 32" (
                    text_line "#define NUM_TRACE_ENTRY_PID_INSTRUCTIONS 35" (
                      text_line "#define NUM_TRACE_RETURN_INSTRUCTIONS 82" (text_line "" [])))))))))
unfolding decimal digits
header_preamble = refl

abbrev short_program : List BpfInsn
short_program =
    insn 0x18 1 1 (pos 0) (pos 3) ∷ insn 0 0 0 (pos 0) (pos 0) ∷ insn 0x95 0 0 (pos 0) (pos 0) ∷ []

short_listing :
    Option.map (map listed_text) (print_list_of_instructions (bytes_of short_program))
    ≡ some (
        text_line " 0 1811000003000000 # r1 = 0x0000000000000003" []
        ∷ text_line " 1 0000000000000000" []
        ∷ text_line " 2 9500000000000000 # exit" []
        ∷ [])
unfolding decimal digits print_list_of_instructions list_from decode_instruction
    get_list_of_instructions
short_listing = refl
