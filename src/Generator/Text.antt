-- ===== src/Generator/Text.antt =====
-- The text that `generate_c_function` writes. A template is the list of the pieces between its
-- conversions.
use Prim.Native.String.{String}
use rust_ebpf_demo.Prelude.{
  ℕ, ◌+◌, ◌-◌, ◌/◌, ◌%◌, Option, none, some, List, [], ◌∷◌, ◌++◌, ltb, length, if◌then◌else◌,
}
use rust_ebpf_demo.Prelude.Int.{ℤ}
use rust_ebpf_demo.Clib.Text.{codes}
use rust_ebpf_demo.Clib.Decimal.{decimal}
use rust_ebpf_demo.Clib.Printf.{decimal_ℤ}
use rust_ebpf_demo.Generator.{
  Immediate, number, fd, param, Assign, CFunction, generate_c_function, placeholder_tid,
  placeholder_pid,
}

-- A template with these values in it, and what follows.
abbrev pub fill : List (List ℕ) → List (List ℕ) → List ℕ → List ℕ
fill [] values rest = rest
fill (piece ∷ pieces) [] rest = piece ++ fill pieces [] rest
fill (piece ∷ pieces) (value ∷ values) rest = piece ++ (value ++ fill pieces values rest)

-- A line that ends.
abbrev pub text_line : String → List ℕ → List ℕ
text_line text rest = codes text ++ (10 ∷ rest)

abbrev pub insn_assign_template : List (List ℕ)
insn_assign_template =
    codes "  instructions["
    ∷ text_line "] = (struct bpf_insn) {" (codes "      .code    = 0x")
    ∷ text_line "," (codes "      .dst_reg = BPF_REG_")
    ∷ text_line "," (codes "      .src_reg = BPF_REG_")
    ∷ text_line "," (codes "      .off     = ")
    ∷ text_line "," (codes "      .imm     = ")
    ∷ text_line "," (text_line "  };" [])
    ∷ []

abbrev pub hex_digit : ℕ → ℕ
hex_digit d = if ltb d 10 then b'0' + d else b'a' + d - 10

-- `%x` of a byte
abbrev pub hex : ℕ → List ℕ
hex n = if ltb n 16 then hex_digit n ∷ [] else hex_digit (n / 16) ∷ hex_digit (n % 16) ∷ []

abbrev pub param_text : Option (String × String) → List ℕ
param_text none = []
param_text (some (type, name)) = codes name

module _ (placeholder : Option (String × String)) where
  abbrev pub immediate_text : Immediate → List ℕ
  immediate_text (number z) = decimal_ℤ z
  immediate_text (fd n) = codes "fd" ++ decimal_ℤ n
  immediate_text param = param_text placeholder

  abbrev pub assign_values : Assign → List (List ℕ)
  assign_values a =
      decimal a.index
      ∷ hex a.code
      ∷ decimal a.dst_reg
      ∷ decimal a.src_reg
      ∷ decimal_ℤ a.off
      ∷ immediate_text a.imm
      ∷ []

  abbrev pub assigns_text : List Assign → List ℕ → List ℕ
  assigns_text [] rest = rest
  assigns_text (a ∷ more) rest =
      fill insn_assign_template (assign_values a) (assigns_text more rest)

abbrev pub placeholder_text : Option (String × String) → List ℕ
placeholder_text none = []
placeholder_text (some (type, name)) = codes ", " ++ (codes type ++ (b' ' ∷ codes name))

abbrev pub fds_text : List ℤ → List ℕ
fds_text [] = []
fds_text (n ∷ fds) = codes ", int fd" ++ (decimal_ℤ n ++ fds_text fds)

abbrev pub signature_text : CFunction → List ℕ
signature_text f = placeholder_text f.placeholder ++ fds_text f.fds

abbrev pub end_of_function : List ℕ
end_of_function = text_line "}" (text_line "" [])

-- `c_function_template`
abbrev pub function_text : CFunction → List ℕ
function_text f =
    fill (codes "void " ∷ codes "(struct bpf_insn instructions[]" ∷ text_line ") {" [] ∷ [])
      (codes f.name ∷ signature_text f ∷ []) (assigns_text f.placeholder f.assigns end_of_function)

-- The first lines of the header, with the length of the longest array and those of the four functions.
abbrev pub preamble : ℕ → ℕ → ℕ → ℕ → ℕ → List ℕ → List ℕ
preamble longest entry entry_tid entry_pid ret rest =
    fill
      (text_line "// GENERATED FILE: See opensnoop.py." (
          text_line "#include <bcc/libbpf.h>" (
            text_line "#include <stdlib.h>"
              (text_line "" (codes "#define MAX_NUM_TRACE_ENTRY_INSTRUCTIONS "))))
        ∷ text_line "" (codes "#define NUM_TRACE_ENTRY_INSTRUCTIONS ")
        ∷ text_line "" (codes "#define NUM_TRACE_ENTRY_TID_INSTRUCTIONS ")
        ∷ text_line "" (codes "#define NUM_TRACE_ENTRY_PID_INSTRUCTIONS ")
        ∷ text_line "" (codes "#define NUM_TRACE_RETURN_INSTRUCTIONS ")
        ∷ text_line "" (text_line "" [])
        ∷ [])
      (decimal longest ∷ decimal entry ∷ decimal entry_tid ∷ decimal entry_pid ∷ decimal ret ∷ [])
      rest

abbrev max_of : ℕ → ℕ → ℕ
max_of a b = if ltb a b then b else a

-- The header for the bytecode of the four programs, which bcc compiles.
abbrev pub c_file : List ℕ → List ℕ → List ℕ → List ℕ → List ℕ
c_file entry entry_tid entry_pid ret =
    preamble (max_of (max_of (length entry / 8) (length entry_tid / 8)) (length entry_pid / 8))
      (length entry / 8) (length entry_tid / 8) (length entry_pid / 8) (length ret / 8)
      (function_text (generate_c_function "generate_trace_entry" entry none)
        ++ (function_text
              (generate_c_function "generate_trace_entry_tid" entry_tid (some placeholder_tid))
            ++ (function_text
                  (generate_c_function "generate_trace_entry_pid" entry_pid (some placeholder_pid))
                ++ function_text (generate_c_function "generate_trace_return" ret none))))
