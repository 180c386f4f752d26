-- ===== src/Generator/Header.antt =====
-- The functions of opensnoop/generated_bytecode.h are what `generate_c_function` makes of the bytecode.
use mathlib.Core.Option
use Prim.Native.String.{String}
use rust_ebpf_demo.Prelude.{
  ℕ, ◌≡◌, refl, ap, ◌∙◌, Option, none, some, List, [], ◌∷◌, ◌++◌, map, length, if◌then◌else◌,
}
use rust_ebpf_demo.Prelude.Int.{ℤ, pos}
use rust_ebpf_demo.Bpf.Insn.{BpfInsn}
use rust_ebpf_demo.Bpf.Encode.{parse_instruction}
use rust_ebpf_demo.Probe.Bytecode.Store.{store_all}
use rust_ebpf_demo.Probe.Bytecode.Entry.{
  generate_trace_entry, generate_trace_entry_tid, generate_trace_entry_pid, trace_entry_insns,
  trace_entry_tid_insns, trace_entry_pid_insns,
}
use rust_ebpf_demo.Probe.Bytecode.Return.{generate_trace_return, trace_return_insns}
use rust_ebpf_demo.Generator.{
  Placeholder, CFunction, same_ℤ, get_list_of_instructions, generate_c_function, assigns_from,
  placeholder_tid, placeholder_pid,
}
use rust_ebpf_demo.Generator.Meaning.{execute, bytes_of, stored, execute-assigns_from}

-- What is generated for bytecode that was compiled with these numbers in it.
abbrev pub entry_function : CFunction
entry_function =
    generate_c_function "generate_trace_entry" (bytes_of (trace_entry_insns (pos 3))) none

abbrev pub tid_function : CFunction
tid_function =
    generate_c_function "generate_trace_entry_tid"
      (bytes_of (trace_entry_tid_insns (pos 123456) (pos 3))) (some placeholder_tid)

abbrev pub pid_function : CFunction
pid_function =
    generate_c_function "generate_trace_entry_pid"
      (bytes_of (trace_entry_pid_insns (pos 654321) (pos 3))) (some placeholder_pid)

abbrev pub return_function : CFunction
return_function =
    generate_c_function "generate_trace_return" (bytes_of (trace_return_insns (pos 3) (pos 4))) none

abbrev pub two_fds : ℤ → ℤ → ℤ → ℤ
two_fds fd3 fd4 n = if same_ℤ n (pos 3) then fd3 else fd4

execute-stored :
    (name : String) (bytecode : List ℕ) (placeholder : Option Placeholder) (arg : ℤ) (fds : ℤ → ℤ)
    (array xs ys : List BpfInsn)
    → map parse_instruction (get_list_of_instructions (length bytecode) bytecode) ≡ xs
    → stored arg fds placeholder xs ≡ ys
    → execute arg fds array (generate_c_function name bytecode placeholder).assigns
      ≡ store_all array ys
unfolding generate_c_function
execute-stored name bytecode placeholder arg fds array xs ys parsed e =
    ap (λ l. execute arg fds array (assigns_from placeholder 0 l)) parsed
    ∙ (execute-assigns_from arg fds placeholder [] array xs 0 refl
        ∙ (map_id (store_all array (stored arg fds placeholder xs)) ∙ ap (store_all array) e))
  where
    map_id : (r : Option (List BpfInsn)) → Option.map (λ l. [] ++ l) r ≡ r
    map_id none = refl
    map_id (some l) = refl

tid-generated :
    (array : List BpfInsn) (tid fd3 : ℤ)
    → execute tid (λ n. fd3) array tid_function.assigns ≡ generate_trace_entry_tid array tid fd3
unfolding generate_trace_entry_tid get_list_of_instructions
tid-generated array tid fd3 =
    execute-stored "generate_trace_entry_tid"
      (bytes_of (trace_entry_tid_insns (pos 123456) (pos 3))) (some placeholder_tid) tid (λ n. fd3)
      array (trace_entry_tid_insns (pos 123456) (pos 3)) (trace_entry_tid_insns tid fd3) refl refl

entry-generated :
    (array : List BpfInsn) (tid fd3 : ℤ)
    → execute tid (λ n. fd3) array entry_function.assigns ≡ generate_trace_entry array fd3
unfolding generate_trace_entry get_list_of_instructions
entry-generated array tid fd3 =
    execute-stored "generate_trace_entry" (bytes_of (trace_entry_insns (pos 3))) none tid (λ n. fd3)
      array (trace_entry_insns (pos 3)) (trace_entry_insns fd3) refl refl

pid-generated :
    (array : List BpfInsn) (pid fd3 : ℤ)
    → execute pid (λ n. fd3) array pid_function.assigns ≡ generate_trace_entry_pid array pid fd3
unfolding generate_trace_entry_pid get_list_of_instructions
pid-generated array pid fd3 =
    execute-stored "generate_trace_entry_pid"
      (bytes_of (trace_entry_pid_insns (pos 654321) (pos 3))) (some placeholder_pid) pid (λ n. fd3)
      array (trace_entry_pid_insns (pos 654321) (pos 3)) (trace_entry_pid_insns pid fd3) refl refl

return-generated :
    (array : List BpfInsn) (arg fd3 fd4 : ℤ)
    → execute arg (two_fds fd3 fd4) array return_function.assigns
      ≡ generate_trace_return array fd3 fd4
unfolding generate_trace_return get_list_of_instructions
return-generated array arg fd3 fd4 =
    execute-stored "generate_trace_return" (bytes_of (trace_return_insns (pos 3) (pos 4))) none arg
      (two_fds fd3 fd4) array (trace_return_insns (pos 3) (pos 4)) (trace_return_insns fd3 fd4) refl
      refl

-- The functions of the header are what is generated from bytecode that was compiled with the descriptors
-- 3 and 4 and the placeholders 123456 and 654321: whatever the array and the arguments, a call of the
-- generated function does to the array what the function of the header does; and the parameters for
-- descriptors are `fd3`, and for the return `fd3` and `fd4`.
pub header-generated :
    (array : List BpfInsn) (tid pid fd3 fd4 : ℤ)
    → (execute tid (λ n. fd3) array tid_function.assigns ≡ generate_trace_entry_tid array tid fd3)
      × (execute pid (λ n. fd3) array pid_function.assigns ≡ generate_trace_entry_pid array pid fd3)
      × (execute tid (λ n. fd3) array entry_function.assigns ≡ generate_trace_entry array fd3)
      × (execute tid (two_fds fd3 fd4) array return_function.assigns
          ≡ generate_trace_return array fd3 fd4)
      × (tid_function.fds ≡ pos 3 ∷ [])
      × (pid_function.fds ≡ pos 3 ∷ [])
      × (entry_function.fds ≡ pos 3 ∷ [])
      × (return_function.fds ≡ pos 3 ∷ pos 4 ∷ [])
unfolding generate_c_function
header-generated array tid pid fd3 fd4 = (
  tid-generated array tid fd3,
  pid-generated array pid fd3,
  entry-generated array tid fd3,
  return-generated array tid fd3 fd4,
  refl,
  refl,
  refl,
  refl,
)
