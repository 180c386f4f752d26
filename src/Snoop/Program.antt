-- ===== src/Snoop/Program.antt =====
-- The two programs that `main` of opensnoop/opensnoop.c fills in and loads. The arrays on its stack
-- start with whatever stands there, `array`.
pub mod Correct
pub mod Session
pub mod Interleave
pub mod Printed
use rust_ebpf_demo.Prelude.{
  ℕ, ◌+◌, ◌^◌, ◌<◌, ◌≡◌, refl, sym, ap, ◌∙◌, Bool, not, Option, none, some, List, [], ◌∷◌, ◌++◌,
  ◌≤◌, drop, take, length, ◌==◌, if◌then◌else◌, arith,
}
use rust_ebpf_demo.Prelude.Int.{ℤ, pos, neg, negsuc}
use rust_ebpf_demo.Bpf.Insn.{BpfInsn}
use rust_ebpf_demo.Probe.Bytecode.{
  num_trace_entry_instructions, num_trace_entry_tid_instructions, num_trace_entry_pid_instructions,
  num_trace_return_instructions, max_num_trace_entry_instructions,
}
use rust_ebpf_demo.Probe.Bytecode.Entry.{
  generate_trace_entry, generate_trace_entry_tid, generate_trace_entry_pid, trace_entry_insns,
  trace_entry_tid_insns, trace_entry_pid_insns,
}
use rust_ebpf_demo.Probe.Bytecode.Return.{generate_trace_return, trace_return_insns}
use rust_ebpf_demo.Probe.Source.{Filter, all, only_tid, only_pid, trace_entry, trace_return}
use rust_ebpf_demo.Snoop.Args.{Options, is_unset}

-- The first instructions of a filled array, which are what is loaded. `none` is a store outside.
abbrev pub loaded : ℕ → Option (List BpfInsn) → Option (List BpfInsn)
loaded n none = none
loaded n (some array) = some (take n array)

unfoldable pub entry_program : Options → ℤ → List BpfInsn → Option (List BpfInsn)
entry_program o hash_map_fd array =
    if not (is_unset o.tid)
    then loaded num_trace_entry_tid_instructions (generate_trace_entry_tid array o.tid hash_map_fd)
    else if not (is_unset o.pid)
    then loaded num_trace_entry_pid_instructions (generate_trace_entry_pid array o.pid hash_map_fd)
    else loaded num_trace_entry_instructions (generate_trace_entry array hash_map_fd)

unfoldable pub return_program : ℤ → ℤ → List BpfInsn → Option (List BpfInsn)
return_program hash_map_fd events_map_fd array =
    loaded num_trace_return_instructions (generate_trace_return array hash_map_fd events_map_fd)

abbrev pub filter_by : ℤ → ℤ → Filter
filter_by (pos t) p = only_tid t
filter_by (negsuc n) (pos p) = only_pid p
filter_by (negsuc n) (negsuc m) = all

-- The filter that the options ask for: a thread goes before a process.
abbrev pub filter_of : Options → Filter
filter_of o = filter_by o.tid o.pid
