-- ===== src/Probe/Bytecode.antt =====
-- opensnoop/generated_bytecode.h: the sizes of the arrays, and the functions that fill them.
pub mod Store
pub mod Entry
pub mod Return
use rust_ebpf_demo.Prelude.{ℕ}

abbrev pub max_num_trace_entry_instructions : ℕ
max_num_trace_entry_instructions = 35

abbrev pub num_trace_entry_instructions : ℕ
num_trace_entry_instructions = 28

abbrev pub num_trace_entry_tid_instructions : ℕ
num_trace_entry_tid_instructions = 32

abbrev pub num_trace_entry_pid_instructions : ℕ
num_trace_entry_pid_instructions = 35

abbrev pub num_trace_return_instructions : ℕ
num_trace_return_instructions = 82
