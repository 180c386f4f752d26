-- ===== src/Probe/Bytecode/Entry.antt =====
-- The programs for the entry of `do_sys_open`: `generate_trace_entry`, `generate_trace_entry_tid` and
-- `generate_trace_entry_pid` of opensnoop/generated_bytecode.h, instruction by instruction.
use rust_ebpf_demo.Prelude.{Option, List, [], ◌∷◌, ◌++◌}
use rust_ebpf_demo.Prelude.Int.{ℤ, pos, neg}
use rust_ebpf_demo.Bpf.Insn.{BpfInsn, insn, r0, r1, r2, r3, r4, r6, r7, r10}
use rust_ebpf_demo.Probe.Bytecode.Store.{store_all}

-- The instructions 0 to 8: the file name, a `struct val_t` of zeros and the id.
abbrev pub entry_head : List BpfInsn
entry_head =
    (insn 0x79 r7 r1 (pos 104) (pos 0)
      ∷ insn 0xb7 r1 r0 (pos 0) (pos 0)
      ∷ insn 0x7b r10 r1 (neg 8) (pos 0)
      ∷ insn 0x7b r10 r1 (neg 16) (pos 0)
      ∷ insn 0x7b r10 r1 (neg 24) (pos 0)
      ∷ insn 0x7b r10 r1 (neg 32) (pos 0)
      ∷ insn 0x85 r0 r0 (pos 0) (pos 14)
      ∷ insn 0xbf r6 r0 (pos 0) (pos 0)
      ∷ insn 0x7b r10 r6 (neg 40) (pos 0)
      ∷ [])

-- The instructions 9 to 27: the process name, and the entry of the map.
abbrev pub entry_tail : ℤ → List BpfInsn
entry_tail fd3 =
    (insn 0xbf r1 r10 (pos 0) (pos 0)
      ∷ insn 0x7 r1 r0 (pos 0) (neg 24)
      ∷ insn 0xb7 r2 r0 (pos 0) (pos 16)
      ∷ insn 0x85 r0 r0 (pos 0) (pos 16)
      ∷ insn 0x67 r0 r0 (pos 0) (pos 32)
      ∷ insn 0x77 r0 r0 (pos 0) (pos 32)
      ∷ insn 0x55 r0 r0 (pos 10) (pos 0)
      ∷ insn 0x7b r10 r7 (neg 8) (pos 0)
      ∷ insn 0x7b r10 r6 (neg 32) (pos 0)
      ∷ insn 0x18 r1 r1 (pos 0) fd3
      ∷ insn 0x0 r0 r0 (pos 0) (pos 0)
      ∷ insn 0xbf r2 r10 (pos 0) (pos 0)
      ∷ insn 0x7 r2 r0 (pos 0) (neg 40)
      ∷ insn 0xbf r3 r10 (pos 0) (pos 0)
      ∷ insn 0x7 r3 r0 (pos 0) (neg 32)
      ∷ insn 0xb7 r4 r0 (pos 0) (pos 0)
      ∷ insn 0x85 r0 r0 (pos 0) (pos 2)
      ∷ insn 0xb7 r0 r0 (pos 0) (pos 0)
      ∷ insn 0x95 r0 r0 (pos 0) (pos 0)
      ∷ [])

-- The instructions of `generate_trace_entry`.
abbrev pub trace_entry_insns : ℤ → List BpfInsn
trace_entry_insns fd3 = entry_head ++ entry_tail fd3

-- `generate_trace_entry` stores them into the caller's array.
unfoldable pub generate_trace_entry : List BpfInsn → ℤ → Option (List BpfInsn)
generate_trace_entry instructions fd3 = store_all instructions (trace_entry_insns fd3)

-- The instructions 0 to 12, with the test of the thread.
abbrev pub tid_head : ℤ → List BpfInsn
tid_head tid =
    (insn 0x79 r7 r1 (pos 104) (pos 0)
      ∷ insn 0xb7 r1 r0 (pos 0) (pos 0)
      ∷ insn 0x7b r10 r1 (neg 8) (pos 0)
      ∷ insn 0x7b r10 r1 (neg 16) (pos 0)
      ∷ insn 0x7b r10 r1 (neg 24) (pos 0)
      ∷ insn 0x7b r10 r1 (neg 32) (pos 0)
      ∷ insn 0x85 r0 r0 (pos 0) (pos 14)
      ∷ insn 0xbf r6 r0 (pos 0) (pos 0)
      ∷ insn 0x7b r10 r6 (neg 40) (pos 0)
      ∷ insn 0xbf r1 r6 (pos 0) (pos 0)
      ∷ insn 0x67 r1 r0 (pos 0) (pos 32)
      ∷ insn 0x77 r1 r0 (pos 0) (pos 32)
      ∷ insn 0x55 r1 r0 (pos 17) tid
      ∷ [])

-- The instructions 13 to 31.
abbrev pub tid_tail : ℤ → List BpfInsn
tid_tail fd3 =
    (insn 0xbf r1 r10 (pos 0) (pos 0)
      ∷ insn 0x7 r1 r0 (pos 0) (neg 24)
      ∷ insn 0xb7 r2 r0 (pos 0) (pos 16)
      ∷ insn 0x85 r0 r0 (pos 0) (pos 16)
      ∷ insn 0x67 r0 r0 (pos 0) (pos 32)
      ∷ insn 0x77 r0 r0 (pos 0) (pos 32)
      ∷ insn 0x55 r0 r0 (pos 10) (pos 0)
      ∷ insn 0x7b r10 r7 (neg 8) (pos 0)
      ∷ insn 0x7b r10 r6 (neg 32) (pos 0)
      ∷ insn 0x18 r1 r1 (pos 0) fd3
      ∷ insn 0x0 r0 r0 (pos 0) (pos 0)
      ∷ insn 0xbf r2 r10 (pos 0) (pos 0)
      ∷ insn 0x7 r2 r0 (pos 0) (neg 40)
      ∷ insn 0xbf r3 r10 (pos 0) (pos 0)
      ∷ insn 0x7 r3 r0 (pos 0) (neg 32)
      ∷ insn 0xb7 r4 r0 (pos 0) (pos 0)
      ∷ insn 0x85 r0 r0 (pos 0) (pos 2)
      ∷ insn 0xb7 r0 r0 (pos 0) (pos 0)
      ∷ insn 0x95 r0 r0 (pos 0) (pos 0)
      ∷ [])

-- The instructions of `generate_trace_entry_tid`.
abbrev pub trace_entry_tid_insns : ℤ → ℤ → List BpfInsn
trace_entry_tid_insns tid fd3 = tid_head tid ++ tid_tail fd3

-- `generate_trace_entry_tid` stores them into the caller's array.
unfoldable pub generate_trace_entry_tid : List BpfInsn → ℤ → ℤ → Option (List BpfInsn)
generate_trace_entry_tid instructions tid fd3 =
    store_all instructions (trace_entry_tid_insns tid fd3)

-- The instructions 0 to 15, with the test of the process.
abbrev pub pid_head : ℤ → List BpfInsn
pid_head pid =
    (insn 0x79 r7 r1 (pos 104) (pos 0)
      ∷ insn 0xb7 r1 r0 (pos 0) (pos 0)
      ∷ insn 0x7b r10 r1 (neg 8) (pos 0)
      ∷ insn 0x7b r10 r1 (neg 16) (pos 0)
      ∷ insn 0x7b r10 r1 (neg 24) (pos 0)
      ∷ insn 0x7b r10 r1 (neg 32) (pos 0)
      ∷ insn 0x85 r0 r0 (pos 0) (pos 14)
      ∷ insn 0xbf r6 r0 (pos 0) (pos 0)
      ∷ insn 0x7b r10 r6 (neg 40) (pos 0)
      ∷ insn 0x18 r1 r0 (pos 0) (pos 0)
      ∷ insn 0x0 r0 r0 (pos 0) (neg 1)
      ∷ insn 0xbf r2 r6 (pos 0) (pos 0)
      ∷ insn 0x5f r2 r1 (pos 0) (pos 0)
      ∷ insn 0x18 r1 r0 (pos 0) (pos 0)
      ∷ insn 0x0 r0 r0 (pos 0) pid
      ∷ insn 0x5d r2 r1 (pos 17) (pos 0)
      ∷ [])

-- The instructions 16 to 34.
abbrev pub pid_tail : ℤ → List BpfInsn
pid_tail fd3 =
    (insn 0xbf r1 r10 (pos 0) (pos 0)
      ∷ insn 0x7 r1 r0 (pos 0) (neg 24)
      ∷ insn 0xb7 r2 r0 (pos 0) (pos 16)
      ∷ insn 0x85 r0 r0 (pos 0) (pos 16)
      ∷ insn 0x67 r0 r0 (pos 0) (pos 32)
      ∷ insn 0x77 r0 r0 (pos 0) (pos 32)
      ∷ insn 0x55 r0 r0 (pos 10) (pos 0)
      ∷ insn 0x7b r10 r7 (neg 8) (pos 0)
      ∷ insn 0x7b r10 r6 (neg 32) (pos 0)
      ∷ insn 0x18 r1 r1 (pos 0) fd3
      ∷ insn 0x0 r0 r0 (pos 0) (pos 0)
      ∷ insn 0xbf r2 r10 (pos 0) (pos 0)
      ∷ insn 0x7 r2 r0 (pos 0) (neg 40)
      ∷ insn 0xbf r3 r10 (pos 0) (pos 0)
      ∷ insn 0x7 r3 r0 (pos 0) (neg 32)
      ∷ insn 0xb7 r4 r0 (pos 0) (pos 0)
      ∷ insn 0x85 r0 r0 (pos 0) (pos 2)
      ∷ insn 0xb7 r0 r0 (pos 0) (pos 0)
      ∷ insn 0x95 r0 r0 (pos 0) (pos 0)
      ∷ [])

-- The instructions of `generate_trace_entry_pid`.
abbrev pub trace_entry_pid_insns : ℤ → ℤ → List BpfInsn
trace_entry_pid_insns pid fd3 = pid_head pid ++ pid_tail fd3

-- `generate_trace_entry_pid` stores them into the caller's array.
unfoldable pub generate_trace_entry_pid : List BpfInsn → ℤ → ℤ → Option (List BpfInsn)
generate_trace_entry_pid instructions pid fd3 =
    store_all instructions (trace_entry_pid_insns pid fd3)
