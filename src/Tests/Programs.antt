-- ===== src/Tests/Programs.antt =====
-- The programs in the kernel of the tests.
use rust_ebpf_demo.Prelude.{ℕ, ◌+◌, ◌-◌, ◌^◌, leb, false, ◌≡◌, refl, some, List, [], ◌∷◌, arith}
use rust_ebpf_demo.Prelude.Int.{pos, neg}
use rust_ebpf_demo.Bpf.Insn.{BpfInsn, insn}
use rust_ebpf_demo.Bpf.Vm.{run}
use rust_ebpf_demo.Bpf.Encode.{encode_insn, parse_instruction}
use rust_ebpf_demo.Hello.Program.{prog, kprobe_sys_clone, run-prog}
use rust_ebpf_demo.Probe.Layout.{info_map}
use rust_ebpf_demo.Probe.Source.{all, only_tid, only_pid, trace_entry, trace_return}
use rust_ebpf_demo.Probe.Bytecode.Entry.{
  trace_entry_insns, trace_entry_tid_insns, trace_entry_pid_insns,
}
use rust_ebpf_demo.Probe.Bytecode.Return.{trace_return_insns}
use rust_ebpf_demo.Probe.Entry.{run-trace_entry, run-trace_entry_tid, run-trace_entry_pid}
use rust_ebpf_demo.Probe.Return.{run-trace_return}
use rust_ebpf_demo.Snoop.Args.{Options, defaults}
use rust_ebpf_demo.Snoop.Program.{entry_program, return_program}
use rust_ebpf_demo.Snoop.Program.Correct.{Does, entry_program-Does, return_program-Does}
use rust_ebpf_demo.Probe.Session.{byte_at}
use rust_ebpf_demo.Snoop.Program.Printed.{Stands, Prints, opened, programs-Prints}
use rust_ebpf_demo.Snoop.Program.Session.{Reports, programs-Reports}
use rust_ebpf_demo.Tests.World.{view, kernel-Serves, kernel, quiet, regs, blank, path_name}

run-prog_example : run kernel info_map regs prog quiet ≡ kprobe_sys_clone kernel quiet
run-prog_example = run-prog kernel info_map regs quiet

run-trace_entry_example :
    run kernel info_map regs (trace_entry_insns (pos 3)) quiet
    ≡ trace_entry kernel regs all (pos 3) quiet
run-trace_entry_example = run-trace_entry kernel regs (pos 3) quiet

run-trace_entry_tid_example :
    run kernel info_map regs (trace_entry_tid_insns (pos 43) (pos 3)) quiet
    ≡ trace_entry kernel regs (only_tid 43) (pos 3) quiet
run-trace_entry_tid_example = run-trace_entry_tid kernel regs (pos 3) quiet 43 (omega arith)

run-trace_entry_pid_example :
    run kernel info_map regs (trace_entry_pid_insns (pos 42) (pos 3)) quiet
    ≡ trace_entry kernel regs (only_pid 42) (pos 3) quiet
run-trace_entry_pid_example = run-trace_entry_pid kernel regs (pos 3) quiet 42 (omega arith)

run-trace_return_example :
    run kernel info_map regs (trace_return_insns (pos 3) (pos 4)) quiet
    ≡ trace_return kernel regs (pos 3) (pos 4) quiet
run-trace_return_example = run-trace_return kernel regs (pos 3) (pos 4) quiet

abbrev of_process : Options
of_process = record defaults { pid = pos 42 }

entry_program-Does_example :
    Does kernel regs quiet (only_pid 42) (pos 3) (entry_program of_process (pos 3) (blank 35))
entry_program-Does_example =
    entry_program-Does kernel regs quiet (blank 35) (pos 3) of_process refl
      (record { pid = omega arith; tid = refl; duration = refl })

return_program-Does_example :
    (p : List BpfInsn) × (return_program (pos 3) (pos 4) (blank 82) ≡ some p)
    × (run kernel info_map regs p quiet ≡ trace_return kernel regs (pos 3) (pos 4) quiet)
return_program-Does_example = return_program-Does kernel regs quiet (blank 82) (pos 3) (pos 4) refl

programs-Reports_example :
    (entry : List BpfInsn) × (return : List BpfInsn) × (entry_program of_process (pos 3) (blank 35)
      ≡ some entry)
    × (return_program (pos 3) (pos 4) (blank 82) ≡ some return)
    × Reports view kernel kernel-Serves (pos 3) (pos 4) regs regs quiet entry return
programs-Reports_example =
    programs-Reports view kernel kernel-Serves (pos 3) (pos 4) (blank 35) (blank 82) of_process regs
      regs quiet refl refl (record { pid = omega arith; tid = refl; duration = refl }) refl refl
      (omega arith)

-- The instruction of c/write_bpf_insn.c, where the offset 0xcafe is a negative number.
abbrev instruction : BpfInsn
instruction = insn 0x18 0x0e 0x07 (neg 13570) (pos 0x7220_6d6f)

-- The bytes that its comment shows.
abbrev shown : List ℕ
shown = 0x18 ∷ 0x7e ∷ 0xfe ∷ 0xca ∷ 0x6f ∷ 0x6d ∷ 0x20 ∷ 0x72 ∷ []

encode_insn-instruction : encode_insn instruction ≡ shown
encode_insn-instruction = refl

parse_instruction-shown : parse_instruction shown ≡ instruction
parse_instruction-shown = refl

path-Stands : Stands view quiet 8192 (byte_at path_name)
path-Stands s' i same lt =
    let low : leb (2 ^ 70) (8192 + i) ≡ false = ground arith in
    let index : 8192 + i - 8192 ≡ i = omega arith in rw (low, index) refl

-- The open of "/tmp" by the process 42 gave the descriptor 5.
programs-Prints_example :
    (entry : List BpfInsn) × (return : List BpfInsn) × (entry_program of_process (pos 3) (blank 35)
      ≡ some entry)
    × (return_program (pos 3) (pos 4) (blank 82) ≡ some return)
    × Prints view kernel kernel-Serves
        (pos 3)
        (pos 4)
        regs
        regs
        (byte_at path_name)
        quiet
        of_process
        0
        (pos 5)
        (pos 0)
        entry
        return
programs-Prints_example =
    programs-Prints view kernel kernel-Serves (pos 3) (pos 4) (blank 35) (blank 82) of_process regs
      regs (byte_at path_name) quiet 0 (pos 5) (pos 0) refl refl
      (record { pid = omega arith; tid = refl; duration = refl }) refl refl (omega arith)
      (omega arith) path-Stands (opened 5 (omega arith)) refl
