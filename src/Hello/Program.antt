-- ===== src/Hello/Program.antt =====
-- The program that c/load-bpf.c loads, and the function of src/lib.rs that prints the same line.
use rust_ebpf_demo.Prelude.{ℕ, List, [], ◌∷◌, ◌≡◌, refl}
use rust_ebpf_demo.Prelude.Int.{pos, neg}
use rust_ebpf_demo.Bpf.Insn.{BpfInsn, insn, r0, r1, r2, r10}
use rust_ebpf_demo.Bpf.Kernel.{Kernel, MapSpec}
use rust_ebpf_demo.Bpf.Vm.{run}
use rust_ebpf_demo.Bpf.Machine.{Outcome, exited}

-- `prog` in `main` of c/load-bpf.c
abbrev pub prog : List BpfInsn
prog =
    (insn 0x18 r1 r0 (pos 0) (pos 1914727791)
      ∷ insn 0x00 r0 r0 (pos 0) (pos 175403893)
      ∷ insn 0x7b r10 r1 (neg 24) (pos 0)
      ∷ insn 0x18 r1 r0 (pos 0) (pos 1819043176)
      ∷ insn 0x00 r0 r0 (pos 0) (pos 1919295599)
      ∷ insn 0x7b r10 r1 (neg 32) (pos 0)
      ∷ insn 0xb7 r1 r0 (pos 0) (pos 0)
      ∷ insn 0x73 r10 r1 (neg 16) (pos 0)
      ∷ insn 0xbf r1 r10 (pos 0) (pos 0)
      ∷ insn 0x07 r1 r0 (pos 0) (neg 32)
      ∷ insn 0xb7 r2 r0 (pos 0) (pos 17)
      ∷ insn 0x85 r0 r0 (pos 0) (pos 6)
      ∷ insn 0xb7 r0 r0 (pos 0) (pos 0)
      ∷ insn 0x95 r0 r0 (pos 0) (pos 0)
      ∷ [])

-- `msg` in src/lib.rs
abbrev pub msg : List ℕ
msg =
    104 ∷ 101 ∷ 108 ∷ 108 ∷ 111 ∷ 32 ∷ 102 ∷ 114 ∷ 111 ∷ 109 ∷ 32 ∷ 114 ∷ 117 ∷ 115 ∷ 116 ∷ 10 ∷ 0
    ∷ []

module _ {S : Type 0} (k : Kernel S) where
  -- `kprobe__sys_clone` of src/lib.rs: one call of `trace_printk`, and the result 0.
  unfoldable pub kprobe_sys_clone : S → Outcome S
  kprobe_sys_clone s = exited 0 (k.trace_printk msg s).state

  -- The bytecode that c/load-bpf.c loads does what the function of src/lib.rs does: it prints the
  -- message, with the final zero, and exits with 0, whatever the kernel.
  pub run-prog : (hash : MapSpec) (arg : ℕ → ℕ) (s : S) → run k hash arg prog s ≡ kprobe_sys_clone s
  unfolding run kprobe_sys_clone
  run-prog hash arg s = refl
