-- ===== src/Probe/Entry.antt =====
-- The bytecode for the entry of `do_sys_open` does what its C source says.
use Prim.Native.Nat.{bit_and}
use rust_ebpf_demo.Prelude.{
  ℕ, ◌<◌, ◌+◌, ◌*◌, ◌/◌, ◌%◌, ◌^◌, ◌≡◌, refl, Bool, ◌==◌, if◌then◌else◌, arith, if_congr, ap, ◌∙◌,
  not, sym, if-not,
}
use rust_ebpf_demo.Prelude.Int.{ℤ, pos}
use rust_ebpf_demo.Bpf.Kernel.{Kernel, Answer, Filled}
use rust_ebpf_demo.Bpf.Bits.{low_half-eq, high_half}
use rust_ebpf_demo.Bpf.Vm.{run}
use rust_ebpf_demo.Bpf.Machine.{Outcome, exited}
use rust_ebpf_demo.Probe.Layout.{info_map}
use rust_ebpf_demo.Probe.Source.{all, only_tid, only_pid, trace_entry, note_entry, record_entry}
use rust_ebpf_demo.Probe.Bytecode.Entry.{
  trace_entry_insns, trace_entry_tid_insns, trace_entry_pid_insns,
}

-- An immediate that is an `int` and not negative is its own 64-bit pattern.
word-pos : (n : ℕ) → n < 2 ^ 31 → n % 2 ^ 64 ≡ n
word-pos n h = omega arith

-- The same of an immediate in the upper half of a 64-bit word.
pid_test :
    (id pid : ℕ)
    → pid < 2 ^ 31
    → (bit_and id 0xffff_ffff_0000_0000 == 0 + 2 ^ 32 * (pid % 2 ^ 32))
      ≡ (id / 2 ^ 32 % 2 ^ 32 == pid)
pid_test id pid h = rw high_half (ground arith)

module _ {S : Type 0} (k : Kernel S) (arg : ℕ → ℕ) (fd : ℤ) (s : S) where
  abbrev id : Answer S
  id = k.get_current_pid_tgid s

  abbrev comm : Filled S
  comm = k.get_current_comm 16 id.state

  abbrev recorded : Outcome S
  unfolding note_entry
  recorded = note_entry k arg fd id.value comm (comm.value * 2 ^ 32 % 2 ^ 64 / 2 ^ 32 == 0)

  record_entry_lem : recorded ≡ record_entry k arg fd id
  unfolding record_entry
  record_entry_lem = ap (note_entry k arg fd id.value comm) (low_half-eq comm.value 0)

  filtered :
      {b c : Bool}
      → b ≡ c
      → (if b then recorded else exited 0 id.state)
        ≡ (if not c then exited 0 id.state else record_entry k arg fd id)
  filtered {c} e =
      if_congr e record_entry_lem refl
      ∙ sym (if-not c (record_entry k arg fd id) (exited 0 id.state))

  -- Without a filter, a run of the bytecode for the entry ends as `trace_entry` does, with the same
  -- result and the same calls of helpers, whatever the kernel, its state and the descriptor.
  pub run-trace_entry : run k info_map arg (trace_entry_insns fd) s ≡ trace_entry k arg all fd s
  unfolding run trace_entry
  run-trace_entry = record_entry_lem

  -- For a thread, a non-negative `int`, a run of the bytecode ends as `trace_entry` does with the filter
  -- on that thread.
  pub run-trace_entry_tid :
      (tid : ℕ)
      → tid < 2 ^ 31
      → run k info_map arg (trace_entry_tid_insns (pos tid) fd) s
        ≡ trace_entry k arg (only_tid tid) fd s
  unfolding run trace_entry
  run-trace_entry_tid tid h = filtered (
      ap (λ n. id.value * 2 ^ 32 % 2 ^ 64 / 2 ^ 32 == n) (word-pos tid h)
      ∙ low_half-eq id.value tid)

  -- For a process, a non-negative `int`, a run of the bytecode ends as `trace_entry` does with the
  -- filter on that process.
  pub run-trace_entry_pid :
      (pid : ℕ)
      → pid < 2 ^ 31
      → run k info_map arg (trace_entry_pid_insns (pos pid) fd) s
        ≡ trace_entry k arg (only_pid pid) fd s
  unfolding run trace_entry
  run-trace_entry_pid pid h = filtered (pid_test id.value pid h)
