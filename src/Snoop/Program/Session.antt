-- ===== src/Snoop/Program/Session.antt =====
-- The two programs that `main` loads, run one after the other.
use rust_ebpf_demo.Prelude.{
  ℕ, ◌^◌, ◌<◌, ◌≡◌, sym, ap, ◌∙◌, false, true, none, some, List, ◌∷◌, length,
}
use rust_ebpf_demo.Prelude.Int.{ℤ}
use rust_ebpf_demo.Bpf.Insn.{BpfInsn}
use rust_ebpf_demo.Bpf.Kernel.{Kernel}
use rust_ebpf_demo.Bpf.Vm.{run}
use rust_ebpf_demo.Bpf.Machine.{exited}
use rust_ebpf_demo.Probe.Layout.{info_map, encode_data}
use rust_ebpf_demo.Probe.Source.{skips, filename}
use rust_ebpf_demo.Probe.Bytecode.{num_trace_return_instructions, max_num_trace_entry_instructions}
use rust_ebpf_demo.Probe.Session.{View, Serves}
use rust_ebpf_demo.Probe.Session.Whole.{
  note, event_for, now, trace_entry-noted, trace_return-reported,
}
use rust_ebpf_demo.Snoop.Args.{Options}
use rust_ebpf_demo.Snoop.Args.Settings.{IsValid}
use rust_ebpf_demo.Snoop.Program.{entry_program, return_program, filter_of}
use rust_ebpf_demo.Snoop.Program.Correct.{entry_program-Does, return_program-Does}

module _ {S : Type 0} (w : View S) (k : Kernel S) (serves : Serves w k) (infotmp events : ℤ) where
  -- A call of open() by a task that the options do not filter out: the program for the entry runs with
  -- the registers `arg`, and then, in the state that it leaves, the one for the return with `arg'`.
  -- The same task runs then. One
  -- event was handed over, and the map has no entry for the task.
  abbrev pub Reports : (ℕ → ℕ) → (ℕ → ℕ) → S → List BpfInsn → List BpfInsn → Type 0
  Reports arg arg' s entry return =
      (s₁ : S) × (s₂ : S) × (run k info_map arg entry s ≡ exited 0 s₁)
      × (run k info_map arg' return s₁ ≡ exited 0 s₂)
      × (w.task s₁ ≡ w.task s)
      × (w.sent s₂
          ≡ encode_data (
              event_for w k serves arg' infotmp s₁ (note w k serves arg infotmp s)
                (now w k serves arg' infotmp s₁))
            ∷ w.sent s)
      × (w.entry s₂ infotmp (w.task s) ≡ none)

  -- For helpers that do what their manual says, valid options, arrays of 35 and 82 instructions with
  -- whatever stood in them, a task that the options do not filter out, room in the map, and a file name's
  -- address that is a 64-bit word, `main` loads two programs that report the call: run one after the
  -- other, they exit with 0 and hand over one event, which has the id and the process name of the task
  -- at the entry, the result of the call, and what is read at the return from the address that was the
  -- file name's at the entry; and the map has no entry for the task.
  pub programs-Reports :
      (array array' : List BpfInsn) (o : Options) (arg arg' : ℕ → ℕ) (s : S)
      → length array ≡ max_num_trace_entry_instructions
      → length array' ≡ num_trace_return_instructions
      → IsValid o
      → skips (filter_of o) (w.task s) ≡ false
      → w.room s infotmp (w.task s) ≡ true
      → filename arg < 2 ^ 64
      → (entry : List BpfInsn) × (return : List BpfInsn) × (entry_program o infotmp array
          ≡ some entry)
        × (return_program infotmp events array' ≡ some return)
        × Reports arg arg' s entry return
  programs-Reports array array' o arg arg' s len len' v passes room small =
      let (entry, loads, enters) = entry_program-Does k arg s array infotmp o len v in
      let (s₁, noted, task, sent, held, others) =
        trace_entry-noted w k serves arg infotmp (filter_of o) s passes room in
      let (return, loads', leaves) = return_program-Does k arg' s₁ array' infotmp events len' in
      let ts = now w k serves arg' infotmp s₁ in
      let val = note w k serves arg infotmp s in
      let held' = ap (w.entry s₁ infotmp) task ∙ held in
      let (s₂, reported, event, gone, others') =
        trace_return-reported w k serves arg' infotmp events s₁ val (serves.pid_word s) small
          held' in
      (
        entry,
        return,
        loads,
        loads',
        (
          s₁,
          s₂,
          enters ∙ noted,
          leaves ∙ reported,
          task,
          event ∙ ap (λ l. encode_data (event_for w k serves arg' infotmp s₁ val ts) ∷ l) sent,
          ap (w.entry s₂ infotmp) (sym task) ∙ gone,
        ),
      )
