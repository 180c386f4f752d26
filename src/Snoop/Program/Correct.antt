-- ===== src/Snoop/Program/Correct.antt =====
-- What `main` loads is what the generators say, and it does what the C source of the probes says.
use rust_ebpf_demo.Prelude.{
  ℕ, ◌≡◌, refl, ap, Option, some, List, [], ◌∷◌, ◌++◌, ◌≤◌, take, length, arith,
}
use rust_ebpf_demo.Prelude.Int.{ℤ, pos, negsuc}
use rust_ebpf_demo.Bpf.Insn.{BpfInsn}
use rust_ebpf_demo.Bpf.Kernel.{Kernel}
use rust_ebpf_demo.Bpf.Vm.{run}
use rust_ebpf_demo.Probe.Layout.{info_map}
use rust_ebpf_demo.Probe.Bytecode.{num_trace_return_instructions, max_num_trace_entry_instructions}
use rust_ebpf_demo.Probe.Bytecode.Store.{store_all, store_all-append-drop}
use rust_ebpf_demo.Probe.Bytecode.Entry.{
  generate_trace_entry, generate_trace_entry_tid, generate_trace_entry_pid, trace_entry_insns,
  trace_entry_tid_insns, trace_entry_pid_insns,
}
use rust_ebpf_demo.Probe.Bytecode.Return.{generate_trace_return, trace_return_insns}
use rust_ebpf_demo.Probe.Source.{Filter, trace_entry, trace_return}
use rust_ebpf_demo.Probe.Entry.{run-trace_entry, run-trace_entry_tid, run-trace_entry_pid}
use rust_ebpf_demo.Probe.Return.{run-trace_return}
use rust_ebpf_demo.Snoop.Args.{Options}
use rust_ebpf_demo.Snoop.Args.Settings.{IsSetting, IsValid}
use rust_ebpf_demo.Snoop.Program.{loaded, entry_program, return_program, filter_by, filter_of}

take-append {ℓ} : {A : Type ℓ} (xs ys : List A) → take (length xs) (xs ++ ys) ≡ xs
take-append [] ys = refl
take-append (x ∷ xs) ys = ap (λ l. x ∷ l) (take-append xs ys)

loaded-store_all :
    (array xs : List BpfInsn)
    → length xs ≤ length array
    → loaded (length xs) (store_all array xs) ≡ some xs
loaded-store_all array xs h = rw (store_all-append-drop array xs h, take-append)

module _ {S : Type 0} (k : Kernel S) (arg : ℕ → ℕ) (s : S) where
  -- There is a program, and a run of it ends as the C source does with this filter.
  abbrev pub Does : Filter → ℤ → Option (List BpfInsn) → Type 0
  Does filter fd program =
      (prog : List BpfInsn) × (program ≡ some prog)
      × (run k info_map arg prog s ≡ trace_entry k arg filter fd s)

  entry_program-by :
      (array : List BpfInsn) (fd : ℤ) (o : Options) (tid pid : ℤ)
      → length array ≡ max_num_trace_entry_instructions
      → o.tid ≡ tid
      → o.pid ≡ pid
      → IsSetting tid
      → IsSetting pid
      → Does (filter_by tid pid) fd (entry_program o fd array)
  unfolding entry_program generate_trace_entry generate_trace_entry_tid generate_trace_entry_pid
  entry_program-by array fd o (pos t) p room et ep ht hp =
      let prog = trace_entry_tid_insns (pos t) fd in
      (prog, rw et (loaded-store_all array prog (omega arith)), run-trace_entry_tid k arg fd s t ht)
  entry_program-by array fd o (negsuc n) (pos p) room et ep ht hp =
      let prog = trace_entry_pid_insns (pos p) fd in
      (
        prog,
        rw (et, ht, ep) (loaded-store_all array prog (omega arith)),
        run-trace_entry_pid k arg fd s p hp,
      )
  entry_program-by array fd o (negsuc n) (negsuc m) room et ep ht hp =
      let prog = trace_entry_insns fd in
      (
        prog,
        rw (et, ht, ep, hp) (loaded-store_all array prog (omega arith)),
        run-trace_entry k arg fd s,
      )

  -- Whatever the options that the parser can leave, and whatever stands in the array of 35
  -- instructions, the stores stay inside the array, and the program that is loaded does what the C
  -- source does with the filter that the options ask for.
  pub entry_program-Does :
      (array : List BpfInsn) (fd : ℤ) (o : Options)
      → length array ≡ max_num_trace_entry_instructions
      → IsValid o
      → Does (filter_of o) fd (entry_program o fd array)
  entry_program-Does array fd o room v =
      entry_program-by array fd o o.tid o.pid room refl refl v.tid v.pid

  -- Whatever stands in the array of 82 instructions, the stores of the program for the return stay inside
  -- it, and what is loaded does what the C source of the probe does.
  pub return_program-Does :
      (array : List BpfInsn) (infotmp events : ℤ)
      → length array ≡ num_trace_return_instructions
      → (prog : List BpfInsn) × (return_program infotmp events array ≡ some prog)
        × (run k info_map arg prog s ≡ trace_return k arg infotmp events s)
  unfolding return_program generate_trace_return
  return_program-Does array infotmp events room =
      let prog = trace_return_insns infotmp events in
      (prog, loaded-store_all array prog (omega arith), run-trace_return k arg infotmp events s)
