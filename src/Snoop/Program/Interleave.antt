-- ===== src/Snoop/Program/Interleave.antt =====
-- The two programs that `main` loads, in any order of any tasks.
use mathlib.Core.Path.{subst}
use rust_ebpf_demo.Prelude.{ℕ, ◌^◌, ◌<◌, ◌≡◌, refl, sym, ap, ◌∙◌, some, Bool, List, length}
use rust_ebpf_demo.Prelude.Int.{ℤ}
use rust_ebpf_demo.Bpf.Insn.{BpfInsn}
use rust_ebpf_demo.Bpf.Kernel.{Kernel}
use rust_ebpf_demo.Bpf.Vm.{run}
use rust_ebpf_demo.Bpf.Machine.{exited}
use rust_ebpf_demo.Probe.Layout.{info_map}
use rust_ebpf_demo.Probe.Source.{filename}
use rust_ebpf_demo.Probe.Bytecode.{num_trace_return_instructions, max_num_trace_entry_instructions}
use rust_ebpf_demo.Probe.Session.{View, Serves}
use rust_ebpf_demo.Probe.Session.Calls.{Call}
use rust_ebpf_demo.Probe.Session.Interleave.{
  Probes, Follow, Reach, IsFresh, IsReported, Reach-IsReported, Reach-exited,
}
use rust_ebpf_demo.Snoop.Args.{Options, Got, defaults, go_on, parse_args}
use rust_ebpf_demo.Snoop.Args.Settings.{IsValid, IsSafe, parse_args-IsSafe}
use rust_ebpf_demo.Snoop.Program.{entry_program, return_program, filter_of}
use rust_ebpf_demo.Snoop.Program.Correct.{entry_program-Does, return_program-Does}

-- The runs of two loaded programs.
abbrev pub runs : {S : Type 0} → Kernel S → List BpfInsn → List BpfInsn → Probes S
runs k entry return = record {
  enters = λ arg s. run k info_map arg entry s;
  leaves = λ arg s. run k info_map arg return s;
}

some-injective {ℓ} : {A : Type ℓ} {x y : A} → some x ≡ some y → x ≡ y
some-injective e = cc

-- `main` has loaded these two programs, for valid options, from arrays of 35 and 82 instructions.
pub record IsLoaded (o : Options) (infotmp events : ℤ) (entry return : List BpfInsn) : Type 0 where
  pub array : List BpfInsn
  pub array' : List BpfInsn
  pub room : length array ≡ max_num_trace_entry_instructions
  pub room' : length array' ≡ num_trace_return_instructions
  pub valid : IsValid o
  pub entry_loaded : entry_program o infotmp array ≡ some entry
  pub return_loaded : return_program infotmp events array' ≡ some return

-- Options that the parser gives are valid.
pub parse_args-IsLoaded :
    (allocates : ℕ → Bool) (args : List Got) (o : Options) (infotmp events : ℤ)
    (array array' entry return : List BpfInsn)
    → parse_args allocates defaults args ≡ go_on o
    → length array ≡ max_num_trace_entry_instructions
    → length array' ≡ num_trace_return_instructions
    → entry_program o infotmp array ≡ some entry
    → return_program infotmp events array' ≡ some return
    → IsLoaded o infotmp events entry return
parse_args-IsLoaded allocates args o infotmp events array array' entry return parsed room room'
      entry_loads return_loads =
    record {
      array = array;
      array' = array';
      room = room;
      room' = room';
      valid = valid;
      entry_loaded = entry_loads;
      return_loaded = return_loads;
    }
  where
    valid : IsValid o
    valid = subst IsSafe parsed (
        parse_args-IsSafe allocates defaults args
          (record { pid = refl; tid = refl; duration = refl }))

module _ {S : Type 0} (w : View S) (k : Kernel S) (serves : Serves w k) (infotmp events : ℤ) where
  runs-Follow :
      (o : Options) (entry return : List BpfInsn)
      → IsLoaded o infotmp events entry return
      → Follow w k serves infotmp events (filter_of o) (runs k entry return)
  runs-Follow o entry return loaded = record {
    enters = λ arg s.
        let (prog, loads, does) =
          entry_program-Does k arg s loaded.array infotmp o loaded.room loaded.valid in
        ap (λ p. run k info_map arg p s) (some-injective (sym loaded.entry_loaded ∙ loads)) ∙ does;
    leaves = λ arg s.
        let (prog, loads, does) =
          return_program-Does k arg s loaded.array' infotmp events loaded.room' in
        ap (λ p. run k info_map arg p s) (some-injective (sym loaded.return_loaded ∙ loads)) ∙ does;
  }

  -- For helpers that do what their manual says and the two programs that `main` loads for valid options:
  -- from a state in which nothing is noted and no event was handed over, whatever tasks enter open() and
  -- return from it, in whatever order, with addresses that are 64-bit words, the events that were handed
  -- over are those of a log of records whose fields are values of their types, in which the events of each
  -- task are those that its own calls alone would give; and the map holds for each task what its own
  -- calls alone would leave there. An open() that is filtered out, or begins when the map, which all tasks
  -- share, has no room for it, counts in this as one that notes nothing.
  pub programs-IsReported :
      (o : Options) (entry return : List BpfInsn) (s₀ s : S) (cs : List Call)
      → IsLoaded o infotmp events entry return
      → IsFresh w infotmp s₀
      → Reach w k serves infotmp events (filter_of o) (runs k entry return) s₀ cs s
      → IsReported w infotmp cs s
  programs-IsReported o entry return s₀ s cs loaded fresh reach =
      Reach-IsReported w k serves infotmp events (filter_of o) (runs k entry return)
        (runs-Follow o entry return loaded) s₀ s cs fresh reach

  -- For helpers that do what their manual says and the two programs that `main` loads for valid options,
  -- in every state that tasks can reach by entering open() and returning from it, in whatever order, from
  -- one in which nothing is noted and no event was handed over: a run of either program exits with 0, so
  -- that it neither faults nor runs out of fuel, if the file name's address is a 64-bit word.
  pub programs-exited :
      (o : Options) (entry return : List BpfInsn) (s₀ s : S) (cs : List Call) (arg : ℕ → ℕ)
      → IsLoaded o infotmp events entry return
      → IsFresh w infotmp s₀
      → Reach w k serves infotmp events (filter_of o) (runs k entry return) s₀ cs s
      → filename arg < 2 ^ 64
      → ((s' : S) × (run k info_map arg entry s ≡ exited 0 s'))
        × ((s' : S) × (run k info_map arg return s ≡ exited 0 s'))
  programs-exited o entry return s₀ s cs arg loaded fresh reach small =
      Reach-exited w k serves infotmp events (filter_of o) (runs k entry return)
        (runs-Follow o entry return loaded) s₀ s cs arg fresh reach small
