-- ===== src/Snoop/Main/Setup/Failure.antt =====
-- What the label `error` does when the setup of the probes fails: the cleanup uses a variable that has
-- no value.
use rust_ebpf_demo.Prelude.{
  ℕ, ◌≡◌, ◌≢◌, ◌⊎◌, refl, ap, inl, inr, Bool, true, false, Option, none, some, List, [], ◌∷◌,
  if◌then◌else◌, length, replicate,
}
use rust_ebpf_demo.Prelude.Int.{ℤ}
use rust_ebpf_demo.Bpf.Insn.{BpfInsn}
use rust_ebpf_demo.Snoop.Args.{Options, is_unset}
use rust_ebpf_demo.Snoop.Cpus.{CpuOutcome, online, failed, get_online_cpus}
use rust_ebpf_demo.Snoop.Program.{entry_program, return_program}
use rust_ebpf_demo.Snoop.Main.State.{
  Replies, Call, Locals, initial, num_in, num_cpu, next, error, called, print_log, Run,
}
use rust_ebpf_demo.Snoop.Main.Release.{free_all_readers, close_all, cleanup, on_error}
use rust_ebpf_demo.Snoop.Main.Setup.Post.{Post, goes, fails, stops, Post-bind, Post-if, Post-error}
use rust_ebpf_demo.Snoop.Main.Setup.{
  is_neg, take_cpus, get_cpus, allocate_readers, create_hash_map, create_events_map, load_entry_as,
  load_entry, attach_entry, load_return_as, load_return, attach_return, setup_probes,
}

-- `kretprobeFd` has no value, or the first reader has none.
abbrev NoProbe : Locals → Type 0
NoProbe l = l.kretprobe_fd ≡ none

abbrev NoReader : Locals → Type 0
NoReader l = (slots : List (Option ℕ)) × (l.readers ≡ some (none ∷ slots))

abbrev IsDoomed : Locals → Type 0
IsDoomed l = NoProbe l ⊎ NoReader l

abbrev HasCpu : Locals → Type 0
HasCpu l = NoProbe l × (c : ℤ) × (cs : List ℤ) × (l.cpus ≡ some (c ∷ cs))

abbrev IsBare : Locals → Type 0
IsBare l = NoProbe l × NoReader l

module _ (o : Options) (env : Replies) where
  take_cpus-HasCpu : (r : CpuOutcome) → r ≢ online [] → Post HasCpu IsDoomed (take_cpus r initial)
  unfolding take_cpus
  take_cpus-HasCpu (online []) h = absurd (h refl)
  take_cpus-HasCpu (online (c ∷ cs)) h = goes (refl, c, cs, refl)
  take_cpus-HasCpu (failed true) h = fails (inl refl)
  take_cpus-HasCpu (failed false) h = fails (inl refl)
  take_cpus-HasCpu CpuOutcome.undefined h = stops

  allocate_readers-IsBare :
      (l : Locals) → HasCpu l → Post IsBare IsDoomed (allocate_readers o env l)
  unfolding allocate_readers
  allocate_readers-IsBare l (none_yet, c, cs, e) = go env.readers_allocated
    where
      slots : replicate {A = Option ℕ} (num_cpu l) none ≡ none ∷ replicate (length cs) none
      slots = ap (λ cpus. replicate {A = Option ℕ} (num_in cpus) none) e

      go :
          (b : Bool)
          → Post IsBare IsDoomed (
              if b
              then next (record l { readers = some (replicate (num_cpu l) none) })
              else error l)
      go true = goes (none_yet, (replicate (length cs) none, ap some slots))
      go false = fails (inl none_yet)

  create_hash_map-IsBare : (l : Locals) → IsBare l → Post IsBare IsDoomed (create_hash_map o env l)
  unfolding create_hash_map
  create_hash_map-IsBare l h = Post-if (is_neg env.hash_map) _ _ (inl h.0) h

  create_events_map-IsBare :
      (l : Locals) → IsBare l → Post IsBare IsDoomed (create_events_map o env l)
  unfolding create_events_map
  create_events_map-IsBare l h = Post-if (is_neg env.events_map) _ _ (inl h.0) h

  load_entry-IsBare : (l : Locals) → IsBare l → Post IsBare IsDoomed (load_entry o env l)
  unfolding load_entry
  load_entry-IsBare l h = go (entry_program o l.hash_map_fd env.entry_array)
    where
      go : (p : Option (List BpfInsn)) → Post IsBare IsDoomed (load_entry_as o env p l)
      go none = stops
      go (some prog) = Post-if (is_unset env.entry_prog) _ _ (inl h.0) h

  attach_entry-IsBare : (l : Locals) → IsBare l → Post IsBare IsDoomed (attach_entry o env l)
  unfolding attach_entry
  attach_entry-IsBare l h = Post-if (is_neg env.kprobe) _ _ (inl h.0) h

  load_return-IsBare : (l : Locals) → IsBare l → Post IsBare IsDoomed (load_return o env l)
  unfolding load_return
  load_return-IsBare l h = go (return_program l.hash_map_fd l.events_map_fd env.return_array)
    where
      go : (p : Option (List BpfInsn)) → Post IsBare IsDoomed (load_return_as o env p l)
      go none = stops
      go (some prog) = Post-if (is_unset env.return_prog) _ _ (inl h.0) h

  attach_return-NoReader : (l : Locals) → IsBare l → Post NoReader IsDoomed (attach_return o env l)
  unfolding attach_return
  attach_return-NoReader l h = Post-if (is_neg env.kretprobe) _ _ (inr h.1) h.1

  setup_probes-IsDoomed :
      (get_online_cpus env.sysfs).outcome ≢ online [] → Post NoReader IsDoomed (setup_probes o env)
  unfolding setup_probes get_cpus
  setup_probes-IsDoomed h = Post-bind (take_cpus-HasCpu _ h) λ l₁ h₁.
      Post-bind (allocate_readers-IsBare l₁ h₁) λ l₂ h₂.
        Post-bind (create_hash_map-IsBare l₂ h₂) λ l₃ h₃.
          Post-bind (create_events_map-IsBare l₃ h₃) λ l₄ h₄.
            Post-bind (load_entry-IsBare l₄ h₄) λ l₅ h₅.
              Post-bind (attach_entry-IsBare l₅ h₅)
                λ l₆ h₆. Post-bind (load_return-IsBare l₆ h₆) λ l₇ h₇. attach_return-NoReader l₇ h₇

  close_all-NoProbe :
      (r : Option (List Call)) (code : ℕ) (l : Locals)
      → NoProbe l
      → close_all o r code l ≡ Run.undefined
  close_all-NoProbe none code l h = refl
  close_all-NoProbe (some calls) code l h = rw h

  cleanup-IsDoomed : (code : ℕ) (l : Locals) → IsDoomed l → cleanup o code l ≡ Run.undefined
  unfolding cleanup
  cleanup-IsDoomed code l (inl h) = close_all-NoProbe (free_all_readers l.readers l.calls) code l h
  cleanup-IsDoomed code l (inr (slots, e)) =
      ap (λ r. close_all o (free_all_readers r l.calls) code l) e

  logged-IsDoomed :
      (b : Bool) (l : Locals) → IsDoomed l → IsDoomed (if b then called print_log l else l)
  logged-IsDoomed true l h = h
  logged-IsDoomed false l h = h

  -- If the setup of the probes fails, whichever call it is, with a list of processors that is not
  -- empty, what follows at the label `error` is undefined: the cleanup goes through an array of readers
  -- that was not filled, or tests `kretprobeFd`, which has no value.
  pub on_error-undefined :
      (l : Locals)
      → (get_online_cpus env.sysfs).outcome ≢ online []
      → setup_probes o env ≡ error l
      → on_error o l ≡ Run.undefined
  unfolding on_error
  on_error-undefined l h e =
      cleanup-IsDoomed 1 _
        (logged-IsDoomed l.logged l (Post-error (rw e at (setup_probes-IsDoomed h))))
