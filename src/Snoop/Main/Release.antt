-- ===== src/Snoop/Main/Release.antt =====
-- The labels `error` and `cleanup` of `main`.
use rust_ebpf_demo.Prelude.{ℕ, Option, none, some, List, [], ◌∷◌, if◌then◌else◌}
use rust_ebpf_demo.Prelude.Int.{ℤ}
use rust_ebpf_demo.Snoop.Args.{Options}
use rust_ebpf_demo.Snoop.Main.State.{
  Call, print_log, free_reader, free_cpus, free_name, Locals, called, Run, exited, close_fd,
}

-- The readers; an element that was never set is used as a pointer.
unfoldable pub free_readers : List (Option ℕ) → List Call → Option (List Call)
free_readers [] calls = some calls
free_readers (none ∷ slots) calls = none
free_readers (some r ∷ slots) calls = free_readers slots (free_reader r ∷ calls)

unfoldable pub free_all_readers : Option (List (Option ℕ)) → List Call → Option (List Call)
unfolding free_readers
free_all_readers none calls = some calls
free_all_readers (some slots) calls = free_readers slots calls

abbrev pub free_if {ℓ} : {A : Type ℓ} → Option A → Call → List Call → List Call
free_if none c calls = calls
free_if (some _) c calls = c ∷ calls

module _ (o : Options) where
  -- The last steps, which use no variable that may be uninitialised.
  abbrev pub free_rest : Locals → List Call → List Call
  free_rest l calls =
      free_if o.name free_name
        (free_if l.cpus free_cpus (close_fd l.hash_map_fd (close_fd l.events_map_fd calls)))

  abbrev pub close_return : Option ℤ → Option ℤ → ℕ → Locals → List Call → Run
  close_return none r code l calls = Run.undefined
  close_return (some k) none code l calls = Run.undefined
  close_return (some k) (some r) code l calls =
      exited code (free_rest l (close_fd r (close_fd k calls)))

  abbrev pub close_all : Option (List Call) → ℕ → Locals → Run
  close_all none code l = Run.undefined
  close_all (some calls) code l =
      close_return l.kretprobe_fd l.return_prog_fd code l
        (close_fd l.entry_prog_fd (close_fd l.kprobe_fd calls))

  -- The label `cleanup`.
  unfoldable pub cleanup : ℕ → Locals → Run
  unfolding free_all_readers
  cleanup code l = close_all (free_all_readers l.readers l.calls) code l

  -- The label `error`: the exit code is still 1.
  unfoldable pub on_error : Locals → Run
  unfolding cleanup
  on_error l = cleanup 1 (if l.logged then called print_log l else l)
