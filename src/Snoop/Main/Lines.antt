-- ===== src/Snoop/Main/Lines.antt =====
-- The lines among the calls: no call of the release prints one.
use rust_ebpf_demo.Prelude.{
  ℕ, Bool, true, false, Option, none, some, List, [], ◌∷◌, Every, if◌then◌else◌,
}
use rust_ebpf_demo.Prelude.Int.{ℤ}
use rust_ebpf_demo.Snoop.Args.{Options, is_unset}
use rust_ebpf_demo.Snoop.Report.{Line}
use rust_ebpf_demo.Snoop.Main.State.{
  Call, print_line, free_reader, print_log, close, free_name, free_cpus, Locals, called, Run,
  exited, close_fd,
}
use rust_ebpf_demo.Snoop.Main.Release.{
  free_readers, free_all_readers, free_if, free_rest, close_return, close_all, cleanup, on_error,
}

module _ (Q : Line → Type 0) where
  -- A call that prints a line prints one with the property.
  abbrev pub Keeps : Call → Type 0
  Keeps (print_line l) = Q l
  Keeps c = Unit

  abbrev pub AllKeep : List Call → Type 0
  AllKeep calls = Every Keeps calls

  abbrev pub RunKeeps : Run → Type 0
  RunKeeps (exited code calls) = AllKeep calls
  RunKeeps Run.undefined = Unit

  abbrev FreedKeeps : Option (List Call) → Type 0
  FreedKeeps none = Unit
  FreedKeeps (some calls) = AllKeep calls

  free_readers-FreedKeeps :
      (slots : List (Option ℕ)) (calls : List Call)
      → AllKeep calls
      → FreedKeeps (free_readers slots calls)
  unfolding free_readers
  free_readers-FreedKeeps [] calls h = h
  free_readers-FreedKeeps (none ∷ slots) calls h = tt
  free_readers-FreedKeeps (some r ∷ slots) calls h =
      free_readers-FreedKeeps slots (free_reader r ∷ calls) (tt, h)

  free_all_readers-FreedKeeps :
      (readers : Option (List (Option ℕ))) (calls : List Call)
      → AllKeep calls
      → FreedKeeps (free_all_readers readers calls)
  unfolding free_all_readers
  free_all_readers-FreedKeeps none calls h = h
  free_all_readers-FreedKeeps (some slots) calls h = free_readers-FreedKeeps slots calls h

  close_fd-AllKeep : (fd : ℤ) (calls : List Call) → AllKeep calls → AllKeep (close_fd fd calls)
  close_fd-AllKeep fd calls h = closed (is_unset fd)
    where
      closed : (b : Bool) → AllKeep (if b then calls else close fd ∷ calls)
      closed true = h
      closed false = (tt, h)

  free_if-AllKeep {ℓ} :
      {A : Type ℓ} (x : Option A) (c : Call) (calls : List Call)
      → Keeps c
      → AllKeep calls
      → AllKeep (free_if x c calls)
  free_if-AllKeep none c calls keeps h = h
  free_if-AllKeep (some x) c calls keeps h = (keeps, h)

  module _ (o : Options) where
    free_rest-AllKeep :
        (l : Locals) (calls : List Call) → AllKeep calls → AllKeep (free_rest o l calls)
    free_rest-AllKeep l calls h = free_if-AllKeep o.name free_name _ tt (
        free_if-AllKeep l.cpus free_cpus _ tt
          (close_fd-AllKeep l.hash_map_fd _ (close_fd-AllKeep l.events_map_fd calls h)))

    close_return-RunKeeps :
        (k r : Option ℤ) (code : ℕ) (l : Locals) (calls : List Call)
        → AllKeep calls
        → RunKeeps (close_return o k r code l calls)
    close_return-RunKeeps none r code l calls h = tt
    close_return-RunKeeps (some k) none code l calls h = tt
    close_return-RunKeeps (some k) (some r) code l calls h =
        free_rest-AllKeep l _ (close_fd-AllKeep r _ (close_fd-AllKeep k calls h))

    close_all-RunKeeps :
        (freed : Option (List Call)) (code : ℕ) (l : Locals)
        → FreedKeeps freed
        → RunKeeps (close_all o freed code l)
    close_all-RunKeeps none code l h = tt
    close_all-RunKeeps (some calls) code l h =
        close_return-RunKeeps l.kretprobe_fd l.return_prog_fd code l _
          (close_fd-AllKeep l.entry_prog_fd _ (close_fd-AllKeep l.kprobe_fd calls h))

    pub cleanup-RunKeeps : (code : ℕ) (l : Locals) → AllKeep l.calls → RunKeeps (cleanup o code l)
    unfolding cleanup
    cleanup-RunKeeps code l h =
        close_all-RunKeeps (free_all_readers l.readers l.calls) code l
          (free_all_readers-FreedKeeps l.readers l.calls h)

    pub on_error-RunKeeps : (l : Locals) → AllKeep l.calls → RunKeeps (on_error o l)
    unfolding on_error
    on_error-RunKeeps l h = logged l.logged
      where
        logged : (b : Bool) → RunKeeps (cleanup o 1 (if b then called print_log l else l))
        logged true = cleanup-RunKeeps 1 (called print_log l) (tt, h)
        logged false = cleanup-RunKeeps 1 l h
