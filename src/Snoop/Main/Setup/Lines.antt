-- ===== src/Snoop/Main/Setup/Lines.antt =====
-- The setup prints no line, whatever the libraries answer.
use rust_ebpf_demo.Prelude.{
  ℕ, suc, Bool, true, false, Option, none, some, List, [], ◌∷◌, ltb, length, set, replicate,
  if◌then◌else◌,
}
use rust_ebpf_demo.Prelude.Int.{ℤ, pos, negsuc}
use rust_ebpf_demo.Bpf.Insn.{BpfInsn}
use rust_ebpf_demo.Snoop.Args.{Options, is_unset}
use rust_ebpf_demo.Snoop.Cpus.{CpuOutcome, online, failed, get_online_cpus}
use rust_ebpf_demo.Snoop.Program.{entry_program, return_program}
use rust_ebpf_demo.Snoop.Report.{Line}
use rust_ebpf_demo.Snoop.Main.State.{Replies, Locals, initial, Flow, next, error, num_cpu}
use rust_ebpf_demo.Snoop.Main.Lines.{AllKeep}
use rust_ebpf_demo.Snoop.Main.Setup.Post.{Post, goes, fails, stops, Post-bind, Post-if}
use rust_ebpf_demo.Snoop.Main.Setup.{
  is_neg, take_cpus, get_cpus, allocate_readers, create_hash_map, create_events_map, load_entry_as,
  load_entry, attach_entry, load_return_as, load_return, attach_return, store_reader_at,
  open_reader_as, open_readers, setup_probes, setup, cpus_of,
}

module _ (Q : Line → Type 0) (o : Options) (env : Replies) where
  abbrev Quiet : Locals → Type 0
  Quiet l = AllKeep Q l.calls

  -- The step goes on or fails with no line that is new.
  abbrev pub Stays : Flow → Type 0
  Stays f = Post Quiet Quiet f

  get_cpus-Stays : Stays (get_cpus o env initial)
  unfolding get_cpus take_cpus
  get_cpus-Stays = taken (get_online_cpus env.sysfs).outcome
    where
      taken : (r : CpuOutcome) → Stays (take_cpus r initial)
      taken (online cpus) = goes tt
      taken (failed true) = fails (tt, tt)
      taken (failed false) = fails (tt, tt)
      taken CpuOutcome.undefined = stops

  allocate_readers-Stays : (l : Locals) → Quiet l → Stays (allocate_readers o env l)
  unfolding allocate_readers
  allocate_readers-Stays l h = allocated env.readers_allocated
    where
      allocated :
          (b : Bool)
          → Stays (
              if b
              then next (record l { readers = some (replicate (num_cpu l) none) })
              else error l)
      allocated true = goes h
      allocated false = fails h

  create_hash_map-Stays : (l : Locals) → Quiet l → Stays (create_hash_map o env l)
  unfolding create_hash_map
  create_hash_map-Stays l h = Post-if (is_neg env.hash_map) _ _ (tt, (tt, h)) (tt, h)

  create_events_map-Stays : (l : Locals) → Quiet l → Stays (create_events_map o env l)
  unfolding create_events_map
  create_events_map-Stays l h = Post-if (is_neg env.events_map) _ _ (tt, (tt, h)) (tt, h)

  load_entry-Stays : (l : Locals) → Quiet l → Stays (load_entry o env l)
  unfolding load_entry load_entry_as
  load_entry-Stays l h = loaded (entry_program o l.hash_map_fd env.entry_array)
    where
      loaded : (p : Option (List BpfInsn)) → Stays (load_entry_as o env p l)
      loaded none = stops
      loaded (some prog) = Post-if (is_unset env.entry_prog) _ _ (tt, (tt, h)) (tt, h)

  attach_entry-Stays : (l : Locals) → Quiet l → Stays (attach_entry o env l)
  unfolding attach_entry
  attach_entry-Stays l h = Post-if (is_neg env.kprobe) _ _ (tt, (tt, h)) (tt, h)

  load_return-Stays : (l : Locals) → Quiet l → Stays (load_return o env l)
  unfolding load_return load_return_as
  load_return-Stays l h = loaded (return_program l.hash_map_fd l.events_map_fd env.return_array)
    where
      loaded : (p : Option (List BpfInsn)) → Stays (load_return_as o env p l)
      loaded none = stops
      loaded (some prog) = Post-if (is_unset env.return_prog) _ _ (tt, (tt, h)) (tt, h)

  attach_return-Stays : (l : Locals) → Quiet l → Stays (attach_return o env l)
  unfolding attach_return
  attach_return-Stays l h = Post-if (is_neg env.kretprobe) _ _ (tt, (tt, h)) (tt, h)

  setup_probes-Stays : Stays (setup_probes o env)
  unfolding setup_probes
  setup_probes-Stays = Post-bind get_cpus-Stays λ l₁ h₁.
      Post-bind (allocate_readers-Stays l₁ h₁) λ l₂ h₂.
        Post-bind (create_hash_map-Stays l₂ h₂) λ l₃ h₃.
          Post-bind (create_events_map-Stays l₃ h₃) λ l₄ h₄.
            Post-bind (load_entry-Stays l₄ h₄) λ l₅ h₅.
              Post-bind (attach_entry-Stays l₅ h₅)
                λ l₆ h₆. Post-bind (load_return-Stays l₆ h₆) λ l₇ h₇. attach_return-Stays l₇ h₇

  store_reader_at-Stays :
      (cpu : ℤ) (r : ℕ) (l : Locals) (readers : Option (List (Option ℕ)))
      → Quiet l
      → Stays (store_reader_at cpu r l readers)
  store_reader_at-Stays cpu r l none h = stops
  store_reader_at-Stays (negsuc n) r l (some slots) h = stops
  store_reader_at-Stays (pos cpu) r l (some slots) h = stored (ltb cpu (length slots))
    where
      stored :
          (b : Bool)
          → Stays (
              if b
              then next (record l { readers = some (set slots cpu (some r)) })
              else Flow.undefined)
      stored true = goes h
      stored false = stops

  open_reader-Stays :
      (i : ℕ) (cpu : ℤ) (r : Option ℕ) (l : Locals)
      → Quiet l
      → Stays (open_reader_as o env i cpu r l)
  open_reader-Stays i cpu none l h = fails (tt, (tt, h))
  open_reader-Stays i cpu (some r) l h =
      Post-bind (store_reader_at-Stays cpu r _ l.readers (tt, h))
        λ l' h'. Post-if (is_neg (env.updated i)) _ _ (tt, (tt, h')) (tt, h')

  open_readers-Stays :
      (i : ℕ) (cpus : List ℤ) (l : Locals) → Quiet l → Stays (open_readers o env i cpus l)
  unfolding open_readers
  open_readers-Stays i [] l h = goes h
  open_readers-Stays i (cpu ∷ cpus) l h =
      Post-bind (open_reader-Stays i cpu (env.reader i) l h)
        λ l' h'. open_readers-Stays (suc i) cpus l' h'

  pub setup-Stays : Stays (setup o env)
  unfolding setup
  setup-Stays = Post-bind setup_probes-Stays λ l h. open_readers-Stays 0 (cpus_of l.cpus) l h
