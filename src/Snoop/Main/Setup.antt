-- ===== src/Snoop/Main/Setup.antt =====
-- The steps of `main` up to the loop, and the labels `error` and `cleanup`.
pub mod Post
pub mod Failure
pub mod Lines
pub mod Granted
pub mod Sparse
pub mod Readers
pub mod Success
pub mod Rounds
pub mod Refused
pub mod Ascending
mod Tests
use rust_ebpf_demo.Prelude.{
  ℕ, suc, ◌+◌, ◌*◌, Bool, true, false, not, Option, none, some, List, [], ◌∷◌, ◌==◌, if◌then◌else◌,
  ltb, length, set, replicate,
}
use rust_ebpf_demo.Prelude.Int.{ℤ, pos, neg, negsuc, ltb_ℤ}
use rust_ebpf_demo.Bpf.Insn.{BpfInsn}
use rust_ebpf_demo.Snoop.Args.{Options, is_unset}
use rust_ebpf_demo.Snoop.Cpus
use rust_ebpf_demo.Snoop.Cpus.{CpuOutcome, online, failed, get_online_cpus}
use rust_ebpf_demo.Snoop.Program.{entry_program, return_program}
use rust_ebpf_demo.Snoop.Main.State.{
  Timespec, Replies, MapType, hash, perf_event_array, AttachType, probe_entry, probe_return, Call,
  create_map, prog_load, attach_kprobe, open_perf_buffer, update_elem, complain, print_log,
  free_reader, close, free_cpus, free_name, Locals, initial, num_cpu, Flow, next, error, ◌>>=◌,
  called, Run, exited, close_fd,
}

abbrev is_neg : ℤ → Bool
is_neg z = ltb_ℤ z (pos 0)

abbrev pub insn_size : ℕ
insn_size = 8

-- `numCpu` is still 0 if the call fails.
take_cpus : CpuOutcome → Locals → Flow
take_cpus (online cpus) l = next (record l { cpus = some cpus })
take_cpus (failed true) l =
    error (called (complain "Failure in getOnlineCpus()") (record l { cpus = some [] }))
take_cpus (failed false) l = error (called (complain "Failure in getOnlineCpus()") l)
take_cpus CpuOutcome.undefined l = Flow.undefined

-- `readers[cpu] = reader`, which must stay inside the array.
abbrev store_reader : ℤ → ℕ → Locals → List (Option ℕ) → Flow
store_reader (negsuc n) r l slots = Flow.undefined
store_reader (pos cpu) r l slots =
    if ltb cpu (length slots)
    then next (record l { readers = some (set slots cpu (some r)) })
    else Flow.undefined

-- A store through a NULL pointer is undefined too.
abbrev store_reader_at : ℤ → ℕ → Locals → Option (List (Option ℕ)) → Flow
store_reader_at cpu r l none = Flow.undefined
store_reader_at cpu r l (some slots) = store_reader cpu r l slots

abbrev pub cpus_of : Option (List ℤ) → List ℤ
cpus_of none = []
cpus_of (some cpus) = cpus

module _ (o : Options) (env : Replies) where
  get_cpus : Locals → Flow
  unfolding take_cpus
  get_cpus l = take_cpus (get_online_cpus env.sysfs).outcome l

  allocate_readers : Locals → Flow
  allocate_readers l =
      if env.readers_allocated
      then next (record l { readers = some (replicate (num_cpu l) none) })
      else error l

  -- sizeof(__u64), sizeof(struct val_t)
  create_hash_map : Locals → Flow
  create_hash_map l =
      let l' =
        called (create_map hash "hashMap name for debugging" 8 32 10240 0 env.hash_map)
          (record l { hash_map_fd = env.hash_map }) in
      if is_neg env.hash_map
      then error (called (complain "Failed to create BPF_HASH") l')
      else next l'

  -- sizeof(int), sizeof(__u32)
  create_events_map : Locals → Flow
  create_events_map l =
      let l' =
        called
          (create_map perf_event_array "perfMap name for debugging" 4 4 (num_cpu l) 0
            env.events_map)
          (record l { events_map_fd = env.events_map }) in
      if is_neg env.events_map
      then error (called (complain "Failed to create BPF_PERF_OUTPUT") l')
      else next l'

  load_entry_as : Option (List BpfInsn) → Locals → Flow
  load_entry_as none l = Flow.undefined
  load_entry_as (some prog) l =
      let l' =
        called
          (prog_load "some kprobe" prog (length prog * insn_size) "GPL" env.version 1 env.log_size
            env.entry_prog)
          (record l { entry_prog_fd = env.entry_prog; logged = env.entry_logged }) in
      if is_unset env.entry_prog
      then error (called (complain "Error calling bpf_prog_load() for kretprobe") l')
      else next l'

  load_entry : Locals → Flow
  unfolding load_entry_as
  load_entry l = load_entry_as (entry_program o l.hash_map_fd env.entry_array) l

  attach_entry : Locals → Flow
  attach_entry l =
      let l' =
        called
          (attach_kprobe l.entry_prog_fd probe_entry "p_do_sys_open" "do_sys_open" 0 env.kprobe)
          (record l { kprobe_fd = env.kprobe }) in
      if is_neg env.kprobe
      then error (called (complain "Error calling bpf_attach_kprobe() for kprobe") l')
      else next l'

  load_return_as : Option (List BpfInsn) → Locals → Flow
  load_return_as none l = Flow.undefined
  load_return_as (some prog) l =
      let l' =
        called
          (prog_load "some kretprobe" prog (length prog * insn_size) "GPL" env.version 1
            env.log_size env.return_prog)
          (record l { return_prog_fd = some env.return_prog; logged = env.return_logged }) in
      if is_unset env.return_prog
      then error (called (complain "Error calling bpf_prog_load() for kretprobe") l')
      else next l'

  load_return : Locals → Flow
  unfolding load_return_as
  load_return l = load_return_as (return_program l.hash_map_fd l.events_map_fd env.return_array) l

  attach_return : Locals → Flow
  attach_return l =
      let l' =
        called
          (attach_kprobe env.return_prog probe_return "r_do_sys_open" "do_sys_open" 0 env.kretprobe)
          (record l { kretprobe_fd = some env.kretprobe }) in
      if is_neg env.kretprobe
      then error (called (complain "Error calling bpf_attach_kprobe() for kretprobe") l')
      else next l'

  abbrev update_map : ℕ → ℤ → ℕ → Locals → Flow
  update_map i cpu r l =
      let l' = called (update_elem l.events_map_fd cpu r) l in
      if is_neg (env.updated i)
      then error (called (complain "Error calling bpf_update_elem()") l')
      else next l'

  -- Round `i` of the loop, for the processor `cpu`.
  abbrev open_reader_as : ℕ → ℤ → Option ℕ → Locals → Flow
  open_reader_as i cpu none l = error (
      called (complain "Error calling bpf_open_perf_buffer().")
        (called (open_perf_buffer (neg 1) cpu 64 none) l))
  open_reader_as i cpu (some r) l = do
    stored ← store_reader_at cpu r (called (open_perf_buffer (neg 1) cpu 64 (some r)) l) l.readers
    update_map i cpu r stored

  unfoldable pub open_readers : ℕ → List ℤ → Locals → Flow
  open_readers i [] l = next l
  open_readers i (cpu ∷ cpus) l =
      open_reader_as i cpu (env.reader i) l >>= open_readers (suc i) cpus

  -- Up to the two probes that are in place.
  pub setup_probes : Flow
  setup_probes = do
    l₁ ← get_cpus initial
    l₂ ← allocate_readers l₁
    l₃ ← create_hash_map l₂
    l₄ ← create_events_map l₃
    l₅ ← load_entry l₄
    l₆ ← attach_entry l₅
    l₇ ← load_return l₆
    attach_return l₇

  pub setup : Flow
  setup = do l ← setup_probes; open_readers 0 (cpus_of l.cpus) l
