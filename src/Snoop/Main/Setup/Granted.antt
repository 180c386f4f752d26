-- ===== src/Snoop/Main/Setup/Granted.antt =====
-- The setup of the probes when every call succeeds.
use rust_ebpf_demo.Prelude.{
  ℕ, ◌+◌, ◌*◌, ◌≡◌, refl, ap, ◌∙◌, Bool, true, false, Option, none, some, List, [], ◌∷◌,
  if◌then◌else◌, ltb, arith, length, replicate,
}
use rust_ebpf_demo.Prelude.Int.{ℤ, pos}
use rust_ebpf_demo.Bpf.Insn.{BpfInsn}
use rust_ebpf_demo.Snoop.Args.{Options}
use rust_ebpf_demo.Snoop.Cpus.{Sysfs, online, get_online_cpus}
use rust_ebpf_demo.Snoop.Program.{entry_program, return_program}
use rust_ebpf_demo.Snoop.Main.State.{
  Timespec, Replies, hash, perf_event_array, probe_entry, probe_return, Call, create_map, prog_load,
  attach_kprobe, Locals, initial, called, num_cpu, Flow, next, ◌>>=◌,
}
use rust_ebpf_demo.Snoop.Main.Setup.{
  take_cpus, get_cpus, allocate_readers, create_hash_map, create_events_map, load_entry,
  attach_entry, load_return, attach_return, load_entry_as, load_return_as, setup_probes,
}

-- The descriptors and readers that the libraries hand out.
pub record Grant : Type 0 where
  pub sysfs : Sysfs
  pub entry_array : List BpfInsn
  pub return_array : List BpfInsn
  pub hash_map : ℕ
  pub events_map : ℕ
  pub entry_prog : ℕ
  pub kprobe : ℕ
  pub return_prog : ℕ
  pub kretprobe : ℕ
  pub reader : ℕ → ℕ
  pub start_time : Option Timespec
  pub version : ℕ
  pub log_size : ℕ
  pub entry_logged : Bool
  pub return_logged : Bool

abbrev pub granted : Grant → Replies
granted g = record {
  sysfs = g.sysfs;
  readers_allocated = true;
  entry_array = g.entry_array;
  return_array = g.return_array;
  hash_map = pos g.hash_map;
  events_map = pos g.events_map;
  entry_prog = pos g.entry_prog;
  kprobe = pos g.kprobe;
  return_prog = pos g.return_prog;
  kretprobe = pos g.kretprobe;
  reader = λ i. some (g.reader i);
  updated = λ i. pos 0;
  start_time = g.start_time;
  version = g.version;
  log_size = g.log_size;
  entry_logged = g.entry_logged;
  return_logged = g.return_logged;
}

pub then_next :
    {m : Flow} {l : Locals} {r : Flow} (f : Locals → Flow) → m ≡ next l → f l ≡ r → (m >>= f) ≡ r
then_next f p q = ap (λ m. m >>= f) p ∙ q

module _ (g : Grant) where
  -- The loads of the two programs.
  abbrev pub entry_load : List BpfInsn → Call
  entry_load entry =
      prog_load "some kprobe" entry (length entry * 8) "GPL" g.version 1 g.log_size
        (pos g.entry_prog)

  abbrev pub return_load : List BpfInsn → Call
  return_load return =
      prog_load "some kretprobe" return (length return * 8) "GPL" g.version 1 g.log_size
        (pos g.return_prog)

  -- The calls that put the probes in place, the last one first.
  abbrev pub probe_calls : List BpfInsn → List BpfInsn → ℕ → List Call
  probe_calls entry return n =
      attach_kprobe (pos g.return_prog) probe_return "r_do_sys_open" "do_sys_open" 0
        (pos g.kretprobe)
      ∷ return_load return
      ∷ attach_kprobe (pos g.entry_prog) probe_entry "p_do_sys_open" "do_sys_open" 0 (pos g.kprobe)
      ∷ entry_load entry
      ∷ create_map perf_event_array "perfMap name for debugging" 4 4 n 0 (pos g.events_map)
      ∷ create_map hash "hashMap name for debugging" 8 32 10240 0 (pos g.hash_map)
      ∷ []

  not_neg {ℓ} : {A : Type ℓ} (n : ℕ) (x y : A) → (if ltb (n + 0) 0 then x else y) ≡ y
  not_neg n x y = let e : ltb (n + 0) 0 ≡ false = ground arith in rw e

  -- The variables behind the setup of the probes, for `n` processors.
  abbrev pub probed : List BpfInsn → List BpfInsn → List ℤ → ℕ → Locals
  probed entry return cpus n = record {
    cpus = some cpus;
    readers = some (replicate n none);
    hash_map_fd = pos g.hash_map;
    events_map_fd = pos g.events_map;
    entry_prog_fd = pos g.entry_prog;
    kprobe_fd = pos g.kprobe;
    return_prog_fd = some (pos g.return_prog);
    kretprobe_fd = some (pos g.kretprobe);
    logged = g.return_logged;
    calls = probe_calls entry return n;
  }

  get_cpus-next :
      (o : Options) (cpus : List ℤ)
      → (get_online_cpus g.sysfs).outcome ≡ online cpus
      → get_cpus o (granted g) initial ≡ next (record initial { cpus = some cpus })
  unfolding get_cpus take_cpus
  get_cpus-next o cpus h = ap (λ r. take_cpus r initial) h

  allocate_readers-next :
      (o : Options) (l : Locals)
      → allocate_readers o (granted g) l
        ≡ next (record l { readers = some (replicate (num_cpu l) none) })
  unfolding allocate_readers
  allocate_readers-next o l = refl

  create_hash_map-next :
      (o : Options) (l : Locals)
      → create_hash_map o (granted g) l
        ≡ next (
            called
              (create_map hash "hashMap name for debugging" 8 32 10240 0 (pos g.hash_map))
              (record l { hash_map_fd = pos g.hash_map }))
  unfolding create_hash_map
  create_hash_map-next o l = not_neg g.hash_map _ _

  create_events_map-next :
      (o : Options) (l : Locals)
      → create_events_map o (granted g) l
        ≡ next (
            called
              (create_map perf_event_array "perfMap name for debugging" 4 4
                (num_cpu l)
                0
                (pos g.events_map))
              (record l { events_map_fd = pos g.events_map }))
  unfolding create_events_map
  create_events_map-next o l = not_neg g.events_map _ _

  load_entry-next :
      (o : Options) (l : Locals) (entry : List BpfInsn)
      → entry_program o l.hash_map_fd g.entry_array ≡ some entry
      → load_entry o (granted g) l
        ≡ next (
            called
              (entry_load entry)
              (record l { entry_prog_fd = pos g.entry_prog; logged = g.entry_logged }))
  unfolding load_entry load_entry_as
  load_entry-next o l entry h = ap (λ p. load_entry_as o (granted g) p l) h

  attach_entry-next :
      (o : Options) (l : Locals)
      → attach_entry o (granted g) l
        ≡ next (
            called
              (attach_kprobe l.entry_prog_fd probe_entry "p_do_sys_open" "do_sys_open" 0
                (pos g.kprobe))
              (record l { kprobe_fd = pos g.kprobe }))
  unfolding attach_entry
  attach_entry-next o l = not_neg g.kprobe _ _

  load_return-next :
      (o : Options) (l : Locals) (return : List BpfInsn)
      → return_program l.hash_map_fd l.events_map_fd g.return_array ≡ some return
      → load_return o (granted g) l
        ≡ next (
            called
              (return_load return)
              (record l { return_prog_fd = some (pos g.return_prog); logged = g.return_logged }))
  unfolding load_return load_return_as
  load_return-next o l return h = ap (λ p. load_return_as o (granted g) p l) h

  attach_return-next :
      (o : Options) (l : Locals)
      → attach_return o (granted g) l
        ≡ next (
            called
              (attach_kprobe
                (pos g.return_prog)
                probe_return
                "r_do_sys_open"
                "do_sys_open"
                0
                (pos g.kretprobe))
              (record l { kretprobe_fd = some (pos g.kretprobe) }))
  unfolding attach_return
  attach_return-next o l = not_neg g.kretprobe _ _

  pub setup_probes-probed :
      (o : Options) (cpus : List ℤ) (entry return : List BpfInsn)
      → (get_online_cpus g.sysfs).outcome ≡ online cpus
      → entry_program o (pos g.hash_map) g.entry_array ≡ some entry
      → return_program (pos g.hash_map) (pos g.events_map) g.return_array ≡ some return
      → setup_probes o (granted g) ≡ next (probed entry return cpus (length cpus))
  unfolding setup_probes
  setup_probes-probed o cpus entry return hc he hr = then_next _ (get_cpus-next o cpus hc) (
      then_next _ (allocate_readers-next o _) (
        then_next _ (create_hash_map-next o _) (
          then_next _ (create_events_map-next o _) (
            then_next _ (load_entry-next o _ entry he) (
              then_next _ (attach_entry-next o _)
                (then_next _ (load_return-next o _ return hr) (attach_return-next o _)))))))
