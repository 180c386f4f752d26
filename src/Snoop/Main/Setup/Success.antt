-- ===== src/Snoop/Main/Setup/Success.antt =====
-- What `main` does when every call succeeds and the processors are numbered from 0 on.
use rust_ebpf_demo.Prelude.{
  ℕ, ◌≡◌, refl, ap, ◌∙◌, true, some, Bool, false, if◌then◌else◌, List, ◌∷◌, length-tabulate_from,
  tabulate,
}
use rust_ebpf_demo.Prelude.Int.{pos}
use rust_ebpf_demo.Bpf.Insn.{BpfInsn}
use rust_ebpf_demo.Snoop.Args.{Options}
use rust_ebpf_demo.Snoop.Cpus.{online, get_online_cpus}
use rust_ebpf_demo.Snoop.Program.{entry_program, return_program}
use rust_ebpf_demo.Snoop.Main.State.{
  Call, print_log, called, close, free_cpus, free_name, Locals, next, exited, all_set,
}
use rust_ebpf_demo.Snoop.Main.Release.{free_if, cleanup, on_error}
use rust_ebpf_demo.Snoop.Main.Setup.{setup}
use rust_ebpf_demo.Snoop.Main.Setup.Readers.{
  opened, freed, filled, free_readers-filled, all_some-filled, open_readers-all,
}
use rust_ebpf_demo.Snoop.Main.Setup.Granted.{
  Grant, granted, then_next, probe_calls, probed, setup_probes-probed,
}

module _ (g : Grant) where
  -- The calls of the cleanup behind those of the readers, the last one first.
  abbrev pub release_calls : Options → List Call → List Call
  release_calls o calls = free_if o.name free_name (
      free_cpus
      ∷ close (pos g.hash_map)
      ∷ close (pos g.events_map)
      ∷ close (pos g.return_prog)
      ∷ close (pos g.kretprobe)
      ∷ close (pos g.entry_prog)
      ∷ close (pos g.kprobe)
      ∷ calls)

  -- The variables behind the setup.
  abbrev pub ready : List BpfInsn → List BpfInsn → ℕ → Locals
  ready entry return n = record {
    cpus = some (tabulate n pos);
    readers = some (filled g 0 n);
    hash_map_fd = pos g.hash_map;
    events_map_fd = pos g.events_map;
    entry_prog_fd = pos g.entry_prog;
    kprobe_fd = pos g.kprobe;
    return_prog_fd = some (pos g.return_prog);
    kretprobe_fd = some (pos g.kretprobe);
    logged = g.return_logged;
    calls = opened g 0 n (probe_calls g entry return n);
  }

  setup-ready :
      (o : Options) (n : ℕ) (entry return : List BpfInsn)
      → (get_online_cpus g.sysfs).outcome ≡ online (tabulate n pos)
      → entry_program o (pos g.hash_map) g.entry_array ≡ some entry
      → return_program (pos g.hash_map) (pos g.events_map) g.return_array ≡ some return
      → setup o (granted g) ≡ next (ready entry return n)
  unfolding setup
  setup-ready o n entry return hc he hr =
      then_next _
        (setup_probes-probed g o (tabulate n pos) entry return hc he hr
          ∙ ap (λ c. next (probed g entry return (tabulate n pos) c))
              (length-tabulate_from 0 n pos))
        (open_readers-all g o (ready entry return n) n (probe_calls g entry return n))

  -- The log of the verifier is printed if there is one.
  abbrev pub logs : List Call → List Call
  logs calls = if g.return_logged then print_log ∷ calls else calls

  module _ (o : Options) (n : ℕ) where
    -- The variables go through both labels with every allocation released once.
    pub record IsReleased (l : Locals) : Type 0 where
      pub cleaned :
          (code : ℕ) (calls : List Call)
          → cleanup o code (record l { calls = calls })
            ≡ exited code (release_calls o (freed g 0 n calls))
      pub failed :
          (calls : List Call)
          → on_error o (record l { calls = calls })
            ≡ exited 1 (release_calls o (freed g 0 n (logs calls)))

    pub ready-IsReleased : (entry return : List BpfInsn) → IsReleased (ready entry return n)
    unfolding cleanup on_error
    ready-IsReleased entry return = record { cleaned = cleaned; failed = failed g.return_logged }
      where
        l : Locals
        l = ready entry return n

        cleaned :
            (code : ℕ) (calls : List Call)
            → cleanup o code (record l { calls = calls })
              ≡ exited code (release_calls o (freed g 0 n calls))
        cleaned code calls = rw (free_readers-filled g 0 n calls) refl

        failed :
            (b : Bool) (calls : List Call)
            → cleanup o 1 (
                if b
                then called print_log (record l { calls = calls })
                else record l { calls = calls })
              ≡ exited 1 (release_calls o (freed g 0 n (if b then print_log ∷ calls else calls)))
        failed true calls = cleaned 1 (print_log ∷ calls)
        failed false calls = cleaned 1 calls

    -- If the processors are numbered from 0 on and every call succeeds, the setup goes through, and every
    -- reader is set. Whatever calls follow it, a cleanup with any exit code then frees every reader, closes
    -- the six descriptors, and frees the list of processors and the name, if there is one, each once, and
    -- nothing else; and so does the label `error`, with the exit code 1, behind the log, which it prints if
    -- the second load left one.
    pub setup-cleanup :
        (entry return : List BpfInsn)
        → (get_online_cpus g.sysfs).outcome ≡ online (tabulate n pos)
        → entry_program o (pos g.hash_map) g.entry_array ≡ some entry
        → return_program (pos g.hash_map) (pos g.events_map) g.return_array ≡ some return
        → (l : Locals) × (setup o (granted g) ≡ next l)
          × (l.calls ≡ opened g 0 n (probe_calls g entry return n))
          × (all_set l.readers ≡ true)
          × IsReleased l
    setup-cleanup entry return hc he hr = (
      ready entry return n,
      setup-ready o n entry return hc he hr,
      refl,
      all_some-filled g 0 n,
      ready-IsReleased entry return,
    )
