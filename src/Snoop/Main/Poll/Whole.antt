-- ===== src/Snoop/Main/Poll/Whole.antt =====
-- `main` from its start to its exit.
use rust_ebpf_demo.Prelude.{
  ℕ, ◌+◌, ◌*◌, ◌≤◌, ◌≡◌, ap, ◌∙◌, Bool, true, false, some, List, ◌∷◌, ◌++◌, map, tabulate,
}
use rust_ebpf_demo.Prelude.Int.{pos}
use rust_ebpf_demo.Bpf.Insn.{BpfInsn}
use rust_ebpf_demo.Snoop.Args.{Options, Got, defaults, go_on, parse_args, is_unset}
use rust_ebpf_demo.Snoop.Cpus.{online, get_online_cpus}
use rust_ebpf_demo.Snoop.Report.{Printed, event_at, print_header}
use rust_ebpf_demo.Snoop.Report.Stamps.{on_events}
use rust_ebpf_demo.Snoop.Program.{entry_program, return_program}
use rust_ebpf_demo.Snoop.Main.State.{Timespec, Call, Locals, next, exited}
use rust_ebpf_demo.Snoop.Main.Setup.{setup}
use rust_ebpf_demo.Snoop.Main.Setup.Granted.{Grant, granted, probe_calls}
use rust_ebpf_demo.Snoop.Main.Setup.Readers.{opened, freed}
use rust_ebpf_demo.Snoop.Main.Setup.Success.{release_calls, setup-cleanup}
use rust_ebpf_demo.Snoop.Main.Poll.{
  Round, Polled, ended, running, end_time, poll_loop, start_loop, after_loop, after_setup,
  after_args, start_reading, finished, polling, trace, main,
}
use rust_ebpf_demo.Snoop.Main.Poll.Deadline.{
  nanos, IsTimespec, AllBefore, poll_loop-ended, poll_loop-running,
}
use rust_ebpf_demo.Snoop.Main.Poll.Output.{print_all, events_in, AllQuiet, polls-print_all}

-- The rounds of a run with a duration: those in front of the deadline, and the one that ends the loop.
pub record Timed : Type 0 where
  pub start : Timespec
  pub seconds : ℕ
  pub before : List Round
  pub last : Round
  pub now : Timespec

abbrev pub deadline : Timed → ℕ
deadline c = nanos c.start + 1_000_000_000 * c.seconds

-- The clock reads valid times, the last one is the first at or behind the deadline, and no poll fails.
pub record IsTimed (c : Timed) : Type 0 where
  pub start : IsTimespec c.start
  pub before : AllBefore (deadline c) c.before
  pub quiet : AllQuiet c.before
  pub read : c.last.reading ≡ some c.now
  pub now : IsTimespec c.now
  pub past : deadline c ≤ nanos c.now

-- What the arguments, the system and the libraries answer: the parser goes on with `o`, there are `n`
-- processors, numbered from 0 on, and `entry` and `return` are the programs.
pub record Starts (allocates : ℕ → Bool) (args : List Got) (g : Grant) (o : Options) (n : ℕ)
    (entry return : List BpfInsn) : Type 0 where
  pub parsed : parse_args allocates defaults args ≡ go_on o
  pub counts : (get_online_cpus g.sysfs).outcome ≡ online (tabulate n pos)
  pub entry_loads : entry_program o (pos g.hash_map) g.entry_array ≡ some entry
  pub return_loads : return_program (pos g.hash_map) (pos g.events_map) g.return_array ≡ some return

module _ (allocates : ℕ → Bool) (args : List Got) (g : Grant) (o : Options) (n : ℕ)
    (entry return : List BpfInsn) where
  -- The calls of the setup, and the header.
  abbrev pub prelude : List Call
  prelude = Call.print_header (print_header o) ∷ opened g 0 n (probe_calls g entry return n)

  -- What the callback makes of the events in these rounds, from the start of the program.
  abbrev pub output : List Round → List Printed
  output rounds = on_events o 0 (map event_at (events_in rounds))

  pub main-start_loop :
      (rounds : List Round) (start : Timespec) (l : Locals)
      → parse_args allocates defaults args ≡ go_on o
      → setup o (granted g) ≡ next l
      → l.calls ≡ opened g 0 n (probe_calls g entry return n)
      → start_reading o (granted g) ≡ some start
      → main allocates args (granted g) rounds
        ≡ after_loop o l (
            poll_loop o l.readers
              (end_time start o.duration)
              (record { initial = 0; calls = prelude })
              rounds)
  unfolding main after_args trace after_setup start_loop
  main-start_loop rounds start l parsed ready calls read =
      ap (after_args (granted g) rounds) parsed
      ∙ (ap (after_setup o (granted g) rounds) ready
          ∙ (ap (start_loop o rounds l) read
              ∙ ap
                  (λ c. after_loop o l (
                    poll_loop o l.readers (end_time start o.duration)
                      (record { initial = 0; calls = Call.print_header (print_header o) ∷ c })
                      rounds))
                  calls))

  -- With a duration, processors that are numbered from 0 on, calls that all succeed, and readings of
  -- the clock with less than 10^9 nanoseconds beside the seconds, `main` ends at the first reading that
  -- is not before the deadline. The process exits with 0, and the calls so far are those of the setup,
  -- the header, the lines that the callback prints for all events of the polls in front of the deadline,
  -- in order, if none of these is undefined, and then the release of every reader, descriptor and
  -- allocation, each once.
  pub main-exited :
      (c : Timed) (rounds : List Round) (out : List Call)
      → Starts allocates args g o n entry return
      → o.duration ≡ pos c.seconds
      → g.start_time ≡ some c.start
      → IsTimed c
      → print_all (output c.before) prelude (λ calls. ended calls) ≡ ended out
      → main allocates args (granted g) (c.before ++ c.last ∷ rounds)
        ≡ finished (exited 0 (release_calls g o (freed g 0 n out)))
  unfolding after_loop
  main-exited c rounds out s timed read h prints =
      let (l, ready, calls, filled, released) =
        setup-cleanup g o n entry return s.counts s.entry_loads s.return_loads in
      let e : is_unset o.duration ≡ false = ap is_unset timed in
      let reading : start_reading o (granted g) ≡ some c.start = rw e read in
      let first : Polled = record { initial = 0; calls = prelude } in
      main-start_loop (c.before ++ c.last ∷ rounds) c.start l s.parsed ready calls reading
      ∙ (ap (after_loop o l) (
            poll_loop-ended o l.readers c.start c.seconds first c.before c.last c.now rounds timed
              h.start h.before h.read h.now h.past
            ∙ (polls-print_all o l.readers c.before first (λ calls. ended calls) filled h.quiet
                ∙ prints))
          ∙ ap finished (released.cleaned 0 out))

  -- Without a duration, for processors that are numbered from 0 on and calls that all succeed, `main`
  -- still polls after any number of rounds, whatever the clock, and has printed the header and what the
  -- callback makes of all their events, in order, if none of these is undefined.
  pub main-polling :
      (rounds : List Round) (out : List Call)
      → Starts allocates args g o n entry return
      → is_unset o.duration ≡ true
      → AllQuiet rounds
      → print_all (output rounds) prelude (λ calls. running calls) ≡ running out
      → main allocates args (granted g) rounds ≡ polling out
  unfolding after_loop
  main-polling rounds out s untimed quiet prints =
      let (l, ready, calls, filled, released) =
        setup-cleanup g o n entry return s.counts s.entry_loads s.return_loads in
      let zero_time : Timespec = record { tv_sec = 0; tv_nsec = 0 } in
      let reading : start_reading o (granted g) ≡ some zero_time = rw untimed in
      let first : Polled = record { initial = 0; calls = prelude } in
      main-start_loop rounds zero_time l s.parsed ready calls reading
      ∙ ap (after_loop o l) (
          poll_loop-running o l.readers (end_time zero_time o.duration) first rounds untimed
          ∙ (polls-print_all o l.readers rounds first (λ calls. running calls) filled quiet
              ∙ prints))
