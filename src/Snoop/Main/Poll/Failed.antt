-- ===== src/Snoop/Main/Poll/Failed.antt =====
-- `main` where a call fails behind the probes.
use rust_ebpf_demo.Prelude.{
  ℕ, suc, ◌+◌, ◌-◌, ◌*◌, ◌<◌, ◌≡◌, ap, ◌∙◌, inl, inr, Bool, false, Bool-cases, none, some, List,
  ◌∷◌, ◌++◌, ◌==◌, if◌then◌else◌, arith,
}
use rust_ebpf_demo.Prelude.Int.{pos}
use rust_ebpf_demo.Bpf.Insn.{BpfInsn}
use rust_ebpf_demo.Snoop.Args.{Options, Got, defaults, go_on, parse_args, is_unset}
use rust_ebpf_demo.Snoop.Main.State.{Replies, Timespec, Call, complain, Locals, error, Run, exited}
use rust_ebpf_demo.Snoop.Main.Release.{on_error}
use rust_ebpf_demo.Snoop.Main.Setup.{setup}
use rust_ebpf_demo.Snoop.Main.Setup.Granted.{Grant, granted, probe_calls}
use rust_ebpf_demo.Snoop.Main.Setup.Readers.{opened, freed}
use rust_ebpf_demo.Snoop.Main.Setup.Success.{release_calls, setup-cleanup, logs}
use rust_ebpf_demo.Snoop.Main.Setup.Rounds.{not_opened, not_updated}
use rust_ebpf_demo.Snoop.Main.Setup.Refused.{
  on_error-not_opened, on_error-last_not_updated, on_error-not_updated,
}
use rust_ebpf_demo.Snoop.Main.Poll.{
  Round, Polled, Loop, clock_failed, ended, after_loop, after_setup, after_args, start_reading,
  finished, trace, main,
}
use rust_ebpf_demo.Snoop.Main.Poll.Whole.{Starts, prelude, output, main-start_loop}
use rust_ebpf_demo.Snoop.Main.Poll.Deadline.{nanos, IsTimespec, AllBefore, poll_loop-clock_failed}
use rust_ebpf_demo.Snoop.Main.Poll.Output.{AllQuiet, print_all, print_all-ended, polls-print_all}

module _ (allocates : ℕ → Bool) (args : List Got) (g : Grant) (o : Options) (n : ℕ)
    (entry return : List BpfInsn) where
  main-on_error :
      (env : Replies) (rounds : List Round) (l : Locals)
      → parse_args allocates defaults args ≡ go_on o
      → setup o env ≡ error l
      → main allocates args env rounds ≡ finished (on_error o l)
  unfolding main after_args trace after_setup
  main-on_error env rounds l parsed fails =
      ap (after_args env rounds) parsed ∙ ap (after_setup o env rounds) fails

  -- For processors that are numbered from 0 on: if a perf buffer cannot be opened, whichever it is,
  -- and every call in front of it succeeds, then what `main` does is undefined.
  pub main-not_opened :
      (k : ℕ) (rounds : List Round)
      → Starts allocates args g o n entry return
      → k < n
      → main allocates args (not_opened g k) rounds ≡ finished Run.undefined
  main-not_opened k rounds s lt =
      let (l, fails, undefined) =
        on_error-not_opened g o n entry return s.counts s.entry_loads s.return_loads k (n - suc k)
          (omega (arith, lt)) in
      main-on_error (not_opened g k) rounds l s.parsed fails ∙ ap finished undefined

  -- For processors that are numbered from 0 on: if `bpf_update_elem` fails in some round and every call
  -- in front of it succeeds, then what `main` does is undefined, unless it is the last processor: then
  -- the process exits with 1, behind a message, the log, if there is one, and the release of every
  -- reader, descriptor and allocation, each once.
  pub main-not_updated :
      (k rc : ℕ) (rounds : List Round)
      → Starts allocates args g o n entry return
      → k < n
      → main allocates args (not_updated g k rc) rounds
        ≡ finished (
            if suc k == n
            then exited 1 (
                release_calls g o (
                  freed g 0 n (
                    logs g (
                      complain "Error calling bpf_update_elem()"
                      ∷ opened g 0 n (probe_calls g entry return n)))))
            else Run.undefined)
  main-not_updated k rc rounds s lt = elim (Bool-cases (suc k == n)) [
    | inl last ↦
        let (l, fails, released) =
          on_error-last_not_updated g o n entry return s.counts s.entry_loads s.return_loads k 0 rc
            (ground (arith, last)) (ground (arith, last)) in
        rw last (main-on_error (not_updated g k rc) rounds l s.parsed fails ∙ ap finished released)
    | inr more ↦
        let (l, fails, undefined) =
          on_error-not_updated g o n entry return s.counts s.entry_loads s.return_loads k
            (n - suc (suc k)) rc (ground (arith, lt, more)) in
        rw more (main-on_error (not_updated g k rc) rounds l s.parsed fails ∙ ap finished undefined)
  ]

  -- With a duration, for processors that are numbered from 0 on and calls that all succeed but for
  -- `clock_gettime`, which gives valid times in front of the deadline and then fails, `main` ends there.
  -- The process exits with 1, and the calls so far are those of the setup, the header, the lines that the
  -- callback prints for all events of the polls, in order, if none of these is undefined, the message, the
  -- log, if there is one, and the release of every reader, descriptor and allocation, each once.
  pub main-clock_failed :
      (start : Timespec) (d : ℕ) (before : List Round) (last : Round) (rounds : List Round)
      (out : List Call)
      → Starts allocates args g o n entry return
      → o.duration ≡ pos d
      → g.start_time ≡ some start
      → IsTimespec start
      → AllBefore (nanos start + 1_000_000_000 * d) before
      → AllQuiet before
      → last.reading ≡ none
      → print_all
          (output allocates args g o n entry return before)
          (prelude allocates args g o n entry return)
          (λ calls. ended calls)
        ≡ ended out
      → main allocates args (granted g) (before ++ last ∷ rounds)
        ≡ finished (
            exited 1 (
              release_calls g o
                (freed g 0 n (logs g (complain "Error calling clock_gettime()" ∷ out)))))
  unfolding after_loop
  main-clock_failed start d before last rounds out s timed read valid early quiet fails prints =
      let (l, ready, calls, filled, released) =
        setup-cleanup g o n entry return s.counts s.entry_loads s.return_loads in
      let e : is_unset o.duration ≡ false = ap is_unset timed in
      let reading : start_reading o (granted g) ≡ some start = rw e read in
      let first : Polled = record {
        initial = 0;
        calls = prelude allocates args g o n entry return;
      } in
      let failing : List Call → Loop =
        λ c. clock_failed (complain "Error calling clock_gettime()" ∷ c) in
      main-start_loop allocates args g o n entry return (before ++ last ∷ rounds) start l s.parsed
        ready calls reading
      ∙ (ap (after_loop o l) (
            poll_loop-clock_failed o l.readers start d first before last rounds timed valid early
              fails
            ∙ (polls-print_all o l.readers before first failing filled quiet
                ∙ print_all-ended (output allocates args g o n entry return before) first.calls out
                    failing prints))
          ∙ ap finished (released.failed (complain "Error calling clock_gettime()" ∷ out)))
