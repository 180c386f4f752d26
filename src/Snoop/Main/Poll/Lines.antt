-- ===== src/Snoop/Main/Poll/Lines.antt =====
-- Every line that `main` prints comes of an event that a poll handed over, whatever the libraries
-- answer and whatever fails.
use rust_ebpf_demo.Prelude.{
  ℕ, zero, suc, ◌≡◌, sym, Bool, true, false, Option, none, some, List, [], ◌∷◌, Every, Every-append,
  if◌then◌else◌,
}
use rust_ebpf_demo.Prelude.Int.{ℤ, pos, negsuc}
use rust_ebpf_demo.Snoop.Args.{Options, Got, go_on, defaults, parse_args, is_unset}
use rust_ebpf_demo.Snoop.Report.{Line, Printed, nothing, line, perf_reader_raw_callback}
use mathlib.Core.Path.{subst}
use mathlib.Core.Option
use rust_ebpf_demo.Snoop.Main.State.{
  Timespec, Replies, Call, print_line, complain, all_set, Locals, called, Flow, next, error,
}
use rust_ebpf_demo.Snoop.Main.Lines.{AllKeep, RunKeeps, cleanup-RunKeeps, on_error-RunKeeps}
use rust_ebpf_demo.Snoop.Main.Setup.{setup}
use rust_ebpf_demo.Snoop.Main.Setup.Lines.{Stays, setup-Stays}
use rust_ebpf_demo.Snoop.Main.Setup.Post.{Post-next, Post-error}
use rust_ebpf_demo.Snoop.Main.Poll.{
  Round, Polled, Loop, ended, clock_failed, running, emit, or_undefined, deliver, after_poll, poll,
  poll_loop, is_past, Main, finished, polling, after_loop, start_loop, start_reading, after_setup,
  trace, after_args, main,
}
use rust_ebpf_demo.Snoop.Main.Poll.Output.{events_in}

module _ (Q : Line → Type 0) where
  abbrev pub Fits : Printed → Type 0
  Fits (line l) = Q l
  Fits p = Unit

  -- What the callback prints of these bytes has the property, with any `initialTimestamp`.
  abbrev pub Gives : Options → List ℕ → Type 0
  Gives o raw = (initial : ℕ) → Fits (perf_reader_raw_callback o initial raw).1

  abbrev pub LoopKeeps : Loop → Type 0
  LoopKeeps (ended calls) = AllKeep Q calls
  LoopKeeps (clock_failed calls) = AllKeep Q calls
  LoopKeeps (running calls) = AllKeep Q calls
  LoopKeeps Loop.undefined = Unit

  -- All lines that were printed up to the end, or so far.
  abbrev pub MainKeeps : Main → Type 0
  MainKeeps (finished r) = RunKeeps Q r
  MainKeeps (polling calls) = AllKeep Q calls

  abbrev PolledKeeps : Option Polled → Type 0
  PolledKeeps none = Unit
  PolledKeeps (some p) = AllKeep Q p.calls

  module _ (o : Options) where
    deliver-PolledKeeps :
        (initial : ℕ) (events : List (List ℕ)) (calls : List Call)
        → Every (Gives o) events
        → AllKeep Q calls
        → PolledKeeps (deliver o initial events calls)
    unfolding deliver
    deliver-PolledKeeps initial [] calls gives h = h
    deliver-PolledKeeps initial (raw ∷ events) calls (give, gives) h =
        emitted
          (λ c h'. deliver-PolledKeeps (perf_reader_raw_callback o initial raw).0 events c gives h')
          (perf_reader_raw_callback o initial raw).1 (give initial)
      where
        delivered : List Call → Option Polled
        delivered c = deliver o (perf_reader_raw_callback o initial raw).0 events c

        emitted :
            ((c : List Call) → AllKeep Q c → PolledKeeps (delivered c))
            → (p : Printed) → Fits p
            → PolledKeeps (emit p calls delivered)
        emitted later nothing fits = later calls h
        emitted later (line l) fits = later (print_line l ∷ calls) (fits, h)
        emitted later Printed.undefined fits = tt

    after_poll-AllKeep :
        (result : ℤ) (p : Polled) → AllKeep Q p.calls → AllKeep Q (after_poll o result p).calls
    after_poll-AllKeep (pos zero) p h = h
    after_poll-AllKeep (pos (suc n)) p h = (tt, h)
    after_poll-AllKeep (negsuc n) p h = (tt, h)

    poll-PolledKeeps :
        (readers : Option (List (Option ℕ))) (r : Round) (p : Polled)
        → Every (Gives o) r.events
        → AllKeep Q p.calls
        → PolledKeeps (poll o readers r p)
    unfolding poll
    poll-PolledKeeps readers r p gives h =
        polled (all_set readers) (deliver o p.initial r.events p.calls)
          (deliver-PolledKeeps p.initial r.events p.calls gives h)
      where
        polled :
            (b : Bool) (d : Option Polled)
            → PolledKeeps d
            → PolledKeeps (if b then Option.map (after_poll o r.result) d else none)
        polled true none k = tt
        polled true (some p') k = after_poll-AllKeep r.result p' k
        polled false d k = tt

    poll_loop-LoopKeeps :
        (readers : Option (List (Option ℕ))) (end : Timespec) (p : Polled) (rounds : List Round)
        → Every (Gives o) (events_in rounds)
        → AllKeep Q p.calls
        → LoopKeeps (poll_loop o readers end p rounds)
    unfolding poll_loop
    poll_loop-LoopKeeps readers end p [] gives h = h
    poll_loop-LoopKeeps readers end p (r ∷ rounds) gives h =
        let (now, later) = Every-append (Gives o) r.events (events_in rounds) gives in
        looped r.reading (is_unset o.duration) (
          again (poll o readers r p) (λ p' k. poll_loop-LoopKeeps readers end p' rounds later k)
            (poll-PolledKeeps readers r p now h))
      where
        looping : Polled → Loop
        looping p' = poll_loop o readers end p' rounds

        again :
            (polled : Option Polled)
            → ((p' : Polled) → AllKeep Q p'.calls → LoopKeeps (looping p'))
            → PolledKeeps polled
            → LoopKeeps (or_undefined o polled looping)
        again none go k = tt
        again (some p') go k = go p' k

        polled : Loop
        polled = or_undefined o (poll o readers r p) looping

        timed : Option Timespec → Loop
        timed reading = elim reading [
          | none ↦ clock_failed (complain "Error calling clock_gettime()" ∷ p.calls)
          | some now ↦ if is_past end now then ended p.calls else polled
        ]

        looped :
            (reading : Option Timespec) (b : Bool)
            → LoopKeeps polled
            → LoopKeeps (if b then polled else timed reading)
        looped reading true k = k
        looped none false k = (tt, h)
        looped (some now) false k = past (is_past end now)
          where
            past : (b : Bool) → LoopKeeps (if b then ended p.calls else polled)
            past true = h
            past false = k

    after_loop-MainKeeps :
        (l : Locals) (loop : Loop) → LoopKeeps loop → MainKeeps (after_loop o l loop)
    unfolding after_loop
    after_loop-MainKeeps l (ended calls) h = cleanup-RunKeeps Q o 0 (record l { calls = calls }) h
    after_loop-MainKeeps l (clock_failed calls) h =
        on_error-RunKeeps Q o (record l { calls = calls }) h
    after_loop-MainKeeps l (running calls) h = h
    after_loop-MainKeeps l Loop.undefined h = tt

    module _ (env : Replies) (rounds : List Round)
        (gives : Every (Gives o) (events_in rounds)) where
      start_loop-MainKeeps :
          (l : Locals) (start : Option Timespec)
          → AllKeep Q l.calls
          → MainKeeps (start_loop o rounds l start)
      unfolding start_loop
      start_loop-MainKeeps l none h =
          on_error-RunKeeps Q o (called (complain "Error calling clock_gettime()") l) (tt, h)
      start_loop-MainKeeps l (some start) h =
          after_loop-MainKeeps l _ (poll_loop-LoopKeeps l.readers _ _ rounds gives (tt, h))

      after_setup-MainKeeps : (f : Flow) → Stays Q o env f → MainKeeps (after_setup o env rounds f)
      unfolding after_setup
      after_setup-MainKeeps (next l) h = start_loop-MainKeeps l (start_reading o env) (Post-next h)
      after_setup-MainKeeps (error l) h = on_error-RunKeeps Q o l (Post-error h)
      after_setup-MainKeeps Flow.undefined h = tt

  -- Lines are printed by the callback alone, whatever else happens.
  pub main-MainKeeps :
      (allocates : ℕ → Bool) (args : List Got) (env : Replies) (rounds : List Round) (o : Options)
      → parse_args allocates defaults args ≡ go_on o
      → Every (Gives o) (events_in rounds)
      → MainKeeps (main allocates args env rounds)
  unfolding main after_args trace
  main-MainKeeps allocates args env rounds o parsed gives =
      subst (λ p. MainKeeps (after_args env rounds p)) (sym parsed)
        (after_setup-MainKeeps o env rounds gives (setup o env) (setup-Stays Q o env))
