-- ===== src/Snoop/Main/Poll.antt =====
-- The loop of `main` and the function as a whole, behind `parseArgs`.
pub mod Deadline
pub mod Output
pub mod Whole
pub mod Lines
pub mod Failed
use mathlib.Core.Option
use rust_ebpf_demo.Prelude.{
  ℕ, zero, ◌+◌, Bool, ◌&&◌, ◌||◌, Option, none, some, List, [], ◌∷◌, ltb, leb, ◌==◌, if◌then◌else◌,
}
use rust_ebpf_demo.Prelude.Int.{ℤ, pos, negsuc, pos_part}
use rust_ebpf_demo.Snoop.Args.{
  Options, Got, Parsing, go_on, exit_with, defaults, parse_args, is_unset,
}
use rust_ebpf_demo.Snoop.Report.{Printed, nothing, line, print_header, perf_reader_raw_callback}
use rust_ebpf_demo.Snoop.Main.State
use rust_ebpf_demo.Snoop.Main.State.{
  Timespec, Replies, Call, Locals, Flow, next, error, Run, exited, called, print_line,
  print_message, complain, complain_of_poll, all_set,
}
use rust_ebpf_demo.Snoop.Main.Release.{cleanup, on_error}
use rust_ebpf_demo.Snoop.Main.Setup.{setup}

-- `endTime.tv_sec += opt_duration;`
abbrev pub end_time : Timespec → ℤ → Timespec
end_time start duration = record start { tv_sec = start.tv_sec + pos_part duration }

-- The test that ends the loop.
abbrev pub is_past : Timespec → Timespec → Bool
is_past end now =
    ltb end.tv_sec now.tv_sec || (now.tv_sec == end.tv_sec && leb end.tv_nsec now.tv_nsec)

-- A round of the loop: what `clock_gettime` answers, if it is called, the events that
-- `perf_reader_poll` hands to the callback, and its result.
pub record Round : Type 0 where
  pub reading : Option Timespec
  pub events : List (List ℕ)
  pub result : ℤ

-- `initialTimestamp`, and the calls so far.
pub record Polled : Type 0 where
  pub initial : ℕ
  pub calls : List Call

-- What is printed for an event; the negation of the least `int` is undefined.
abbrev pub emit : Printed → List Call → (List Call → Option Polled) → Option Polled
emit nothing calls rest = rest calls
emit (line l) calls rest = rest (print_line l ∷ calls)
emit Printed.undefined calls rest = none

-- The loop ends or fails, still runs after the rounds that are given, or is undefined.
pub data Loop : Type 0 where
  ended : List Call → Loop
  clock_failed : List Call → Loop
  running : List Call → Loop
  undefined : Loop

module _ (o : Options) where
  -- The callback on each event; `none` is undefined.
  unfoldable pub deliver : ℕ → List (List ℕ) → List Call → Option Polled
  deliver initial [] calls = some (record { initial = initial; calls = calls })
  deliver initial (raw ∷ events) calls =
      let (initial', p) = perf_reader_raw_callback o initial raw in
      emit p calls (λ calls'. deliver initial' events calls')

  -- One poll, and what is said of its result.
  abbrev pub after_poll : ℤ → Polled → Polled
  after_poll (pos zero) p = p
  after_poll z p = record p { calls = complain_of_poll z ∷ p.calls }

  -- `perf_reader_poll` reads the whole array, so that an element without a value is undefined.
  unfoldable pub poll : Option (List (Option ℕ)) → Round → Polled → Option Polled
  unfolding deliver
  poll readers r p =
      if all_set readers
      then Option.map (after_poll r.result) (deliver p.initial r.events p.calls)
      else none

  abbrev pub or_undefined : Option Polled → (Polled → Loop) → Loop
  or_undefined none again = undefined
  or_undefined (some p) again = again p

  -- The clock is read first, if there is a duration.
  pub poll_loop : Option (List (Option ℕ)) → Timespec → Polled → List Round → Loop
  unfolding poll
  poll_loop readers end p [] = running p.calls
  poll_loop readers end p (r ∷ rounds) =
      let polled = or_undefined (poll readers r p) (λ p'. poll_loop readers end p' rounds) in
      let timed : Loop = elim r.reading [
        | none ↦ clock_failed (complain "Error calling clock_gettime()" ∷ p.calls)
        | some now ↦ if is_past end now then ended p.calls else polled
      ] in
      if is_unset o.duration then polled else timed

-- The process exits, C leaves what happens undefined, or the loop still runs.
pub data Main : Type 0 where
  finished : Run → Main
  polling : List Call → Main

abbrev with_calls : Locals → List Call → Locals
with_calls l calls = record l { calls = calls }

abbrev pub after_loop : Options → Locals → Loop → Main
unfolding cleanup on_error
after_loop o l (ended calls) = finished (cleanup o 0 (with_calls l calls))
after_loop o l (clock_failed calls) = finished (on_error o (with_calls l calls))
after_loop o l (running calls) = polling calls
after_loop o l undefined = finished Run.undefined

-- The clock is read first if there is a duration; then the header is printed.
abbrev pub start_loop : Options → List Round → Locals → Option Timespec → Main
unfolding poll_loop
start_loop o rounds l none =
    finished (on_error o (called (complain "Error calling clock_gettime()") l))
start_loop o rounds l (some start) = after_loop o l (
    poll_loop o l.readers (end_time start o.duration)
      (record { initial = 0; calls = Call.print_header (print_header o) ∷ l.calls }) rounds)

-- What the clock answers, or any time where it is not read.
abbrev start_reading : Options → Replies → Option Timespec
start_reading o env =
    if is_unset o.duration then some (record { tv_sec = 0; tv_nsec = 0 }) else env.start_time

after_setup : Options → Replies → List Round → Flow → Main
unfolding start_loop
after_setup o env rounds (next l) = start_loop o rounds l (start_reading o env)
after_setup o env rounds (error l) = finished (on_error o l)
after_setup o env rounds Flow.undefined = finished Run.undefined

-- Behind `parseArgs`.
pub trace : Options → Replies → List Round → Main
unfolding after_setup
trace o env rounds = after_setup o env rounds (setup o env)

after_args : Replies → List Round → Parsing → Main
unfolding trace
after_args env rounds (go_on o) = trace o env rounds
after_args env rounds (exit_with code m) = finished (exited code (print_message m ∷ []))

-- The whole of `main`, by what `getopt_long` returns.
pub main : (ℕ → Bool) → List Got → Replies → List Round → Main
unfolding after_args
main allocates args env rounds = after_args env rounds (parse_args allocates defaults args)
