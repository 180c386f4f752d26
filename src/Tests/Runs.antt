-- ===== src/Tests/Runs.antt =====
-- Runs of `main`: the setup, and polls that print a line.
use rust_ebpf_demo.Prelude.{
  ℕ, ◌≡◌, refl, Bool, true, Option, none, some, List, [], ◌∷◌, ◌++◌, ◌==◌, if◌then◌else◌, arith,
}
use rust_ebpf_demo.Prelude.Int.{pos}
use rust_ebpf_demo.Clib.Text.{c_string}
use rust_ebpf_demo.Clib.Strtol.{strtol}
use rust_ebpf_demo.Probe.Layout.{DataT, encode_data}
use rust_ebpf_demo.Probe.Bytecode.Store.{store_all}
use rust_ebpf_demo.Probe.Bytecode.Entry.{generate_trace_entry, trace_entry_insns}
use rust_ebpf_demo.Probe.Bytecode.Return.{generate_trace_return, trace_return_insns}
use rust_ebpf_demo.Snoop.Number.{parse_non_negative_integer}
use rust_ebpf_demo.Snoop.Args.{Options, Got, defaults, parse_args}
use rust_ebpf_demo.Snoop.Program.{entry_program, return_program}
use rust_ebpf_demo.Snoop.Report.{Line, event_at, on_event}
use rust_ebpf_demo.Snoop.Report.Stamps.{on_events}
use rust_ebpf_demo.Snoop.Main.State.{
  Locals, Flow, next, exited, Call, print_line, Timespec, all_set,
}
use rust_ebpf_demo.Snoop.Main.Setup.{setup}
use rust_ebpf_demo.Snoop.Main.Setup.Granted.{Grant, granted, probe_calls}
use rust_ebpf_demo.Snoop.Main.Setup.Readers.{opened, freed}
use rust_ebpf_demo.Snoop.Main.Setup.Success.{release_calls, setup-cleanup, IsReleased}
use rust_ebpf_demo.Snoop.Main.Setup.Sparse.{setup-undefined}
use rust_ebpf_demo.Snoop.Main.Poll.{
  Round, Polled, ended, end_time, poll_loop, finished, polling, main,
}
use rust_ebpf_demo.Snoop.Main.Poll.Deadline.{polls, poll_loop-ended}
use rust_ebpf_demo.Snoop.Main.Poll.Whole.{Timed, prelude, main-exited, main-polling}
use rust_ebpf_demo.Tests.Machine.{grant, gap_grant, online_two, online_gap}

setup-cleanup_example :
    (l : Locals) × (setup defaults (granted grant) ≡ next l)
    × (l.calls
        ≡ opened grant 0 2
            (probe_calls grant (trace_entry_insns (pos 4)) (trace_return_insns (pos 4) (pos 5)) 2))
    × (all_set l.readers ≡ true)
    × IsReleased grant defaults 2 l
unfolding entry_program generate_trace_entry store_all return_program generate_trace_return
setup-cleanup_example =
    setup-cleanup grant defaults 2 (trace_entry_insns (pos 4)) (trace_return_insns (pos 4) (pos 5))
      online_two refl refl

setup-undefined_example : setup defaults (granted gap_grant) ≡ Flow.undefined
unfolding entry_program generate_trace_entry store_all return_program generate_trace_return
setup-undefined_example =
    setup-undefined gap_grant defaults (pos 0 ∷ pos 2 ∷ []) (trace_entry_insns (pos 4))
      (trace_return_insns (pos 4) (pos 5)) online_gap refl refl refl

abbrev two : List ℕ
two = 0 ∷ 1 ∷ []

abbrev text_byte : ℕ → ℕ
text_byte i = if i == 0 then b'c' else 0

-- An open by the process 42 that gives descriptor 3, and the line for it.
abbrev written : DataT
written = record { id = 180388626475; ts = 1000; ret = 3; comm = text_byte; fname = text_byte }

abbrev pub shown : Line
shown = record {
  delta = none;
  pid = pos 42;
  comm = b'c' ∷ [];
  fd_s = pos 3;
  err = pos 0;
  fname = b'c' ∷ [];
}

abbrev pub time : ℕ → ℕ → Timespec
time s n = record { tv_sec = s; tv_nsec = n }

abbrev pub round : Option Timespec → List (List ℕ) → Round
round reading events = record { reading = reading; events = events; result = pos 0 }

abbrev pub one_event : List (List ℕ)
one_event = encode_data written ∷ []

abbrev pub no_events : List (List ℕ)
no_events = []

-- One second, and one poll in it.
abbrev pub clock : Timed
clock = record {
  start = time 5 10;
  seconds = 1;
  before = round (some (time 6 3)) one_event ∷ [];
  last = round (some (time 6 10)) no_events;
  now = time 6 10;
}

abbrev pub gives : ℕ → Bool
gives n = true

-- "-d 1"
abbrev pub one_second : List Got
one_second = record { c = b'd'; optarg = b'1' ∷ [] } ∷ []

abbrev pub timed : Grant
timed = record grant { start_time = some clock.start }

abbrev pub options : Options
options = record defaults { duration = pos 1 }

abbrev pub no_rounds : List Round
no_rounds = []

abbrev pub no_arguments : List Got
no_arguments = []

abbrev pub before_polls : Grant → List Got → Options → List Call
before_polls g args o =
    prelude gives args g o 2 (trace_entry_insns (pos 4)) (trace_return_insns (pos 4) (pos 5))

main-exited_example :
    main gives one_second (granted timed) (clock.before ++ clock.last ∷ no_rounds)
    ≡ finished (
        exited 0 (
          release_calls timed options
            (freed timed 0 2 (print_line shown ∷ before_polls timed one_second options))))
unfolding entry_program generate_trace_entry store_all return_program generate_trace_return
    parse_args parse_non_negative_integer strtol on_events event_at on_event c_string
main-exited_example =
    main-exited gives one_second timed options 2 (trace_entry_insns (pos 4))
      (trace_return_insns (pos 4) (pos 5)) clock no_rounds
      (print_line shown ∷ before_polls timed one_second options)
      (record { parsed = refl; counts = online_two; entry_loads = refl; return_loads = refl }) refl
      refl
      (record {
        start = omega arith;
        before =
            (record { time = time 6 3; read = refl; valid = omega arith; early = omega arith }, tt);
        quiet = (refl, tt);
        read = refl;
        now = omega arith;
        past = omega arith;
      })
      refl

main-polling_example :
    main gives no_arguments (granted grant) (round none one_event ∷ no_rounds)
    ≡ polling (print_line shown ∷ before_polls grant no_arguments defaults)
unfolding entry_program generate_trace_entry store_all return_program generate_trace_return
    parse_args on_events event_at on_event c_string
main-polling_example =
    main-polling gives no_arguments grant defaults 2 (trace_entry_insns (pos 4))
      (trace_return_insns (pos 4) (pos 5)) (round none one_event ∷ no_rounds)
      (print_line shown ∷ before_polls grant no_arguments defaults)
      (record { parsed = refl; counts = online_two; entry_loads = refl; return_loads = refl }) refl
      (refl, tt) refl

abbrev at_start : Polled
at_start = record { initial = 0; calls = [] }

abbrev two_readers : Option (List (Option ℕ))
two_readers = some (some 1 ∷ some 2 ∷ [])

poll_loop-ended_example :
    poll_loop options two_readers
      (end_time clock.start (pos 1))
      at_start
      (clock.before ++ clock.last ∷ no_rounds)
    ≡ polls options two_readers clock.before at_start (λ p'. ended p'.calls)
poll_loop-ended_example =
    poll_loop-ended options two_readers clock.start 1 at_start clock.before clock.last clock.now
      no_rounds refl (omega arith)
      (record { time = time 6 3; read = refl; valid = omega arith; early = omega arith }, tt) refl
      (omega arith) (omega arith)
