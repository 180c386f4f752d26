-- ===== src/Tests/Whole.antt =====
-- Two tasks whose calls of open() overlap, and what `main` prints of them.
use mathlib.Core.List.Memᴰ
use rust_ebpf_demo.Prelude.{refl, none, some, List, ◌∷◌, ◌++◌, arith}
use rust_ebpf_demo.Prelude.Int.{pos}
use rust_ebpf_demo.Clib.Text.{codes, c_string}
use rust_ebpf_demo.Probe.Bytecode.Store.{store_all}
use rust_ebpf_demo.Probe.Bytecode.Entry.{generate_trace_entry}
use rust_ebpf_demo.Probe.Bytecode.Return.{generate_trace_return}
use rust_ebpf_demo.Clib.Strtol.{strtol}
use rust_ebpf_demo.Snoop.Number.{parse_non_negative_integer}
use rust_ebpf_demo.Snoop.Args.{defaults, parse_args}
use rust_ebpf_demo.Snoop.Program.{entry_program, return_program}
use rust_ebpf_demo.Snoop.Report.{Line, event_at, on_event}
use rust_ebpf_demo.Snoop.Report.Stamps.{on_events}
use rust_ebpf_demo.Snoop.Main.State.{print_line}
use rust_ebpf_demo.Snoop.Main.Poll.{Round, main}
use rust_ebpf_demo.Snoop.Main.Poll.Whole.{Timed}
use rust_ebpf_demo.Snoop.Main.Setup.Granted.{granted}
use rust_ebpf_demo.Snoop.Main.Poll.Lines.{MainKeeps}
use rust_ebpf_demo.Snoop.Genuine.{IsGenuine, main-IsGenuine}
use rust_ebpf_demo.Snoop.Whole.{Shows, Completes, main-Shows, main-Completes}
use rust_ebpf_demo.Tests.World.{view, kernel, kernel-Serves, quiet}
use rust_ebpf_demo.Tests.Machine.{grant, online_two}
use rust_ebpf_demo.Tests.Interleave.{entry, return, last, calls, reached, fresh}
use rust_ebpf_demo.Tests.Runs.{
  round, time, no_events, one_second, timed, options, gives, no_rounds, no_arguments, before_polls,
}

abbrev shown : Line
shown = record {
  delta = none;
  pid = pos 42;
  comm = codes "cat";
  fd_s = pos 5;
  err = pos 0;
  fname = codes "/tmp";
}

abbrev polls : List Round
polls = round none last.events ∷ no_rounds

main-Shows_example :
    Shows view kernel kernel-Serves gives no_arguments grant defaults 2 entry return polls calls
      (print_line shown ∷ before_polls grant no_arguments defaults)
unfolding entry_program generate_trace_entry store_all return_program generate_trace_return
    parse_args on_events event_at on_event c_string
main-Shows_example =
    main-Shows view kernel kernel-Serves gives no_arguments grant defaults 2 entry return polls
      calls quiet last (print_line shown ∷ before_polls grant no_arguments defaults)
      (record { parsed = refl; counts = online_two; entry_loads = refl; return_loads = refl }) refl
      refl refl (refl, tt) fresh reached refl refl

-- The same within one second.
abbrev second : Timed
second = record {
  start = time 5 10;
  seconds = 1;
  before = round (some (time 6 3)) last.events ∷ no_rounds;
  last = round (some (time 6 10)) no_events;
  now = time 6 10;
}

main-Completes_example :
    Completes view kernel kernel-Serves gives one_second timed options 2 entry return
      (second.before ++ second.last ∷ no_rounds)
      calls
      (print_line shown ∷ before_polls timed one_second options)
unfolding entry_program generate_trace_entry store_all return_program generate_trace_return
    parse_args parse_non_negative_integer strtol on_events event_at on_event c_string
main-Completes_example =
    main-Completes view kernel kernel-Serves gives one_second timed options 2 entry return second
      no_rounds calls quiet last (print_line shown ∷ before_polls timed one_second options)
      (record { parsed = refl; counts = online_two; entry_loads = refl; return_loads = refl }) refl
      refl refl refl
      (record {
        start = omega arith;
        before =
            (record { time = time 6 3; read = refl; valid = omega arith; early = omega arith }, tt);
        quiet = (refl, tt);
        read = refl;
        now = omega arith;
        past = omega arith;
      })
      fresh reached refl refl

-- The event is handed over twice, and the poll gives an unexpected result.
abbrev doubled : List Round
doubled = record (round none (last.events ++ last.events)) { result = pos 1 } ∷ no_rounds

main-IsGenuine_example :
    MainKeeps (IsGenuine defaults calls) (main gives no_arguments (granted grant) doubled)
unfolding entry_program generate_trace_entry store_all return_program generate_trace_return
    parse_args
main-IsGenuine_example =
    main-IsGenuine view kernel kernel-Serves defaults entry return gives no_arguments
      (granted grant) doubled calls quiet last refl refl refl refl refl fresh reached
      (∣ Memᴰ.head refl ∣₁, (∣ Memᴰ.head refl ∣₁, tt))
