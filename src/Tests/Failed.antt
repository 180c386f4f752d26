-- ===== src/Tests/Failed.antt =====
-- Runs of `main` in which a call fails behind the probes.
use rust_ebpf_demo.Prelude.{suc, ◌≡◌, refl, arith, none, ◌∷◌, ◌++◌, ◌==◌, if◌then◌else◌}
use rust_ebpf_demo.Clib.Text.{c_string}
use rust_ebpf_demo.Clib.Strtol.{strtol}
use rust_ebpf_demo.Probe.Bytecode.Store.{store_all}
use rust_ebpf_demo.Probe.Bytecode.Entry.{generate_trace_entry}
use rust_ebpf_demo.Probe.Bytecode.Return.{generate_trace_return}
use rust_ebpf_demo.Snoop.Number.{parse_non_negative_integer}
use rust_ebpf_demo.Snoop.Args.{defaults, parse_args}
use rust_ebpf_demo.Snoop.Program.{entry_program, return_program}
use rust_ebpf_demo.Snoop.Report.{event_at, on_event}
use rust_ebpf_demo.Snoop.Report.Stamps.{on_events}
use rust_ebpf_demo.Snoop.Main.State.{Run, exited, complain, print_line}
use rust_ebpf_demo.Snoop.Main.Setup.Granted.{granted, probe_calls}
use rust_ebpf_demo.Snoop.Main.Setup.Readers.{opened, freed}
use rust_ebpf_demo.Snoop.Main.Setup.Success.{release_calls, logs}
use rust_ebpf_demo.Snoop.Main.Setup.Rounds.{not_opened, not_updated}
use rust_ebpf_demo.Snoop.Main.Poll.{finished, main}
use rust_ebpf_demo.Snoop.Main.Poll.Failed.{main-not_opened, main-not_updated, main-clock_failed}
use rust_ebpf_demo.Tests.Machine.{grant, online_two}
use rust_ebpf_demo.Tests.Interleave.{entry, return}
use rust_ebpf_demo.Tests.Runs.{
  round, time, gives, no_rounds, no_events, no_arguments, one_second, timed, options, clock, shown,
  before_polls,
}

-- The second buffer.
main-not_opened_example :
    main gives no_arguments (not_opened grant 1) no_rounds ≡ finished Run.undefined
unfolding entry_program generate_trace_entry store_all return_program generate_trace_return
    parse_args
main-not_opened_example =
    main-not_opened gives no_arguments grant defaults 2 entry return 1 no_rounds
      (record { parsed = refl; counts = online_two; entry_loads = refl; return_loads = refl })
      (omega arith)

main-not_updated_example :
    main gives no_arguments (not_updated grant 1 0) no_rounds
    ≡ finished (
        if suc 1 == 2
        then exited 1 (
            release_calls grant defaults (
              freed grant 0 2 (
                logs grant (
                  complain "Error calling bpf_update_elem()"
                  ∷ opened grant 0 2 (probe_calls grant entry return 2)))))
        else Run.undefined)
unfolding entry_program generate_trace_entry store_all return_program generate_trace_return
    parse_args
main-not_updated_example =
    main-not_updated gives no_arguments grant defaults 2 entry return 1 0 no_rounds
      (record { parsed = refl; counts = online_two; entry_loads = refl; return_loads = refl })
      (omega arith)

-- The clock fails behind a poll.
main-clock_failed_example :
    main gives one_second (granted timed) (clock.before ++ round none no_events ∷ no_rounds)
    ≡ finished (
        exited 1 (
          release_calls timed options (
            freed timed 0 2 (
              logs timed (
                complain "Error calling clock_gettime()"
                ∷ print_line shown
                ∷ before_polls timed one_second options)))))
unfolding entry_program generate_trace_entry store_all return_program generate_trace_return
    parse_args parse_non_negative_integer strtol on_events event_at on_event c_string
main-clock_failed_example =
    main-clock_failed gives one_second timed options 2 entry return clock.start 1 clock.before
      (round none no_events) no_rounds (print_line shown ∷ before_polls timed one_second options)
      (record { parsed = refl; counts = online_two; entry_loads = refl; return_loads = refl }) refl
      refl (omega arith)
      (record { time = time 6 3; read = refl; valid = omega arith; early = omega arith }, tt)
      (refl, tt) refl refl
