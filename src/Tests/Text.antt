-- ===== src/Tests/Text.antt =====
-- The texts, the options, the events and the clock of the tests.
use rust_ebpf_demo.Clib.Printf.{pad_right}
use rust_ebpf_demo.Clib.Decimal.{decimal, digits}
use rust_ebpf_demo.Clib.Text.{codes}
use rust_ebpf_demo.Snoop.Report.{Line, print_header}
use rust_ebpf_demo.Snoop.Report.Text.{
  header_text, line_text, time_text, read_columns, read_columns-line_text,
}
use rust_ebpf_demo.Prelude.{
  ℕ, ◌≡◌, ◌↔◌, refl, Bool, true, false, none, some, drop, length, List, [], ◌∷◌, ◌++◌, arith, ◌==◌,
  if◌then◌else◌,
}
use rust_ebpf_demo.Prelude.Int.{ℤ, pos, neg}
use rust_ebpf_demo.Clib.Strtol.{no_error, numeral, value_from, strtol}
use rust_ebpf_demo.Probe.Layout.{DataT, encode_data}
use rust_ebpf_demo.Snoop.Number.{
  IsParsed, parse_non_negative_integer, parse_non_negative_integer-IsParsed,
  parse_non_negative_integer-numeral,
}
use rust_ebpf_demo.Snoop.Cpus.{Sysfs, online, get_online_cpus}
use rust_ebpf_demo.Snoop.Cpus.Bounds.{IsBounded, get_online_cpus-IsBounded}
use rust_ebpf_demo.Snoop.Cpus.Correct.{online_text, get_online_cpus-appended}
use rust_ebpf_demo.Snoop.Cpus.Ranges.{Num, Range, one, span}
use rust_ebpf_demo.Snoop.Args.{Options, defaults, Got, parse_args}
use rust_ebpf_demo.Snoop.Args.Settings.{IsSafe, parse_args-IsSafe, parse_args-last_pid}
use rust_ebpf_demo.Snoop.Report.{Event, nothing, event_at, on_event}
use rust_ebpf_demo.Snoop.Report.Decode.{event_of, event_at-encode_data}
use rust_ebpf_demo.Snoop.Report.Filter.{Unwanted, on_event-silent_iff}
use rust_ebpf_demo.Snoop.Report.Stamps.{start_of, Since, on_events, on_events-Since}

parse_non_negative_integer-IsParsed_example :
    IsParsed (parse_non_negative_integer (b'-' ∷ b'7' ∷ []))
parse_non_negative_integer-IsParsed_example = parse_non_negative_integer-IsParsed (b'-' ∷ b'7' ∷ [])

abbrev forty_two : List ℕ
forty_two = 2 ∷ []

abbrev no_text : List ℕ
no_text = []

parse_non_negative_integer-numeral_example :
    parse_non_negative_integer (numeral (4 ∷ forty_two) ++ no_text)
    ≡ record { result = pos 42; errno = no_error }
unfolding value_from
parse_non_negative_integer-numeral_example =
    parse_non_negative_integer-numeral 4 forty_two no_text (omega arith, (omega arith, tt)) tt

abbrev one_digit : ℕ → Num
one_digit d = record { first = d; others = [] }

-- "0-3,5"
abbrev first_range : Range
first_range = span (one_digit 0) (one_digit 3)

abbrev other_ranges : List Range
other_ranges = one (one_digit 5) ∷ []

abbrev sysfs : Sysfs
sysfs = record {
  fd = pos 3;
  contents = some (online_text first_range other_ranges);
  closed = pos 0;
  allocated = true;
}

get_online_cpus-appended_example :
    get_online_cpus sysfs
    ≡ record { outcome = online (pos 0 ∷ pos 1 ∷ pos 2 ∷ pos 3 ∷ pos 5 ∷ []); fd_open = false }
unfolding value_from
get_online_cpus-appended_example =
    get_online_cpus-appended sysfs first_range other_ranges
      (record {
        opened = refl;
        contents = refl;
        short = omega arith;
        closes = refl;
        allocates = refl;
      })
      (((omega arith, tt), omega arith), ((omega arith, tt), omega arith), omega arith)
      (((omega arith, tt), omega arith), tt)

abbrev gives : ℕ → Bool
gives n = true

-- "-p 7 -T"
abbrev process_7 : Got
process_7 = record { c = b'p'; optarg = b'7' ∷ [] }

abbrev stamps : List Got
stamps = record { c = b'T'; optarg = [] } ∷ []

abbrev nothing_given : List Got
nothing_given = []

parse_args-IsSafe_example : IsSafe (parse_args gives defaults (process_7 ∷ stamps))
parse_args-IsSafe_example =
    parse_args-IsSafe gives defaults (process_7 ∷ stamps)
      (record { pid = refl; tid = refl; duration = refl })

parse_args-last_pid_example :
    (pos 7 ≡ (parse_non_negative_integer (b'7' ∷ [])).result)
    × ((parse_non_negative_integer (b'7' ∷ [])).errno ≡ no_error)
unfolding parse_args parse_non_negative_integer strtol
parse_args-last_pid_example =
    parse_args-last_pid gives defaults (record defaults { pid = pos 7; timestamp = true })
      nothing_given stamps (b'7' ∷ []) (omega arith, tt) refl

abbrev text_byte : ℕ → ℕ
text_byte i = if i == 0 then b'c' else 0

abbrev written : DataT
written = record {
  id = 180388626475;
  ts = 1000;
  ret = 4294967294;
  comm = text_byte;
  fname = text_byte;
}

event_at-encode_data_example : event_at (encode_data written) ≡ event_of written
event_at-encode_data_example =
    event_at-encode_data written
      (record { id = omega arith; ts = omega arith; ret = omega arith; comm = refl })

abbrev event : ℕ → Event
event ts = record { id = 180388626475; ts = ts; ret = pos 3; comm = b'c' ∷ []; fname = b'f' ∷ [] }

abbrev only_failed : Options
only_failed = record defaults { failed = true }

on_event-silent_iff_example :
    ((on_event only_failed 0 (event 9)).1 ≡ nothing) ↔ Unwanted only_failed (event 9)
on_event-silent_iff_example = on_event-silent_iff only_failed 0 (event 9)

abbrev with_stamps : Options
with_stamps = record defaults { timestamp = true }

abbrev two_events : List Event
two_events = event 9 ∷ event 12 ∷ []

on_events-Since_example : Since 9 two_events (on_events with_stamps 0 two_events)
unfolding start_of
on_events-Since_example =
    on_events-Since with_stamps two_events refl (omega arith)
      ((λ _. (omega arith, omega arith)), ((λ _. (omega arith, omega arith)), tt))

get_online_cpus-IsBounded_example : IsBounded (get_online_cpus sysfs).outcome
get_online_cpus-IsBounded_example = get_online_cpus-IsBounded sysfs

abbrev cat_line : Line
cat_line = record {
  delta = none;
  pid = pos 42;
  comm = codes "cat";
  fd_s = neg 1;
  err = pos 13;
  fname = codes "/tmp";
}

-- The time is not converted.
abbrev no_seconds : ℤ → List ℕ
no_seconds nanos = []

header_printed : header_text defaults ≡ codes "PID    COMM               FD ERR PATH" ++ (10 ∷ [])
unfolding print_header
header_printed = refl

timed_header_printed :
    header_text (record defaults { timestamp = true; tid = pos 7 })
    ≡ codes "TIME(s)       TID    COMM               FD ERR PATH" ++ (10 ∷ [])
unfolding print_header
timed_header_printed = refl

line_printed :
    line_text no_seconds cat_line ≡ codes "42     cat                -1  13 /tmp" ++ (10 ∷ [])
unfolding decimal digits
line_printed = refl

read_columns-line_text_example :
    read_columns
      (drop (length (time_text no_seconds cat_line.delta)) (line_text no_seconds cat_line))
    ≡ (pos 42, pad_right 16 (codes "cat"), neg 1, pos 13, codes "/tmp" ++ (10 ∷ []))
read_columns-line_text_example =
    read_columns-line_text no_seconds cat_line
      (record { pid = omega arith; comm = omega arith; fd_s = omega arith; err = omega arith })
