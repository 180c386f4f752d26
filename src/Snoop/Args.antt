-- ===== src/Snoop/Args.antt =====
-- `parseArgs` of opensnoop/opensnoop.c. `getopt_long` is glibc's: what it returns, call by call, is an
-- argument, with the option's text, if any.
pub mod Settings
use Prim.Native.String.{String}
use mathlib.Core.Option
use rust_ebpf_demo.Prelude.{
  ℕ, suc, ◌+◌, ◌≡◌, Bool, true, false, Option, none, some, List, [], ◌∷◌, ◌==◌, if◌then◌else◌,
  length,
}
use rust_ebpf_demo.Prelude.Int.{ℤ, pos, neg, negsuc}
use rust_ebpf_demo.Snoop.Number.{Parsed, parse_non_negative_integer}

-- The globals `opt_timestamp` to `opt_name`.
pub record Options : Type 0 where
  pub timestamp : Bool
  pub failed : Bool
  pub pid : ℤ
  pub tid : ℤ
  pub duration : ℤ
  pub name : Option (List ℕ)

-- Their initial values.
abbrev pub defaults : Options
defaults = record {
  timestamp = false;
  failed = false;
  pid = neg 1;
  tid = neg 1;
  duration = neg 1;
  name = none;
}

-- What `getopt_long` returns and what it leaves in `optarg`.
pub record Got : Type 0 where
  pub c : ℕ
  pub optarg : List ℕ

-- The lines that `usage` prints.
abbrev pub usage : List String
usage =
    ("usage: opensnoop.py [-h] [-T] [-x] [-p PID] [-t TID] [-d DURATION] [-n NAME]" ∷ ""
      ∷ "Trace open() syscalls" ∷ "" ∷ "optional arguments:"
      ∷ "  -h, --help            show this help message and exit"
      ∷ "  -T, --timestamp       include timestamp on output"
      ∷ "  -x, --failed          only show failed opens"
      ∷ "  -p PID, --pid PID     trace this PID only"
      ∷ "  -t TID, --tid TID     trace this TID only" ∷ "  -d DURATION, --duration DURATION"
      ∷ "                        total duration of trace in seconds"
      ∷ "  -n NAME, --name NAME  only print process names containing this name" ∷ "" ∷ "examples:"
      ∷ "    ./opensnoop           # trace all open() syscalls"
      ∷ "    ./opensnoop -T        # include timestamps"
      ∷ "    ./opensnoop -x        # only show failed opens"
      ∷ "    ./opensnoop -p 181    # only trace PID 181"
      ∷ "    ./opensnoop -t 123    # only trace TID 123"
      ∷ "    ./opensnoop -d 10     # trace for 10 seconds only"
      ∷ "    ./opensnoop -n main   # only print process names containing \"main\"" ∷ [])

-- What is printed in front of an exit: the usage text on stdout or stderr, the value that is invalid for
-- an option, or that `malloc` failed.
pub data Message : Type 0 where
  usage_on_stdout usage_on_stderr malloc_failed : Message
  invalid_value : ℕ → List ℕ → Message

-- The parser goes on with the options, or the process exits with a code behind a message.
pub data Parsing : Type 0 where
  go_on : Options → Parsing
  exit_with : ℕ → Message → Parsing

-- `x == -1`
abbrev pub is_unset : ℤ → Bool
is_unset (pos n) = false
is_unset (negsuc n) = n == 0

-- `opt = parseNonNegativeInteger(optarg); if (opt == -1) { fprintf(...); exit(1); }`
abbrev pub accept : ℤ → Got → Options → Parsing
accept n g o = if is_unset n then exit_with 1 (invalid_value g.c g.optarg) else go_on o

abbrev pub parse_next : Parsing → (Options → Parsing) → Parsing
parse_next (go_on o) next = next o
parse_next (exit_with code m) next = exit_with code m

-- `allocates` says whether `malloc` gives that many bytes.
module _ (allocates : ℕ → Bool) where
  -- One round of the loop.
  pub parse_arg : Options → Got → Parsing
  parse_arg o g =
      let n = (parse_non_negative_integer g.optarg).result in
      if g.c == 0
      then go_on o
      else if g.c == b'T'
      then go_on (record o { timestamp = true })
      else if g.c == b'x'
      then go_on (record o { failed = true })
      else if g.c == b'p'
      then accept n g (record o { pid = n })
      else if g.c == b't'
      then accept n g (record o { tid = n })
      else if g.c == b'd'
      then accept n g (record o { duration = n })
      else if g.c == b'n'
      then (if allocates (length g.optarg + 1)
          then go_on (record o { name = some g.optarg })
          else exit_with 1 malloc_failed)
      else if g.c == b'h'
      then exit_with 0 usage_on_stdout
      else exit_with 1 usage_on_stderr

  -- The loop ends with the list, where `getopt_long` returns -1.
  unfoldable pub parse_args : Options → List Got → Parsing
  unfolding parse_arg
  parse_args o [] = go_on o
  parse_args o (g ∷ gs) = parse_next (parse_arg o g) (λ o'. parse_args o' gs)
