-- ===== src/Snoop/Main/State.antt =====
-- The variables of `main`, what the libraries answer, and the calls that are made.
use rust_ebpf_demo.Prelude.{
  ℕ, Bool, true, false, Option, none, some, List, [], ◌∷◌, if◌then◌else◌, length,
}
use rust_ebpf_demo.Prelude.Int.{ℤ, neg}
use rust_ebpf_demo.Bpf.Insn.{BpfInsn}
use rust_ebpf_demo.Snoop.Args.{is_unset, Message}
use rust_ebpf_demo.Snoop.Report.{Column, Line}
use Prim.Native.String.{String}
use rust_ebpf_demo.Snoop.Cpus.{Sysfs}

-- Seconds and nanoseconds, a `struct timespec`.
pub record Timespec : Type 0 where
  pub tv_sec : ℕ
  pub tv_nsec : ℕ

pub record Replies : Type 0 where
  pub sysfs : Sysfs
  -- `malloc` of the array of readers
  pub readers_allocated : Bool
  -- `LINUX_VERSION_CODE`
  pub version : ℕ
  -- `LOG_BUF_SIZE`, which libbpf.h defines
  pub log_size : ℕ
  -- what stands in the arrays of instructions
  pub entry_array : List BpfInsn
  pub return_array : List BpfInsn
  pub hash_map : ℤ
  pub events_map : ℤ
  pub entry_prog : ℤ
  pub kprobe : ℤ
  pub return_prog : ℤ
  pub kretprobe : ℤ
  -- by the round of the loop: the reader, or NULL, and the result of `bpf_update_elem`
  pub reader : ℕ → Option ℕ
  pub updated : ℕ → ℤ
  -- `clock_gettime`, if it succeeds
  pub start_time : Option Timespec
  -- whether `bpf_log_buf` holds a text behind each of the two calls of `bpf_prog_load`
  pub entry_logged : Bool
  pub return_logged : Bool

pub data MapType : Type 0 where
  hash perf_event_array : MapType

pub data AttachType : Type 0 where
  probe_entry probe_return : AttachType

-- A call, with its result where that is used.
pub data Call : Type 0 where
  -- type, name, size of a key, size of a value, number of entries, flags, result
  create_map : MapType → String → ℕ → ℕ → ℕ → ℕ → ℤ → Call
  -- a kprobe program: name, instructions, length in bytes, license, version, log level, size of the log,
  -- result
  prog_load : String → List BpfInsn → ℕ → String → ℕ → ℕ → ℕ → ℤ → Call
  -- program, type, name of the event, function, offset, result
  attach_kprobe : ℤ → AttachType → String → String → ℕ → ℤ → Call
  -- process, processor, pages, the reader or NULL
  open_perf_buffer : ℤ → ℤ → ℕ → Option ℕ → Call
  -- map, key, the reader whose descriptor is the value
  update_elem : ℤ → ℤ → ℕ → Call
  -- `perror` or `fprintf` to stderr, with this text
  complain : String → Call
  -- a result of `perf_reader_poll` other than 0
  complain_of_poll : ℤ → Call
  print_log : Call
  print_header : List Column → Call
  print_line : Line → Call
  free_reader : ℕ → Call
  close : ℤ → Call
  free_cpus : Call
  free_name : Call
  -- what `parseArgs` prints
  print_message : Message → Call

-- The variables. `none` is NULL for a pointer, and no value yet for a variable that C leaves
-- uninitialised: `returnProgFd`, `kretprobeFd` and the elements of `readers`. `logged` says whether `bpf_log_buf` holds a
-- text. `calls` are the calls
-- so far, the last one first.
pub record Locals : Type 0 where
  pub cpus : Option (List ℤ)
  pub readers : Option (List (Option ℕ))
  pub hash_map_fd : ℤ
  pub events_map_fd : ℤ
  pub entry_prog_fd : ℤ
  pub kprobe_fd : ℤ
  pub return_prog_fd : Option ℤ
  pub kretprobe_fd : Option ℤ
  pub logged : Bool
  pub calls : List Call

abbrev pub initial : Locals
initial = record {
  cpus = none;
  readers = none;
  hash_map_fd = neg 1;
  events_map_fd = neg 1;
  entry_prog_fd = neg 1;
  kprobe_fd = neg 1;
  return_prog_fd = none;
  kretprobe_fd = none;
  logged = false;
  calls = [];
}

abbrev pub num_in : Option (List ℤ) → ℕ
num_in none = 0
num_in (some cpus) = length cpus

-- `numCpu`
abbrev pub num_cpu : Locals → ℕ
num_cpu l = num_in l.cpus

-- Where a step leads: to the next one, to the label `error`, or to what C leaves undefined.
pub data Flow : Type 0 where
  next : Locals → Flow
  error : Locals → Flow
  undefined : Flow

infixl 5 ◌>>=◌
abbrev pub ◌>>=◌ : Flow → (Locals → Flow) → Flow
next l >>= f = f l
error l >>= f = error l
undefined >>= f = undefined

abbrev pub called : Call → Locals → Locals
called c l = record l { calls = c ∷ l.calls }

-- How the process ends.
pub data Run : Type 0 where
  exited : ℕ → List Call → Run
  undefined : Run

abbrev all_some : List (Option ℕ) → Bool
all_some [] = true
all_some (none ∷ slots) = false
all_some (some r ∷ slots) = all_some slots

-- Whether every element of the array of readers has a value.
abbrev pub all_set : Option (List (Option ℕ)) → Bool
all_set none = false
all_set (some slots) = all_some slots

-- `if (fd != -1) close(fd);`
abbrev pub close_fd : ℤ → List Call → List Call
close_fd fd calls = if is_unset fd then calls else close fd ∷ calls
