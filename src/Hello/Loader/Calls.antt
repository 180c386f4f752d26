-- ===== src/Hello/Loader/Calls.antt =====
-- What c/load-bpf.c hands to the system calls and what they answer: the attributes, the texts, the calls
-- and the descriptors that are open.
use Prim.Native.String.{String}
use rust_ebpf_demo.Prelude.{
  ℕ, ◌-◌, ◌%◌, ◌^◌, Bool, true, false, Option, none, some, List, [], ◌∷◌, ◌++◌, ◌||◌, ◌==◌, leb,
  if◌then◌else◌, length,
}
use rust_ebpf_demo.Prelude.Int.{ℤ, pos, negsuc, ltb_ℤ}
use rust_ebpf_demo.Bpf.Insn.{BpfInsn}
use rust_ebpf_demo.Clib.Text.{codes, snprintf, c_string, terminated}
use rust_ebpf_demo.Clib.Decimal.{decimal}
use rust_ebpf_demo.Clib.Prefixed.{strtol_any}

-- The fields of `union bpf_attr` that are set; the log's buffer and the addresses are what they point to.
pub record LoadAttr : Type 0 where
  pub prog_type : ℕ
  pub insns : List BpfInsn
  pub license : List ℕ
  pub insn_cnt : ℕ
  pub log_size : ℕ
  pub log_level : ℕ
  pub kern_version : ℕ

-- The fields of `struct perf_event_attr` that are set.
pub record PerfAttr : Type 0 where
  pub config : ℕ
  pub type : ℕ
  pub sample_period : ℕ
  pub wakeup_events : ℕ

-- What is written to stderr, without the text of `errno`.
pub data Message : Type 0 where
  perror : String → Message
  cannot_open : List ℕ → Message
  cannot_read : Option (List ℕ) → Message
  cannot_open_event : List ℕ → Message
  no_probe_entry cannot_attach : Message
  run_cat sig_int_received : Message
  unexpected_signal : ℤ → Message

-- O_RDONLY, and O_WRONLY | O_APPEND.
pub data OpenMode : Type 0 where
  read_only append_only : OpenMode

-- The system calls that matter, with their arguments.
pub data Call : Type 0 where
  load_program : LoadAttr → Call
  open_file : List ℕ → OpenMode → Call
  write_text : ℤ → List ℕ → Call
  read_file : ℤ → Call
  close_fd : ℤ → Call
  -- process, processor and group, with PERF_FLAG_FD_CLOEXEC
  open_event_fd : PerfAttr → ℤ → ℤ → ℤ → Call
  set_bpf : ℤ → ℤ → Call
  enable_event : ℤ → Call
  wait_for_signal : Call
  tell : Message → Call

-- What the system calls answer.
pub record System : Type 0 where
  -- `LINUX_VERSION_CODE`
  pub version : ℕ
  pub pid : ℕ
  pub prog : ℤ
  -- the file `kprobe_events`, the write to it, and whether `errno` is ENOENT if that fails
  pub events : ℤ
  pub written : ℤ
  pub no_entry : Bool
  -- the file of the event's id, and the bytes read from it, or an error
  pub id : ℤ
  pub id_text : Option (List ℕ)
  -- `perf_event_open` for the event with this number
  pub perf : ℕ → ℤ
  pub set_bpf : ℤ
  pub enable : ℤ
  pub sigaddset : ℤ
  pub sigprocmask : ℤ
  -- what `sigwait` returns, and the signal that it stores, if it stores one
  pub sigwait : ℤ
  pub sig : Option ℤ

-- Which descriptors are open.
pub record Open : Type 0 where
  pub prog : Bool
  pub events : Bool
  pub id : Bool
  pub perf : Bool

abbrev pub all_closed : Open
all_closed = record { prog = false; events = false; id = false; perf = false }

-- The open descriptors, and the calls, the last one first.
pub record State : Type 0 where
  pub fds : Open
  pub calls : List Call

abbrev pub call : Call → State → State
call c st = record st { calls = c ∷ st.calls }

abbrev pub is_neg : ℤ → Bool
is_neg z = ltb_ℤ z (pos 0)

-- `progFd == -1`
abbrev pub is_minus_one : ℤ → Bool
is_minus_one (pos n) = false
is_minus_one (negsuc n) = n == 0

-- `sig == SIGINT`
abbrev pub is_sig_int : ℤ → Bool
is_sig_int (pos n) = n == 2
is_sig_int (negsuc n) = false

abbrev pub path_max : ℕ
path_max = 4096

-- `bytes <= 0 || bytes >= sizeof(buf)`
abbrev pub bad_read : Option (List ℕ) → Bool
bad_read none = true
bad_read (some text) = length text == 0 || leb path_max (length text)

-- What `buf` holds when it is printed: the path, if nothing was read. `none` is an array without a zero.
abbrev pub buf_after : List ℕ → Option (List ℕ) → Option (List ℕ)
buf_after path none = some path
buf_after path (some text) =
    if length text == 0 then some path else if terminated text then some (c_string text) else none

abbrev pub text_of : Option (List ℕ) → List ℕ
text_of none = []
text_of (some text) = text

-- A `long` as a `__u64`.
abbrev pub to_u64 : ℤ → ℕ
to_u64 (pos n) = n % 2 ^ 64
to_u64 (negsuc n) = 0xffff_ffff_ffff_ffff - n % 2 ^ 64

-- `attr.config = strtol(buf, NULL, 0)`
abbrev pub config_of : List ℕ → ℕ
config_of text = to_u64 (strtol_any (c_string text)).value

-- PERF_TYPE_TRACEPOINT
abbrev pub perf_type_tracepoint : ℕ
perf_type_tracepoint = 2

-- BPF_PROG_TYPE_KPROBE
abbrev pub bpf_prog_type_kprobe : ℕ
bpf_prog_type_kprobe = 2

abbrev pub log_buf_size : ℕ
log_buf_size = 65536

abbrev pub perf_attr : List ℕ → PerfAttr
perf_attr text = record {
  config = config_of text;
  type = perf_type_tracepoint;
  sample_period = 1;
  wakeup_events = 1;
}

-- The result, the caller's `pfd`, and the state.
pub record Attached : Type 0 where
  pub rc : ℤ
  pub pfd : ℤ
  pub state : State

-- The name of the event: `"%s_bcc_%d"`.
abbrev pub event_alias : ℕ → List ℕ
event_alias pid = snprintf 128 (codes "p_do_sys_open_bcc_" ++ decimal pid)

-- `"%c:%ss/%s %s"`, which is written to `kprobe_events`.
abbrev pub probe_text : ℕ → List ℕ
probe_text pid = snprintf 256 (codes "p:kprobes/" ++ (event_alias pid ++ codes " do_sys_open"))

-- `"/sys/kernel/debug/tracing/events/%ss/%s"`
abbrev pub event_path : ℕ → List ℕ
event_path pid = snprintf 256 (codes "/sys/kernel/debug/tracing/events/kprobes/" ++ event_alias pid)

-- `"%s/id"`
abbrev pub id_path : List ℕ → List ℕ
id_path path = snprintf path_max (path ++ codes "/id")

abbrev pub events_path : List ℕ
events_path = codes "/sys/kernel/debug/tracing/kprobe_events"
