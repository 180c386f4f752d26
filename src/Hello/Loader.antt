-- ===== src/Hello/Loader.antt =====
-- The functions of c/load-bpf.c: the program is loaded and attached to `do_sys_open`, and removed when a
-- signal comes. What the system calls answer is a record; the calls and the messages are kept in order.
mod Calls
pub mod Exit
pub mod Texts
pub mod Attach
pub use Calls.*
use mathlib.Core.Option
use Prim.Native.String.{String}
use rust_ebpf_demo.Prelude.{
  ℕ, ◌-◌, ◌%◌, ◌^◌, Bool, true, false, Option, none, some, List, [], ◌∷◌, ◌++◌, ◌||◌, ◌==◌, leb,
  if◌then◌else◌, length,
}
use rust_ebpf_demo.Prelude.Int.{ℤ, pos, neg, negsuc, ltb_ℤ}
use rust_ebpf_demo.Bpf.Insn.{BpfInsn}
use rust_ebpf_demo.Clib.Strtol.{Long}
use rust_ebpf_demo.Clib.Text.{codes, snprintf, c_string, terminated}
use rust_ebpf_demo.Clib.Decimal.{decimal}
use rust_ebpf_demo.Clib.Prefixed.{strtol_any}
use rust_ebpf_demo.Hello.Program.{prog}

module _ (sys : System) where
  -- What `bpf_prog_load` hands to the kernel.
  abbrev pub bpf_prog_load : ℕ → List BpfInsn → ℕ → List ℕ → State → State
  bpf_prog_load type insns insn_cnt license st =
      let attr : LoadAttr = record {
        prog_type = type;
        insns = insns;
        license = license;
        insn_cnt = insn_cnt;
        log_size = log_buf_size;
        log_level = 1;
        kern_version = sys.version;
      } in
      call (load_program attr) st

  -- Behind `perf_event_open`, which gave `pfd`.
  abbrev pub attach_event : List ℕ → ℤ → ℤ → State → Attached
  attach_event path prog_fd pfd st =
      let opened = record st { fds = record st.fds { perf = true } } in
      let bound = call (set_bpf pfd prog_fd) opened in
      let enabled = call (enable_event pfd) bound in
      if is_neg pfd
      then record { rc = neg 1; pfd = pfd; state = call (tell (cannot_open_event path)) st }
      else if is_neg sys.set_bpf
      then record {
        rc = neg 1;
        pfd = pfd;
        state = call (tell (perror "ioctl(PERF_EVENT_IOC_SET_BPF)")) bound;
      }
      else if is_neg sys.enable
      then record {
        rc = neg 1;
        pfd = pfd;
        state = call (tell (perror "ioctl(PERF_EVENT_IOC_ENABLE)")) enabled;
      }
      else record { rc = pos 0; pfd = pfd; state = enabled }

  -- Behind the read.
  abbrev pub open_event : List ℕ → ℤ → List ℕ → State → Attached
  open_event path prog_fd text st =
      let attr = perf_attr text in
      attach_event path prog_fd (sys.perf attr.config)
        (call (open_event_fd attr (neg 1) (pos 0) (neg 1)) st)

  abbrev pub close_id : State → State
  close_id st = call (close_fd sys.id) (record st { fds = record st.fds { id = false } })

  -- The descriptor of the id is closed on both paths.
  abbrev pub attach_tracing_event : ℤ → List ℕ → State → Attached
  attach_tracing_event prog_fd path st =
      let buf = id_path path in
      let asked = call (open_file buf read_only) st in
      let opened = record asked { fds = record st.fds { id = true } } in
      let read = call (read_file sys.id) opened in
      if is_neg sys.id
      then record { rc = neg 1; pfd = neg 1; state = call (tell (cannot_open buf)) asked }
      else if bad_read sys.id_text
      then record {
        rc = neg 1;
        pfd = neg 1;
        state = close_id (call (tell (cannot_read (buf_after buf sys.id_text))) read);
      }
      else open_event path prog_fd (text_of sys.id_text) (close_id read)

  -- `if (attachTracingEvent(...) < 0) return -1; return pfd;`
  abbrev pub attached_fd : Attached → ℤ × State
  attached_fd a = if is_neg a.rc then (neg 1, a.state) else (a.pfd, a.state)

  abbrev pub close_events : State → State
  close_events st =
      call (close_fd sys.events) (record st { fds = record st.fds { events = false } })

  abbrev pub open_events : State → State
  open_events st = call (open_file events_path append_only) st

  -- Behind the write to `kprobe_events`, whether it succeeds or not.
  abbrev pub write_events : State → State
  write_events st =
      let opened = record (open_events st) { fds = record st.fds { events = true } } in
      call (write_text sys.events (probe_text sys.pid)) opened

  abbrev pub attach_kprobe : ℤ → State → ℤ × State
  attach_kprobe prog_fd st =
      let message = if sys.no_entry then no_probe_entry else cannot_attach in
      if is_neg sys.events
      then (
        neg 1,
        call (tell (perror "Error opening /sys/kernel/debug/tracing/kprobe_events"))
            (open_events st),
      )
      else if is_neg sys.written
      then (neg 1, close_events (call (tell message) (write_events st)))
      else attached_fd
          (attach_tracing_event prog_fd (event_path sys.pid) (close_events (write_events st)))

  -- Behind a `sigwait` that did not return a negative number. `none` is a read of `sig` when nothing was
  -- stored there: `sigwait` returns a positive number if it fails.
  abbrev pub tell_signal : Option ℤ → State → Option (ℕ × State)
  tell_signal none st = none
  tell_signal (some sig) st =
      some (0, call (tell (if is_sig_int sig then sig_int_received else unexpected_signal sig)) st)

  abbrev pub wait_for_sig_int : State → Option (ℕ × State)
  wait_for_sig_int st =
      let waited = call wait_for_signal st in
      if is_neg sys.sigaddset
      then some (1, call (tell (perror "Error calling sigaddset()")) st)
      else if is_neg sys.sigprocmask
      then some (1, call (tell (perror "Error calling sigprocmask()")) st)
      else if is_neg sys.sigwait
      then some (1, call (tell (perror "Error calling sigwait()")) waited)
      else tell_signal sys.sig waited

  abbrev pub close_prog : State → State
  close_prog st = call (close_fd sys.prog) (record st { fds = record st.fds { prog = false } })

  abbrev pub close_perf : ℤ → State → State
  close_perf pfd st = call (close_fd pfd) (record st { fds = record st.fds { perf = false } })

  -- `close(perfEventFd); close(progFd); return exitCode;`
  abbrev pub close_all : ℤ → ℕ × State → ℕ × State
  close_all pfd (code, st) = (code, close_prog (close_perf pfd st))

  -- Behind `attachKprobe`: the exit code and the state, and `none` where C leaves it undefined.
  abbrev pub after_attach : ℤ × State → Option (ℕ × State)
  after_attach (pfd, st) =
      if is_neg pfd
      then some (1, close_prog (call (tell (perror "Error calling attachKprobe()")) st))
      else Option.map (close_all pfd) (wait_for_sig_int (call (tell run_cat) st))

  -- Behind `bpf_prog_load`, whether it succeeds or not.
  abbrev pub loading : State
  loading =
      bpf_prog_load bpf_prog_type_kprobe prog (length prog) (codes "GPL")
        (record { fds = all_closed; calls = [] })

  abbrev pub with_prog : State
  with_prog = record loading { fds = record all_closed { prog = true } }

  unfoldable pub main : Option (ℕ × State)
  main =
      if is_minus_one sys.prog
      then some (1, call (tell (perror "Error calling bpf_prog_load()")) loading)
      else after_attach (attach_kprobe sys.prog with_prog)
