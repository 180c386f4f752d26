-- ===== src/Hello/Loader/Attach.antt =====
-- The calls of the loader when nothing fails.
use mathlib.Core.Option
use rust_ebpf_demo.Prelude.{
  ℕ, ◌^◌, ◌<◌, ◌≡◌, refl, ap, ◌∙◌, true, false, some, List, [], ◌∷◌, ◌++◌, length, length-append,
  if◌then◌else◌, arith, leb, ◌==◌,
}
use rust_ebpf_demo.Prelude.Int.{ℤ, pos, neg}
use rust_ebpf_demo.Clib.Strtol.{numeral, value, IsDigits}
use rust_ebpf_demo.Clib.Text.{codes}
use rust_ebpf_demo.Clib.Decimal.{length-numeral}
use rust_ebpf_demo.Hello.Program.{prog}
use rust_ebpf_demo.Hello.Loader.{
  System, Call, PerfAttr, LoadAttr, load_program, read_only, append_only, open_file, write_text,
  read_file, close_fd, open_event_fd, set_bpf, enable_event, wait_for_signal, tell, run_cat,
  sig_int_received, unexpected_signal, is_neg, is_minus_one, is_sig_int, event_path, id_path,
  events_path, bad_read, main, State, call, open_event, close_id, text_of, attach_tracing_event,
  wait_for_sig_int, tell_signal, close_all, after_attach, attached_fd, close_events, write_events,
  with_prog,
}
use rust_ebpf_demo.Hello.Loader.Texts.{
  probe_line, path_of, id_path_lem, probe_text_lem, config_of-numeral,
}

-- Every call succeeds, the signal that comes is `sig`, and the id of the event, in decimal with a line feed behind it, is what the file of
-- the id holds.
pub record Succeeds (sys : System) (d : ℕ) (ds : List ℕ) (sig : ℤ) : Type 0 where
  pub digits : IsDigits (d ∷ ds)
  pub positive : 0 < d
  pub small : value (d ∷ ds) < 2 ^ 63
  pub short : length (d ∷ ds) < 4095
  pub prog : is_minus_one sys.prog ≡ false
  pub events : is_neg sys.events ≡ false
  pub written : is_neg sys.written ≡ false
  pub id : is_neg sys.id ≡ false
  pub id_text : sys.id_text ≡ some (numeral (d ∷ ds) ++ (10 ∷ []))
  pub perf : is_neg (sys.perf (value (d ∷ ds))) ≡ false
  pub set_bpf : is_neg sys.set_bpf ≡ false
  pub enable : is_neg sys.enable ≡ false
  pub sigaddset : is_neg sys.sigaddset ≡ false
  pub sigprocmask : is_neg sys.sigprocmask ≡ false
  pub sigwait : is_neg sys.sigwait ≡ false
  pub signal : sys.sig ≡ some sig

-- The calls, the last one first, when this line is written, the event has this number, and this
-- signal comes.
abbrev pub all_calls : System → List ℕ → ℕ → ℤ → List Call
all_calls sys line number sig =
    let pfd = sys.perf number in
    let received = if is_sig_int sig then sig_int_received else unexpected_signal sig in
    let attr : PerfAttr = record {
      config = number;
      type = 2;
      sample_period = 1;
      wakeup_events = 1;
    } in
    let load : LoadAttr = record {
      prog_type = 2;
      insns = prog;
      license = codes "GPL";
      insn_cnt = 14;
      log_size = 65536;
      log_level = 1;
      kern_version = sys.version;
    } in
    close_fd sys.prog
    ∷ close_fd pfd
    ∷ tell received
    ∷ wait_for_signal
    ∷ tell run_cat
    ∷ enable_event pfd
    ∷ set_bpf pfd sys.prog
    ∷ open_event_fd attr (neg 1) (pos 0) (neg 1)
    ∷ close_fd sys.id
    ∷ read_file sys.id
    ∷ open_file (path_of sys.pid ++ codes "/id") read_only
    ∷ close_fd sys.events
    ∷ write_text sys.events line
    ∷ open_file events_path append_only
    ∷ load_program load
    ∷ []

module _ (sys : System) (d : ℕ) (ds : List ℕ) (sig : ℤ) (s : Succeeds sys d ds sig) where
  abbrev pfd : ℤ
  pfd = sys.perf (value (d ∷ ds))

  -- The state behind `perf_event_open` and the two calls of ioctl.
  abbrev attached : State → State
  attached st = call (enable_event pfd) (
      call (set_bpf pfd sys.prog)
        (record (call
          (open_event_fd
            (record { config = value (d ∷ ds); type = 2; sample_period = 1; wakeup_events = 1 })
            (neg 1) (pos 0) (neg 1))
          st) { fds = record st.fds { perf = true } }))

  open_event-attached :
      (path : List ℕ) (st : State)
      → open_event sys path sys.prog (numeral (d ∷ ds) ++ (10 ∷ [])) st
        ≡ record { rc = pos 0; pfd = pfd; state = attached st }
  open_event-attached path st =
      let e = config_of-numeral d ds s.digits s.positive s.small in
      rw (e, s.perf, s.set_bpf, s.enable) refl

  good_read : bad_read sys.id_text ≡ false
  good_read =
      let text = numeral (d ∷ ds) ++ (10 ∷ []) in
      let short : leb 4096 (length text) ≡ false =
        ground
          (arith, length-append (numeral (d ∷ ds)) (10 ∷ []), length-numeral (d ∷ ds), s.short) in
      let some_bytes : (length text == 0) ≡ false = ground arith in
      ap bad_read s.id_text ∙ rw (some_bytes, short) refl

  -- The state behind the read of the id from the file with this path.
  abbrev got_id : List ℕ → State → State
  got_id path st =
      let opened = call (open_file path read_only) st in
      close_id sys (call (read_file sys.id) (record opened { fds = record st.fds { id = true } }))

  attach_tracing_event-attached :
      (st : State)
      → attach_tracing_event sys sys.prog (event_path sys.pid) st ≡ record {
        rc = pos 0;
        pfd = pfd;
        state = attached (got_id (path_of sys.pid ++ codes "/id") st);
      }
  attach_tracing_event-attached st =
      let path = event_path sys.pid in
      let got = got_id (id_path path) st in
      rw (s.id, good_read)
        (ap (λ t. open_event sys path sys.prog (text_of t) got) s.id_text
          ∙ (open_event-attached path got ∙ λ i. record {
            rc = pos 0;
            pfd = pfd;
            state = attached (got_id (id_path_lem sys.pid i) st);
          }))

  wait_for_sig_int-told :
      (st : State)
      → wait_for_sig_int sys st
        ≡ some (
          0,
          call
              (tell (if is_sig_int sig then sig_int_received else unexpected_signal sig))
              (call wait_for_signal st),
        )
  wait_for_sig_int-told st =
      rw (s.sigaddset, s.sigprocmask, s.sigwait)
        (ap (λ r. tell_signal sys r (call wait_for_signal st)) s.signal)

  -- If every call succeeds, the loader exits with 0, and its calls are: it loads the program of 14
  -- instructions; writes the line for a probe that is named after the process to `kprobe_events`; reads
  -- the number of the event from the path of the probe of that name; opens the event of that number, puts
  -- the program to it and enables it; waits for a signal, and tells which came; and closes every
  -- descriptor.
  pub main-all_calls :
      (st : State) × (main sys ≡ some (0, st))
      × (st.calls ≡ all_calls sys (probe_line sys.pid) (value (d ∷ ds)) sig)
  unfolding main
  main-all_calls =
      let st = close_events sys (write_events sys (with_prog sys)) in
      let before = call (tell run_cat) (attached (got_id (path_of sys.pid ++ codes "/id") st)) in
      let end : main sys ≡ Option.map (close_all sys pfd) (wait_for_sig_int sys before) =
        rw (s.prog, s.events, s.written)
          (ap (λ a. after_attach sys (attached_fd sys a)) (attach_tracing_event-attached st)
            ∙ rw s.perf refl) in
      (
        _,
        end ∙ ap (Option.map (close_all sys pfd)) (wait_for_sig_int-told before),
        ap (λ line. all_calls sys line (value (d ∷ ds)) sig) (probe_text_lem sys.pid),
      )
