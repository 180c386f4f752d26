-- ===== src/Hello/Loader/Exit.antt =====
-- How the loader exits.
use mathlib.Core.Option
use rust_ebpf_demo.Prelude.{
  ℕ, ◌≡◌, refl, ◌∙◌, inl, inr, Bool, true, false, not, ◌&&◌, Bool-cases, if◌then◌else◌, List,
  Option, none, some,
}
use rust_ebpf_demo.Prelude.Int.{ℤ}
use rust_ebpf_demo.Hello.Loader.{
  System, Open, State, all_closed, is_neg, is_minus_one, bad_read, text_of, config_of, attach_event,
  attach_tracing_event, attached_fd, tell_signal, wait_for_sig_int, call, wait_for_signal,
  close_all, after_attach, main, event_path, close_events, write_events, with_prog,
}

-- All calls up to `perf_event_open` succeed.
abbrev pub has_event : System → Bool
has_event sys =
    not (is_minus_one sys.prog)
    && (not (is_neg sys.events)
        && (not (is_neg sys.written)
            && (not (is_neg sys.id)
                && (not (bad_read sys.id_text)
                    && not (is_neg (sys.perf (config_of (text_of sys.id_text))))))))

-- The program is attached to the event.
abbrev pub is_attached : System → Bool
is_attached sys = not (is_neg sys.set_bpf) && not (is_neg sys.enable)

-- The signal can be waited for: the set and the mask are made.
abbrev pub is_masked : System → Bool
is_masked sys = not (is_neg sys.sigaddset) && not (is_neg sys.sigprocmask)

-- The exit code and the descriptors that are open.
abbrev pub outcome : Option (ℕ × State) → Option (ℕ × Open)
outcome = Option.map (λ (code, st). (code, st.fds))

-- How the wait for the signal ends: an error, a signal, or nothing of the two.
abbrev pub waited : System → Option ℕ
waited sys =
    if is_masked sys
    then (if is_neg sys.sigwait then some 1 else Option.map (λ sig. 0) sys.sig)
    else some 1

-- The exit when the event was opened or not, behind the calls that lead there.
abbrev pub exit_by : System → Bool → Option (ℕ × Open)
exit_by sys event =
    if event
    then (if is_attached sys
        then Option.map (λ code. (code, all_closed)) (waited sys)
        else some (1, record all_closed { perf = true }))
    else some (1, all_closed)

tell_signal_lem :
    (sys : System) (pfd : ℤ) (sig : Option ℤ) (st : State)
    → outcome (Option.map (close_all sys pfd) (tell_signal sys sig st))
      ≡ Option.map
          (λ code. (code, record st.fds { perf = false; prog = false }))
          (Option.map (λ s. 0) sig)
tell_signal_lem sys pfd none st = refl
tell_signal_lem sys pfd (some sig) st = refl

-- Waiting does not touch the descriptors.
wait_for_sig_int_lem :
    (sys : System) (pfd : ℤ) (st : State)
    → outcome (Option.map (close_all sys pfd) (wait_for_sig_int sys st))
      ≡ Option.map (λ code. (code, record st.fds { perf = false; prog = false })) (waited sys)
wait_for_sig_int_lem sys pfd st = elim (Bool-cases (is_neg sys.sigaddset)) [
  | inl e ↦ rw e
  | inr e ↦ elim (Bool-cases (is_neg sys.sigprocmask)) [
    | inl f ↦ rw (e, f)
    | inr f ↦ elim (Bool-cases (is_neg sys.sigwait)) [
      | inl g ↦ rw (e, f, g)
      | inr g ↦ rw (e, f, g) (tell_signal_lem sys pfd sys.sig (call wait_for_signal st))
    ]
  ]
]

abbrev loaded : Open
loaded = record all_closed { prog = true }

attach_event_lem :
    (sys : System) (path : List ℕ) (prog_fd pfd : ℤ) (st : State)
    → st.fds ≡ loaded
    → outcome (after_attach sys (attached_fd sys (attach_event sys path prog_fd pfd st)))
      ≡ exit_by sys (not (is_neg pfd))
attach_event_lem sys path prog_fd pfd st e = elim (Bool-cases (is_neg pfd)) [
  | inl n ↦ rw n (λ i. some (1, record (e i) { prog = false }))
  | inr n ↦ elim (Bool-cases (is_neg sys.set_bpf)) [
    | inl b ↦ rw (n, b) (λ i. some (1, record (e i) { prog = false; perf = true }))
    | inr b ↦ elim (Bool-cases (is_neg sys.enable)) [
      | inl f ↦ rw (n, b, f) (λ i. some (1, record (e i) { prog = false; perf = true }))
      | inr f ↦
          rw (n, b, f, n)
            (wait_for_sig_int_lem sys pfd _ ∙ λ i.
              Option.map (λ code. (code, record (e i) { perf = false; prog = false })) (waited sys))
    ]
  ]
]

attach_tracing_event_lem :
    (sys : System) (prog_fd : ℤ) (path : List ℕ) (st : State)
    → st.fds ≡ loaded
    → outcome (after_attach sys (attached_fd sys (attach_tracing_event sys prog_fd path st)))
      ≡ exit_by sys (
          not (is_neg sys.id)
          && (not (bad_read sys.id_text)
              && not (is_neg (sys.perf (config_of (text_of sys.id_text))))))
attach_tracing_event_lem sys prog_fd path st e = elim (Bool-cases (is_neg sys.id)) [
  | inl i ↦ rw i (λ j. some (1, record (e j) { prog = false }))
  | inr i ↦ elim (Bool-cases (bad_read sys.id_text)) [
    | inl r ↦ rw (i, r) (λ j. some (1, record (e j) { id = false; prog = false }))
    | inr r ↦
        rw (i, r)
          (attach_event_lem sys path prog_fd (sys.perf (config_of (text_of sys.id_text))) _
            (λ j. record (e j) { id = false }))
  ]
]

-- The exit code is 0 if every call up to the last ioctl succeeds, the mask for SIGINT is made, `sigwait`
-- does not return a negative number, and it stores a signal. If all of this holds but that it stores
-- none, which is so where it fails with a positive number, the program is undefined. Otherwise the exit
-- code is 1. Every descriptor is closed at the exit, but for the event's, which stays open exactly if
-- the event was opened and one of the two calls of ioctl failed.
pub main_lem : (sys : System) → outcome (main sys) ≡ exit_by sys (has_event sys)
unfolding main
main_lem sys = elim (Bool-cases (is_minus_one sys.prog)) [
  | inl p ↦ rw p
  | inr p ↦ elim (Bool-cases (is_neg sys.events)) [
    | inl v ↦ rw (p, v)
    | inr v ↦ elim (Bool-cases (is_neg sys.written)) [
      | inl t ↦ rw (p, v, t)
      | inr t ↦
          rw (p, v, t)
            (attach_tracing_event_lem sys sys.prog (event_path sys.pid)
              (close_events sys (write_events sys (with_prog sys))) refl)
    ]
  ]
]
