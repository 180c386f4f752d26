-- ===== src/Snoop/Program/Printed.antt =====
-- From the call of open() to the line that is printed: the two programs, and the callback on what they
-- hand over.
use rust_ebpf_demo.Prelude.{
  ℕ, ◌+◌, ◌-◌, ◌/◌, ◌%◌, ◌^◌, ◌<◌, ◌≡◌, refl, ap, ◌∙◌, true, false, some, List, ◌∷◌, length,
  tabulate, arith, ◌==◌, ltb,
}
use rust_ebpf_demo.Prelude.Int.{ℤ, pos, neg}
use rust_ebpf_demo.Clib.Words.{signed_32}
use rust_ebpf_demo.Clib.Text.{c_string}
use rust_ebpf_demo.Bpf.Insn.{BpfInsn}
use rust_ebpf_demo.Bpf.Kernel.{Kernel}
use rust_ebpf_demo.Bpf.Vm.{run}
use rust_ebpf_demo.Bpf.Machine.{exited}
use rust_ebpf_demo.Probe.Layout.{IsData, info_map, encode_data, task_comm_len, name_max}
use rust_ebpf_demo.Probe.Source.{skips, filename, regs_rc}
use rust_ebpf_demo.Probe.Bytecode.{num_trace_return_instructions, max_num_trace_entry_instructions}
use rust_ebpf_demo.Probe.Session.{View, Serves}
use rust_ebpf_demo.Probe.Session.Fields.{tabulate_from_congr}
use rust_ebpf_demo.Probe.Session.Whole.{note, event_for, now}
use rust_ebpf_demo.Snoop.Args.{Options}
use rust_ebpf_demo.Snoop.Args.Settings.{IsValid}
use rust_ebpf_demo.Snoop.Program.{entry_program, return_program, filter_of}
use rust_ebpf_demo.Snoop.Program.Session.{programs-Reports}
use rust_ebpf_demo.Snoop.Report.{
  Event, line, fd_and_err, is_filtered, next_initial, delta, on_event, perf_reader_raw_callback,
  event_at,
}
use rust_ebpf_demo.Snoop.Report.Decode.{event_of, event_at-encode_data}

-- What the register of the result holds, and the descriptor and the error that it stands for.
pub data Result : ℕ → ℤ → ℤ → Type 0 where
  opened : (n : ℕ) → n < 2 ^ 31 → Result n (pos n) (pos 0)
  failed : (e : ℕ) → 0 < e → e < 2 ^ 31 → Result (2 ^ 64 - e) (neg 1) (pos e)

fd_and_err-Result :
    (r : ℕ) (fd err : ℤ) → Result r fd err → fd_and_err (signed_32 (r % 2 ^ 32)) ≡ some (fd, err)
fd_and_err-Result r fd err (opened n small) = ground arith
fd_and_err-Result r fd err (failed e positive small) =
    let low : (2 ^ 64 - e) % 2 ^ 32 ≡ 2 ^ 32 - e = omega arith in
    let high : ltb (2 ^ 32 - e) (2 ^ 31) ≡ false = ground arith in
    let code : 2 ^ 32 - (2 ^ 32 - e) - 1 ≡ e - 1 = omega arith in
    let least : (e - 1 == 2 ^ 31 - 1) ≡ false = ground arith in
    let back : e - 1 + 1 ≡ e = omega arith in rw (low, high, code, least, back)

module _ {S : Type 0} (w : View S) where
  -- Whenever the task of a state runs, these bytes stand at the address in its memory.
  abbrev pub Stands : S → ℕ → (ℕ → ℕ) → Type 0
  Stands s address bytes =
      (s' : S) (i : ℕ)
      → w.task s' ≡ w.task s
      → i < name_max
      → w.read s' name_max address i ≡ bytes i

  -- What is reported of a call, as the callback's reader sees it.
  abbrev pub seen : S → (ℕ → ℕ) → (ℕ → ℕ) → ℕ → Event
  seen s arg' bytes ts = record {
    id = w.task s;
    ts = ts;
    ret = signed_32 (regs_rc arg' % 2 ^ 32);
    comm = c_string (tabulate task_comm_len (w.comm s));
    fname = c_string (tabulate name_max bytes);
  }

module _ {S : Type 0} (w : View S) (k : Kernel S) (serves : Serves w k) (infotmp events : ℤ) where
  -- A run of one program and then of the other hands over bytes for which the callback prints this line.
  abbrev pub Prints :
      (ℕ → ℕ) → (ℕ → ℕ) → (ℕ → ℕ) → S → Options → ℕ → ℤ → ℤ → List BpfInsn → List BpfInsn → Type 0
  Prints arg arg' bytes s o initial fd err entry return =
      (s₁ : S) × (s₂ : S) × (ts : ℕ) × (raw : List ℕ) × (run k info_map arg entry s ≡ exited 0 s₁)
      × (run k info_map arg' return s₁ ≡ exited 0 s₂)
      × (w.sent s₂ ≡ raw ∷ w.sent s)
      × (perf_reader_raw_callback o initial raw ≡ (
        next_initial o initial ts,
        line (record {
          delta = delta o initial ts;
          pid = pos (w.task s / 2 ^ 32);
          comm = c_string (tabulate task_comm_len (w.comm s));
          fd_s = fd;
          err = err;
          fname = c_string (tabulate name_max bytes);
        }),
      ))

  -- The callback on the bytes of an event of the task.
  callback-line :
      (o : Options) (initial : ℕ) (s s₁ : S) (arg arg' bytes : ℕ → ℕ) (fd err : ℤ)
      → w.task s < 2 ^ 63
      → w.task s₁ ≡ w.task s
      → Stands w s (filename arg) bytes
      → Result (regs_rc arg') fd err
      → is_filtered o (seen w s arg' bytes 0) ≡ false
      → perf_reader_raw_callback o initial (
          encode_data (
            event_for w k serves arg' infotmp s₁
              (note w k serves arg infotmp s)
              (now w k serves arg' infotmp s₁)))
        ≡ (
          next_initial o initial (now w k serves arg' infotmp s₁),
          line (record {
            delta = delta o initial (now w k serves arg' infotmp s₁);
            pid = pos (w.task s / 2 ^ 32);
            comm = c_string (tabulate task_comm_len (w.comm s));
            fd_s = fd;
            err = err;
            fname = c_string (tabulate name_max bytes);
          }),
        )
  unfolding perf_reader_raw_callback on_event
  callback-line o initial s s₁ arg arg' bytes fd err small task stands result shown =
      let ts = now w k serves arg' infotmp s₁ in
      let d = event_for w k serves arg' infotmp s₁ (note w k serves arg infotmp s) ts in
      let read : tabulate name_max d.fname ≡ tabulate name_max bytes =
        tabulate_from_congr 0 name_max d.fname bytes (λ i lt. stands s₁ i task lt) in
      let good : IsData d = record {
        id = serves.pid_word s;
        ts = serves.time_word (k.get_current_pid_tgid s₁).state;
        ret = omega arith;
        comm = serves.comm_terminated s;
      } in
      let decoded : event_at (encode_data d) ≡ seen w s arg' bytes ts =
        event_at-encode_data d good ∙ (λ i. record (event_of d) { fname = c_string (read i) }) in
      let low : ltb (w.task s / 2 ^ 32) (2 ^ 31) ≡ true = ground arith in
      ap (on_event o initial) decoded
      ∙ rw (shown, fd_and_err-Result (regs_rc arg') fd err result, low) refl

  -- For helpers that do what their manual says, valid options, arrays of 35 and 82 instructions, a task
  -- that the options do not filter out, room in the map, a file name's address that is a 64-bit word,
  -- and the file name's bytes standing there whenever the task runs: `main` loads two programs such that
  -- a run of the one at the entry of open() and of the other at its return hands over bytes for which the
  -- callback, if the options do not drop the event, prints one line: the id of the process, its name, the
  -- descriptor and 0, or -1 and the error, and the file name, of which at most 255 bytes are seen.
  pub programs-Prints :
      (array array' : List BpfInsn) (o : Options) (arg arg' bytes : ℕ → ℕ) (s : S) (initial : ℕ)
      (fd err : ℤ)
      → length array ≡ max_num_trace_entry_instructions
      → length array' ≡ num_trace_return_instructions
      → IsValid o
      → skips (filter_of o) (w.task s) ≡ false
      → w.room s infotmp (w.task s) ≡ true
      → filename arg < 2 ^ 64
      → w.task s < 2 ^ 63
      → Stands w s (filename arg) bytes
      → Result (regs_rc arg') fd err
      → is_filtered o (seen w s arg' bytes 0) ≡ false
      → (entry : List BpfInsn) × (return : List BpfInsn) × (entry_program o infotmp array
          ≡ some entry)
        × (return_program infotmp events array' ≡ some return)
        × Prints arg arg' bytes s o initial fd err entry return
  programs-Prints array array' o arg arg' bytes s initial fd err len len' v passes room small
        positive stands result shown =
      let (entry, return, loads, loads', (s₁, s₂, enters, leaves, task, sent, gone)) =
        programs-Reports w k serves infotmp events array array' o arg arg' s len len' v passes room
          small in
      let prints =
        callback-line o initial s s₁ arg arg' bytes fd err positive task stands result shown in
      (
        entry,
        return,
        loads,
        loads',
        (s₁, s₂, now w k serves arg' infotmp s₁, _, enters, leaves, sent, prints),
      )
