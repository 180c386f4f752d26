-- ===== src/Probe/Session/Whole.antt =====
-- What is noted at the entry is reported at the return.
use rust_ebpf_demo.Prelude.{
  ℕ, ◌+◌, ◌%◌, ◌^◌, ◌<◌, ◌≡◌, ◌≢◌, refl, ap, ◌∙◌, true, false, none, some, ◌∷◌, ◌++◌, ◌==◌, arith,
  tabulate,
}
use rust_ebpf_demo.Prelude.Int.{ℤ}
use rust_ebpf_demo.Prelude.Bytes.{to_le}
use rust_ebpf_demo.Bpf.Kernel.{Kernel}
use rust_ebpf_demo.Bpf.Machine.{exited}
use rust_ebpf_demo.Probe.Layout.{ValT, DataT, encode_val, encode_data}
use rust_ebpf_demo.Probe.Source.{
  Filter, skips, filename, regs_rc, val_u64, note_entry, record_entry, trace_entry, submit_event,
  report_return, return_found, trace_return,
}
use rust_ebpf_demo.Probe.Session.Fields.{
  tabulate_from_congr, encode_data_congr, val_u64-id, val_u64-fname,
}
use rust_ebpf_demo.Probe.Session.{View, byte_at, Same, Same-trans, Serves}

module _ {S : Type 0} (w : View S) (k : Kernel S) (serves : Serves w k) (arg : ℕ → ℕ)
    (infotmp : ℤ) where
  -- The entry of a task, as the probe on the way in writes it.
  abbrev pub note : S → ValT
  note s = record { id = w.task s; comm = w.comm s; fname = filename arg }

  -- The entries of the other tasks in `s'` are those of `s`.
  abbrev pub Others : S → S → Type 0
  Others s s' = (u : ℕ) → u ≢ w.task s → w.entry s' infotmp u ≡ w.entry s infotmp u

  -- The state that the probe on the way in leaves when the filter lets the task through.
  abbrev pub entered : S → S
  entered s =
      let comm = k.get_current_comm 16 (k.get_current_pid_tgid s).state in
      let value =
        encode_val (record { id = w.task s; comm = comm.written; fname = filename arg }) in
      (k.map_update_elem infotmp (to_le 8 (w.task s)) value 0 comm.state).state

  pub trace_entry-entered :
      (filter : Filter) (s : S)
      → skips filter (w.task s) ≡ false
      → trace_entry k arg filter infotmp s ≡ exited 0 (entered s)
  unfolding trace_entry record_entry note_entry
  trace_entry-entered filter s passes =
      let id = k.get_current_pid_tgid s in
      let e : id.value ≡ w.task s = serves.pid s in
      let passes' : skips filter id.value ≡ false = ap (skips filter) e ∙ passes in
      let got : ((k.get_current_comm 16 id.state).value % 2 ^ 32 == 0) ≡ true =
        ap (λ n. n % 2 ^ 32 == 0) (serves.comm 16 id.state (omega arith)) in
      rw (passes', got, e) refl

  pub comm-Same : (s : S) → Same w s (k.get_current_comm 16 (k.get_current_pid_tgid s).state).state
  comm-Same s =
      Same-trans w (serves.pid_same s) (serves.comm_same 16 (k.get_current_pid_tgid s).state)

  -- If the filter lets the task through and the map has room for it, the probe on the way in exits
  -- with 0, and the map holds the task's entry; the task, the events and the entries of the other tasks
  -- are as before.
  pub trace_entry-noted :
      (filter : Filter) (s : S)
      → skips filter (w.task s) ≡ false
      → w.room s infotmp (w.task s) ≡ true
      → (s' : S) × (trace_entry k arg filter infotmp s ≡ exited 0 s')
        × (w.task s' ≡ w.task s)
        × (w.sent s' ≡ w.sent s)
        × (w.entry s' infotmp (w.task s) ≡ some (encode_val (note s)))
        × Others s s'
  trace_entry-noted filter s passes room =
      let id = k.get_current_pid_tgid s in
      let comm = k.get_current_comm 16 id.state in
      let t = w.task s in
      let small = serves.pid_word s in
      let same = comm-Same s in
      let value = encode_val (record { id = t; comm = comm.written; fname = filename arg }) in
      let name : tabulate 16 comm.written ≡ tabulate 16 (w.comm s) =
        tabulate_from_congr 0 16 comm.written (w.comm s)
          (λ i lt. serves.comm_written 16 i id.state lt ∙ ap (λ f. f i) (serves.pid_same s).comm) in
      (
        entered s,
        trace_entry-entered filter s passes,
        serves.update_task infotmp (to_le 8 t) value comm.state ∙ same.task,
        serves.update_sent infotmp (to_le 8 t) value comm.state ∙ same.sent,
        serves.update infotmp t value comm.state small (ap (λ f. f infotmp t) same.room ∙ room)
            ∙ (λ i. some (to_le 8 t ++ (name i ++ to_le 8 (filename arg)))),
        λ u ne.
            serves.update_other infotmp t u value comm.state small ne
            ∙ ap (λ f. f infotmp u) same.entry,
      )

  -- The event for an entry, at a time, with what is read of the file name in a state.
  abbrev pub event_for : S → ValT → ℕ → DataT
  event_for s v ts = record {
    id = v.id;
    ts = ts;
    ret = regs_rc arg % 2 ^ 32;
    comm = v.comm;
    fname = w.read s 255 v.fname;
  }

  -- The time that the probe on the way out reads.
  abbrev pub now : S → ℕ
  now s = (k.ktime_get_ns (k.get_current_pid_tgid s).state).value

  -- If the map holds an entry of the task, the probe on the way out exits with 0: one event was handed
  -- over, with the entry's id and process name, the time, the result of the call and the bytes read from
  -- the file name's address; the entry is gone, and the entries of the other tasks are as before.
  pub trace_return-reported :
      (events : ℤ) (s : S) (v : ValT)
      → v.id < 2 ^ 64
      → v.fname < 2 ^ 64
      → w.entry s infotmp (w.task s) ≡ some (encode_val v)
      → (s' : S) × (trace_return k arg infotmp events s ≡ exited 0 s')
        × (w.sent s' ≡ encode_data (event_for s v (now s)) ∷ w.sent s)
        × (w.entry s' infotmp (w.task s) ≡ none)
        × Others s s'
  unfolding trace_return return_found report_return submit_event
  trace_return-reported events s v small small' held =
      let id = k.get_current_pid_tgid s in
      let t = w.task s in
      let word = serves.pid_word s in
      let tsp = k.ktime_get_ns id.state in
      let same_t : Same w s tsp.state =
        Same-trans w (serves.pid_same s) (serves.time_same id.state) in
      let found = k.map_lookup_elem infotmp (to_le 8 t) tsp.state in
      let held' : w.entry tsp.state infotmp t ≡ some (encode_val v) =
        ap (λ f. f infotmp t) same_t.entry ∙ held in
      let (a, ea, holds) = serves.lookup infotmp t (encode_val v) tsp.state word refl held' in
      let same_l : Same w tsp.state found.state =
        serves.lookup_same infotmp (to_le 8 t) tsp.state in
      let comm = k.probe_read 16 (a + 8) found.state in
      let same_c : Same w tsp.state comm.state =
        Same-trans w same_l (serves.read_same 16 (a + 8) found.state) in
      let address = val_u64 k comm.state a 24 in
      let fname = k.probe_read 255 address comm.state in
      let same_f : Same w tsp.state fname.state =
        Same-trans w same_c (serves.read_same 255 address comm.state) in
      let raw : DataT = record {
        id = val_u64 k fname.state a 0;
        ts = tsp.value;
        ret = regs_rc arg % 2 ^ 32;
        comm = comm.written;
        fname = fname.written;
      } in
      let sent = k.perf_event_output events 0xffff_ffff (encode_data raw) fname.state in
      let after = k.map_delete_elem infotmp (to_le 8 t) sent.state in
      let kept =
        serves.output_entry events 0xffff_ffff (encode_data raw) fname.state
        ∙ (same_f.entry ∙ same_t.entry) in
      let event : encode_data raw ≡ encode_data (event_for s v tsp.value) =
        encode_data_congr raw (event_for s v tsp.value)
          (val_u64-id w k fname.state a v (holds fname.state same_f) small) refl refl
          (tabulate_from_congr 0 16 comm.written (λ i. byte_at (encode_val v) (8 + i))
            (λ i lt.
              serves.read_written 16 (a + 8) i found.state lt
              ∙ (holds found.state same_l).read 8 16 i (omega arith) lt))
          (tabulate_from_congr 0 255 fname.written (w.read s 255 v.fname) (λ i lt.
            serves.read_written 255 address i comm.state lt
            ∙ (ap (λ f. f 255 address i) (same_c.read ∙ same_t.read)
                ∙ ap (λ n. w.read s 255 n i)
                    (val_u64-fname w k comm.state a v (holds comm.state same_c) small')))) in
      (
        after.state,
        rw (serves.pid s, ea) refl,
        serves.delete_sent infotmp (to_le 8 t) sent.state
            ∙ (serves.output events 0xffff_ffff (encode_data raw) fname.state ∙ λ i.
                event i ∷ (same_f.sent ∙ same_t.sent) i),
        serves.delete infotmp t sent.state word,
        λ u ne. serves.delete_other infotmp t u sent.state word ne ∙ ap (λ f. f infotmp u) kept,
      )
