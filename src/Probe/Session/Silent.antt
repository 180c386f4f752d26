-- ===== src/Probe/Session/Silent.antt =====
-- What the two probes do when nothing is noted or reported: a full map, a task that the filter does not
-- let through, a task without an entry.
use rust_ebpf_demo.Prelude.{ℕ, ◌≡◌, refl, ap, ◌∙◌, true, false, none}
use rust_ebpf_demo.Prelude.Int.{ℤ}
use rust_ebpf_demo.Prelude.Bytes.{to_le}
use rust_ebpf_demo.Bpf.Kernel.{Kernel}
use rust_ebpf_demo.Bpf.Machine.{exited}
use rust_ebpf_demo.Probe.Layout.{encode_val}
use rust_ebpf_demo.Probe.Source.{Filter, skips, filename, trace_entry, return_found, trace_return}
use rust_ebpf_demo.Probe.Session.{View, Same, Same-trans, Serves}
use rust_ebpf_demo.Probe.Session.Whole.{entered, trace_entry-entered, comm-Same}

module _ {S : Type 0} (w : View S) (k : Kernel S) (serves : Serves w k) (arg : ℕ → ℕ)
    (infotmp : ℤ) where
  -- Without room in the map, the probe on the way in exits with 0 and the events and the entries are as
  -- before.
  pub trace_entry-full :
      (filter : Filter) (s : S)
      → skips filter (w.task s) ≡ false
      → w.room s infotmp (w.task s) ≡ false
      → (s' : S) × (trace_entry k arg filter infotmp s ≡ exited 0 s')
        × (w.sent s' ≡ w.sent s)
        × (w.entry s' ≡ w.entry s)
  trace_entry-full filter s passes room =
      let comm = k.get_current_comm 16 (k.get_current_pid_tgid s).state in
      let t = w.task s in
      let same = comm-Same w k serves arg infotmp s in
      let value = encode_val (record { id = t; comm = comm.written; fname = filename arg }) in
      (
        entered w k serves arg infotmp s,
        trace_entry-entered w k serves arg infotmp filter s passes,
        serves.update_sent infotmp (to_le 8 t) value comm.state ∙ same.sent,
        serves.update_full infotmp t value comm.state (serves.pid_word s)
              (ap (λ f. f infotmp t) same.room ∙ room)
            ∙ same.entry,
      )

  -- A task that the filter does not let through changes nothing.
  pub trace_entry-skipped :
      (filter : Filter) (s : S)
      → skips filter (w.task s) ≡ true
      → (s' : S) × (trace_entry k arg filter infotmp s ≡ exited 0 s') × Same w s s'
  unfolding trace_entry
  trace_entry-skipped filter s skip =
      let id = k.get_current_pid_tgid s in
      let skip' : skips filter id.value ≡ true = ap (skips filter) (serves.pid s) ∙ skip in
      (id.state, rw skip' refl, serves.pid_same s)

  -- Without an entry of the task, the probe on the way out exits with 0 and changes nothing.
  pub trace_return-unknown :
      (events : ℤ) (s : S)
      → w.entry s infotmp (w.task s) ≡ none
      → (s' : S) × (trace_return k arg infotmp events s ≡ exited 0 s') × Same w s s'
  unfolding trace_return return_found
  trace_return-unknown events s empty =
      let id = k.get_current_pid_tgid s in
      let t = w.task s in
      let tsp = k.ktime_get_ns id.state in
      let same_t : Same w s tsp.state =
        Same-trans w (serves.pid_same s) (serves.time_same id.state) in
      let found = k.map_lookup_elem infotmp (to_le 8 t) tsp.state in
      let none_there : found.address ≡ none =
        serves.lookup_none infotmp t tsp.state (serves.pid_word s)
          (ap (λ f. f infotmp t) same_t.entry ∙ empty) in
      (
        found.state,
        rw (serves.pid s, none_there) refl,
        Same-trans w same_t (serves.lookup_same infotmp (to_le 8 t) tsp.state),
      )
