-- ===== src/Probe/Session/Agrees.antt =====
-- One call of a probe keeps the state in step with what the two probes mean together.
use mathlib.Core.Option
use mathlib.Core.Path.{subst}
use rust_ebpf_demo.Prelude.{
  Every, tabulate, ℕ, ◌%◌, ◌^◌, ◌<◌, ◌≡◌, ◌≢◌, refl, sym, ap, ◌∙◌, true, false, Option, none, some,
  ◌∷◌, ◌==◌, if◌then◌else◌, inl, inr, Bool-cases, arith, map,
}
use rust_ebpf_demo.Prelude.Int.{ℤ}
use rust_ebpf_demo.Clib.Text.{terminated}
use rust_ebpf_demo.Bpf.Kernel.{Kernel}
use rust_ebpf_demo.Bpf.Machine.{exited}
use rust_ebpf_demo.Probe.Layout.{IsData, task_comm_len, ValT, encode_val, encode_data}
use rust_ebpf_demo.Probe.Source.{Filter, skips, filename, regs_rc, trace_entry, trace_return}
use rust_ebpf_demo.Probe.Session.{View, Serves}
use rust_ebpf_demo.Probe.Session.Whole.{now, trace_entry-noted, trace_return-reported}
use rust_ebpf_demo.Probe.Session.Silent.{
  trace_entry-full, trace_entry-skipped, trace_return-unknown,
}
use rust_ebpf_demo.Probe.Session.Calls.{
  Call, noted, returned, refused, unnoticed, Table, task_of, slot_after, log_after, perform,
}

same_number : (m n : ℕ) → (m == n) ≡ true → m ≡ n
same_number m n e = ground arith

other_number : (m n : ℕ) → (m == n) ≡ false → m ≢ n
other_number m n e = ground arith

-- An entry of the task `t`, as the probe on the way in leaves it.
abbrev IsNote : ℕ → Option ValT → Type 0
IsNote t none = Unit
IsNote t (some v) =
    (v.id ≡ t) × (v.fname < 2 ^ 64) × (terminated (tabulate task_comm_len v.comm) ≡ true)

module _ {S : Type 0} (w : View S) (infotmp : ℤ) where
  -- The state holds what the table does.
  pub record Agrees (table : Table) (s : S) : Type 0 where
    pub entry : (t : ℕ) → w.entry s infotmp t ≡ Option.map encode_val (table.pending t)
    pub kept : (t : ℕ) → IsNote t (table.pending t)
    pub events : Every IsData table.log
    pub sent : w.sent s ≡ map encode_data table.log

  -- A state in which the slot of the task that runs, and the events, are those after its call.
  perform-Agrees :
      (c : Call) (table : Table) (s s' : S)
      → task_of c ≡ w.task s
      → Agrees table s
      → w.entry s' infotmp (w.task s)
        ≡ Option.map encode_val (slot_after c (table.pending (w.task s)))
      → ((u : ℕ) → u ≢ w.task s → w.entry s' infotmp u ≡ w.entry s infotmp u)
      → IsNote (w.task s) (slot_after c (table.pending (w.task s)))
      → Every IsData (log_after c (table.pending (w.task s)) table.log)
      → w.sent s' ≡ map encode_data (log_after c (table.pending (w.task s)) table.log)
      → Agrees (perform c table) s'
  perform-Agrees c table s s' mine agrees own others note logged sent = record {
    entry = λ u. elim (Bool-cases (u == task_of c)) [
      | inl e ↦ rw e (
          subst (λ n. w.entry s' infotmp n ≡ Option.map encode_val (slot_after c (table.pending n)))
            (sym (same_number u (task_of c) e ∙ mine)) own)
      | inr e ↦ rw e (others u (λ p. other_number u (task_of c) e (p ∙ sym mine)) ∙ agrees.entry u)
    ];
    kept = λ u. elim (Bool-cases (u == task_of c)) [
      | inl e ↦ rw e (
          subst (λ n. IsNote n (slot_after c (table.pending n)))
            (sym (same_number u (task_of c) e ∙ mine)) note)
      | inr e ↦ rw e (agrees.kept u)
    ];
    events = rw mine logged;
    sent = rw mine sent;
  }

  -- A call that is not traced leaves the table as it is.
  pub unnoticed-Agrees :
      (table : Table) (s s' : S)
      → Agrees table s
      → w.entry s' infotmp ≡ w.entry s infotmp
      → w.sent s' ≡ w.sent s
      → Agrees (perform (unnoticed (w.task s)) table) s'
  unnoticed-Agrees table s s' agrees entry sent =
      perform-Agrees (unnoticed (w.task s)) table s s' refl agrees
        (ap (λ f. f (w.task s)) entry ∙ agrees.entry (w.task s)) (λ u ne i. entry i u)
        (agrees.kept (w.task s)) agrees.events (sent ∙ agrees.sent)

  -- A call for which the map has no room leaves the table as it is.
  refused-Agrees :
      (table : Table) (s s' : S)
      → Agrees table s
      → w.entry s' infotmp ≡ w.entry s infotmp
      → w.sent s' ≡ w.sent s
      → Agrees (perform (refused (w.task s)) table) s'
  refused-Agrees table s s' agrees entry sent =
      perform-Agrees (refused (w.task s)) table s s' refl agrees
        (ap (λ f. f (w.task s)) entry ∙ agrees.entry (w.task s)) (λ u ne i. entry i u)
        (agrees.kept (w.task s)) agrees.events (sent ∙ agrees.sent)

module _ {S : Type 0} (w : View S) (k : Kernel S) (serves : Serves w k) (infotmp events : ℤ)
    (filter : Filter) where
  -- What the entry of open() with these registers means.
  abbrev pub entry_call : (ℕ → ℕ) → S → Call
  entry_call arg s =
      if skips filter (w.task s)
      then unnoticed (w.task s)
      else (if w.room s infotmp (w.task s)
          then noted (w.task s) (w.comm s) (filename arg)
          else refused (w.task s))

  -- What the return of open() with these registers means.
  abbrev pub return_call : (ℕ → ℕ) → S → Call
  return_call arg s =
      returned (w.task s) (now w k serves arg infotmp s) (regs_rc arg % 2 ^ 32) (w.read s 255)

  -- From a state that holds what the table does, the probe on the way in exits with 0, and the state
  -- holds what the table does after the call.
  pub trace_entry-Agrees :
      (arg : ℕ → ℕ) (table : Table) (s : S)
      → filename arg < 2 ^ 64
      → Agrees w infotmp table s
      → (s' : S) × (trace_entry k arg filter infotmp s ≡ exited 0 s')
        × Agrees w infotmp (perform (entry_call arg s) table) s'
  trace_entry-Agrees arg table s small agrees = elim (Bool-cases (skips filter (w.task s))) [
    | inl skip ↦
        let (s', run, same) = trace_entry-skipped w k serves arg infotmp filter s skip in
        let after =
          unnoticed-Agrees w infotmp table s s' agrees (ap (λ f. f infotmp) same.entry) same.sent in
        (s', run, rw skip after)
    | inr pass ↦ elim (Bool-cases (w.room s infotmp (w.task s))) [
      | inl room ↦
          let (s', run, task, sent, held, others) =
            trace_entry-noted w k serves arg infotmp filter s pass room in
          let call = noted (w.task s) (w.comm s) (filename arg) in
          let after =
            perform-Agrees w infotmp call table s s' refl agrees held others
              (refl, small, serves.comm_terminated s) agrees.events (sent ∙ agrees.sent) in
          (s', run, rw (pass, room) after)
      | inr full ↦
          let (s', run, sent, entry) = trace_entry-full w k serves arg infotmp filter s pass full in
          let after = refused-Agrees w infotmp table s s' agrees (ap (λ f. f infotmp) entry) sent in
          (s', run, rw (pass, full) after)
    ]
  ]

  trace_return-by :
      (arg : ℕ → ℕ) (table : Table) (s : S)
      → Agrees w infotmp table s
      → (slot : Option ValT) → table.pending (w.task s) ≡ slot
      → (s' : S) × (trace_return k arg infotmp events s ≡ exited 0 s')
        × Agrees w infotmp (perform (return_call arg s) table) s'
  trace_return-by arg table s agrees none e =
      let call = return_call arg s in
      let slot = agrees.entry (w.task s) in
      let (s', run, same) =
        trace_return-unknown w k serves arg infotmp events s
          (slot ∙ ap (Option.map encode_val) e) in
      (
        s',
        run,
        perform-Agrees w infotmp call table s s' refl agrees
            (ap (λ f. f infotmp (w.task s)) same.entry ∙ (slot ∙ ap (Option.map encode_val) e))
            (λ u ne i. same.entry i infotmp u) tt (rw e agrees.events)
            (rw e (same.sent ∙ agrees.sent)),
      )
  trace_return-by arg table s agrees (some v) e =
      let call = return_call arg s in
      let (mine, small, comm) = subst (IsNote (w.task s)) e (agrees.kept (w.task s)) in
      let word : v.id < 2 ^ 64 = subst (λ n. n < 2 ^ 64) (sym mine) (serves.pid_word s) in
      let (s', run, sent, gone, others) =
        trace_return-reported w k serves arg infotmp events s v word small
          (agrees.entry (w.task s) ∙ ap (Option.map encode_val) e) in
      (
        s',
        run,
        perform-Agrees w infotmp call table s s' refl agrees gone others tt
            (rw e (
              record {
                id = serves.pid_word s;
                ts = serves.time_word (k.get_current_pid_tgid s).state;
                ret = omega arith;
                comm = comm;
              },
              agrees.events,
            ))
            (rw e (
              sent ∙ λ i.
              encode_data (record {
                id = mine i;
                ts = now w k serves arg infotmp s;
                ret = regs_rc arg % 2 ^ 32;
                comm = v.comm;
                fname = w.read s 255 v.fname;
              })
              ∷ agrees.sent i)),
      )

  -- The same of the probe on the way out.
  pub trace_return-Agrees :
      (arg : ℕ → ℕ) (table : Table) (s : S)
      → Agrees w infotmp table s
      → (s' : S) × (trace_return k arg infotmp events s ≡ exited 0 s')
        × Agrees w infotmp (perform (return_call arg s) table) s'
  trace_return-Agrees arg table s agrees =
      trace_return-by arg table s agrees (table.pending (w.task s)) refl
