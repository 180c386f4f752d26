-- ===== src/Probe/Session/Calls.antt =====
-- What the two probes mean together, without the machine: for each task the call of open() that is
-- pending, and the events.
use rust_ebpf_demo.Prelude.{
  ℕ, ◌≡◌, refl, sym, ◌∙◌, ap, true, false, Option, none, some, List, [], ◌∷◌, ◌==◌, inl, inr,
  Bool-cases, arith, if◌then◌else◌,
}
use rust_ebpf_demo.Probe.Layout.{ValT, DataT}

-- A call of open() begins, with the name of the task's process and the file name's address; one
-- returns, at a time and with a result, when the bytes at an address are as given; one begins when the
-- map, which all tasks share, has no room for it; or a task does something that is not traced.
pub data Call : Type 0 where
  noted : (t : ℕ) (comm : ℕ → ℕ) (fname : ℕ) → Call
  returned : (t ts ret : ℕ) (bytes : ℕ → ℕ → ℕ) → Call
  refused : (t : ℕ) → Call
  unnoticed : (t : ℕ) → Call

pub record Table : Type 0 where
  pub pending : ℕ → Option ValT
  pub log : List DataT

abbrev pub empty : Table
empty = record { pending = λ t. none; log = [] }

abbrev pub task_of : Call → ℕ
task_of (noted t comm fname) = t
task_of (returned t ts ret bytes) = t
task_of (refused t) = t
task_of (unnoticed t) = t

-- The task's own entry after its call.
abbrev pub slot_after : Call → Option ValT → Option ValT
slot_after (noted t comm fname) slot = some (record { id = t; comm = comm; fname = fname })
slot_after (returned t ts ret bytes) slot = none
slot_after (refused t) slot = slot
slot_after (unnoticed t) slot = slot

-- The events after a call of a task with this entry, the last one first.
abbrev pub log_after : Call → Option ValT → List DataT → List DataT
log_after (noted t comm fname) slot log = log
log_after (returned t ts ret bytes) none log = log
log_after (returned t ts ret bytes) (some v) log =
    record { id = t; ts = ts; ret = ret; comm = v.comm; fname = bytes v.fname } ∷ log
log_after (refused t) slot log = log
log_after (unnoticed t) slot log = log

abbrev pub perform : Call → Table → Table
perform c table = record {
  pending = λ u. if u == task_of c then slot_after c (table.pending u) else table.pending u;
  log = log_after c (table.pending (task_of c)) table.log;
}

-- The last call comes first.
abbrev pub perform_all : List Call → Table → Table
perform_all [] table = table
perform_all (c ∷ cs) table = perform c (perform_all cs table)

abbrev pub calls_of : ℕ → List Call → List Call
calls_of t [] = []
calls_of t (c ∷ cs) = let rest = calls_of t cs in if t == task_of c then c ∷ rest else rest

abbrev pub events_of : ℕ → List DataT → List DataT
events_of t [] = []
events_of t (d ∷ ds) = let rest = events_of t ds in if t == d.id then d ∷ rest else rest

events_of-own :
    (t : ℕ) (c : Call) (slot : Option ValT) (log : List DataT)
    → (t == task_of c) ≡ true
    → events_of t (log_after c slot log) ≡ log_after c slot (events_of t log)
events_of-own t (noted u comm fname) slot log e = refl
events_of-own t (returned u ts ret bytes) none log e = refl
events_of-own t (returned u ts ret bytes) (some v) log e = rw e refl
events_of-own t (refused u) slot log e = refl
events_of-own t (unnoticed u) slot log e = refl

events_of-other :
    (t : ℕ) (c : Call) (slot : Option ValT) (log : List DataT)
    → (t == task_of c) ≡ false
    → events_of t (log_after c slot log) ≡ events_of t log
events_of-other t (noted u comm fname) slot log e = refl
events_of-other t (returned u ts ret bytes) none log e = refl
events_of-other t (returned u ts ret bytes) (some v) log e = rw e refl
events_of-other t (refused u) slot log e = refl
events_of-other t (unnoticed u) slot log e = refl

same_number : (m n : ℕ) → (m == n) ≡ true → m ≡ n
same_number m n e = ground arith

-- The entry of a task comes of its own calls.
pub pending-calls_of :
    (t : ℕ) (cs : List Call)
    → (perform_all cs empty).pending t ≡ (perform_all (calls_of t cs) empty).pending t
pending-calls_of t [] = refl
pending-calls_of t (c ∷ cs) = elim (Bool-cases (t == task_of c)) [
  | inl e ↦ rw (e, e) (ap (slot_after c) (pending-calls_of t cs))
  | inr e ↦ rw e (pending-calls_of t cs)
]

-- The events of a task are those that its own calls alone would give, a refused one giving nothing.
pub events_of-perform_all :
    (t : ℕ) (cs : List Call)
    → events_of t (perform_all cs empty).log ≡ (perform_all (calls_of t cs) empty).log
events_of-perform_all t [] = refl
events_of-perform_all t (c ∷ cs) =
    let table = perform_all cs empty in
    let slot = table.pending (task_of c) in
    elim (Bool-cases (t == task_of c)) [
      | inl e ↦
          let same : slot ≡ (perform_all (calls_of t cs) empty).pending (task_of c) =
            pending-calls_of (task_of c) cs
            ∙ ap (λ u. (perform_all (calls_of u cs) empty).pending (task_of c))
                (sym (same_number t (task_of c) e)) in
          let rest = events_of-perform_all t cs in
          rw e (events_of-own t c slot table.log e ∙ λ i. log_after c (same i) (rest i))
      | inr e ↦ rw e (events_of-other t c slot table.log e ∙ events_of-perform_all t cs)
    ]
