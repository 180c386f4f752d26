-- ===== src/Probe/Session.antt =====
-- The two probes together: an open that is noted at its entry is reported at its return. What the
-- kernel's helpers do is stated over a view of its state.
pub mod Fields
pub mod Whole
pub mod Silent
pub mod Calls
pub mod Agrees
pub mod Interleave
use rust_ebpf_demo.Prelude.{
  ℕ, zero, suc, ◌+◌, ◌*◌, ◌%◌, ◌^◌, ◌≤◌, ◌<◌, ◌≡◌, ◌≢◌, refl, sym, ap, ◌∙◌, Bool, true, false,
  Option, none, some, List, [], ◌∷◌, ◌==◌, arith, length, tabulate, tabulate_from, if◌then◌else◌,
}
use rust_ebpf_demo.Prelude.Int.{ℤ}
use rust_ebpf_demo.Prelude.Bytes.{to_le, from_le, from_le-to_le_8}
use rust_ebpf_demo.Clib.Text.{terminated}
use rust_ebpf_demo.Bpf.Kernel.{Kernel, Answer, Filled, Found}
use rust_ebpf_demo.Bpf.Machine.{Outcome, exited}
use rust_ebpf_demo.Probe.Layout.{task_comm_len, ValT, DataT, info_map}
use rust_ebpf_demo.Probe.Source.{
  Filter, skips, filename, regs_rc, val_u64, note_entry, record_entry, trace_entry, submit_event,
  report_return, return_found, trace_return,
}

-- What can be told of a state: the id of the task that runs and its name; what a probe that reads a
-- number of bytes from an address gets, by index; whether the map has room for a task; the maps'
-- values, by the task; and the events that were handed over, the last one first.
pub record View (S : Type 0) : Type 0 where
  pub task : S → ℕ
  pub comm : S → ℕ → ℕ
  pub read : S → ℕ → ℕ → ℕ → ℕ
  pub room : S → ℤ → ℕ → Bool
  pub entry : S → ℤ → ℕ → Option (List ℕ)
  pub sent : S → List (List ℕ)

abbrev pub byte_at : List ℕ → ℕ → ℕ
byte_at [] i = 0
byte_at (b ∷ bs) zero = b
byte_at (b ∷ bs) (suc i) = byte_at bs i

module _ {S : Type 0} (w : View S) where
  -- Two states that look alike.
  pub record Same (s s' : S) : Type 0 where
    pub task : w.task s' ≡ w.task s
    pub comm : w.comm s' ≡ w.comm s
    pub read : w.read s' ≡ w.read s
    pub room : w.room s' ≡ w.room s
    pub entry : w.entry s' ≡ w.entry s
    pub sent : w.sent s' ≡ w.sent s

  pub Same-trans : {s t u : S} → Same s t → Same t u → Same s u
  Same-trans p q = record {
    task = q.task ∙ p.task;
    comm = q.comm ∙ p.comm;
    read = q.read ∙ p.read;
    room = q.room ∙ p.room;
    entry = q.entry ∙ p.entry;
    sent = q.sent ∙ p.sent;
  }

  -- The bytes of a value stand at an address, for a load as for `probe_read`.
  pub record Holds (k : Kernel S) (s : S) (address : ℕ) (value : List ℕ) : Type 0 where
    pub load :
        (o i : ℕ) → o + i < length value → k.value_byte s (address + o + i) ≡ byte_at value (o + i)
    pub read :
        (o n i : ℕ)
        → o + n ≤ length value
        → i < n
        → w.read s n (address + o) i ≡ byte_at value (o + i)

  -- What the helpers do, by their manual.
  pub record Serves (k : Kernel S) : Type 0 where
    pub pid : (s : S) → (k.get_current_pid_tgid s).value ≡ w.task s
    pub pid_word : (s : S) → w.task s < 2 ^ 64
    pub pid_same : (s : S) → Same s (k.get_current_pid_tgid s).state
    pub time_word : (s : S) → (k.ktime_get_ns s).value < 2 ^ 64
    pub time_same : (s : S) → Same s (k.ktime_get_ns s).state
    pub comm : (n : ℕ) (s : S) → 0 < n → (k.get_current_comm n s).value ≡ 0
    pub comm_written : (n i : ℕ) (s : S) → i < n → (k.get_current_comm n s).written i ≡ w.comm s i
    pub comm_terminated : (s : S) → terminated (tabulate task_comm_len (w.comm s)) ≡ true
    pub comm_same : (n : ℕ) (s : S) → Same s (k.get_current_comm n s).state
    pub read_written : (n a i : ℕ) (s : S) → i < n → (k.probe_read n a s).written i ≡ w.read s n a i
    pub read_same : (n a : ℕ) (s : S) → Same s (k.probe_read n a s).state
    pub lookup :
        (fd : ℤ) (t : ℕ) (value : List ℕ) (s : S)
        → t < 2 ^ 64
        → length value ≡ info_map.value_size
        → w.entry s fd t ≡ some value
        → (a : ℕ) × ((k.map_lookup_elem fd (to_le 8 t) s).address ≡ some a)
          × ((s' : S) → Same s s' → Holds k s' a value)
    pub lookup_none :
        (fd : ℤ) (t : ℕ) (s : S)
        → t < 2 ^ 64
        → w.entry s fd t ≡ none
        → (k.map_lookup_elem fd (to_le 8 t) s).address ≡ none
    pub lookup_same : (fd : ℤ) (key : List ℕ) (s : S) → Same s (k.map_lookup_elem fd key s).state
    pub update :
        (fd : ℤ) (t : ℕ) (value : List ℕ) (s : S)
        → t < 2 ^ 64
        → w.room s fd t ≡ true
        → w.entry (k.map_update_elem fd (to_le 8 t) value 0 s).state fd t ≡ some value
    pub update_other :
        (fd : ℤ) (t u : ℕ) (value : List ℕ) (s : S)
        → t < 2 ^ 64
        → u ≢ t
        → w.entry (k.map_update_elem fd (to_le 8 t) value 0 s).state fd u ≡ w.entry s fd u
    pub update_full :
        (fd : ℤ) (t : ℕ) (value : List ℕ) (s : S)
        → t < 2 ^ 64
        → w.room s fd t ≡ false
        → w.entry (k.map_update_elem fd (to_le 8 t) value 0 s).state ≡ w.entry s
    pub update_task :
        (fd : ℤ) (key value : List ℕ) (s : S)
        → w.task (k.map_update_elem fd key value 0 s).state ≡ w.task s
    pub update_sent :
        (fd : ℤ) (key value : List ℕ) (s : S)
        → w.sent (k.map_update_elem fd key value 0 s).state ≡ w.sent s
    pub delete :
        (fd : ℤ) (t : ℕ) (s : S)
        → t < 2 ^ 64
        → w.entry (k.map_delete_elem fd (to_le 8 t) s).state fd t ≡ none
    pub delete_other :
        (fd : ℤ) (t u : ℕ) (s : S)
        → t < 2 ^ 64
        → u ≢ t
        → w.entry (k.map_delete_elem fd (to_le 8 t) s).state fd u ≡ w.entry s fd u
    pub delete_sent :
        (fd : ℤ) (key : List ℕ) (s : S) → w.sent (k.map_delete_elem fd key s).state ≡ w.sent s
    pub output :
        (fd : ℤ) (flags : ℕ) (event : List ℕ) (s : S)
        → w.sent (k.perf_event_output fd flags event s).state ≡ event ∷ w.sent s
    pub output_entry :
        (fd : ℤ) (flags : ℕ) (event : List ℕ) (s : S)
        → w.entry (k.perf_event_output fd flags event s).state ≡ w.entry s
