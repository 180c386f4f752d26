-- ===== src/Probe/Source.antt =====
-- `trace_entry` and `trace_return` of the C text in opensnoop/opensnoop.py.
use rust_ebpf_demo.Prelude.{
  ℕ, ◌+◌, ◌/◌, ◌%◌, ◌^◌, Bool, false, not, Option, none, some, List, ◌==◌, if◌then◌else◌, tabulate,
}
use rust_ebpf_demo.Prelude.Int.{ℤ}
use rust_ebpf_demo.Prelude.Bytes.{to_le, from_le}
use rust_ebpf_demo.Bpf.Kernel.{Kernel, Answer, Filled}
use rust_ebpf_demo.Bpf.Machine.{Outcome, exited}
use rust_ebpf_demo.Probe.Layout.{ValT, task_comm_len, name_max, encode_val, encode_data}

-- What is put for `FILTER`: nothing, a test of `tid`, or a test of `pid`.
pub data Filter : Type 0 where
  all : Filter
  only_tid : ℕ → Filter
  only_pid : ℕ → Filter

-- Whether `FILTER` returns at once.
abbrev pub skips : Filter → ℕ → Bool
skips all id = false
skips (only_tid t) id = not (id % 2 ^ 32 == t)
skips (only_pid p) id = not (id / 2 ^ 32 % 2 ^ 32 == p)

-- The fields of `struct pt_regs` that the probes read, by offset: the second argument of
-- `do_sys_open`, and its result.
abbrev pub filename : (ℕ → ℕ) → ℕ
filename arg = arg 104

abbrev pub regs_rc : (ℕ → ℕ) → ℕ
regs_rc arg = arg 80

-- `id` and `fname` of the `struct val_t` at an address.
abbrev pub val_u64 : {S : Type 0} → Kernel S → S → ℕ → ℕ → ℕ
val_u64 k s valp offset = from_le (tabulate 8 (λ i. k.value_byte s (valp + offset + i)))

module _ {S : Type 0} (k : Kernel S) (arg : ℕ → ℕ) where
  -- `if (bpf_get_current_comm(...) == 0) { ... } return 0;`: `got` is that test.
  unfoldable pub note_entry : ℤ → ℕ → Filled S → Bool → Outcome S
  note_entry infotmp id comm got =
      let val : ValT = record { id = id; comm = comm.written; fname = filename arg } in
      let r = k.map_update_elem infotmp (to_le 8 id) (encode_val val) 0 comm.state in
      if got then exited 0 r.state else exited 0 comm.state

  -- The body behind `FILTER`.
  unfoldable pub record_entry : ℤ → Answer S → Outcome S
  unfolding note_entry
  record_entry infotmp id =
      let comm = k.get_current_comm task_comm_len id.state in
      note_entry infotmp id.value comm (comm.value % 2 ^ 32 == 0)

  unfoldable pub trace_entry : Filter → ℤ → S → Outcome S
  unfolding record_entry
  trace_entry filter infotmp s =
      let id = k.get_current_pid_tgid s in
      if skips filter id.value then exited 0 id.state else record_entry infotmp id

  -- `events.perf_submit(ctx, &data, sizeof(data)); infotmp.delete(&id); return 0;`, where the flags
  -- of the first are `BPF_F_CURRENT_CPU`.
  unfoldable pub submit_event : ℤ → ℤ → ℕ → S → List ℕ → Outcome S
  submit_event infotmp events id s event =
      let sent = k.perf_event_output events 0xffff_ffff event s in
      exited 0 (k.map_delete_elem infotmp (to_le 8 id) sent.state).state

  -- What follows once the entry is found, at the address `valp`.
  unfoldable pub report_return : ℤ → ℤ → ℕ → ℕ → ℕ → S → Outcome S
  unfolding submit_event
  report_return infotmp events id tsp valp s =
      let comm = k.probe_read task_comm_len (valp + 8) s in
      let fname = k.probe_read name_max (val_u64 k comm.state valp 24) comm.state in
      submit_event infotmp events id fname.state (
        encode_data (record {
          id = val_u64 k fname.state valp 0;
          ts = tsp;
          ret = regs_rc arg % 2 ^ 32;
          comm = comm.written;
          fname = fname.written;
        }))

  -- `if (valp == 0) return 0;`
  unfoldable pub return_found : ℤ → ℤ → ℕ → ℕ → S → Option ℕ → Outcome S
  unfolding report_return
  return_found infotmp events id tsp s none = exited 0 s
  return_found infotmp events id tsp s (some valp) = report_return infotmp events id tsp valp s

  unfoldable pub trace_return : ℤ → ℤ → S → Outcome S
  unfolding return_found
  trace_return infotmp events s =
      let id = k.get_current_pid_tgid s in
      let tsp = k.ktime_get_ns id.state in
      let found = k.map_lookup_elem infotmp (to_le 8 id.value) tsp.state in
      return_found infotmp events id.value tsp.value found.state found.address
