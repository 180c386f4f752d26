-- ===== src/Snoop/Report/Decode.antt =====
-- The callback reads the record that the probe writes.
use rust_ebpf_demo.Prelude.{
  ℕ, List, [], ◌∷◌, ◌==◌, refl, ap, inl, inr, Bool-cases, ◌≡◌, ◌++◌, tabulate, replicate,
}
use rust_ebpf_demo.Prelude.Bytes.{from_le-to_le_8, from_le-to_le_4}
use rust_ebpf_demo.Clib.Words.{signed_32}
use rust_ebpf_demo.Clib.Text.{c_string, c_string-append}
use rust_ebpf_demo.Probe.Layout.{DataT, IsData, task_comm_len, name_max, encode_data}
use rust_ebpf_demo.Snoop.Report.{Event, event_at}

-- A `struct data_t` as its reader sees it.
abbrev pub event_of : DataT → Event
event_of d = record {
  id = d.id;
  ts = d.ts;
  ret = signed_32 d.ret;
  comm = c_string (tabulate task_comm_len d.comm);
  fname = c_string (tabulate name_max d.fname);
}

-- The zero behind the array ends a file name that fills it.
c_string-zeros : (xs : List ℕ) → c_string (xs ++ replicate 5 0) ≡ c_string xs
unfolding c_string
c_string-zeros [] = refl
c_string-zeros (x ∷ xs) = elim (Bool-cases (x == 0)) [
  | inl e ↦ rw e refl
  | inr e ↦ rw e (ap (λ l. x ∷ l) (c_string-zeros xs))
]

-- The callback reads back the `struct data_t` that the probe wrote, if its fields are values of their
-- types and the process name ends with a zero; a file name that has no zero is read in full.
pub event_at-encode_data : (d : DataT) → IsData d → event_at (encode_data d) ≡ event_of d
unfolding event_at
event_at-encode_data d h = λ i. record {
  id = from_le-to_le_8 d.id h.id i;
  ts = from_le-to_le_8 d.ts h.ts i;
  ret = signed_32 (from_le-to_le_4 d.ret h.ret i);
  comm =
      c_string-append (tabulate task_comm_len d.comm) (tabulate name_max d.fname ++ replicate 5 0)
        h.comm i;
  fname = c_string-zeros (tabulate name_max d.fname) i;
}
