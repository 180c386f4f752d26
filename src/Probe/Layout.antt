-- ===== src/Probe/Layout.antt =====
-- The records of opensnoop/opensnoop.h as the bytes that a 64-bit little-endian machine lays out.
use rust_ebpf_demo.Prelude.{ℕ, ◌^◌, ◌<◌, ◌≡◌, true, List, ◌++◌, tabulate, replicate}
use rust_ebpf_demo.Prelude.Bytes.{to_le}
use rust_ebpf_demo.Clib.Text.{terminated}
use rust_ebpf_demo.Bpf.Kernel.{MapSpec}

abbrev pub task_comm_len : ℕ
task_comm_len = 16

abbrev pub name_max : ℕ
name_max = 255

-- `struct val_t`: the bytes of an array are given by index, and a pointer is its address.
pub record ValT : Type 0 where
  pub id : ℕ
  pub comm : ℕ → ℕ
  pub fname : ℕ

-- `struct data_t`: `ret` is the pattern of an `int`.
pub record DataT : Type 0 where
  pub id : ℕ
  pub ts : ℕ
  pub ret : ℕ
  pub comm : ℕ → ℕ
  pub fname : ℕ → ℕ

abbrev pub encode_val : ValT → List ℕ
encode_val v = to_le 8 v.id ++ (tabulate task_comm_len v.comm ++ to_le 8 v.fname)

-- The fields end at byte 291; five bytes follow, so that the size is a multiple of eight.
abbrev pub encode_data : DataT → List ℕ
encode_data d =
    to_le 8 d.id
    ++ (to_le 8 d.ts
        ++ (to_le 4 d.ret
            ++ (tabulate task_comm_len d.comm ++ (tabulate name_max d.fname ++ replicate 5 0))))

-- `BPF_HASH(infotmp, u64, struct val_t)`
abbrev pub info_map : MapSpec
info_map = record { key_size = 8; value_size = 32 }

-- The fields of a `struct data_t` are values of their types, and the process name ends with a zero.
pub record IsData (d : DataT) : Type 0 where
  pub id : d.id < 2 ^ 64
  pub ts : d.ts < 2 ^ 64
  pub ret : d.ret < 2 ^ 32
  pub comm : terminated (tabulate task_comm_len d.comm) ≡ true
