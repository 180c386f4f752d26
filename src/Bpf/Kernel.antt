-- ===== src/Bpf/Kernel.antt =====
-- The helpers of the kernel that the programs call, as an interface: the code behind them is not
-- part of the repository. Each helper takes the kernel's state and returns its result with the
-- next state; what it reads from the program's memory it is given as bytes, and what it writes there
-- it returns as bytes, by index.
use rust_ebpf_demo.Prelude.{ℕ, Option, List}
use rust_ebpf_demo.Prelude.Int.{ℤ}

-- A 64-bit result with the next state.
pub record Answer (S : Type 0) : Type 0 where
  pub value : ℕ
  pub state : S

-- A 64-bit result, the bytes that the helper wrote, and the next state.
pub record Filled (S : Type 0) : Type 0 where
  pub value : ℕ
  pub written : ℕ → ℕ
  pub state : S

-- The address of the map's value, if the key is in the map, and the next state.
pub record Found (S : Type 0) : Type 0 where
  pub address : Option ℕ
  pub state : S

pub record Kernel (S : Type 0) : Type 0 where
  pub get_current_pid_tgid : S → Answer S
  pub ktime_get_ns : S → Answer S
  -- the number of bytes
  pub get_current_comm : ℕ → S → Filled S
  -- the number of bytes and the source address
  pub probe_read : ℕ → ℕ → S → Filled S
  -- the bytes of the format string, and their number
  pub trace_printk : List ℕ → S → Answer S
  -- the map's file descriptor, the key
  pub map_lookup_elem : ℤ → List ℕ → S → Found S
  pub map_delete_elem : ℤ → List ℕ → S → Answer S
  -- the map's file descriptor, the key, the value, the flags
  pub map_update_elem : ℤ → List ℕ → List ℕ → ℕ → S → Answer S
  -- the map's file descriptor, the flags, the event
  pub perf_event_output : ℤ → ℕ → List ℕ → S → Answer S
  -- the byte at an address of a map's value
  pub value_byte : S → ℕ → ℕ

-- The sizes that `bpf_create_map` was given.
pub record MapSpec : Type 0 where
  pub key_size : ℕ
  pub value_size : ℕ
