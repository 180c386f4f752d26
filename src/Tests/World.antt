-- ===== src/Tests/World.antt =====
-- A kernel with a task that runs and a map, for the tests.
use rust_ebpf_demo.Prelude.{
  ℕ, ◌+◌, ◌-◌, ◌*◌, ◌/◌, ◌%◌, ◌^◌, ◌<◌, true, false, Option, none, some, List, [], ◌∷◌, ◌==◌, leb,
  if◌then◌else◌, replicate, ◌≡◌, ◌≢◌, refl, ap, ◌∙◌, arith, length,
}
use rust_ebpf_demo.Prelude.Int.{pos}
use rust_ebpf_demo.Prelude.Bytes.{to_le, from_le, from_le-to_le_8}
use rust_ebpf_demo.Bpf.Insn.{BpfInsn, insn}
use rust_ebpf_demo.Bpf.Kernel.{Kernel}
use rust_ebpf_demo.Probe.Session.{View, byte_at, Same, Holds, Serves}

-- The number of the task that runs, the clock, the map's entries by the task, and the events.
pub record World : Type 0 where
  pub running : ℕ
  pub clock : ℕ
  pub entry : ℕ → Option (List ℕ)
  pub events : List (List ℕ)

abbrev byte_of : Option (List ℕ) → ℕ → ℕ
byte_of none i = 0
byte_of (some value) i = byte_at value i

-- The value of the task `t` stands at `2 ^ 70 + 64 * t`.
abbrev value_byte : (ℕ → Option (List ℕ)) → ℕ → ℕ
value_byte entry a = byte_of (entry ((a - 2 ^ 70) / 64)) ((a - 2 ^ 70) % 64)

abbrev pub path_name : List ℕ
path_name = b'/' ∷ b't' ∷ b'm' ∷ b'p' ∷ 0 ∷ []

abbrev pub comm_name : List ℕ
comm_name = b'c' ∷ b'a' ∷ b't' ∷ 0 ∷ []

-- The file name "/tmp" stands at address 8192.
abbrev memory : (ℕ → Option (List ℕ)) → ℕ → ℕ
memory entry a = if leb (2 ^ 70) a then value_byte entry a else byte_at path_name (a - 8192)

abbrev find : Option (List ℕ) → ℕ → Option ℕ
find none t = none
find (some value) t = some (2 ^ 70 + 64 * t)

abbrev pub put : (ℕ → Option (List ℕ)) → ℕ → Option (List ℕ) → ℕ → Option (List ℕ)
put entry t slot u = if u == t then slot else entry u

abbrev pub kernel : Kernel World
kernel = record {
  get_current_pid_tgid = λ w. record { value = w.running % 2 ^ 64; state = w };
  ktime_get_ns = λ w. record { value = w.clock % 2 ^ 64; state = record w { clock = w.clock + 1 } };
  get_current_comm = λ n w. record { value = 0; written = byte_at comm_name; state = w };
  probe_read = λ n a w. record { value = 0; written = λ i. memory w.entry (a + i); state = w };
  trace_printk = λ bs w. record { value = 0; state = w };
  map_lookup_elem =
      λ fd key w. record { address = find (w.entry (from_le key)) (from_le key); state = w };
  map_delete_elem =
      λ fd key w. record { value = 0; state = record w { entry = put w.entry (from_le key) none } };
  map_update_elem = λ fd key value flags w. record {
    value = 0;
    state = record w { entry = put w.entry (from_le key) (some value) };
  };
  perf_event_output =
      λ fd flags event w. record { value = 0; state = record w { events = event ∷ w.events } };
  value_byte = λ w a. value_byte w.entry a;
}

-- The thread 43 of the process 42 runs.
abbrev pub quiet : World
quiet = record { running = 180388626475; clock = 1000; entry = λ t. none; events = [] }

-- The file name's address, and the result 5 of the call.
abbrev pub regs : ℕ → ℕ
regs o = if o == 104 then 8192 else if o == 80 then 5 else 0

abbrev pub blank : ℕ → List BpfInsn
blank n = replicate n (insn 0 0 0 (pos 0) (pos 0))

-- What can be told of this kernel's state.
abbrev pub view : View World
view = record {
  task = λ w. w.running % 2 ^ 64;
  comm = λ w. byte_at comm_name;
  read = λ w n a i. memory w.entry (a + i);
  room = λ w fd t. true;
  entry = λ w fd t. w.entry t;
  sent = λ w. w.events;
}

byte_of-some :
    (slot : Option (List ℕ)) (value : List ℕ) (i : ℕ)
    → slot ≡ some value
    → byte_of slot i ≡ byte_at value i
byte_of-some slot value i h = rw h refl

value_byte-some :
    (entry : ℕ → Option (List ℕ)) (t i : ℕ) (value : List ℕ)
    → i < 64
    → entry t ≡ some value
    → value_byte entry (2 ^ 70 + 64 * t + i) ≡ byte_at value i
value_byte-some entry t i value lt h =
    let e : (2 ^ 70 + 64 * t + i - 2 ^ 70) / 64 ≡ t = omega arith in
    let e' : (2 ^ 70 + 64 * t + i - 2 ^ 70) % 64 ≡ i = omega arith in
    rw (e, e') (byte_of-some (entry t) value i h)

view-Holds :
    (w : World) (t : ℕ) (value : List ℕ)
    → length value ≡ 32
    → w.entry t ≡ some value
    → Holds view kernel w (2 ^ 70 + 64 * t) value
view-Holds w t value len h = record {
  load = λ o i lt.
      ap (value_byte w.entry) (omega arith)
      ∙ value_byte-some w.entry t (o + i) value (omega arith) h;
  read = λ o n i le lt.
      let high : leb (2 ^ 70) (2 ^ 70 + 64 * t + o + i) ≡ true = ground arith in
      rw high (
        ap (value_byte w.entry) (omega arith)
        ∙ value_byte-some w.entry t (o + i) value (omega arith) h);
}

unchanged :
    (s s' : World)
    → s'.running ≡ s.running
    → s'.entry ≡ s.entry
    → s'.events ≡ s.events
    → Same view s s'
unchanged s s' task slots events = record {
  task = λ i. task i % 2 ^ 64;
  comm = refl;
  read = λ j n a i. memory (slots j) (a + i);
  room = refl;
  entry = λ j fd t. slots j t;
  sent = events;
}

put-same :
    (entry : ℕ → Option (List ℕ)) (t : ℕ) (slot : Option (List ℕ))
    → t < 2 ^ 64
    → put entry (from_le (to_le 8 t)) slot t ≡ slot
put-same entry t slot lt = let e = from_le-to_le_8 t lt in rw e (ground arith)

put-other :
    (entry : ℕ → Option (List ℕ)) (t u : ℕ) (slot : Option (List ℕ))
    → t < 2 ^ 64
    → u ≢ t
    → put entry (from_le (to_le 8 t)) slot u ≡ entry u
put-other entry t u slot lt ne = let e = from_le-to_le_8 t lt in rw e (ground arith)

find-some :
    (slot : Option (List ℕ)) (t : ℕ) (value : List ℕ)
    → slot ≡ some value
    → find slot t ≡ some (2 ^ 70 + 64 * t)
find-some slot t value h = rw h refl

pub kernel-Serves : Serves view kernel
kernel-Serves = record {
  pid = λ s. refl;
  pid_word = λ s. omega arith;
  pid_same = λ s. unchanged s _ refl refl refl;
  time_word = λ s. omega arith;
  time_same = λ s. unchanged s _ refl refl refl;
  comm = λ n s lt. refl;
  comm_written = λ n i s lt. refl;
  comm_terminated = λ s. refl;
  comm_same = λ n s. unchanged s _ refl refl refl;
  read_written = λ n a i s lt. refl;
  read_same = λ n a s. unchanged s _ refl refl refl;
  lookup = λ fd t value s lt len h. (
    2 ^ 70 + 64 * t,
    (let e = from_le-to_le_8 t lt in rw e (find-some (s.entry t) t value h)),
    λ s' same. view-Holds s' t value len (ap (λ f. f fd t) same.entry ∙ h),
  );
  lookup_none = λ fd t s lt h. let e = from_le-to_le_8 t lt in rw (e, h) refl;
  lookup_same = λ fd key s. unchanged s _ refl refl refl;
  update = λ fd t value s lt room. put-same s.entry t (some value) lt;
  update_other = λ fd t u value s lt ne. put-other s.entry t u (some value) lt ne;
  update_full = λ fd t value s lt full. absurd (true-ne-false full);
  update_task = λ fd key value s. refl;
  update_sent = λ fd key value s. refl;
  delete = λ fd t s lt. put-same s.entry t none lt;
  delete_other = λ fd t u s lt ne. put-other s.entry t u none lt ne;
  delete_sent = λ fd key s. refl;
  output = λ fd flags event s. refl;
  output_entry = λ fd flags event s. refl;
}
  where
    true-ne-false : true ≡ false → ⊥
    true-ne-false e = cc
