-- ===== src/Snoop/Report.antt =====
-- `printHeader` and `perf_reader_raw_callback` of opensnoop/opensnoop.c. The conversion of the time
-- to seconds is a division of floats: a line carries the difference in nanoseconds. Text has the bytes.
pub mod Decode
pub mod Filter
pub mod Stamps
pub mod Text
use Prim.Native.String.{String}
use rust_ebpf_demo.Prelude.{
  ℕ, suc, ◌+◌, ◌-◌, ◌/◌, ◌%◌, ◌^◌, Bool, true, false, not, ◌&&◌, Option, none, some, List, [], ◌∷◌,
  ◌==◌, if◌then◌else◌, take, drop,
}
use rust_ebpf_demo.Prelude.Int.{ℤ, pos, neg, negsuc}
use rust_ebpf_demo.Prelude.Bytes.{from_le}
use rust_ebpf_demo.Clib.Words.{signed_32, signed_64}
use rust_ebpf_demo.Clib.Text.{c_string, strstr}
use rust_ebpf_demo.Snoop.Args.{Options, is_unset}

-- A conversion of `printf`: the text padded on the right or on the left.
pub data Column : Type 0 where
  left : ℕ → String → Column
  right : ℕ → String → Column
  plain : String → Column

unfoldable pub print_header : Options → List Column
print_header o =
    let id = left 6 (if not (is_unset o.tid) then "TID" else "PID") in
    let columns : List Column =
      id ∷ left 16 "COMM" ∷ right 4 "FD" ∷ right 3 "ERR" ∷ plain "PATH" ∷ [] in
    if o.timestamp then left 14 "TIME(s)" ∷ columns else columns

-- The fields of a `struct data_t` as C reads them: `ret` as an `int`, and the arrays as strings.
pub record Event : Type 0 where
  pub id : ℕ
  pub ts : ℕ
  pub ret : ℤ
  pub comm : List ℕ
  pub fname : List ℕ

-- `(struct data_t *)raw`
unfoldable pub event_at : List ℕ → Event
event_at raw = record {
  id = from_le (take 8 raw);
  ts = from_le (take 8 (drop 8 raw));
  ret = signed_32 (from_le (take 4 (drop 16 raw)));
  comm = c_string (drop 20 raw);
  fname = c_string (drop 36 raw);
}

-- One line: `printf("%-14.9f", ...)`, if there is a time, and
-- `printf("%-6d %-16s %4d %3d %s\n", pid, comm, fd_s, err, fname)`.
pub record Line : Type 0 where
  pub delta : Option ℤ
  pub pid : ℤ
  pub comm : List ℕ
  pub fd_s : ℤ
  pub err : ℤ
  pub fname : List ℕ

-- Nothing, a line, or the negation of the least `int`, which C leaves undefined.
pub data Printed : Type 0 where
  nothing : Printed
  line : Line → Printed
  undefined : Printed

abbrev pub nonneg : ℤ → Bool
nonneg (pos n) = true
nonneg (negsuc n) = false

-- `fd_s` and `err`
abbrev pub fd_and_err : ℤ → Option (ℤ × ℤ)
fd_and_err (pos n) = some (pos n, pos 0)
fd_and_err (negsuc n) = if n == 2 ^ 31 - 1 then none else some (neg 1, pos (n + 1))

abbrev pub name_matches : Option (List ℕ) → List ℕ → Bool
name_matches none comm = true
name_matches (some name) comm = strstr comm name

-- The two early returns.
abbrev pub is_filtered : Options → Event → Bool
is_filtered o e = if o.failed && nonneg e.ret then true else not (name_matches o.name e.comm)

-- `initialTimestamp`, which is the pattern of a `long long`, after an event with this time.
abbrev pub next_initial : Options → ℕ → ℕ → ℕ
next_initial o initial ts = if o.timestamp then (if initial == 0 then ts else initial) else initial

abbrev pub delta : Options → ℕ → ℕ → Option ℤ
delta o initial ts =
    if o.timestamp
    then some (signed_64 ((ts + 2 ^ 64 - next_initial o initial ts) % 2 ^ 64))
    else none

abbrev pub printed : Options → ℕ → Event → Option (ℤ × ℤ) → Printed
printed o initial e none = undefined
printed o initial e (some (fd_s, err)) = line (record {
  delta = delta o initial e.ts;
  pid = signed_32 (e.id / 2 ^ 32);
  comm = e.comm;
  fd_s = fd_s;
  err = err;
  fname = e.fname;
})

-- The callback on an event: the new `initialTimestamp`, and what is printed.
unfoldable pub on_event : Options → ℕ → Event → ℕ × Printed
on_event o initial e =
    if is_filtered o e
    then (initial, nothing)
    else (next_initial o initial e.ts, printed o initial e (fd_and_err e.ret))

unfoldable pub perf_reader_raw_callback : Options → ℕ → List ℕ → ℕ × Printed
unfolding event_at on_event
perf_reader_raw_callback o initial raw = on_event o initial (event_at raw)
