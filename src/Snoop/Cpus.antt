-- ===== src/Snoop/Cpus.antt =====
-- `getOnlineCpus` of opensnoop/opensnoop.c: the list of processors in
-- /sys/devices/system/cpu/online, such as "0-3,5".
pub mod Ranges
pub mod Correct
pub mod Bounds
use rust_ebpf_demo.Prelude.{
  ℕ, ◌+◌, ◌-◌, ◌^◌, ◌<◌, ◌≡◌, Bool, true, false, ◌||◌, Option, none, some, List, [], ◌∷◌, ◌++◌, ltb,
  ◌==◌, if◌then◌else◌, length, tabulate,
}
use rust_ebpf_demo.Prelude.Int.{ℤ, pos, neg, negsuc, pos_part, ltb_ℤ, ◌+ℤ◌, ◌-ℤ◌}
use rust_ebpf_demo.Clib.Words.{to_int}
use rust_ebpf_demo.Clib.Strtol.{Errno, no_error, einval, erange, Long, strtol}

-- What the system answers: the descriptor of the file, the bytes read (`none` is an error), the
-- result of `close`, and whether `malloc` gives memory.
pub record Sysfs : Type 0 where
  pub fd : ℤ
  pub contents : Option (List ℕ)
  pub closed : ℤ
  pub allocated : Bool

-- The processors with result 0; result -1, and whether `*cpus` then points to the array that was
-- allocated; or a call that C leaves undefined.
pub data CpuOutcome : Type 0 where
  online : List ℤ → CpuOutcome
  failed : Bool → CpuOutcome
  undefined : CpuOutcome

-- The outcome, and whether the descriptor is still open.
pub record CpuRun : Type 0 where
  pub outcome : CpuOutcome
  pub fd_open : Bool

abbrev pub buf_size : ℕ
buf_size = 256

abbrev pub capacity : ℕ
capacity = 16

abbrev pub fits_int : ℤ → Bool
fits_int (pos n) = ltb n (2 ^ 31)
fits_int (negsuc n) = ltb n (2 ^ 31)

-- `rangeEnd - rangeStart + 1`, unless a step of it overflows an `int`.
abbrev pub num_cpus_to_add : ℤ → ℤ → Option ℤ
num_cpus_to_add start end =
    let d = end -ℤ start in
    if fits_int d then (if fits_int (d +ℤ pos 1) then some (d +ℤ pos 1) else none) else none

-- The growth of the array and the loop that fills it. `realloc` is given the address of the caller's
-- variable, which no allocation returned.
pub append_cpus : ℤ → Option ℤ → List ℤ → CpuOutcome
append_cpus start none cpus = undefined
append_cpus start (some n) cpus =
    let extra_space = to_int (pos capacity -ℤ pos (length cpus) -ℤ n) in
    if ltb_ℤ extra_space (pos 0)
    then undefined
    else online (cpus ++ tabulate (pos_part n) (λ j. start +ℤ pos j))

-- The range between two numbers that `strtol` has read.
pub to_range : ℤ → Long → List ℤ → CpuOutcome
unfolding append_cpus
to_range start end cpus = elim end.errno [
  | no_error ↦ append_cpus start (num_cpus_to_add start (to_int end.value)) cpus
  | _ ↦ failed true
]

-- The number behind the hyphen, if there was one, or the start of the range.
range_end : Long → Option (List ℕ) → Long
range_end start none = start
range_end start (some text) = strtol text

pub from_start : Long → Option (List ℕ) → List ℤ → CpuOutcome
unfolding to_range range_end
from_start start hyphen cpus = elim start.errno [
  | no_error ↦ to_range (to_int start.value) (range_end start hyphen) cpus
  | _ ↦ failed true
]

-- The range that ends here. `field` is `buf + lastEndIndex + 1`, and `hyphen` is
-- `buf + lastHyphenIndex + 1`, if that index is not -1.
pub add_range : List ℕ → Option (List ℕ) → List ℤ → CpuOutcome
unfolding from_start
add_range field hyphen cpus = from_start (strtol field) hyphen cpus

abbrev continue : CpuOutcome → (List ℤ → CpuOutcome) → CpuOutcome
continue (online cpus) next = next cpus
continue (failed b) next = failed b
continue undefined next = undefined

-- The loop: `rest` is `buf + i`, and it is empty when `i == numRead`.
pub scan : List ℕ → Option (List ℕ) → List ℤ → List ℕ → CpuOutcome
unfolding add_range
scan field hyphen cpus [] = add_range field hyphen cpus
scan field hyphen cpus (c ∷ rest) =
    let behind = λ (cpus' : List ℤ). scan rest none cpus' rest in
    let hyphenated = scan field (some rest) cpus rest in
    let skipped = scan field hyphen cpus rest in
    if c == b','
    then continue (add_range field hyphen cpus) behind
    else if c == b'-'
    then hyphenated
    else skipped

-- `close` and what follows it. An error of `read` is not tested: the terminating zero is then
-- written in front of the buffer.
after_read : Sysfs → Option (List ℕ) → CpuOutcome
unfolding scan
after_read sys none = undefined
after_read sys (some buf) = if sys.allocated then scan buf none [] buf else failed false

abbrev bad_length : Option (List ℕ) → Bool
bad_length none = false
bad_length (some buf) = length buf == buf_size || length buf == 0

pub get_online_cpus : Sysfs → CpuRun
unfolding after_read
get_online_cpus sys =
    if ltb_ℤ sys.fd (pos 0)
    then record { outcome = failed false; fd_open = false }
    else if bad_length sys.contents
    then record { outcome = failed false; fd_open = true }
    else if ltb_ℤ sys.closed (pos 0)
    then record { outcome = failed false; fd_open = false }
    else record { outcome = after_read sys sys.contents; fd_open = false }
