-- ===== src/Tests/Machine.antt =====
-- A machine with two processors, for the tests, and one whose processors have a gap.
use rust_ebpf_demo.Prelude.{
  ℕ, ◌+◌, ◌≡◌, ◌≢◌, refl, sym, ap, ◌∙◌, true, false, none, some, List, [], ◌∷◌, arith, replicate,
}
use rust_ebpf_demo.Prelude.Int.{pos}
use rust_ebpf_demo.Bpf.Insn.{BpfInsn, insn}
use rust_ebpf_demo.Clib.Strtol.{value_from}
use rust_ebpf_demo.Snoop.Cpus.{Sysfs, online, get_online_cpus}
use rust_ebpf_demo.Snoop.Cpus.Correct.{online_text, get_online_cpus-appended}
use rust_ebpf_demo.Snoop.Cpus.Ranges.{Num, Range, one, span}
use rust_ebpf_demo.Snoop.Main.Setup.Granted.{Grant}

abbrev one_digit : ℕ → Num
one_digit d = record { first = d; others = [] }

-- "0-1"
abbrev two_cpus : Range
two_cpus = span (one_digit 0) (one_digit 1)

abbrev no_ranges : List Range
no_ranges = []

abbrev pub sysfs : Sysfs
sysfs = record {
  fd = pos 3;
  contents = some (online_text two_cpus no_ranges);
  closed = pos 0;
  allocated = true;
}

pub online_two : (get_online_cpus sysfs).outcome ≡ online (pos 0 ∷ pos 1 ∷ [])
unfolding value_from
online_two =
    ap (λ r. r.outcome)
      (get_online_cpus-appended sysfs two_cpus no_ranges
        (record {
          opened = refl;
          contents = refl;
          short = omega arith;
          closes = refl;
          allocates = refl;
        })
        (((omega arith, tt), omega arith), ((omega arith, tt), omega arith), omega arith) tt)

pub online_some : (get_online_cpus sysfs).outcome ≢ online []
online_some h = two-ne-nil (sym online_two ∙ h)
  where
    two-ne-nil : online (pos 0 ∷ pos 1 ∷ []) ≢ online []
    two-ne-nil e = cc

abbrev pub blank : ℕ → List BpfInsn
blank n = replicate n (insn 0 0 0 (pos 0) (pos 0))

abbrev pub grant : Grant
grant = record {
  sysfs = sysfs;
  entry_array = blank 35;
  return_array = blank 82;
  hash_map = 4;
  events_map = 5;
  entry_prog = 6;
  kprobe = 7;
  return_prog = 8;
  kretprobe = 9;
  reader = λ i. 100 + i;
  start_time = none;
  version = 266002;
  log_size = 65536;
  entry_logged = true;
  return_logged = false;
}

-- "0,2"
abbrev pub with_gap : Sysfs
with_gap = record sysfs {
  contents = some (online_text (one (one_digit 0)) (one (one_digit 2) ∷ no_ranges));
}

pub online_gap : (get_online_cpus with_gap).outcome ≡ online (pos 0 ∷ pos 2 ∷ [])
unfolding value_from
online_gap =
    ap (λ r. r.outcome)
      (get_online_cpus-appended with_gap (one (one_digit 0)) (one (one_digit 2) ∷ no_ranges)
        (record {
          opened = refl;
          contents = refl;
          short = omega arith;
          closes = refl;
          allocates = refl;
        })
        ((omega arith, tt), omega arith) (((omega arith, tt), omega arith), tt))

abbrev pub gap_grant : Grant
gap_grant = record grant { sysfs = with_gap }
