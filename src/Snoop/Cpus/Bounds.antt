-- ===== src/Snoop/Cpus/Bounds.antt =====
-- What `getOnlineCpus` returns on any text at all: the array of 16 elements is never overrun.
use rust_ebpf_demo.Prelude.{
  ℕ, ◌+◌, ◌^◌, ◌<◌, ◌≤◌, ◌≡◌, refl, sym, ap, ◌∙◌, inl, inr, Bool, true, false, not, Option, none,
  some, List, [], ◌∷◌, arith, Bool-cases, leb, leb→le, ◌==◌, if◌then◌else◌, Every, append-Every,
  tabulate_from-Every, length, length-append, length-tabulate_from, tabulate,
}
use rust_ebpf_demo.Prelude.Int.{ℤ, pos, negsuc, pos_part, ltb_ℤ, ◌+ℤ◌, ◌-ℤ◌}
use rust_ebpf_demo.Clib.Words.{to_int, to_int-IsInt, IsInt}
use rust_ebpf_demo.Clib.Strtol.{Errno, no_error, einval, erange, Long, strtol}
use rust_ebpf_demo.Snoop.Cpus.{
  Sysfs, CpuOutcome, online, failed, undefined, capacity, bad_length, fits_int, num_cpus_to_add,
  append_cpus, to_range, range_end, from_start, add_range, continue, scan, after_read,
  get_online_cpus,
}
use rust_ebpf_demo.Snoop.Cpus.Ranges.{extra_space-neg}

-- The list of processors fits into the array, and each number is an `int`.
abbrev pub Fits : List ℤ → Type 0
Fits cpus = (length cpus ≤ capacity) × Every IsInt cpus

abbrev pub IsBounded : CpuOutcome → Type 0
IsBounded (online cpus) = Fits cpus
IsBounded (failed b) = Unit
IsBounded undefined = Unit

num_cpus_to_add-some :
    (start end n : ℤ)
    → num_cpus_to_add start end ≡ some n
    → (n ≡ end -ℤ start +ℤ pos 1) × (fits_int n ≡ true)
num_cpus_to_add-some start end n h = elim (Bool-cases (fits_int (end -ℤ start))) [
  | inr e ↦ absurd (no (rw e at h))
  | inl e ↦ elim (Bool-cases (fits_int (end -ℤ start +ℤ pos 1))) [
    | inr f ↦ absurd (no (rw (e, f) at h))
    | inl f ↦
        let same : end -ℤ start +ℤ pos 1 ≡ n = inj (rw (e, f) at h) in
        (sym same, ap fits_int (sym same) ∙ f)
  ]
]
  where
    no : none ≡ some n → ⊥
    no e = cc

    inj : {m : ℤ} → some m ≡ some n → m ≡ n
    inj e = cc

-- No number of a range lies outside `int`.
range_element-IsInt :
    (start end : ℤ) (j : ℕ)
    → IsInt start
    → IsInt end
    → j < pos_part (end -ℤ start +ℤ pos 1)
    → IsInt (start +ℤ pos j)
unfolding ◌-ℤ◌ ◌+ℤ◌
range_element-IsInt (pos a) (pos b) j ha hb h = ground arith
range_element-IsInt (pos a) (negsuc b) j ha hb h = ground arith
range_element-IsInt (negsuc a) (pos b) j ha hb h = ground arith
range_element-IsInt (negsuc a) (negsuc b) j ha hb h = ground arith

fits_pos : (m : ℕ) → fits_int (pos m) ≡ true → m < 2 ^ 31
fits_pos m h = ground arith

room :
    (len : ℕ) (n : ℤ)
    → len ≤ capacity
    → fits_int n ≡ true
    → ltb_ℤ (to_int (pos capacity -ℤ pos len -ℤ n)) (pos 0) ≡ false
    → len + pos_part n ≤ capacity
room len (pos m) h small enough =
    leb→le _ _ (
      not_false (leb (len + m) capacity)
        (sym (extra_space-neg len m h (fits_pos m small)) ∙ enough))
  where
    not_false : (b : Bool) → not b ≡ false → b ≡ true
    not_false true e = refl
    not_false false e = cc
room len (negsuc m) h small enough = omega arith

append_cpus-IsBounded :
    (start end : ℤ) (cpus : List ℤ)
    → IsInt start
    → IsInt end
    → Fits cpus
    → (n : Option ℤ) → num_cpus_to_add start end ≡ n
    → IsBounded (append_cpus start n cpus)
unfolding append_cpus
append_cpus-IsBounded start end cpus hs he fits none e = tt
append_cpus-IsBounded start end cpus hs he fits (some n) e =
    elim (Bool-cases (ltb_ℤ (to_int (pos capacity -ℤ pos (length cpus) -ℤ n)) (pos 0))) [
      | inl over ↦ rw over tt
      | inr enough ↦
          let f = λ (j : ℕ). start +ℤ pos j in
          let (same, small) = num_cpus_to_add-some start end n e in
          rw enough (
            omega (
              arith,
              length-append cpus (tabulate (pos_part n) f),
              length-tabulate_from 0 (pos_part n) f,
              room (length cpus) n fits.0 small enough,
            ),
            append-Every IsInt cpus (tabulate (pos_part n) f) fits.1 (
                tabulate_from-Every IsInt 0 (pos_part n) f (λ j lt.
                  range_element-IsInt start end j hs he (omega (arith, ap pos_part same)))),
          )
    ]

checked-IsBounded :
    (r : CpuOutcome)
    → IsBounded r
    → (e : Errno) → IsBounded (elim e [ no_error ↦ r | _ ↦ failed true ])
checked-IsBounded r h no_error = h
checked-IsBounded r h einval = tt
checked-IsBounded r h erange = tt

to_range-IsBounded :
    (start : ℤ) (end : Long) (cpus : List ℤ)
    → IsInt start
    → Fits cpus
    → IsBounded (to_range start end cpus)
unfolding to_range
to_range-IsBounded start end cpus hs fits =
    checked-IsBounded _
      (append_cpus-IsBounded start (to_int end.value) cpus hs (to_int-IsInt end.value) fits _ refl)
      end.errno

from_start-IsBounded :
    (start : Long) (hyphen : Option (List ℕ)) (cpus : List ℤ)
    → Fits cpus
    → IsBounded (from_start start hyphen cpus)
unfolding from_start
from_start-IsBounded start hyphen cpus fits =
    checked-IsBounded _
      (to_range-IsBounded (to_int start.value) (range_end start hyphen) cpus
        (to_int-IsInt start.value) fits)
      start.errno

continue-IsBounded :
    (r : CpuOutcome) (next : List ℤ → CpuOutcome)
    → IsBounded r
    → ((cpus : List ℤ) → Fits cpus → IsBounded (next cpus))
    → IsBounded (continue r next)
continue-IsBounded (online cpus) next h k = k cpus h
continue-IsBounded (failed b) next h k = tt
continue-IsBounded undefined next h k = tt

if-IsBounded :
    (b : Bool) (x y : CpuOutcome) → IsBounded x → IsBounded y → IsBounded (if b then x else y)
if-IsBounded true x y hx hy = hx
if-IsBounded false x y hx hy = hy

scan-IsBounded :
    (field : List ℕ) (hyphen : Option (List ℕ)) (cpus : List ℤ) (rest : List ℕ)
    → Fits cpus
    → IsBounded (scan field hyphen cpus rest)
unfolding scan add_range
scan-IsBounded field hyphen cpus [] fits = from_start-IsBounded (strtol field) hyphen cpus fits
scan-IsBounded field hyphen cpus (c ∷ rest) fits =
    if-IsBounded (c == b',') _ _
      (continue-IsBounded (add_range field hyphen cpus) _
        (from_start-IsBounded (strtol field) hyphen cpus fits)
        (λ cpus' fits'. scan-IsBounded rest none cpus' rest fits'))
      (if-IsBounded (c == b'-') _ _ (scan-IsBounded field (some rest) cpus rest fits)
        (scan-IsBounded field hyphen cpus rest fits))

after_read-IsBounded :
    (sys : Sysfs) (contents : Option (List ℕ)) → IsBounded (after_read sys contents)
unfolding after_read
after_read-IsBounded sys none = tt
after_read-IsBounded sys (some buf) =
    if-IsBounded sys.allocated _ _ (scan-IsBounded buf none [] buf (omega arith, tt)) tt

-- Whatever the system answers and whatever stands in the file, when the function returns 0 it has
-- stored at most 16 numbers into the array of 16, and each of them is an `int`.
pub get_online_cpus-IsBounded : (sys : Sysfs) → IsBounded (get_online_cpus sys).outcome
unfolding get_online_cpus
get_online_cpus-IsBounded sys = elim (Bool-cases (ltb_ℤ sys.fd (pos 0))) [
  | inl e ↦ rw e tt
  | inr e ↦ elim (Bool-cases (bad_length sys.contents)) [
    | inl f ↦ rw (e, f) tt
    | inr f ↦ elim (Bool-cases (ltb_ℤ sys.closed (pos 0))) [
      | inl g ↦ rw (e, f, g) tt
      | inr g ↦ rw (e, f, g) (after_read-IsBounded sys sys.contents)
    ]
  ]
]
