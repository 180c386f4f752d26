-- ===== src/Snoop/Cpus/Ranges.antt =====
-- One range of the list of processors: its text, and what the scan makes of it.
use mathlib.Core.Path.{fun_ext, ap₂}
use rust_ebpf_demo.Prelude.{
  ℕ, zero, suc, ◌+◌, ◌-◌, ◌^◌, ◌<◌, ◌≤◌, ◌≡◌, refl, ap, ◌∙◌, true, false, Option, none, some, List,
  [], ◌∷◌, ◌++◌, arith, inl, inr, Bool-cases, ltb, ltb→lt, leb, not, ◌==◌, if◌then◌else◌, length,
  tabulate, tabulate_from, if-not,
}
use rust_ebpf_demo.Prelude.Int.{ℤ, pos, ◌+ℤ◌, ◌-ℤ◌, ltb_ℤ}
use rust_ebpf_demo.Clib.Words.{to_int, to_int_id}
use rust_ebpf_demo.Clib.Strtol.{no_error, strtol, IsDigits, numeral, value, Ends, strtol-numeral}
use rust_ebpf_demo.Snoop.Cpus.{
  CpuOutcome, online, undefined, capacity, num_cpus_to_add, append_cpus, to_range, from_start,
  add_range, scan,
}

-- A numeral, by its first digit and the others.
pub record Num : Type 0 where
  pub first : ℕ
  pub others : List ℕ

abbrev pub digits : Num → List ℕ
digits n = n.first ∷ n.others

abbrev pub number : Num → ℕ
number n = value (digits n)

abbrev pub IsNum : Num → Type 0
IsNum n = IsDigits (digits n) × (number n < 2 ^ 31)

-- "a" or "a-b"
pub data Range : Type 0 where
  one : Num → Range
  span : Num → Num → Range

abbrev pub IsRange : Range → Type 0
IsRange (one a) = IsNum a
IsRange (span a b) = IsNum a × IsNum b × (number a ≤ number b)

abbrev pub text : Range → List ℕ → List ℕ
text (one a) rest = numeral (digits a) ++ rest
text (span a b) rest = numeral (digits a) ++ b'-' ∷ (numeral (digits b) ++ rest)

abbrev pub count : Range → ℕ
count (one a) = 1
count (span a b) = number b + 1 - number a

abbrev pub first_cpu : Range → ℕ
first_cpu (one a) = number a
first_cpu (span a b) = number a

-- The processors of a range, in order.
abbrev pub expand : Range → List ℤ
expand r = tabulate (count r) (λ j. pos (first_cpu r + j))

tabulate_from_congr {ℓ} :
    {A : Type ℓ} (i n : ℕ) (f g : ℕ → A)
    → ((j : ℕ) → f j ≡ g j)
    → tabulate_from i n f ≡ tabulate_from i n g
tabulate_from_congr i zero f g h = refl
tabulate_from_congr i (suc n) f g h = rw (h i, tabulate_from_congr (suc i) n f g h)

-- The outcome of adding `n` processors from `a` on.
abbrev pub extended : ℕ → ℕ → List ℤ → CpuOutcome
extended a n cpus =
    if leb (length cpus + n) capacity
    then online (cpus ++ tabulate n (λ j. pos (a + j)))
    else undefined

pos-pos : (a b : ℕ) → a ≤ b → pos b -ℤ pos a ≡ pos (b - a)
unfolding ◌-ℤ◌
pos-pos a b h = ground arith

pos+pos : (a b : ℕ) → pos a +ℤ pos b ≡ pos (a + b)
unfolding ◌+ℤ◌
pos+pos a b = ground arith

-- The number of processors in a range, if it is an `int`.
num_cpus_to_add-pos :
    (a b : ℕ)
    → a ≤ b
    → b < 2 ^ 31
    → num_cpus_to_add (pos a) (pos b)
      ≡ (if ltb (b + 1 - a) (2 ^ 31) then some (pos (b + 1 - a)) else none)
num_cpus_to_add-pos a b le h = rw (pos-pos a b le, pos+pos (b - a) 1) (ground arith)

pub extra_space-neg :
    (len n : ℕ)
    → len ≤ capacity
    → n < 2 ^ 31
    → ltb_ℤ (to_int (pos capacity -ℤ pos len -ℤ pos n)) (pos 0) ≡ not (leb (len + n) capacity)
unfolding ◌-ℤ◌
extra_space-neg len n h k = ground arith

append_cpus-pos :
    (a b : ℕ) (cpus : List ℤ)
    → a ≤ b
    → b < 2 ^ 31
    → length cpus ≤ capacity
    → append_cpus (pos a) (num_cpus_to_add (pos a) (pos b)) cpus ≡ extended a (b + 1 - a) cpus
unfolding append_cpus
append_cpus-pos a b cpus le hb hc = elim (Bool-cases (ltb (b + 1 - a) (2 ^ 31))) [
  | inl small ↦
      rw
        (
          num_cpus_to_add-pos a b le hb,
          small,
          extra_space-neg (length cpus) (b + 1 - a) hc (ltb→lt _ _ small),
        )
        (rw (fun_ext (pos+pos a)) (if-not (leb (length cpus + (b + 1 - a)) capacity) _ _))
  | inr large ↦ rw (num_cpus_to_add-pos a b le hb, large) (ground arith)
]

strtol-num :
    (a : Num) (rest : List ℕ)
    → IsNum a
    → Ends rest
    → strtol (numeral (digits a) ++ rest) ≡ record { value = pos (number a); errno = no_error }
strtol-num a rest h e =
    let small : ltb (number a) (2 ^ 63) ≡ true = ground arith in
    strtol-numeral a.first a.others rest h.0 e ∙ rw small

abbrev pub hyphen_of : Range → List ℕ → Option (List ℕ)
hyphen_of (one a) rest = none
hyphen_of (span a b) rest = some (numeral (digits b) ++ rest)

pub add_range-text :
    (r : Range) (rest : List ℕ) (cpus : List ℤ)
    → IsRange r
    → Ends rest
    → length cpus ≤ capacity
    → add_range (text r rest) (hyphen_of r rest) cpus ≡ extended (first_cpu r) (count r) cpus
unfolding add_range
add_range-text (one a) rest cpus h e hc =
    let same : number a + 1 - number a ≡ 1 = omega arith in
    ap (λ s. from_start s none cpus) (strtol-num a rest h e)
    ∙ (ap (λ z. append_cpus z (num_cpus_to_add z z) cpus) (to_int_id (pos (number a)) h.1)
        ∙ (rw same at (append_cpus-pos (number a) (number a) cpus (omega arith) h.1 hc)))
add_range-text (span a b) rest cpus h e hc =
    ap (λ s. from_start s (some (numeral (digits b) ++ rest)) cpus)
      (strtol-num a (b'-' ∷ (numeral (digits b) ++ rest)) h.0 refl)
    ∙ (ap (λ s. to_range (to_int (pos (number a))) s cpus) (strtol-num b rest h.1 e)
        ∙ (ap₂ (λ x y. append_cpus x (num_cpus_to_add x y) cpus) (to_int_id (pos (number a)) h.0.1)
              (to_int_id (pos (number b)) h.1.1)
            ∙ append_cpus-pos (number a) (number b) cpus h.2 h.1.1 hc))

scan-numeral :
    (ds : List ℕ) (field : List ℕ) (hyphen : Option (List ℕ)) (cpus : List ℤ) (rest : List ℕ)
    → IsDigits ds
    → scan field hyphen cpus (numeral ds ++ rest) ≡ scan field hyphen cpus rest
unfolding scan
scan-numeral [] field hyphen cpus rest h = refl
scan-numeral (d ∷ ds) field hyphen cpus rest h =
    let a : (b'0' + d == b',') ≡ false = ground arith in
    let b : (b'0' + d == b'-') ≡ false = ground arith in
    rw (a, b) (scan-numeral ds field hyphen cpus rest h.1)

pub scan-text :
    (r : Range) (field : List ℕ) (cpus : List ℤ) (rest : List ℕ)
    → IsRange r
    → scan field none cpus (text r rest) ≡ scan field (hyphen_of r rest) cpus rest
unfolding scan
scan-text (one a) field cpus rest h = scan-numeral (digits a) field none cpus rest h.0
scan-text (span a b) field cpus rest h =
    scan-numeral (digits a) field none cpus (b'-' ∷ (numeral (digits b) ++ rest)) h.0.0
    ∙ scan-numeral (digits b) field (some (numeral (digits b) ++ rest)) cpus rest h.1.0
