-- ===== src/Generator/Read.antt =====
-- How numbers and the pieces between them are read in a C text.
use mathlib.Core.List.{append-nil}
use rust_ebpf_demo.Prelude.{
  ℕ, ◌+◌, ◌-◌, ◌*◌, ◌/◌, ◌%◌, ◌^◌, ◌<◌, ◌≡◌, refl, sym, ap, ◌∙◌, Bool, true, false, ◌||◌, Option,
  none, some, List, [], ◌∷◌, ◌++◌, Every, Bool-cases, inl, inr, length, ltb, ◌==◌, if◌then◌else◌,
  arith,
}
use rust_ebpf_demo.Prelude.Int.{ℤ, pos, negsuc, pos_part}
use rust_ebpf_demo.Clib.Strtol.{is_digit, strtol, numeral, IsDigits}
use rust_ebpf_demo.Clib.Decimal.{decimal, digits, digits-IsDigits}
use rust_ebpf_demo.Clib.Printf.{decimal_ℤ, IsShort, strtol-decimal_ℤ, length-digits_some}
use rust_ebpf_demo.Generator.Text.{hex_digit, hex}

-- The text behind these bytes.
abbrev pub expect : List ℕ → List ℕ → Option (List ℕ)
expect [] text = some text
expect (p ∷ ps) [] = none
expect (p ∷ ps) (c ∷ cs) = let more = expect ps cs in if c == p then more else none

-- The bytes in front of the first `stop`, and the text from there on.
abbrev pub until : ℕ → List ℕ → List ℕ × List ℕ
until stop [] = ([], [])
until stop (c ∷ cs) =
    let (front, rest) = until stop cs in if c == stop then ([], c ∷ cs) else (c ∷ front, rest)

-- The text behind the spaces.
abbrev pub skip : List ℕ → List ℕ
skip [] = []
skip (c ∷ cs) = let more = skip cs in if c == b' ' then more else c ∷ cs

abbrev pub Lacks : ℕ → List ℕ → Type 0
Lacks stop text = Every (λ c. (c == stop) ≡ false) text

pub until_append :
    (stop : ℕ) (value rest : List ℕ)
    → Lacks stop value
    → until stop (value ++ stop ∷ rest) ≡ (value, stop ∷ rest)
until_append stop [] rest h = let same : (stop == stop) ≡ true = ground arith in rw same refl
until_append stop (c ∷ value) rest (other, h) =
    rw other (ap (λ r. (c ∷ r.0, r.1)) (until_append stop value rest h))

-- Each byte of a number is a digit or a minus sign, so that no other byte ends it early.
numeral-Lacks :
    (stop : ℕ) (ds : List ℕ) → is_digit stop ≡ false → IsDigits ds → Lacks stop (numeral ds)
numeral-Lacks stop [] h digit = tt
numeral-Lacks stop (d ∷ ds) h (digit, more) =
    let other : (b'0' + d == stop) ≡ false = ground arith in (other, numeral-Lacks stop ds h more)

pub decimal-Lacks : (stop n : ℕ) → is_digit stop ≡ false → Lacks stop (decimal n)
unfolding decimal
decimal-Lacks stop n h = numeral-Lacks stop (digits 10 n []) h (digits-IsDigits 10 n [] tt)

pub decimal_ℤ-Lacks :
    (stop : ℕ) (z : ℤ) → is_digit stop ≡ false → (b'-' == stop) ≡ false → Lacks stop (decimal_ℤ z)
unfolding decimal
decimal_ℤ-Lacks stop (pos n) h other = decimal-Lacks stop n h
decimal_ℤ-Lacks stop (negsuc n) h other = (other, decimal-Lacks stop (n + 1) h)

hex_digit-comma : (d : ℕ) → d < 16 → (hex_digit d == b',') ≡ false
hex_digit-comma d small = ground arith

pub hex-Lacks : (n : ℕ) → n < 256 → Lacks b',' (hex n)
hex-Lacks n small = elim (Bool-cases (ltb n 16)) [
  | inl e ↦ rw e (hex_digit-comma n (ground arith), tt)
  | inr e ↦
      rw e (hex_digit-comma (n / 16) (omega arith), (hex_digit-comma (n % 16) (omega arith), tt))
]

-- A number of one or two hexadecimal digits.
abbrev unhex_digit : ℕ → ℕ
unhex_digit c = if is_digit c then c - b'0' else c + 10 - b'a'

abbrev pub unhex : List ℕ → ℕ
unhex [] = 0
unhex (c ∷ []) = unhex_digit c
unhex (c ∷ d ∷ cs) = 16 * unhex_digit c + unhex_digit d

unhex_digit-hex_digit : (d : ℕ) → d < 16 → unhex_digit (hex_digit d) ≡ d
unhex_digit-hex_digit d small = ground arith

pub unhex-hex : (n : ℕ) → n < 256 → unhex (hex n) ≡ n
unhex-hex n small = elim (Bool-cases (ltb n 16)) [
  | inl e ↦ rw e (unhex_digit-hex_digit n (ground arith))
  | inr e ↦
      let high = unhex_digit-hex_digit (n / 16) (omega arith) in
      let low = unhex_digit-hex_digit (n % 16) (omega arith) in rw (e, high, low) (omega arith)
]

abbrev pub read_ℤ : List ℕ → ℤ
read_ℤ text = (strtol text).value

pub read_ℤ-decimal_ℤ : (z : ℤ) → IsShort z → read_ℤ (decimal_ℤ z) ≡ z
read_ℤ-decimal_ℤ z h = ap read_ℤ (sym (append-nil (decimal_ℤ z))) ∙ strtol-decimal_ℤ z [] h tt

abbrev pub read_ℕ : List ℕ → ℕ
read_ℕ text = pos_part (read_ℤ text)

pub read_ℕ-decimal : (n : ℕ) → n < 10 ^ 10 → read_ℕ (decimal n) ≡ n
unfolding decimal
read_ℕ-decimal n h = ap pos_part (read_ℤ-decimal_ℤ (pos n) h)

abbrev pub starts_number : List ℕ → Bool
starts_number [] = false
starts_number (c ∷ cs) = is_digit c || c == b'-'

starts_number-numeral :
    (ds : List ℕ) → IsDigits ds → 0 < length ds → starts_number (numeral ds) ≡ true
starts_number-numeral [] digit some_digit = absurd (omega (arith, some_digit))
starts_number-numeral (d ∷ ds) (digit, more) some_digit = ground arith

pub starts_number-decimal_ℤ : (z : ℤ) → starts_number (decimal_ℤ z) ≡ true
unfolding decimal
starts_number-decimal_ℤ (pos n) =
    starts_number-numeral (digits 10 n []) (digits-IsDigits 10 n [] tt)
      (omega (arith, length-digits_some 9 n []))
starts_number-decimal_ℤ (negsuc n) = refl
