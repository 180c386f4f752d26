-- ===== src/Clib/Decimal.antt =====
-- What `%d` prints of a number.
use rust_ebpf_demo.Prelude.{
  ℕ, sym, map, ◌-◌, zero, suc, ◌+◌, ◌/◌, ◌%◌, ◌^◌, ◌≤◌, ◌<◌, ◌≡◌, refl, ap, ◌∙◌, List, [], ◌∷◌,
  length, ltb, if◌then◌else◌, inl, inr, Bool-cases, arith,
}
use rust_ebpf_demo.Clib.Strtol.{numeral, value, value_from, IsDigits}

-- The digits of a number in front of `rest`; the fuel bounds how many there are.
unfoldable pub digits : ℕ → ℕ → List ℕ → List ℕ
digits zero n rest = rest
digits (suc fuel) n rest =
    let more = digits fuel (n / 10) ((n % 10) ∷ rest) in if ltb n 10 then n ∷ rest else more

-- An `int` has at most ten digits.
unfoldable pub decimal : ℕ → List ℕ
unfolding digits
decimal n = numeral (digits 10 n [])

pub value_from-digits :
    (fuel n : ℕ) (rest : List ℕ)
    → n < 10 ^ fuel
    → value_from 0 (digits fuel n rest) ≡ value_from n rest
unfolding digits value_from
value_from-digits zero n rest small = ap (λ m. value_from m rest) (omega arith)
value_from-digits (suc fuel) n rest small = elim (Bool-cases (ltb n 10)) [
  | inl e ↦ rw e (ap (λ m. value_from m rest) (omega arith))
  | inr e ↦
      let less : n / 10 < 10 ^ fuel = omega arith in
      rw e (
        value_from-digits fuel (n / 10) ((n % 10) ∷ rest) less
        ∙ ap (λ m. value_from m rest) (omega arith))
]

length-digits : (fuel n : ℕ) (rest : List ℕ) → length (digits fuel n rest) ≤ fuel + length rest
unfolding digits
length-digits zero n rest = omega arith
length-digits (suc fuel) n rest = ground (arith, length-digits fuel (n / 10) ((n % 10) ∷ rest))

pub length-numeral : (ds : List ℕ) → length (numeral ds) ≡ length ds
length-numeral [] = refl
length-numeral (d ∷ ds) = ap suc (length-numeral ds)

-- What is printed has at most ten bytes.
pub length-decimal : (n : ℕ) → length (decimal n) ≤ 10
unfolding decimal
length-decimal n = omega (arith, length-numeral (digits 10 n []), length-digits 10 n [])

pub digits-IsDigits : (fuel n : ℕ) (rest : List ℕ) → IsDigits rest → IsDigits (digits fuel n rest)
unfolding digits
digits-IsDigits zero n rest h = h
digits-IsDigits (suc fuel) n rest h = elim (Bool-cases (ltb n 10)) [
  | inl e ↦ rw e (ground arith, h)
  | inr e ↦ rw e (digits-IsDigits fuel (n / 10) ((n % 10) ∷ rest) (omega arith, h))
]

undo_numeral : (ds : List ℕ) → map (λ c. c - b'0') (numeral ds) ≡ ds
undo_numeral [] = refl
undo_numeral (d ∷ ds) =
    let first : b'0' + d - b'0' ≡ d = omega arith in
    let rest = undo_numeral ds in λ i. first i ∷ rest i

numeral_injective : (ds es : List ℕ) → numeral ds ≡ numeral es → ds ≡ es
numeral_injective ds es e = sym (undo_numeral ds) ∙ (ap (map (λ c. c - b'0')) e ∙ undo_numeral es)

-- Two numbers that are printed alike are the same.
pub decimal_injective : (m n : ℕ) → m < 10 ^ 10 → n < 10 ^ 10 → decimal m ≡ decimal n → m ≡ n
unfolding decimal value_from
decimal_injective m n small small' e =
    sym (value_from-digits 10 m [] small)
    ∙ (ap value (numeral_injective _ _ e) ∙ value_from-digits 10 n [] small')
