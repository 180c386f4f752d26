-- ===== src/Clib/Printf.antt =====
-- `%d` of an `int`, and the widths of a conversion of `printf`.
use mathlib.Core.List.{append_assoc}
use mathlib.Core.Path.{subst}
use rust_ebpf_demo.Prelude.{
  ℕ, zero, suc, ◌+◌, ◌-◌, ◌/◌, ◌%◌, ◌^◌, ◌≤◌, ◌<◌, ◌≡◌, refl, ap, ◌∙◌, List, [], ◌∷◌, ◌++◌, length,
  length-append, replicate, length-replicate, ltb, leb, true, inl, inr, Bool-cases, arith,
}
use rust_ebpf_demo.Prelude.Int.{ℤ, pos, negsuc}
use rust_ebpf_demo.Clib.Strtol.{
  numeral, value, value_from, IsDigits, Ends, strtol, strtol-numeral, strtol_blanks, strtol_minus,
  clamp_pos, clamp_neg,
}
use rust_ebpf_demo.Clib.Decimal.{
  digits, decimal, value_from-digits, digits-IsDigits, length-numeral,
}

abbrev pub decimal_ℤ : ℤ → List ℕ
unfolding decimal
decimal_ℤ (pos n) = decimal n
decimal_ℤ (negsuc n) = b'-' ∷ decimal (n + 1)

-- `%-8s` and `%8s`: blanks behind a text or in front of it, up to a width.
abbrev pub pad_right : ℕ → List ℕ → List ℕ
pad_right width text = text ++ replicate (width - length text) b' '

abbrev pub pad_left : ℕ → List ℕ → List ℕ
pad_left width text = replicate (width - length text) b' ' ++ text

pub length-pad_right :
    (width : ℕ) (text : List ℕ) → length text ≤ width → length (pad_right width text) ≡ width
length-pad_right width text fits = omega (
  arith,
  length-append text (replicate (width - length text) b' '),
  length-replicate {A = ℕ} (width - length text) b' ',
)

pub length-pad_left :
    (width : ℕ) (text : List ℕ) → length text ≤ width → length (pad_left width text) ≡ width
length-pad_left width text fits = omega (
  arith,
  length-append (replicate (width - length text) b' ') text,
  length-replicate {A = ℕ} (width - length text) b' ',
)

-- A number below a power of ten has as many digits.
length-digits_below :
    (fuel w n : ℕ) (rest : List ℕ)
    → n < 10 ^ suc w
    → length (digits fuel n rest) ≤ suc w + length rest
unfolding digits
length-digits_below zero w n rest small = omega arith
length-digits_below (suc fuel) zero n rest small =
    let e : ltb n 10 ≡ true = ground arith in rw e (omega arith)
length-digits_below (suc fuel) (suc w) n rest small = elim (Bool-cases (ltb n 10)) [
  | inl e ↦ rw e (omega arith)
  | inr e ↦
      let less : n / 10 < 10 ^ suc w = omega arith in
      rw e (omega (arith, length-digits_below fuel w (n / 10) ((n % 10) ∷ rest) less))
]

length-digits_more : (fuel n : ℕ) (rest : List ℕ) → length rest ≤ length (digits fuel n rest)
unfolding digits
length-digits_more zero n rest = omega arith
length-digits_more (suc fuel) n rest =
    ground (arith, length-digits_more fuel (n / 10) ((n % 10) ∷ rest))

pub length-digits_some :
    (fuel n : ℕ) (rest : List ℕ) → length rest < length (digits (suc fuel) n rest)
unfolding digits
length-digits_some fuel n rest = ground (arith, length-digits_more fuel (n / 10) ((n % 10) ∷ rest))

-- A text of digits is read back.
strtol-digits :
    (ds rest : List ℕ)
    → IsDigits ds
    → 0 < length ds
    → Ends rest
    → strtol (numeral ds ++ rest) ≡ clamp_pos (value ds)
strtol-digits [] rest h some_digit e = absurd (omega (arith, some_digit))
strtol-digits (d ∷ ds) rest h some_digit e = strtol-numeral d ds rest h e

-- `%d` takes at most this many columns.
abbrev pub FitsIn : ℕ → ℤ → Type 0
FitsIn width (pos n) = n < 10 ^ width
FitsIn width (negsuc n) = n + 1 < 10 ^ (width - 1)

pub length-decimal_ℤ :
    (width : ℕ) (z : ℤ) → 0 < width → FitsIn width z → length (decimal_ℤ z) ≤ width
unfolding decimal
length-decimal_ℤ zero z some_width small = absurd (omega (arith, some_width))
length-decimal_ℤ (suc w) (pos n) some_width small =
    omega (arith, length-numeral (digits 10 n []), length-digits_below 10 w n [] small)
length-decimal_ℤ (suc zero) (negsuc n) some_width small = absurd (omega (arith, small))
length-decimal_ℤ (suc (suc w)) (negsuc n) some_width small =
    let less : suc (suc w) - 1 ≡ suc w = omega arith in
    let below : n + 1 < 10 ^ suc w = subst (λ k. n + 1 < 10 ^ k) less small in
    omega (arith, length-numeral (digits 10 (n + 1) []), length-digits_below 10 w (n + 1) [] below)

-- A number of at most ten digits, as an `int` is.
abbrev pub IsShort : ℤ → Type 0
IsShort (pos n) = n < 10 ^ 10
IsShort (negsuc n) = n + 1 < 10 ^ 10

-- The value of an `int` is read back from its text, behind any blanks, if what follows does not go on
-- with a digit.
pub strtol-decimal_ℤ :
    (z : ℤ) (rest : List ℕ) → IsShort z → Ends rest → (strtol (decimal_ℤ z ++ rest)).value ≡ z
unfolding decimal value_from
strtol-decimal_ℤ (pos n) rest small e =
    let ds = digits 10 n [] in
    let read =
      strtol-digits ds rest (digits-IsDigits 10 n [] tt) (omega (arith, length-digits_some 9 n []))
        e in
    let inside : ltb n (2 ^ 63) ≡ true = ground arith in
    ap (λ l. l.value) (read ∙ ap clamp_pos (value_from-digits 10 n [] (omega arith)))
    ∙ rw inside refl
strtol-decimal_ℤ (negsuc n) rest small e =
    let ds = digits 10 (n + 1) [] in
    let read = strtol_minus ds rest (digits-IsDigits 10 (n + 1) [] tt) e in
    let next : n + 1 ≡ suc n = omega arith in
    let inside : leb (n + 1) (2 ^ 63) ≡ true = ground arith in
    ap (λ l. l.value) (read ∙ ap clamp_neg (value_from-digits 10 (n + 1) [] (omega arith)))
    ∙ rw (inside, next) refl

pub strtol-pad_left :
    (width : ℕ) (z : ℤ) (rest : List ℕ)
    → IsShort z
    → Ends rest
    → (strtol (pad_left width (decimal_ℤ z) ++ rest)).value ≡ z
strtol-pad_left width z rest small e =
    let blanks = width - length (decimal_ℤ z) in
    ap (λ t. (strtol t).value) (append_assoc (replicate blanks b' ') (decimal_ℤ z) rest)
    ∙ (ap (λ l. l.value) (strtol_blanks blanks (decimal_ℤ z ++ rest))
        ∙ strtol-decimal_ℤ z rest small e)
