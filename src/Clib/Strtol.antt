-- ===== src/Clib/Strtol.antt =====
-- `strtol(text, NULL, 10)`, as ISO C and POSIX describe it: blanks, an optional sign, digits. A value
-- outside `long` gives the nearest `long` and ERANGE; a text with no digits gives 0 and no error.
use rust_ebpf_demo.Prelude.{
  ℕ, zero, suc, replicate, ◌+◌, ◌-◌, ◌*◌, ◌^◌, ◌<◌, ◌≡◌, refl, ap, Bool, false, ◌&&◌, ◌||◌, List,
  [], ◌∷◌, ◌++◌, map, arith, ltb, leb, ◌==◌, if◌then◌else◌,
}
use rust_ebpf_demo.Prelude.Int.{ℤ, pos, neg}

pub data Errno : Type 0 where
  no_error einval erange : Errno

pub record Long : Type 0 where
  pub value : ℤ
  pub errno : Errno

abbrev pub is_space : ℕ → Bool
is_space c = c == 32 || (leb 9 c && leb c 13)

abbrev pub is_digit : ℕ → Bool
is_digit c = leb b'0' c && leb c b'9'

-- The number of the digits at the start of a text, behind those that stand for `acc`.
pub read_digits : ℕ → List ℕ → ℕ
read_digits acc [] = acc
read_digits acc (c ∷ cs) = if is_digit c then read_digits (10 * acc + (c - b'0')) cs else acc

abbrev pub clamp_pos : ℕ → Long
clamp_pos n =
    if ltb n (2 ^ 63)
    then record { value = pos n; errno = no_error }
    else record { value = pos (2 ^ 63 - 1); errno = erange }

abbrev pub clamp_neg : ℕ → Long
clamp_neg n =
    if leb n (2 ^ 63)
    then record { value = neg n; errno = no_error }
    else record { value = neg (2 ^ 63); errno = erange }

unsigned_part : List ℕ → Long
unfolding read_digits
unsigned_part [] = clamp_pos 0
unsigned_part (c ∷ cs) =
    if c == b'-'
    then clamp_neg (read_digits 0 cs)
    else if c == b'+'
    then clamp_pos (read_digits 0 cs)
    else clamp_pos (read_digits 0 (c ∷ cs))

unfoldable pub strtol : List ℕ → Long
unfolding unsigned_part
strtol [] = clamp_pos 0
strtol (c ∷ cs) = if is_space c then strtol cs else unsigned_part (c ∷ cs)

-- Decimal numerals: their digits, the first one first.
abbrev pub IsDigits : List ℕ → Type 0
IsDigits [] = Unit
IsDigits (d ∷ ds) = (d < 10) × IsDigits ds

abbrev pub numeral : List ℕ → List ℕ
numeral ds = map (λ d. b'0' + d) ds

-- The number that digits stand for, behind those that stand for `acc`.
unfoldable pub value_from : ℕ → List ℕ → ℕ
value_from acc [] = acc
value_from acc (d ∷ ds) = value_from (10 * acc + d) ds

abbrev pub value : List ℕ → ℕ
value ds = value_from 0 ds

-- What follows a numeral does not go on with a digit.
abbrev pub Ends : List ℕ → Type 0
Ends [] = Unit
Ends (c ∷ cs) = is_digit c ≡ false

read_digits-numeral :
    (acc : ℕ) (ds rest : List ℕ)
    → IsDigits ds
    → Ends rest
    → read_digits acc (numeral ds ++ rest) ≡ value_from acc ds
unfolding read_digits value_from
read_digits-numeral acc [] [] h e = refl
read_digits-numeral acc [] (c ∷ cs) h e = ground arith
read_digits-numeral acc (d ∷ ds) rest h e =
    ground (arith, read_digits-numeral (10 * acc + d) ds rest h.1 e)

digit_first :
    (d : ℕ)
    → d < 10
    → (is_space (b'0' + d) ≡ false) × ((b'0' + d == b'-') ≡ false) × ((b'0' + d == b'+') ≡ false)
digit_first d h = (ground arith, ground arith, ground arith)

-- `strtol` reads a numeral, whatever follows it.
pub strtol-numeral :
    (d : ℕ) (ds rest : List ℕ)
    → IsDigits (d ∷ ds)
    → Ends rest
    → strtol (numeral (d ∷ ds) ++ rest) ≡ clamp_pos (value (d ∷ ds))
unfolding strtol
strtol-numeral d ds rest h e =
    let (a, b, c) = digit_first d h.0 in
    rw (a, b, c) (ap clamp_pos (read_digits-numeral 0 (d ∷ ds) rest h e))

-- Blanks in front are skipped.
pub strtol_blanks : (n : ℕ) (text : List ℕ) → strtol (replicate n b' ' ++ text) ≡ strtol text
unfolding strtol
strtol_blanks zero text = refl
strtol_blanks (suc n) text = strtol_blanks n text

-- A numeral behind a minus sign.
pub strtol_minus :
    (ds rest : List ℕ)
    → IsDigits ds
    → Ends rest
    → strtol (b'-' ∷ numeral ds ++ rest) ≡ clamp_neg (value ds)
unfolding strtol unsigned_part
strtol_minus ds rest h e = ap clamp_neg (read_digits-numeral 0 ds rest h e)
