-- ===== src/Clib/Prefixed.antt =====
-- `strtol(text, NULL, 0)`: the base is 16 behind `0x`, 8 behind `0`, and 10 else.
use rust_ebpf_demo.Prelude.{
  ℕ, ◌+◌, ◌-◌, ◌*◌, ◌<◌, ◌≡◌, refl, ap, Bool, true, false, ◌&&◌, ◌||◌, List, [], ◌∷◌, ◌++◌, ◌==◌,
  ltb, leb, if◌then◌else◌, arith,
}
use rust_ebpf_demo.Clib.Strtol.{
  Long, is_space, is_digit, clamp_pos, clamp_neg, numeral, value, value_from, IsDigits, Ends,
}

-- The value of a digit or a letter; 36 stands for what is neither.
abbrev pub digit_value : ℕ → ℕ
digit_value c =
    if is_digit c
    then c - b'0'
    else if leb b'a' c && leb c b'z'
    then c - b'a' + 10
    else if leb b'A' c && leb c b'Z'
    then c - b'A' + 10
    else 36

-- The number of the digits in a base at the start of a text, behind those that stand for `acc`.
pub read_in : ℕ → ℕ → List ℕ → ℕ
read_in base acc [] = acc
read_in base acc (c ∷ cs) =
    let more = read_in base (base * acc + digit_value c) cs in
    if ltb (digit_value c) base then more else acc

abbrev starts_hex : List ℕ → Bool
starts_hex [] = false
starts_hex (c ∷ cs) = ltb (digit_value c) 16

-- Behind a `0`.
behind_zero : List ℕ → ℕ
unfolding read_in
behind_zero [] = 0
behind_zero (c ∷ cs) =
    if (c == b'x' || c == b'X') && starts_hex cs then read_in 16 0 cs else read_in 8 0 (c ∷ cs)

magnitude : List ℕ → ℕ
unfolding behind_zero
magnitude [] = 0
magnitude (c ∷ cs) = if c == b'0' then behind_zero cs else read_in 10 0 (c ∷ cs)

signed_part : List ℕ → Long
unfolding magnitude
signed_part [] = clamp_pos 0
signed_part (c ∷ cs) =
    if c == b'-'
    then clamp_neg (magnitude cs)
    else if c == b'+'
    then clamp_pos (magnitude cs)
    else clamp_pos (magnitude (c ∷ cs))

unfoldable pub strtol_any : List ℕ → Long
unfolding signed_part
strtol_any [] = clamp_pos 0
strtol_any (c ∷ cs) = if is_space c then strtol_any cs else signed_part (c ∷ cs)

read_in-numeral :
    (acc : ℕ) (ds rest : List ℕ)
    → IsDigits ds
    → Ends rest
    → read_in 10 acc (numeral ds ++ rest) ≡ value_from acc ds
unfolding read_in value_from
read_in-numeral acc [] [] h e = refl
read_in-numeral acc [] (c ∷ cs) h e =
    let big : ltb (digit_value c) 10 ≡ false = rw e (ground arith) in rw big refl
read_in-numeral acc (d ∷ ds) rest h e =
    let small : d < 10 = h.0 in
    let digit : digit_value (b'0' + d) ≡ d = ground arith in
    let low : ltb d 10 ≡ true = ground arith in
    rw (digit, low) (read_in-numeral (10 * acc + d) ds rest h.1 e)

-- A numeral that does not begin with a zero is read as it is meant, whatever follows it.
pub strtol_any-numeral :
    (d : ℕ) (ds rest : List ℕ)
    → IsDigits (d ∷ ds)
    → 0 < d
    → Ends rest
    → strtol_any (numeral (d ∷ ds) ++ rest) ≡ clamp_pos (value (d ∷ ds))
unfolding strtol_any
strtol_any-numeral d ds rest h pos e =
    let small : d < 10 = h.0 in
    let a : is_space (b'0' + d) ≡ false = ground arith in
    let b : (b'0' + d == b'-') ≡ false = ground arith in
    let c : (b'0' + d == b'+') ≡ false = ground arith in
    let z : (b'0' + d == b'0') ≡ false = ground arith in
    rw (a, b, c, z) (ap clamp_pos (read_in-numeral 0 (d ∷ ds) rest h e))
