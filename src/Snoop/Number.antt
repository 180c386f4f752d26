-- ===== src/Snoop/Number.antt =====
-- `parseNonNegativeInteger` of opensnoop/opensnoop.c.
use rust_ebpf_demo.Prelude.{
  ℕ, suc, ◌+◌, ◌%◌, ◌^◌, ◌<◌, ◌≡◌, ◌≢◌, ◌⊎◌, inl, inr, refl, Bool, true, false, List, ◌∷◌, ◌++◌,
  arith, ltb, if◌then◌else◌,
}
use rust_ebpf_demo.Prelude.Int.{ℤ, pos, neg, negsuc, ltb_ℤ}
use rust_ebpf_demo.Clib.Words.{to_int, to_int-IsInt, IsInt}
use rust_ebpf_demo.Clib.Strtol.{
  Errno, no_error, einval, erange, strtol, IsDigits, numeral, value, Ends, clamp_pos,
  strtol-numeral,
}

-- The result, with `errno` as the function leaves it.
pub record Parsed : Type 0 where
  pub result : ℤ
  pub errno : Errno

abbrev no_errno : Errno → Bool
no_errno no_error = true
no_errno _ = false

-- What the function does with `value`, once `strtol` has left `errno`.
abbrev pub checked : ℤ → Errno → Parsed
checked value no_error =
    if ltb_ℤ value (pos 0)
    then record { result = neg 1; errno = einval }
    else record { result = value; errno = no_error }
checked value e = record { result = neg 1; errno = e }

unfoldable pub parse_non_negative_integer : List ℕ → Parsed
parse_non_negative_integer str = let l = strtol str in checked (to_int l.value) l.errno

-- A result is -1 with `errno` set, or the non-negative `int` with `errno` clear.
abbrev pub IsParsed : Parsed → Type 0
IsParsed r =
    ((r.result ≡ neg 1) × (r.errno ≢ no_error))
    ⊎ ((n : ℕ) × (n < 2 ^ 31) × (r.result ≡ pos n) × (r.errno ≡ no_error))

checked-IsParsed : (z : ℤ) (e : Errno) → IsInt z → IsParsed (checked z e)
checked-IsParsed (pos n) no_error h =
    let e : ltb (n + 0) 0 ≡ false = ground arith in rw e (inr (n, h, refl, refl))
checked-IsParsed (negsuc n) no_error h =
    let e : ltb 0 (0 + suc n) ≡ true = ground arith in rw e (inl (refl, cc))
checked-IsParsed z einval h = inl (refl, cc)
checked-IsParsed z erange h = inl (refl, cc)

-- Whatever the text, the result is -1 with `errno` set to an error, or a non-negative `int` with
-- `errno` cleared.
pub parse_non_negative_integer-IsParsed : (str : List ℕ) → IsParsed (parse_non_negative_integer str)
unfolding parse_non_negative_integer
parse_non_negative_integer-IsParsed str =
    let l = strtol str in checked-IsParsed (to_int l.value) l.errno (to_int-IsInt l.value)

-- The low 32 bits of a number below 2^63, if they are a non-negative `int`.
abbrev pub classify : ℕ → Parsed
classify n =
    if ltb n (2 ^ 63)
    then (if ltb (n % 2 ^ 32) (2 ^ 31)
        then record { result = pos (n % 2 ^ 32); errno = no_error }
        else record { result = neg 1; errno = einval })
    else record { result = neg 1; errno = erange }

checked-classify : (n : ℕ) → checked (to_int (clamp_pos n).value) (clamp_pos n).errno ≡ classify n
checked-classify n = ground arith

-- For a decimal numeral, with anything behind it but a digit, the result is what `classify` says of
-- its number `n`: from 2^63 on -1 with ERANGE; below, the low 32 bits of `n` with `errno` cleared if
-- they are less than 2^31, and otherwise -1 with EINVAL.
pub parse_non_negative_integer-numeral :
    (d : ℕ) (ds rest : List ℕ)
    → IsDigits (d ∷ ds)
    → Ends rest
    → parse_non_negative_integer (numeral (d ∷ ds) ++ rest) ≡ classify (value (d ∷ ds))
unfolding parse_non_negative_integer
parse_non_negative_integer-numeral d ds rest h e =
    rw (strtol-numeral d ds rest h e) (checked-classify (value (d ∷ ds)))
