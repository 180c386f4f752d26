-- ===== src/Clib/Text.antt =====
-- C strings, which end at a zero byte, `snprintf` and `strstr`.
use Prim.Native.Char.{code}
use Prim.Native.String.{String}
use rust_ebpf_demo.Prelude.{
  ℕ, zero, suc, ◌-◌, ◌≤◌, ◌<◌, take, length, ◌≡◌, refl, ap, Bool, true, false, ◌||◌, ◌&&◌, List, [],
  ◌∷◌, ◌++◌, ◌==◌, if◌then◌else◌, arith, inl, inr, Bool-cases,
}

-- The bytes of an ASCII text.
abbrev pub codes : String → List ℕ
codes String.[] = []
codes (String.◌∷◌ c s) = code c ∷ codes s

-- What `snprintf` leaves in an array of this size, up to the zero.
abbrev pub snprintf : ℕ → List ℕ → List ℕ
snprintf size text = take (size - 1) text

pub snprintf-fits : (size : ℕ) (text : List ℕ) → length text < size → snprintf size text ≡ text
snprintf-fits size text fits = take-all (size - 1) text (omega arith)
  where
    take-all : (n : ℕ) (xs : List ℕ) → length xs ≤ n → take n xs ≡ xs
    take-all zero [] le = refl
    take-all zero (x ∷ xs) le = absurd (omega (arith, le))
    take-all (suc n) [] le = refl
    take-all (suc n) (x ∷ xs) le = ap (λ l. x ∷ l) (take-all n xs (omega (arith, le)))

-- The bytes in front of the first zero.
unfoldable pub c_string : List ℕ → List ℕ
c_string [] = []
c_string (c ∷ cs) = if c == 0 then [] else c ∷ c_string cs

-- There is a zero.
abbrev pub terminated : List ℕ → Bool
terminated [] = false
terminated (c ∷ cs) = c == 0 || terminated cs

abbrev pub starts_with : List ℕ → List ℕ → Bool
starts_with s [] = true
starts_with [] (p ∷ ps) = false
starts_with (c ∷ cs) (p ∷ ps) = c == p && starts_with cs ps

-- `strstr(text, part) != NULL`
pub strstr : List ℕ → List ℕ → Bool
strstr [] part = starts_with [] part
strstr (c ∷ cs) part = starts_with (c ∷ cs) part || strstr cs part

-- What stands behind the zero does not matter.
pub c_string-append : (xs ys : List ℕ) → terminated xs ≡ true → c_string (xs ++ ys) ≡ c_string xs
unfolding c_string
c_string-append [] ys h = cc
c_string-append (x ∷ xs) ys h = ground (arith, c_string-append xs ys)

starts_with-append : (part rest : List ℕ) → starts_with (part ++ rest) part ≡ true
starts_with-append [] rest = refl
starts_with-append (p ∷ ps) rest = ground (arith, starts_with-append ps rest)

starts_with_split :
    (s part : List ℕ) → starts_with s part ≡ true → (rest : List ℕ) × (s ≡ part ++ rest)
starts_with_split s [] h = (s, refl)
starts_with_split [] (p ∷ ps) h = cc
starts_with_split (c ∷ cs) (p ∷ ps) h =
    let (rest, e) = starts_with_split cs ps (ground arith) in (rest, ground arith)

-- `strstr` finds a part that is there.
pub strstr-append : (front part rest : List ℕ) → strstr (front ++ (part ++ rest)) part ≡ true
unfolding strstr
strstr-append [] [] [] = refl
strstr-append [] [] (c ∷ cs) = refl
strstr-append [] (p ∷ ps) rest = ground (arith, starts_with-append ps rest)
strstr-append (c ∷ front) part rest = ground (arith, strstr-append front part rest)

-- What `strstr` finds is there.
pub strstr_split :
    (s part : List ℕ)
    → strstr s part ≡ true
    → (front : List ℕ) × (rest : List ℕ) × (s ≡ front ++ (part ++ rest))
unfolding strstr
strstr_split [] part h = let (rest, e) = starts_with_split [] part h in ([], rest, e)
strstr_split (c ∷ cs) part h = elim (Bool-cases (starts_with (c ∷ cs) part)) [
  | inl here ↦ let (rest, e) = starts_with_split (c ∷ cs) part here in ([], rest, e)
  | inr later ↦
      let (front, rest, e) = strstr_split cs part (rw later at h) in
      (c ∷ front, rest, ap (λ t. c ∷ t) e)
]
