-- ===== src/Prelude/Lists.antt =====
-- Lists measured and indexed by native numbers, under the library's names.
use Prim.Native.Nat.{ℕ, zero, suc, ◌+◌, ◌<◌}
use mathlib.Core.Path.{◌≡◌, refl, ap}
use mathlib.Core.List.{List, [], ◌∷◌, ◌++◌}
use mathlib.Core.Option.{Option, none, some}
use native.Mathlib.Omega.{arith}

module _ {ℓ} {A : Type ℓ} where
  abbrev pub length : List A → ℕ
  length [] = 0
  length (x ∷ xs) = suc (length xs)

  abbrev pub get_elem? : List A → ℕ → Option A
  get_elem? [] i = none
  get_elem? (x ∷ xs) zero = some x
  get_elem? (x ∷ xs) (suc i) = get_elem? xs i

  -- A write out of bounds changes nothing.
  abbrev pub set : List A → ℕ → A → List A
  set [] i v = []
  set (x ∷ xs) zero v = v ∷ xs
  set (x ∷ xs) (suc i) v = x ∷ set xs i v

  abbrev pub take : ℕ → List A → List A
  take zero xs = []
  take (suc n) [] = []
  take (suc n) (x ∷ xs) = x ∷ take n xs

  abbrev pub drop : ℕ → List A → List A
  drop zero xs = xs
  drop (suc n) [] = []
  drop (suc n) (x ∷ xs) = drop n xs

  abbrev pub replicate : ℕ → A → List A
  replicate zero a = []
  replicate (suc n) a = a ∷ replicate n a

  pub length-append : (xs ys : List A) → length (xs ++ ys) ≡ length xs + length ys
  length-append [] ys = omega arith
  length-append (x ∷ xs) ys = omega (arith, length-append xs ys)

pub length-replicate {ℓ} : {A : Type ℓ} (n : ℕ) (x : A) → length (replicate n x) ≡ n
length-replicate zero x = refl
length-replicate (suc n) x = ap suc (length-replicate n x)

-- The first `n` values of a function, from `i` on.
abbrev pub tabulate_from {ℓ} : {A : Type ℓ} → ℕ → ℕ → (ℕ → A) → List A
tabulate_from i zero f = []
tabulate_from i (suc n) f = f i ∷ tabulate_from (suc i) n f

abbrev pub tabulate {ℓ} : {A : Type ℓ} → ℕ → (ℕ → A) → List A
tabulate n f = tabulate_from 0 n f

pub length-tabulate_from {ℓ} : {A : Type ℓ} (i n : ℕ) (f : ℕ → A) → length (tabulate_from i n f) ≡ n
length-tabulate_from i zero f = refl
length-tabulate_from i (suc n) f = ap suc (length-tabulate_from (suc i) n f)

-- Each element has the property.
abbrev pub Every {ℓ κ} : {A : Type ℓ} → (A → Type κ) → List A → Type κ
Every P [] = Unit
Every P (x ∷ xs) = P x × Every P xs

pub append-Every {ℓ κ} :
    {A : Type ℓ} (P : A → Type κ) (front back : List A)
    → Every P front
    → Every P back
    → Every P (front ++ back)
append-Every P [] back h k = k
append-Every P (x ∷ front) back h k = (h.0, append-Every P front back h.1 k)

pub Every-append {ℓ κ} :
    {A : Type ℓ} (P : A → Type κ) (front back : List A)
    → Every P (front ++ back)
    → Every P front × Every P back
Every-append P [] back h = (tt, h)
Every-append P (x ∷ front) back h =
    let (now, later) = Every-append P front back h.1 in ((h.0, now), later)

pub tabulate_from-Every {ℓ κ} :
    {A : Type ℓ} (P : A → Type κ) (i n : ℕ) (f : ℕ → A)
    → ((j : ℕ) → j < i + n → P (f j))
    → Every P (tabulate_from i n f)
tabulate_from-Every P i zero f h = tt
tabulate_from-Every P i (suc n) f h =
    (h i (omega arith), tabulate_from-Every P (suc i) n f (λ j lt. h j (omega arith)))

-- The first `j`, and the others.
pub tabulate_from-append {ℓ} :
    {A : Type ℓ} (i j m n k : ℕ) (f : ℕ → A)
    → n ≡ j + m
    → k ≡ i + j
    → tabulate_from i n f ≡ tabulate_from i j f ++ tabulate_from k m f
tabulate_from-append i zero m n k f e e' =
    let en : n ≡ m = omega (arith, e) in
    let ek : i ≡ k = omega (arith, e') in λ t. tabulate_from (ek t) (en t) f
tabulate_from-append i (suc j) m zero k f e e' = absurd (omega (arith, e))
tabulate_from-append i (suc j) m (suc n) k f e e' =
    ap (λ l. f i ∷ l)
      (tabulate_from-append (suc i) j m n k f (omega (arith, e)) (omega (arith, e')))

pub replicate-append {ℓ} :
    {A : Type ℓ} (j m n : ℕ) (a : A) → n ≡ j + m → replicate n a ≡ replicate j a ++ replicate m a
replicate-append zero m n a e = let en : n ≡ m = omega (arith, e) in ap (λ k. replicate k a) en
replicate-append (suc j) m zero a e = absurd (omega (arith, e))
replicate-append (suc j) m (suc n) a e =
    ap (λ l. a ∷ l) (replicate-append j m n a (omega (arith, e)))
