-- ===== src/Bpf/Bits.antt =====
-- Facts about shifts and masks, as the compiled tests use them.
use Prim.Native.Nat.{min, bit_and, digits, bit_and-bitwise}
use rust_ebpf_demo.Prelude.{
  ℕ, zero, suc, ◌+◌, ◌*◌, ◌/◌, ◌%◌, ◌^◌, ◌≤◌, ◌≡◌, refl, sym, ap, ◌∙◌, arith, ◌==◌,
}

-- Shifting a 64-bit word left and right by 32 keeps its lower half.
pub low_half : (x : ℕ) → x * 2 ^ 32 % 2 ^ 64 / 2 ^ 32 ≡ x % 2 ^ 32
low_half x = omega arith

pub low_half-eq : (x n : ℕ) → (x * 2 ^ 32 % 2 ^ 64 / 2 ^ 32 == n) ≡ (x % 2 ^ 32 == n)
low_half-eq x n = ap (λ t. t == n) (low_half x)

-- The conjunction of a word with a mask, with the number of steps that it may take.
abbrev masked : ℕ → ℕ → ℕ → ℕ
masked = digits (λ _. 0) min

-- Masks with the `j` lowest bits set, and the part of a word that such a mask keeps.
ones : ℕ → ℕ
ones zero = 0
ones (suc j) = 2 * ones j + 1

kept : ℕ → ℕ → ℕ
kept zero x = 0
kept (suc j) x = 2 * kept j (x / 2) + x % 2

-- Shifts by `k` bits.
up : ℕ → ℕ → ℕ
up zero x = x
up (suc k) x = 2 * up k x

down : ℕ → ℕ → ℕ
down zero x = x
down (suc k) x = down k (x / 2)

kept-zero : (j : ℕ) → kept j 0 ≡ 0
unfolding kept
kept-zero zero = refl
kept-zero (suc j) = omega (arith, kept-zero j)

down-zero : (k : ℕ) → down k 0 ≡ 0
unfolding down
down-zero zero = refl
down-zero (suc k) = down-zero k

up-zero : (k : ℕ) → up k 0 ≡ 0
unfolding up
up-zero zero = refl
up-zero (suc k) = omega (arith, up-zero k)

masked_no_word : (fuel mask : ℕ) → masked fuel 0 mask ≡ 0
masked_no_word zero mask = refl
masked_no_word (suc fuel) mask = refl

masked_no_mask : (fuel x : ℕ) → x ≤ fuel → masked fuel x 0 ≡ 0
masked_no_mask fuel zero enough = masked_no_word fuel 0
masked_no_mask zero (suc x) enough = refl
masked_no_mask (suc fuel) (suc x) enough =
    omega (arith, masked_no_mask fuel (suc x / 2) (omega arith))

masked-ones : (j fuel x : ℕ) → x ≤ fuel → masked fuel x (ones j) ≡ kept j x
unfolding ones kept
masked-ones zero fuel x enough = masked_no_mask fuel x enough
masked-ones (suc j) fuel zero enough =
    masked_no_word fuel (2 * ones j + 1) ∙ sym (kept-zero (suc j))
masked-ones (suc j) zero (suc x) enough = absurd (omega arith)
masked-ones (suc j) (suc fuel) (suc x) enough =
    let rest : (2 * ones j + 1) / 2 ≡ ones j = omega arith in
    rw rest (omega (arith, masked-ones j fuel (suc x / 2) (omega arith)))

masked-up : (k j fuel x : ℕ) → x ≤ fuel → masked fuel x (up k (ones j)) ≡ up k (kept j (down k x))
unfolding up down
masked-up zero j fuel x enough = masked-ones j fuel x enough
masked-up (suc k) j fuel zero enough =
    masked_no_word fuel (2 * up k (ones j))
    ∙ sym (
        ap (λ y. 2 * up k (kept j y)) (down-zero k)
        ∙ (ap (λ y. 2 * up k y) (kept-zero j) ∙ up-zero (suc k)))
masked-up (suc k) j zero (suc x) enough = absurd (omega arith)
masked-up (suc k) j (suc fuel) (suc x) enough =
    let rest : 2 * up k (ones j) / 2 ≡ up k (ones j) = omega arith in
    rw rest (omega (arith, masked-up k j fuel (suc x / 2) (omega arith)))

upper_mask : up 32 (ones 32) ≡ 0xffff_ffff_0000_0000
unfolding up ones
upper_mask = refl

upper_part : (x : ℕ) → up 32 (kept 32 (down 32 x)) ≡ 2 ^ 32 * (x / 2 ^ 32 % 2 ^ 32)
unfolding up kept down
upper_part x = omega arith

-- The mask of the upper half of a 64-bit word.
pub high_half : (a : ℕ) → bit_and a 0xffff_ffff_0000_0000 ≡ 2 ^ 32 * (a / 2 ^ 32 % 2 ^ 32)
high_half a =
    bit_and-bitwise a 0xffff_ffff_0000_0000
    ∙ (ap (masked a a) (sym upper_mask) ∙ (masked-up 32 32 a a (omega arith) ∙ upper_part a))

low_mask : ones 4 ≡ 0x0f
unfolding ones
low_mask = refl

kept_4 : (x : ℕ) → kept 4 x ≡ x % 16
unfolding kept
kept_4 x = omega arith

-- The two nibbles of a byte.
pub low_nibble : (x : ℕ) → bit_and x 0x0f ≡ x % 16
low_nibble x =
    bit_and-bitwise x 0x0f
    ∙ (ap (masked x x) (sym low_mask) ∙ (masked-ones 4 x x (omega arith) ∙ kept_4 x))

high_mask : up 4 (ones 4) ≡ 0xf0
unfolding up ones
high_mask = refl

up-kept-down_4 : (x : ℕ) → up 4 (kept 4 (down 4 x)) / 16 ≡ x / 16 % 16
unfolding up kept down
up-kept-down_4 x = omega arith

pub high_nibble : (x : ℕ) → bit_and x 0xf0 / 16 ≡ x / 16 % 16
high_nibble x =
    ap (λ y. y / 16)
      (bit_and-bitwise x 0xf0 ∙ (ap (masked x x) (sym high_mask) ∙ masked-up 4 4 x x (omega arith)))
    ∙ up-kept-down_4 x
