-- ===== src/Bpf/Slots.antt =====
-- The instructions whose fields are values of their types, and eight bytes: the two types are
-- equivalent.
use native.Mathlib.Bridge.{le_prop}
use mathlib.Core.Equiv.{Iso, iso_to_equiv, ◌≃◌}
use mathlib.Core.HLevel.{Σ_prop_path}
use rust_ebpf_demo.Prelude.{
  ℕ, ◌+◌, ◌*◌, ◌/◌, ◌%◌, ◌^◌, ◌<◌, ◌≡◌, refl, ap, ◌∙◌, inl, inr, Bool-cases, List, [], ◌∷◌, ltb,
  arith,
}
use rust_ebpf_demo.Prelude.Int.{ℤ, pos, negsuc}
use rust_ebpf_demo.Bpf.Insn.{BpfInsn, word}
use rust_ebpf_demo.Bpf.Bits.{low_nibble, high_nibble}
use rust_ebpf_demo.Bpf.Encode.{
  signed, encode_insn, parse_instruction, IsSigned, IsInsn, parse_instruction-encode_insn,
}

abbrev pub IsByte : ℕ → Type 0
IsByte b = b < 256

-- Eight bytes.
pub record Slot : Type 0 where
  pub b₀ : ℕ
  pub b₁ : ℕ
  pub b₂ : ℕ
  pub b₃ : ℕ
  pub b₄ : ℕ
  pub b₅ : ℕ
  pub b₆ : ℕ
  pub b₇ : ℕ

abbrev pub slot_bytes : Slot → List ℕ
slot_bytes s = s.b₀ ∷ s.b₁ ∷ s.b₂ ∷ s.b₃ ∷ s.b₄ ∷ s.b₅ ∷ s.b₆ ∷ s.b₇ ∷ []

word-signed_16 : (x : ℕ) → x < 2 ^ 16 → word 16 (signed 15 x) ≡ x
word-signed_16 x small = ground arith

word-signed_32 : (x : ℕ) → x < 2 ^ 32 → word 32 (signed 31 x) ≡ x
word-signed_32 x small = ground arith

signed_15-IsSigned : (x : ℕ) → x < 2 ^ 16 → IsSigned 15 (signed 15 x)
signed_15-IsSigned x small = elim (Bool-cases (ltb x (2 ^ 15))) [
  | inl e ↦ rw e (ground arith)
  | inr e ↦ rw e (ground arith)
]

signed_31-IsSigned : (x : ℕ) → x < 2 ^ 32 → IsSigned 31 (signed 31 x)
signed_31-IsSigned x small = elim (Bool-cases (ltb x (2 ^ 31))) [
  | inl e ↦ rw e (ground arith)
  | inr e ↦ rw e (ground arith)
]

IsSigned-prop : (w : ℕ) (z : ℤ) → IsProp (IsSigned w z)
IsSigned-prop w (pos n) = le_prop
IsSigned-prop w (negsuc n) = le_prop

IsInsn-prop : (i : BpfInsn) → IsProp (IsInsn i)
IsInsn-prop i h k = λ t. record {
  code = le_prop h.code k.code t;
  dst_reg = le_prop h.dst_reg k.dst_reg t;
  src_reg = le_prop h.src_reg k.src_reg t;
  off = IsSigned-prop 15 i.off h.off k.off t;
  imm = IsSigned-prop 31 i.imm h.imm k.imm t;
}

abbrev pub IsSlot : Slot → Type 0
IsSlot s =
    IsByte s.b₀
    × IsByte s.b₁
    × IsByte s.b₂
    × IsByte s.b₃
    × IsByte s.b₄
    × IsByte s.b₅
    × IsByte s.b₆
    × IsByte s.b₇

IsSlot-prop : (s : Slot) → IsProp (IsSlot s)
IsSlot-prop s = hlevel le_prop

abbrev pub ValidInsn : Type 0
ValidInsn = (i : BpfInsn) × IsInsn i

abbrev pub ValidSlot : Type 0
ValidSlot = (s : Slot) × IsSlot s

-- The bytes that `encode_insn` lists.
abbrev slot_of : BpfInsn → Slot
slot_of i =
    let off = word 16 i.off in
    let imm = word 32 i.imm in
    record {
      b₀ = i.code % 256;
      b₁ = i.dst_reg % 16 + 16 * (i.src_reg % 16);
      b₂ = off % 256;
      b₃ = off / 256 % 256;
      b₄ = imm % 256;
      b₅ = imm / 256 % 256;
      b₆ = imm / 256 / 256 % 256;
      b₇ = imm / 256 / 256 / 256 % 256;
    }

slot_bytes-slot_of : (i : BpfInsn) → slot_bytes (slot_of i) ≡ encode_insn i
slot_bytes-slot_of i = refl

slot_of-IsSlot : (i : BpfInsn) → IsSlot (slot_of i)
slot_of-IsSlot i = (
  omega arith,
  omega arith,
  omega arith,
  omega arith,
  omega arith,
  omega arith,
  omega arith,
  omega arith,
)

abbrev parsed : Slot → BpfInsn
parsed s = parse_instruction (slot_bytes s)

parsed-IsInsn : (s : Slot) → IsSlot s → IsInsn (parsed s)
parsed-IsInsn s (h₀, h₁, h₂, h₃, h₄, h₅, h₆, h₇) =
    let b = s.b₁ + 256 * 0 in
    let low = low_nibble b in
    let high = high_nibble b in
    record {
      code = omega (arith, h₀);
      dst_reg = omega (arith, low);
      src_reg = omega (arith, high);
      off = signed_15-IsSigned (s.b₂ + 256 * (s.b₃ + 256 * 0)) (omega (arith, h₂, h₃));
      imm =
          signed_31-IsSigned (s.b₄ + 256 * (s.b₅ + 256 * (s.b₆ + 256 * (s.b₇ + 256 * 0))))
            (omega (arith, h₄, h₅, h₆, h₇));
    }

slot_of-parsed : (s : Slot) → IsSlot s → slot_of (parsed s) ≡ s
slot_of-parsed s (h₀, h₁, h₂, h₃, h₄, h₅, h₆, h₇) =
    let b = s.b₁ + 256 * 0 in
    let low = low_nibble b in
    let high = high_nibble b in
    let x = s.b₂ + 256 * (s.b₃ + 256 * 0) in
    let off : word 16 (signed 15 x) ≡ x = word-signed_16 x (omega (arith, h₂, h₃)) in
    let y = s.b₄ + 256 * (s.b₅ + 256 * (s.b₆ + 256 * (s.b₇ + 256 * 0))) in
    let imm : word 32 (signed 31 y) ≡ y = word-signed_32 y (omega (arith, h₄, h₅, h₆, h₇)) in
    let e₀ : (s.b₀ + 256 * 0) % 256 ≡ s.b₀ = omega (arith, h₀) in
    let e₁ : (parsed s).dst_reg % 16 + 16 * ((parsed s).src_reg % 16) ≡ s.b₁ =
      omega (arith, h₁, low, high) in
    let e₂ : x % 256 ≡ s.b₂ = omega (arith, h₂) in
    let e₃ : x / 256 % 256 ≡ s.b₃ = omega (arith, h₂, h₃) in
    let e₄ : y % 256 ≡ s.b₄ = omega (arith, h₄) in
    let e₅ : y / 256 % 256 ≡ s.b₅ = omega (arith, h₄, h₅) in
    let e₆ : y / 256 / 256 % 256 ≡ s.b₆ = omega (arith, h₄, h₅, h₆) in
    let e₇ : y / 256 / 256 / 256 % 256 ≡ s.b₇ = omega (arith, h₄, h₅, h₆, h₇) in
    let p₂ = ap (λ z. z % 256) off ∙ e₂ in
    let p₃ = ap (λ z. z / 256 % 256) off ∙ e₃ in
    let p₄ = ap (λ z. z % 256) imm ∙ e₄ in
    let p₅ = ap (λ z. z / 256 % 256) imm ∙ e₅ in
    let p₆ = ap (λ z. z / 256 / 256 % 256) imm ∙ e₆ in
    let p₇ = ap (λ z. z / 256 / 256 / 256 % 256) imm ∙ e₇ in
    λ t. record {
      b₀ = e₀ t;
      b₁ = e₁ t;
      b₂ = p₂ t;
      b₃ = p₃ t;
      b₄ = p₄ t;
      b₅ = p₅ t;
      b₆ = p₆ t;
      b₇ = p₇ t;
    }

abbrev encoding : Iso ValidInsn ValidSlot
encoding = record {
  fun = λ i. (slot_of i.0, slot_of-IsSlot i.0);
  inv = λ s. (parsed s.0, parsed-IsInsn s.0 s.1);
  rinv = λ s. Σ_prop_path IsSlot-prop (slot_of-parsed s.0 s.1);
  linv = λ i. Σ_prop_path IsInsn-prop (parse_instruction-encode_insn i.0 i.1);
}

-- Writing an instruction as bytes is an equivalence from the instructions whose fields are values of
-- their types to eight bytes, and `parse_instruction` is its inverse: each eight bytes are those of one
-- instruction, the one that is read from them.
pub encode_insn-equivalence :
    (e : ValidInsn ≃ ValidSlot) × ((i : ValidInsn) → slot_bytes (e.0 i).0 ≡ encode_insn i.0)
    × ((s : ValidSlot) → (i : ValidInsn) × (i.0 ≡ parse_instruction (slot_bytes s.0)) × (e.0 i ≡ s))
encode_insn-equivalence = (
  iso_to_equiv encoding,
  λ i. slot_bytes-slot_of i.0,
  λ s. ((parsed s.0, parsed-IsInsn s.0 s.1), refl, encoding.rinv s),
)
