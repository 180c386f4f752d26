-- ===== src/Generator/Rebound.antt =====
-- What the parameters of a generated function are for: which immediate values they replace.
use rust_ebpf_demo.Prelude.{
  ℕ, ◌≡◌, refl, true, Option, none, some, List, [], ◌∷◌, Bool-cases, inl, inr, arith, ◌∙◌, ap,
}
use rust_ebpf_demo.Prelude.Int.{ℤ, pos, negsuc}
use rust_ebpf_demo.Bpf.Insn.{BpfInsn}
use rust_ebpf_demo.Generator.{Placeholder, same_ℤ, is_fd, placed, immediate, assign}
use rust_ebpf_demo.Generator.Meaning.{insn_of, value_of, stored, same_ℤ-eq}

-- The instruction loads a map: BPF_LD | BPF_IMM | BPF_DW with BPF_PSEUDO_MAP_FD.
abbrev pub IsMapLoad : BpfInsn → Type 0
IsMapLoad i = (i.code ≡ 0x18) × (i.src_reg ≡ 1)

-- The value is the one that the placeholder stands for.
abbrev pub IsHeld : Option Placeholder → ℤ → Type 0
IsHeld none z = ⊥
IsHeld (some p) z = z ≡ p.imm

module _ (arg : ℤ) (fds : ℤ → ℤ) (placeholder : Option Placeholder) where
  -- `j` is `i` with another immediate value: the descriptor for the one in a load of a map, else `arg` for
  -- the placeholder's, and the same otherwise.
  pub record Rebound (i j : BpfInsn) : Type 0 where
    pub code : j.code ≡ i.code
    pub dst_reg : j.dst_reg ≡ i.dst_reg
    pub src_reg : j.src_reg ≡ i.src_reg
    pub off : j.off ≡ i.off
    pub map_load : IsMapLoad i → j.imm ≡ fds i.imm
    pub held : ¬ IsMapLoad i → IsHeld placeholder i.imm → j.imm ≡ arg
    pub kept : ¬ IsMapLoad i → ¬ IsHeld placeholder i.imm → j.imm ≡ i.imm

  abbrev pub Rebounds : List BpfInsn → List BpfInsn → Type 0
  Rebounds [] [] = Unit
  Rebounds [] (j ∷ js) = ⊥
  Rebounds (i ∷ is) [] = ⊥
  Rebounds (i ∷ is) (j ∷ js) = Rebound i j × Rebounds is js

is_fd-IsMapLoad : (i : BpfInsn) → is_fd i ≡ true → IsMapLoad i
is_fd-IsMapLoad i e = (ground arith, ground arith)

IsMapLoad-is_fd : (i : BpfInsn) → IsMapLoad i → is_fd i ≡ true
IsMapLoad-is_fd i (code, src) = ground arith

same_ℤ_refl : (z : ℤ) → same_ℤ z z ≡ true
same_ℤ_refl (pos n) = ground arith
same_ℤ_refl (negsuc n) = ground arith

module _ (arg : ℤ) (fds : ℤ → ℤ) where
  placed-held :
      (placeholder : Option Placeholder) (z : ℤ)
      → IsHeld placeholder z
      → value_of arg fds (placed placeholder z) ≡ arg
  placed-held none z h = absurd h
  placed-held (some p) z h =
      let same : same_ℤ z p.imm ≡ true = ap (λ y. same_ℤ y p.imm) h ∙ same_ℤ_refl p.imm in
      rw same refl

  placed-kept :
      (placeholder : Option Placeholder) (z : ℤ)
      → ¬ IsHeld placeholder z
      → value_of arg fds (placed placeholder z) ≡ z
  placed-kept none z h = refl
  placed-kept (some p) z h = elim (Bool-cases (same_ℤ z p.imm)) [
    | inl e ↦ absurd (h (same_ℤ-eq z p.imm e))
    | inr e ↦ rw e refl
  ]

  assign-Rebound :
      (placeholder : Option Placeholder) (n : ℕ) (i : BpfInsn)
      → Rebound arg fds placeholder i (insn_of arg fds (assign placeholder n i))
  assign-Rebound placeholder n i = record {
    code = refl;
    dst_reg = refl;
    src_reg = refl;
    off = refl;
    map_load = λ load. rw (IsMapLoad-is_fd i load) refl;
    held = λ other h. unbound other (placed-held placeholder i.imm h);
    kept = λ other h. unbound other (placed-kept placeholder i.imm h);
  }
    where
      unbound :
          {z : ℤ}
          → ¬ IsMapLoad i
          → value_of arg fds (placed placeholder i.imm) ≡ z
          → value_of arg fds (immediate placeholder i) ≡ z
      unbound other e = elim (Bool-cases (is_fd i)) [
        | inl load ↦ absurd (other (is_fd-IsMapLoad i load))
        | inr none_of_it ↦ rw none_of_it e
      ]

  pub stored-Rebounds :
      (placeholder : Option Placeholder) (xs : List BpfInsn)
      → Rebounds arg fds placeholder xs (stored arg fds placeholder xs)
  stored-Rebounds placeholder [] = tt
  stored-Rebounds placeholder (x ∷ xs) =
      (assign-Rebound placeholder 0 x, stored-Rebounds placeholder xs)
