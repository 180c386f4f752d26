-- ===== src/Generator/Meaning.antt =====
-- What a generated function does to an array, and what becomes of a program that goes through it.
use mathlib.Core.Option
use Prim.Native.String.{String}
use rust_ebpf_demo.Prelude.{
  Every, ℕ, zero, suc, ◌≡◌, ◌≤◌, refl, sym, ap, ◌∙◌, true, false, Option, none, some, List, [], ◌∷◌,
  ◌++◌, if◌then◌else◌, length, map, set, ltb, lt→ltb, inl, inr, Bool-cases, arith, length-append,
}
use rust_ebpf_demo.Prelude.Int.{ℤ, pos, negsuc}
use rust_ebpf_demo.Bpf.Insn.{BpfInsn}
use rust_ebpf_demo.Bpf.Encode.{
  encode_insn, parse_instruction, IsInsn, parse_instruction-encode_insn,
}
use rust_ebpf_demo.Probe.Bytecode.Store.{store_all}
use rust_ebpf_demo.Generator.{
  Placeholder, Immediate, number, fd, param, Assign, same_ℤ, get_list_of_instructions, is_fd,
  placed, immediate, assign, assigns_from, generate_c_function,
}

module _ (arg : ℤ) (fds : ℤ → ℤ) where
  -- The instruction that is stored for these arguments.
  abbrev pub value_of : Immediate → ℤ
  value_of (number z) = z
  value_of (fd n) = fds n
  value_of param = arg

  abbrev pub insn_of : Assign → BpfInsn
  insn_of a = record {
    code = a.code;
    dst_reg = a.dst_reg;
    src_reg = a.src_reg;
    off = a.off;
    imm = value_of a.imm;
  }

  -- The call of a generated function: `none` is a store outside the array.
  abbrev pub execute : List BpfInsn → List Assign → Option (List BpfInsn)
  execute array [] = some array
  execute array (a ∷ more) =
      let rest = execute (set array a.index (insn_of a)) more in
      if ltb a.index (length array) then rest else none

-- The bytes of a program.
abbrev pub bytes_of : List BpfInsn → List ℕ
bytes_of [] = []
bytes_of (i ∷ is) = encode_insn i ++ bytes_of is

pub same_ℤ-eq : (y z : ℤ) → same_ℤ y z ≡ true → y ≡ z
same_ℤ-eq (pos m) (pos n) h = ground arith
same_ℤ-eq (pos m) (negsuc n) h = cc
same_ℤ-eq (negsuc m) (pos n) h = cc
same_ℤ-eq (negsuc m) (negsuc n) h = ground arith

abbrev pub imm_of : Option Placeholder → ℤ
imm_of none = pos 0
imm_of (some p) = p.imm

-- The immediate value comes back if the parameters are what they stand for.
immediate_back :
    (placeholder : Option Placeholder) (i : BpfInsn)
    → value_of (imm_of placeholder) (λ n. n) (immediate placeholder i) ≡ i.imm
immediate_back placeholder i = elim (Bool-cases (is_fd i)) [
  | inl e ↦ rw e refl
  | inr e ↦ rw e (placed_back placeholder i.imm)
]
  where
    placed_back :
        (placeholder : Option Placeholder) (z : ℤ)
        → value_of (imm_of placeholder) (λ n. n) (placed placeholder z) ≡ z
    placed_back none z = refl
    placed_back (some p) z = elim (Bool-cases (same_ℤ z p.imm)) [
      | inl e ↦ rw e (sym (same_ℤ-eq z p.imm e))
      | inr e ↦ rw e refl
    ]

set-append :
    {A : Type 0} (front rest : List A) (a b : A)
    → set (front ++ (a ∷ rest)) (length front) b ≡ (front ++ (b ∷ [])) ++ rest
set-append [] rest a b = refl
set-append (x ∷ front) rest a b = ap (λ l. x ∷ l) (set-append front rest a b)

append_cons :
    {A : Type 0} (front rest : List A) (b : A) → (front ++ (b ∷ [])) ++ rest ≡ front ++ (b ∷ rest)
append_cons [] rest b = refl
append_cons (x ∷ front) rest b = ap (λ l. x ∷ l) (append_cons front rest b)

append_nil : {A : Type 0} (xs : List A) → xs ++ [] ≡ xs
append_nil [] = refl
append_nil (x ∷ xs) = ap (λ l. x ∷ l) (append_nil xs)

-- The instructions that the assignments store.
abbrev pub stored : ℤ → (ℤ → ℤ) → Option Placeholder → List BpfInsn → List BpfInsn
stored arg fds placeholder [] = []
stored arg fds placeholder (i ∷ rest) =
    insn_of arg fds (assign placeholder 0 i) ∷ stored arg fds placeholder rest

module _ (arg : ℤ) (fds : ℤ → ℤ) (placeholder : Option Placeholder) where
  -- The assignments fill the array in order, from the index that the first has.
  pub execute-assigns_from :
      (front array xs : List BpfInsn) (n : ℕ)
      → length front ≡ n
      → execute arg fds (front ++ array) (assigns_from placeholder n xs)
        ≡ Option.map (λ l. front ++ l) (store_all array (stored arg fds placeholder xs))
  unfolding store_all
  execute-assigns_from front array [] n e = refl
  execute-assigns_from front [] (x ∷ xs) n e =
      let full : ltb n (length (front ++ [])) ≡ false = ground (arith, e, length-append front []) in
      rw full refl
  execute-assigns_from front (a ∷ array) (x ∷ xs) n e =
      let inside : ltb n (length (front ++ (a ∷ array))) ≡ true =
        lt→ltb _ _ (omega (arith, e, length-append front (a ∷ array))) in
      let b = insn_of arg fds (assign placeholder n x) in
      let next = front ++ (b ∷ []) in
      let longer : length next ≡ suc n = omega (arith, e, length-append front (b ∷ [])) in
      let step : set (front ++ (a ∷ array)) n b ≡ next ++ array =
        ap (λ m. set (front ++ (a ∷ array)) m b) (sym e) ∙ set-append front array a b in
      let rest = execute-assigns_from next array xs (suc n) longer in
      rw inside (
        ap (λ l. execute arg fds l (assigns_from placeholder (suc n) xs)) step
        ∙ (rest ∙ shift front b (store_all array (stored arg fds placeholder xs))))
    where
      shift :
          (front : List BpfInsn) (b : BpfInsn) (r : Option (List BpfInsn))
          → Option.map (λ l. (front ++ (b ∷ [])) ++ l) r
            ≡ Option.map (λ l. front ++ l) (Option.map (λ l. b ∷ l) r)
      shift front b none = refl
      shift front b (some l) = ap some (append_cons front l b)

-- The bytes of a program are cut into those of its instructions.
pub get_list_of_instructions-bytes_of :
    (fuel : ℕ) (xs : List BpfInsn)
    → length (bytes_of xs) ≤ fuel
    → Every IsInsn xs
    → map parse_instruction (get_list_of_instructions fuel (bytes_of xs)) ≡ xs
unfolding get_list_of_instructions
get_list_of_instructions-bytes_of zero [] le h = refl
get_list_of_instructions-bytes_of (suc fuel) [] le h = refl
get_list_of_instructions-bytes_of zero (x ∷ xs) le h = absurd (omega (arith, le))
get_list_of_instructions-bytes_of (suc fuel) (x ∷ xs) le h =
    let first = parse_instruction-encode_insn x h.0 in
    let rest = get_list_of_instructions-bytes_of fuel xs (omega (arith, le)) h.1 in
    λ i. first i ∷ rest i

stored_self :
    (placeholder : Option Placeholder) (xs : List BpfInsn)
    → stored (imm_of placeholder) (λ n. n) placeholder xs ≡ xs
stored_self placeholder [] = refl
stored_self placeholder (x ∷ xs) =
    let first = immediate_back placeholder x in
    let rest = stored_self placeholder xs in λ i. record x { imm = first i } ∷ rest i

-- The function that is generated from the bytes of a program, whose fields are values of their types, for
-- any values of its parameters.
pub execute-stored :
    (name : String) (placeholder : Option Placeholder) (arg : ℤ) (fds : ℤ → ℤ)
    (array xs : List BpfInsn)
    → Every IsInsn xs
    → execute arg fds array (generate_c_function name (bytes_of xs) placeholder).assigns
      ≡ store_all array (stored arg fds placeholder xs)
unfolding generate_c_function
execute-stored name placeholder arg fds array xs h =
    let parsed = get_list_of_instructions-bytes_of (length (bytes_of xs)) xs (omega arith) h in
    ap (λ l. execute arg fds array (assigns_from placeholder 0 l)) parsed
    ∙ (execute-assigns_from arg fds placeholder [] array xs 0 refl
        ∙ map_id (store_all array (stored arg fds placeholder xs)))
  where
    map_id : (r : Option (List BpfInsn)) → Option.map (λ l. [] ++ l) r ≡ r
    map_id none = refl
    map_id (some l) = refl

-- The function that is generated from the bytes of a program, whose fields are values of their types, does
-- to any array what storing that program from the start does, if it is called with what its parameters
-- stand for.
pub execute-generate_c_function :
    (name : String) (placeholder : Option Placeholder) (array xs : List BpfInsn)
    → Every IsInsn xs
    → execute
        (imm_of placeholder)
        (λ n. n)
        array
        (generate_c_function name (bytes_of xs) placeholder).assigns
      ≡ store_all array xs
execute-generate_c_function name placeholder array xs h =
    execute-stored name placeholder (imm_of placeholder) (λ n. n) array xs h
    ∙ ap (store_all array) (stored_self placeholder xs)
