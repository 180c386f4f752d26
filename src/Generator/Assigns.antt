-- ===== src/Generator/Assigns.antt =====
-- The assignments in the text of a C function, as they are read and as they are written.
use Prim.Native.String.{String}
use rust_ebpf_demo.Prelude.{
  ◌>>=◌, ℕ, zero, suc, ◌^◌, ◌<◌, ◌≡◌, refl, ap, true, false, Option, none, some, List, [], ◌∷◌,
  ◌++◌, Every, length, map, set, ltb, if◌then◌else◌, arith,
}
use rust_ebpf_demo.Prelude.Int.{ℤ}
use rust_ebpf_demo.Bpf.Insn.{BpfInsn}
use rust_ebpf_demo.Clib.Text.{codes, starts_with}
use rust_ebpf_demo.Clib.Decimal.{decimal}
use rust_ebpf_demo.Clib.Printf.{decimal_ℤ, IsShort}
use rust_ebpf_demo.Generator.{Immediate, number, fd, param, Assign}
use rust_ebpf_demo.Generator.Meaning.{value_of, insn_of, execute}
use rust_ebpf_demo.Generator.Text.{
  fill, text_line, insn_assign_template, param_text, immediate_text, assign_values, assigns_text,
  end_of_function,
}
use rust_ebpf_demo.Generator.Read.{
  expect, skip, Lacks, decimal-Lacks, decimal_ℤ-Lacks, read_ℕ, read_ℤ, read_ℕ-decimal,
  read_ℤ-decimal_ℤ, starts_number, starts_number-decimal_ℤ,
}
use rust_ebpf_demo.Generator.Members.{
  read_until, read_members, read_insn, read_until_append, members_text, then_some, read_members_lem,
  insn_members, insn_members-IsMember, read_insn-insn_members,
}

-- A number, or a name, which has a value in `env`.
abbrev pub read_value : (List ℕ → ℤ) → List ℕ → ℤ
read_value env text = if starts_number text then read_ℤ text else env text

-- `instructions[<index>] = (struct bpf_insn) {`, five members, and `};`.
abbrev pub read_assign : (List ℕ → ℤ) → List ℕ → Option ((ℕ × BpfInsn) × List ℕ)
read_assign env text = do
  numbered ← expect (codes "instructions[") (skip text)
  indexed ← read_until b']' (text_line " = (struct bpf_insn) {" []) numbered
  members ← read_members 5 indexed.1
  rest ← expect (text_line "};" []) (skip members.1)
  i ← read_insn (read_value env) members.0
  some ((read_ℕ indexed.0, i), rest)

-- The assignments up to the brace that closes the function.
unfoldable pub read_assigns : ℕ → (List ℕ → ℤ) → List ℕ → Option (List (ℕ × BpfInsn))
read_assigns zero env text = none
read_assigns (suc fuel) env text = elim (starts_with text (codes "}")) [
  | true ↦ some []
  | false ↦ do
    first ← read_assign env text
    more ← read_assigns fuel env first.1
    some (first.0 ∷ more)
]

-- The assignments one after the other: `none` is a store outside the array.
abbrev pub store_each : List BpfInsn → List (ℕ × BpfInsn) → Option (List BpfInsn)
store_each array [] = some array
store_each array (a ∷ more) =
    let rest = store_each (set array a.0 a.1) more in if ltb a.0 (length array) then rest else none

-- The parameter's name is no number and has no comma.
pub record IsName (name : List ℕ) : Type 0 where
  pub no_number : starts_number name ≡ false
  pub no_comma : Lacks b',' name

abbrev pub IsShortImmediate : Immediate → Type 0
IsShortImmediate (number z) = IsShort z
IsShortImmediate (fd n) = Unit
IsShortImmediate param = Unit

pub record IsShortAssign (a : Assign) : Type 0 where
  pub index : a.index < 10 ^ 10
  pub code : a.code < 256
  pub dst_reg : a.dst_reg < 10 ^ 10
  pub src_reg : a.src_reg < 10 ^ 10
  pub off : IsShort a.off
  pub imm : IsShortImmediate a.imm

-- The value of the parameter for a descriptor.
abbrev pub fd_value : (List ℕ → ℤ) → ℤ → ℤ
fd_value env n = env (codes "fd" ++ decimal_ℤ n)

module _ (env : List ℕ → ℤ) (placeholder : Option (String × String))
    (name : IsName (param_text placeholder)) where
  abbrev pub arg : ℤ
  arg = env (param_text placeholder)

  abbrev pub assigned : Assign → ℕ × BpfInsn
  assigned a = (a.index, insn_of arg (fd_value env) a)

  immediate_text-Lacks : (m : Immediate) → Lacks b',' (immediate_text placeholder m)
  immediate_text-Lacks (number z) = decimal_ℤ-Lacks b',' z refl refl
  immediate_text-Lacks (fd n) = (refl, (refl, decimal_ℤ-Lacks b',' n refl refl))
  immediate_text-Lacks param = name.no_comma

  read_value-immediate_text :
      (m : Immediate)
      → IsShortImmediate m
      → read_value env (immediate_text placeholder m) ≡ value_of arg (fd_value env) m
  read_value-immediate_text (number z) h = rw (starts_number-decimal_ℤ z) (read_ℤ-decimal_ℤ z h)
  read_value-immediate_text (fd n) h = refl
  read_value-immediate_text param h = rw name.no_number refl

  read_assign-assign_values :
      (a : Assign) (rest : List ℕ)
      → IsShortAssign a
      → read_assign env (fill insn_assign_template (assign_values placeholder a) rest)
        ≡ some (assigned a, rest)
  read_assign-assign_values a rest h =
      let imm = immediate_text placeholder a.imm in
      let ms = insn_members a.code a.dst_reg a.src_reg a.off imm in
      let end = text_line "  };" rest in
      let plain = immediate_text-Lacks a.imm in
      let valid = insn_members-IsMember a.code a.dst_reg a.src_reg a.off imm h.code plain in
      let value = read_value-immediate_text a.imm h.imm in
      let insn =
        read_insn-insn_members a.code a.dst_reg a.src_reg a.off imm h.code (read_value env)
          (value_of arg (fd_value env) a.imm) h.dst_reg h.src_reg h.off value in
      let index = read_ℕ-decimal a.index h.index in
      then_some _
        (read_until_append b']' (text_line " = (struct bpf_insn) {" []) (decimal a.index)
          (members_text ms end) (decimal-Lacks b']' a.index refl))
        (then_some _ (read_members_lem ms end valid) (
          then_some (λ i. some ((read_ℕ (decimal a.index), i), rest)) insn
            (λ t. some ((index t, insn_of arg (fd_value env) a), rest))))

  pub read_assigns-assigns_text :
      (fuel : ℕ) (assigns : List Assign)
      → length assigns < fuel
      → Every IsShortAssign assigns
      → read_assigns fuel env (assigns_text placeholder assigns end_of_function)
        ≡ some (map assigned assigns)
  unfolding read_assigns
  read_assigns-assigns_text zero assigns enough h = absurd (omega (arith, enough))
  read_assigns-assigns_text (suc fuel) [] enough h = refl
  read_assigns-assigns_text (suc fuel) (a ∷ more) enough (short, h) =
      let rest = assigns_text placeholder more end_of_function in
      then_some _ (read_assign-assign_values a rest short) (
        then_some (λ others. some (assigned a ∷ others))
          (read_assigns-assigns_text fuel more (omega (arith, enough)) h) refl)

  pub store_each-assigned :
      (array : List BpfInsn) (assigns : List Assign)
      → store_each array (map assigned assigns) ≡ execute arg (fd_value env) array assigns
  store_each-assigned array [] = refl
  store_each-assigned array (a ∷ more) =
      ap (λ r. if ltb a.index (length array) then r else none)
        (store_each-assigned (set array a.index (insn_of arg (fd_value env) a)) more)
