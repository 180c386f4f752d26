-- ===== src/Generator/Back.antt =====
-- From the bytes of a program to the text of a C function, and back by what the text does.
use mathlib.Core.Path.{subst}
use Prim.Native.String.{String}
use rust_ebpf_demo.Prelude.{
  ◌>>=◌, ℕ, suc, ◌+◌, ◌^◌, ◌<◌, ◌≤◌, ◌≡◌, refl, sym, ap, ◌∙◌, false, Bool-cases, inl, inr, Option,
  none, some, List, [], ◌∷◌, ◌++◌, Every, append-Every, length, length-append, drop, ◌==◌, arith,
}
use rust_ebpf_demo.Prelude.Int.{ℤ, pos, negsuc}
use rust_ebpf_demo.Bpf.Insn.{BpfInsn}
use rust_ebpf_demo.Bpf.Encode.{IsInsn, IsSigned}
use rust_ebpf_demo.Clib.Text.{codes}
use rust_ebpf_demo.Clib.Decimal.{decimal}
use rust_ebpf_demo.Clib.Printf.{decimal_ℤ, IsShort}
use rust_ebpf_demo.Probe.Bytecode.Store.{store_all}
use rust_ebpf_demo.Generator.{
  Placeholder, Assign, CFunction, is_fd, same_ℤ, placed, immediate, assigns_from, signature_of,
  generate_c_function,
}
use rust_ebpf_demo.Generator.Meaning.{
  execute, bytes_of, stored, get_list_of_instructions-bytes_of, execute-stored,
}
use rust_ebpf_demo.Generator.Rebound.{Rebounds, stored-Rebounds}
use rust_ebpf_demo.Generator.Text.{
  fill, insn_assign_template, param_text, assign_values, assigns_text, placeholder_text, fds_text,
  signature_text, end_of_function, function_text,
}
use rust_ebpf_demo.Generator.Read.{until, Lacks, decimal_ℤ-Lacks}
use rust_ebpf_demo.Generator.Members.{then_some}
use rust_ebpf_demo.Generator.Assigns.{
  read_assigns, store_each, IsName, IsShortImmediate, IsShortAssign, fd_value,
  read_assigns-assigns_text, store_each-assigned,
}

-- The first line is the function's name and its parameters.
abbrev pub body_of : List ℕ → List ℕ
body_of text = drop 1 (until 10 text).1

-- The assignments in the text of a function, where the names of its parameters have these values.
unfoldable pub read_function : (List ℕ → ℤ) → List ℕ → Option (List (ℕ × BpfInsn))
unfolding read_assigns
read_function env text = read_assigns (suc (length (body_of text))) env (body_of text)

length-fill :
    (pieces values : List (List ℕ)) (rest : List ℕ) → length rest ≤ length (fill pieces values rest)
length-fill [] values rest = omega arith
length-fill (piece ∷ pieces) [] rest =
    omega (arith, length-append piece (fill pieces [] rest), length-fill pieces [] rest)
length-fill (piece ∷ pieces) (value ∷ values) rest = omega (
  arith,
  length-append piece (value ++ fill pieces values rest),
  length-append value (fill pieces values rest),
  length-fill pieces values rest,
)

pub length-fill_first :
    (piece : List ℕ) (pieces : List (List ℕ)) (value : List ℕ) (values : List (List ℕ))
    (rest : List ℕ)
    → 0 < length piece
    → length rest < length (fill (piece ∷ pieces) (value ∷ values) rest)
length-fill_first piece pieces value values rest some_byte = omega (
  arith,
  length-append piece (value ++ fill pieces values rest),
  length-append value (fill pieces values rest),
  length-fill pieces values rest,
  some_byte,
)

pub longer : {a b c : ℕ} → a ≤ b → b < c → suc a ≤ c
longer h k = omega arith

-- There is more text than there are assignments.
length-assigns_text :
    (placeholder : Option (String × String)) (assigns : List Assign)
    → length assigns ≤ length (assigns_text placeholder assigns end_of_function)
length-assigns_text placeholder [] = omega arith
length-assigns_text placeholder (a ∷ more) =
    let rest = assigns_text placeholder more end_of_function in
    longer (length-assigns_text placeholder more) (
      length-fill_first (codes "  instructions[") (drop 1 insn_assign_template) (decimal a.index)
        (drop 1 (assign_values placeholder a)) rest (omega arith))

-- A line break is looked for behind a text without one.
until_past :
    (stop : ℕ) (front rest : List ℕ)
    → Lacks stop front
    → (until stop (front ++ rest)).1 ≡ (until stop rest).1
until_past stop [] rest h = refl
until_past stop (c ∷ front) rest (other, h) = rw other (until_past stop front rest h)

fds_text-Lacks : (fds : List ℤ) → Lacks 10 (fds_text fds)
fds_text-Lacks [] = tt
fds_text-Lacks (n ∷ fds) =
    append-Every (λ c. (c == 10) ≡ false) (codes ", int fd") (decimal_ℤ n ++ fds_text fds)
      (refl, (refl, (refl, (refl, (refl, (refl, (refl, (refl, tt))))))))
      (append-Every (λ c. (c == 10) ≡ false) (decimal_ℤ n) (fds_text fds)
        (decimal_ℤ-Lacks 10 n refl refl) (fds_text-Lacks fds))

body_of-function_text :
    (f : CFunction)
    → Lacks 10 (codes f.name)
    → Lacks 10 (placeholder_text f.placeholder)
    → body_of (function_text f) ≡ assigns_text f.placeholder f.assigns end_of_function
body_of-function_text f name signature = ap (drop 1) (
    until_past 10 (codes f.name) _ name
    ∙ until_past 10 (signature_text f) _ (
        append-Every (λ c. (c == 10) ≡ false) (placeholder_text f.placeholder) (fds_text f.fds)
          signature (fds_text-Lacks f.fds)))

pub read_function-function_text :
    (env : List ℕ → ℤ) (f : CFunction) (array : List BpfInsn)
    → IsName (param_text f.placeholder)
    → Lacks 10 (codes f.name)
    → Lacks 10 (placeholder_text f.placeholder)
    → Every IsShortAssign f.assigns
    → (read_function env (function_text f) >>= store_each array)
      ≡ execute (env (param_text f.placeholder)) (fd_value env) array f.assigns
unfolding read_function
read_function-function_text env f array names name signature short =
    let body = assigns_text f.placeholder f.assigns end_of_function in
    then_some (store_each array)
      (ap (λ t. read_assigns (suc (length t)) env t) (body_of-function_text f name signature)
        ∙ read_assigns-assigns_text env f.placeholder names (suc (length body)) f.assigns
            (omega (arith, length-assigns_text f.placeholder f.assigns)) short)
      (store_each-assigned env f.placeholder names array f.assigns)

pub IsSigned-IsShort : (z : ℤ) → IsSigned 31 z → IsShort z
IsSigned-IsShort (pos n) h = omega (arith, h)
IsSigned-IsShort (negsuc n) h = omega (arith, h)

pub offset-IsShort : (z : ℤ) → IsSigned 15 z → IsShort z
offset-IsShort (pos n) h = omega (arith, h)
offset-IsShort (negsuc n) h = omega (arith, h)

immediate-IsShortImmediate :
    (placeholder : Option Placeholder) (i : BpfInsn)
    → IsSigned 31 i.imm
    → IsShortImmediate (immediate placeholder i)
immediate-IsShortImmediate placeholder i h = elim (Bool-cases (is_fd i)) [
  | inl e ↦ rw e tt
  | inr e ↦ rw e (placed_short placeholder)
]
  where
    placed_short : (placeholder : Option Placeholder) → IsShortImmediate (placed placeholder i.imm)
    placed_short none = IsSigned-IsShort i.imm h
    placed_short (some p) = elim (Bool-cases (same_ℤ i.imm p.imm)) [
      | inl e ↦ rw e tt
      | inr e ↦ rw e (IsSigned-IsShort i.imm h)
    ]

assigns_from-IsShortAssign :
    (placeholder : Option Placeholder) (n : ℕ) (xs : List BpfInsn)
    → Every IsInsn xs
    → n + length xs < 10 ^ 10
    → Every IsShortAssign (assigns_from placeholder n xs)
assigns_from-IsShortAssign placeholder n [] h few = tt
assigns_from-IsShortAssign placeholder n (i ∷ xs) (valid, h) few = (
  record {
    index = omega (arith, few);
    code = valid.code;
    dst_reg = omega (arith, valid.dst_reg);
    src_reg = omega (arith, valid.src_reg);
    off = offset-IsShort i.off valid.off;
    imm = immediate-IsShortImmediate placeholder i valid.imm;
  },
  assigns_from-IsShortAssign placeholder (suc n) xs h (omega (arith, few)),
)

-- The bytes of a program of fewer than 10^10 instructions, whose fields are values of their types, go
-- through `generate_c_function` to a text. Its body is read as assignments of initialisers whose members
-- are found by their names, in which a name stands for any value; if the function's name and its
-- placeholder have no line breaks and the placeholder's name is no number and has no comma, then what is
-- read does to any array what storing a program from the start does that differs in immediate values
-- only: in a load of a map with the descriptor n it is the value of the name `fd<n>`; in another
-- instruction, the value of the placeholder's name if it is what the placeholder stands for; else the same.
pub read_function-generate_c_function :
    (name : String) (placeholder : Option Placeholder) (env : List ℕ → ℤ) (array xs : List BpfInsn)
    → Every IsInsn xs
    → length xs < 10 ^ 10
    → IsName (param_text (signature_of placeholder))
    → Lacks 10 (codes name)
    → Lacks 10 (placeholder_text (signature_of placeholder))
    → (ys : List BpfInsn) × Rebounds
        (env (param_text (signature_of placeholder)))
        (fd_value env)
        placeholder
        xs
        ys
      × ((read_function env (function_text (generate_c_function name (bytes_of xs) placeholder))
            >>= store_each array)
          ≡ store_all array ys)
unfolding generate_c_function
read_function-generate_c_function name placeholder env array xs h few names plain signature =
    let f = generate_c_function name (bytes_of xs) placeholder in
    let arg = env (param_text (signature_of placeholder)) in
    let parsed = get_list_of_instructions-bytes_of (length (bytes_of xs)) xs (omega arith) h in
    let short : Every IsShortAssign f.assigns =
      subst (λ l. Every IsShortAssign (assigns_from placeholder 0 l)) (sym parsed)
        (assigns_from-IsShortAssign placeholder 0 xs h (omega (arith, few))) in
    (
      stored arg (fd_value env) placeholder xs,
      stored-Rebounds arg (fd_value env) placeholder xs,
      read_function-function_text env f array names plain signature short
          ∙ execute-stored name placeholder arg (fd_value env) array xs h,
    )
