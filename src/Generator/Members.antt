-- ===== src/Generator/Members.antt =====
-- The initialiser of a `struct bpf_insn` in a C text, whose members are found by their names.
use rust_ebpf_demo.Prelude.{
  ◌>>=◌, ℕ, zero, suc, ◌^◌, ◌<◌, ◌≡◌, refl, ap, ◌∙◌, Bool, true, false, ◌&&◌, Option, none, some,
  List, [], ◌∷◌, ◌++◌, Every, length, map, ◌==◌, if◌then◌else◌, arith,
}
use rust_ebpf_demo.Prelude.Int.{ℤ}
use rust_ebpf_demo.Bpf.Insn.{BpfInsn}
use rust_ebpf_demo.Clib.Text.{codes}
use rust_ebpf_demo.Clib.Decimal.{decimal}
use rust_ebpf_demo.Clib.Printf.{decimal_ℤ, IsShort}
use rust_ebpf_demo.Generator.Text.{text_line, hex}
use rust_ebpf_demo.Generator.Read.{
  expect, until, skip, Lacks, until_append, decimal-Lacks, decimal_ℤ-Lacks, hex-Lacks, unhex,
  unhex-hex, read_ℕ, read_ℤ, read_ℕ-decimal, read_ℤ-decimal_ℤ,
}

-- `.name = `, and the text behind it.
abbrev pub read_name : List ℕ → Option (List ℕ × List ℕ)
read_name text = do
  named ← expect (codes ".") (skip text)
  rest ← expect (codes "= ") (skip (until b' ' named).1)
  some ((until b' ' named).0, rest)

-- The value up to a byte, and the text behind the piece that begins with it.
abbrev pub read_until : ℕ → List ℕ → List ℕ → Option (List ℕ × List ℕ)
read_until stop piece text = do
  rest ← expect (stop ∷ piece) (until stop text).1
  some ((until stop text).0, rest)

-- `.name = value,` and a line break.
abbrev pub read_member : List ℕ → Option ((List ℕ × List ℕ) × List ℕ)
read_member text = do
  named ← read_name text
  valued ← read_until b',' (10 ∷ []) named.1
  some ((named.0, valued.0), valued.1)

-- As many members, with their names.
abbrev pub read_members : ℕ → List ℕ → Option (List (List ℕ × List ℕ) × List ℕ)
read_members zero text = some ([], text)
read_members (suc n) text = do
  first ← read_member text
  more ← read_members n first.1
  some (first.0 ∷ more.0, more.1)

abbrev same_text : List ℕ → List ℕ → Bool
same_text [] [] = true
same_text [] (d ∷ ds) = false
same_text (c ∷ cs) [] = false
same_text (c ∷ cs) (d ∷ ds) = c == d && same_text cs ds

-- The value of the member with this name.
abbrev pub member : List ℕ → List (List ℕ × List ℕ) → Option (List ℕ)
member name [] = none
member name (m ∷ more) =
    let later = member name more in if same_text name m.0 then some m.1 else later

-- The instruction for these members; the immediate value is read by `read_imm`.
abbrev pub read_insn : (List ℕ → ℤ) → List (List ℕ × List ℕ) → Option BpfInsn
read_insn read_imm members = do
  code ← member (codes "code") members
  hexed ← expect (codes "0x") code
  dst ← member (codes "dst_reg") members
  dst_number ← expect (codes "BPF_REG_") dst
  src ← member (codes "src_reg") members
  src_number ← expect (codes "BPF_REG_") src
  off ← member (codes "off") members
  imm ← member (codes "imm") members
  some (record {
    code = unhex hexed;
    dst_reg = read_ℕ dst_number;
    src_reg = read_ℕ src_number;
    off = read_ℤ off;
    imm = read_imm imm;
  })

expect_append : (piece rest : List ℕ) → expect piece (piece ++ rest) ≡ some rest
expect_append [] rest = refl
expect_append (p ∷ ps) rest =
    let same : (p == p) ≡ true = ground arith in rw same (expect_append ps rest)

pub read_until_append :
    (stop : ℕ) (piece value rest : List ℕ)
    → Lacks stop value
    → read_until stop piece (value ++ stop ∷ (piece ++ rest)) ≡ some (value, rest)
read_until_append stop piece value rest lacks =
    rw (until_append stop value (piece ++ rest) lacks, expect_append (stop ∷ piece) rest) refl

-- What stands in front of a value, the name in it, and the value.
pub record Member : Type 0 where
  pub front : List ℕ
  pub name : List ℕ
  pub value : List ℕ

abbrev pub members_text : List Member → List ℕ → List ℕ
members_text [] rest = rest
members_text (m ∷ more) rest = m.front ++ (m.value ++ text_line "," (members_text more rest))

pub record IsMember (m : Member) : Type 0 where
  pub named : (rest : List ℕ) → read_name (m.front ++ rest) ≡ some (m.name, rest)
  pub ends : Lacks b',' m.value

abbrev pub pairs : List Member → List (List ℕ × List ℕ)
pairs = map (λ m. (m.name, m.value))

pub then_some {ℓ κ} :
    {A : Type ℓ} {B : Type κ} {m : Option A} {a : A} {r : Option B} (f : A → Option B)
    → m ≡ some a
    → f a ≡ r
    → (m >>= f) ≡ r
then_some f p q = ap (λ m. m >>= f) p ∙ q

read_member_lem :
    (m : Member) (rest : List ℕ)
    → IsMember m
    → read_member (m.front ++ (m.value ++ text_line "," rest)) ≡ some ((m.name, m.value), rest)
read_member_lem m rest h =
    then_some _ (h.named (m.value ++ text_line "," rest))
      (then_some _ (read_until_append b',' (10 ∷ []) m.value rest h.ends) refl)

pub read_members_lem :
    (ms : List Member) (rest : List ℕ)
    → Every IsMember ms
    → read_members (length ms) (members_text ms rest) ≡ some (pairs ms, rest)
read_members_lem [] rest h = refl
read_members_lem (m ∷ ms) rest (first, h) =
    then_some _ (read_member_lem m (members_text ms rest) first)
      (then_some _ (read_members_lem ms rest h) refl)

-- The members of an instruction, with this text for the immediate value.
abbrev pub insn_members : ℕ → ℕ → ℕ → ℤ → List ℕ → List Member
insn_members code dst src off imm =
    record {
      front = codes "      .code    = ";
      name = codes "code";
      value = codes "0x" ++ hex code;
    }
    ∷ record {
      front = codes "      .dst_reg = ";
      name = codes "dst_reg";
      value = codes "BPF_REG_" ++ decimal dst;
    }
    ∷ record {
      front = codes "      .src_reg = ";
      name = codes "src_reg";
      value = codes "BPF_REG_" ++ decimal src;
    }
    ∷ record { front = codes "      .off     = "; name = codes "off"; value = decimal_ℤ off }
    ∷ record { front = codes "      .imm     = "; name = codes "imm"; value = imm }
    ∷ []

module _ (code dst src : ℕ) (off : ℤ) (imm : List ℕ) (byte : code < 256) where
  register-Lacks : (n : ℕ) → Lacks b',' (codes "BPF_REG_" ++ decimal n)
  register-Lacks n =
      (refl, (refl, (refl, (refl, (refl, (refl, (refl, (refl, decimal-Lacks b',' n refl))))))))

  pub insn_members-IsMember : Lacks b',' imm → Every IsMember (insn_members code dst src off imm)
  insn_members-IsMember plain = (
    record { named = λ rest. refl; ends = (refl, (refl, hex-Lacks code byte)) },
    (
      record { named = λ rest. refl; ends = register-Lacks dst },
      (
        record { named = λ rest. refl; ends = register-Lacks src },
        (
          record { named = λ rest. refl; ends = decimal_ℤ-Lacks b',' off refl refl },
          (record { named = λ rest. refl; ends = plain }, tt),
        ),
      ),
    ),
  )

  pub read_insn-insn_members :
      (read_imm : List ℕ → ℤ) (z : ℤ)
      → dst < 10 ^ 10
      → src < 10 ^ 10
      → IsShort off
      → read_imm imm ≡ z
      → read_insn read_imm (pairs (insn_members code dst src off imm))
        ≡ some (record { code = code; dst_reg = dst; src_reg = src; off = off; imm = z })
  read_insn-insn_members read_imm z few_dst few_src short e =
      let c = unhex-hex code byte in
      let d = read_ℕ-decimal dst few_dst in
      let s = read_ℕ-decimal src few_src in
      let o = read_ℤ-decimal_ℤ off short in
      λ t. some (record { code = c t; dst_reg = d t; src_reg = s t; off = o t; imm = e t })
