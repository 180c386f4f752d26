-- ===== src/Generator/Listing.antt =====
-- print_list_of_instructions of opensnoop/debug.py: a listing of bytecode with a comment for each
-- instruction. An exception of Python is `none`.
use mathlib.Core.Option
use mathlib.Core.Path.{subst}
use Prim.Native.String.{String}
use rust_ebpf_demo.Prelude.{
  ◌>>=◌, ℕ, suc, ◌+◌, ◌-◌, ◌/◌, ◌%◌, ◌≡◌, refl, Bool, true, false, Option, none, some, List, [],
  ◌∷◌, ◌++◌, ◌==◌, if◌then◌else◌, ltb, length, get_elem?, take, drop,
}
use rust_ebpf_demo.Prelude.Int.{ℤ, pos, negsuc}
use rust_ebpf_demo.Prelude.Bytes.{to_le}
use rust_ebpf_demo.Bpf.Insn.{BpfInsn, word}
use rust_ebpf_demo.Bpf.Encode.{parse_instruction}
use rust_ebpf_demo.Clib.Text.{codes}
use rust_ebpf_demo.Clib.Decimal.{decimal}
use rust_ebpf_demo.Clib.Printf.{decimal_ℤ, pad_left}
use rust_ebpf_demo.Generator.{get_list_of_instructions}
use rust_ebpf_demo.Generator.Text.{hex_digit}

-- `_bpf_func_id`
abbrev bpf_func_id : List String
bpf_func_id =
    "bpf_unspec" ∷ "bpf_map_lookup_elem" ∷ "bpf_map_update_elem" ∷ "bpf_map_delete_elem"
    ∷ "bpf_probe_read" ∷ "bpf_ktime_get_ns" ∷ "bpf_trace_printk" ∷ "bpf_get_prandom_u32"
    ∷ "bpf_get_smp_processor_id" ∷ "bpf_skb_store_bytes" ∷ "bpf_l3_csum_replace"
    ∷ "bpf_l4_csum_replace" ∷ "bpf_tail_call" ∷ "bpf_clone_redirect" ∷ "bpf_get_current_pid_tgid"
    ∷ "bpf_get_current_uid_gid" ∷ "bpf_get_current_comm" ∷ "bpf_get_cgroup_classid"
    ∷ "bpf_skb_vlan_push" ∷ "bpf_skb_vlan_pop" ∷ "bpf_skb_get_tunnel_key" ∷ "bpf_skb_set_tunnel_key"
    ∷ "bpf_perf_event_read" ∷ "bpf_redirect" ∷ "bpf_get_route_realm" ∷ "bpf_perf_event_output"
    ∷ "bpf_skb_load_bytes" ∷ "bpf_get_stackid" ∷ "bpf_csum_diff" ∷ "bpf_skb_get_tunnel_opt"
    ∷ "bpf_skb_set_tunnel_opt" ∷ []

-- A negative index counts from the end.
abbrev func_name : ℤ → Option String
func_name (pos n) = get_elem? bpf_func_id n
func_name (negsuc n) =
    let count = length bpf_func_id in
    if ltb n count then get_elem? bpf_func_id (count - (n + 1)) else none

abbrev hexlify : List ℕ → List ℕ
hexlify [] = []
hexlify (b ∷ bs) = hex_digit (b / 16) ∷ hex_digit (b % 16) ∷ hexlify bs

-- The four bytes, the highest one first.
abbrev format_imm_bytes : ℤ → List ℕ
format_imm_bytes imm =
    let s = hexlify (to_le 4 (word 32 imm)) in
    take 2 (drop 6 s) ++ (take 2 (drop 4 s) ++ (take 2 (drop 2 s) ++ take 2 s))

abbrev reg_text : ℕ → List ℕ
reg_text n = b'r' ∷ decimal n

-- The operators and their suffixes, by the upper half of the opcode.
abbrev operators : List (String × String)
operators =
    ("+=", "")
    ∷ ("-=", "")
    ∷ ("*=", "")
    ∷ ("/=", "")
    ∷ ("|=", "")
    ∷ ("&=", "")
    ∷ ("<<=", "")
    ∷ (">>=", " (logical)")
    ∷ ("= -", "")
    ∷ ("%=", "")
    ∷ ("^=", "")
    ∷ ("=", "")
    ∷ (">>=", " (arithmetic)")
    ∷ []

abbrev operator_of : Option (String × String) → String × String
operator_of none = ("op?", "")
operator_of (some op) = op

abbrev alu_text : BpfInsn → List ℕ
alu_text i =
    let src_operand = if i.code / 8 % 2 == 1 then reg_text i.src_reg else decimal_ℤ i.imm in
    let (op, op_suffix) = operator_of (get_elem? operators (i.code / 16 % 16)) in
    reg_text i.dst_reg ++ (b' ' ∷ codes op ++ (b' ' ∷ src_operand ++ codes op_suffix))

abbrev call_text : Option String → Option (List ℕ)
call_text none = none
call_text (some name) = some (codes "call " ++ (codes name ++ codes "()"))

-- The value of such an instruction goes on in the next slot.
abbrev wide_text : BpfInsn → Option BpfInsn → Option (List ℕ)
wide_text i none = none
wide_text i (some next) =
    some (
      reg_text i.dst_reg
      ++ (codes " = 0x" ++ (format_imm_bytes next.imm ++ format_imm_bytes i.imm)))

-- `(r%d + %d)`
abbrev place_text : ℕ → ℤ → List ℕ
place_text n off = b'(' ∷ reg_text n ++ (codes " + " ++ (decimal_ℤ off ++ codes ")"))

-- The comment, for an instruction and the next slot, if there is one.
unfoldable pub decode_instruction : BpfInsn → Option BpfInsn → Option (List ℕ)
decode_instruction i next =
    if i.code == 0x00
    then some (codes "error: should have been handled by previous instruction")
    else if i.code % 8 == 0x07
    then some (alu_text i)
    else if i.code == 0x85
    then call_text (func_name i.imm)
    else if i.code == 0x95
    then some (codes "exit")
    else if i.code == 0x55
    then some (
        codes "PC += "
        ++ (decimal_ℤ i.off
            ++ (codes " if " ++ (reg_text i.dst_reg ++ (codes " != " ++ decimal_ℤ i.imm)))))
    else if i.code == 0x79
    then some
        (codes "*(u64 *) " ++ (reg_text i.dst_reg ++ (codes " = " ++ place_text i.src_reg i.off)))
    else if i.code == 0x73
    then some
        (codes "*(u8 *) " ++ (place_text i.dst_reg i.off ++ (codes " = " ++ reg_text i.src_reg)))
    else if i.code == 0x7b
    then some
        (codes "*(u64 *) " ++ (place_text i.dst_reg i.off ++ (codes " = " ++ reg_text i.src_reg)))
    else if i.code == 0x18
    then wide_text i next
    else some (codes "!!!")

-- A line: the slot's number, its bytes, and the comment, which the second slot of a wide instruction
-- does not have.
pub record Listed : Type 0 where
  pub index : ℕ
  pub bytes : List ℕ
  pub comment : Option (List ℕ)

abbrev comment_text : Option (List ℕ) → List ℕ
comment_text none = 10 ∷ []
comment_text (some text) = codes " # " ++ (text ++ (10 ∷ []))

abbrev pub listed_text : Listed → List ℕ
listed_text l = pad_left 2 (decimal l.index) ++ (b' ' ∷ hexlify l.bytes ++ comment_text l.comment)

abbrev one_slot : ℕ → List ℕ → List ℕ → List Listed → List Listed
one_slot index slot text more = record { index = index; bytes = slot; comment = some text } ∷ more

abbrev two_slots : ℕ → List ℕ → List ℕ → List ℕ → List Listed → List Listed
two_slots index slot next text more =
    record { index = index; bytes = slot; comment = some text }
    ∷ record { index = suc index; bytes = next; comment = none }
    ∷ more

unfoldable pub list_from : ℕ → List (List ℕ) → Option (List Listed)
unfolding decode_instruction
list_from index [] = some []
list_from index (slot ∷ []) = do
  text ← decode_instruction (parse_instruction slot) none
  some (one_slot index slot text [])
list_from index (slot ∷ next ∷ slots) =
    let i = parse_instruction slot in
    decode_instruction i (some (parse_instruction next)) >>= λ text. elim (i.code == 0x18) [
      | true ↦ Option.map (two_slots index slot next text) (list_from (suc (suc index)) slots)
      | false ↦ Option.map (one_slot index slot text) (list_from (suc index) (next ∷ slots))
    ]

unfoldable pub print_list_of_instructions : List ℕ → Option (List Listed)
unfolding list_from
print_list_of_instructions bytecode =
    list_from 0 (get_list_of_instructions (length bytecode) bytecode)

-- The slots of a listing, from a number on.
abbrev pub IsListing : ℕ → List (List ℕ) → List Listed → Type 0
IsListing index [] [] = Unit
IsListing index [] (l ∷ ls) = ⊥
IsListing index (slot ∷ slots) [] = ⊥
IsListing index (slot ∷ slots) (l ∷ ls) =
    (l.index ≡ index) × (l.bytes ≡ slot) × IsListing (suc index) slots ls

abbrev Lists : ℕ → List (List ℕ) → Option (List Listed) → Type 0
Lists index slots none = Unit
Lists index slots (some ls) = IsListing index slots ls

-- Wherever decoding does not fail, each slot has one line, in order, with its number and its bytes.
list_from-Lists : (index : ℕ) (slots : List (List ℕ)) → Lists index slots (list_from index slots)
unfolding list_from
list_from-Lists index [] = tt
list_from-Lists index (slot ∷ []) = single (decode_instruction (parse_instruction slot) none)
  where
    single :
        (text : Option (List ℕ))
        → Lists index (slot ∷ []) (text >>= λ t. some (one_slot index slot t []))
    single none = tt
    single (some t) = (refl, refl, tt)
list_from-Lists index (slot ∷ next ∷ slots) =
    both (decode_instruction (parse_instruction slot) (some (parse_instruction next)))
      ((parse_instruction slot).code == 0x18) (list_from (suc (suc index)) slots)
      (list_from (suc index) (next ∷ slots)) (list_from-Lists (suc (suc index)) slots)
      (list_from-Lists (suc index) (next ∷ slots))
  where
    wide :
        (text : List ℕ) (behind : Option (List Listed))
        → Lists (suc (suc index)) slots behind
        → Lists index (slot ∷ next ∷ slots) (Option.map (two_slots index slot next text) behind)
    wide text none h = tt
    wide text (some ls) h = (refl, refl, (refl, refl, h))

    narrow :
        (text : List ℕ) (later : Option (List Listed))
        → Lists (suc index) (next ∷ slots) later
        → Lists index (slot ∷ next ∷ slots) (Option.map (one_slot index slot text) later)
    narrow text none h = tt
    narrow text (some ls) h = (refl, refl, h)

    both :
        (decoded : Option (List ℕ)) (b : Bool) (behind later : Option (List Listed))
        → Lists (suc (suc index)) slots behind
        → Lists (suc index) (next ∷ slots) later
        → Lists index (slot ∷ next ∷ slots) (
            decoded >>= λ text. elim b [
              | true ↦ Option.map (two_slots index slot next text) behind
              | false ↦ Option.map (one_slot index slot text) later
            ])
    both none b behind later h k = tt
    both (some text) true behind later h k = wide text behind h
    both (some text) false behind later h k = narrow text later k

-- A listing that is printed has one line for each slot of the bytecode, in order, with its number and
-- its bytes.
pub print_list_of_instructions-IsListing :
    (bytecode : List ℕ) (ls : List Listed)
    → print_list_of_instructions bytecode ≡ some ls
    → IsListing 0 (get_list_of_instructions (length bytecode) bytecode) ls
unfolding print_list_of_instructions
print_list_of_instructions-IsListing bytecode ls e =
    let slots = get_list_of_instructions (length bytecode) bytecode in
    subst (λ r. Lists 0 slots r) e (list_from-Lists 0 slots)
