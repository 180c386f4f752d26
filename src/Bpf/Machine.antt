-- ===== src/Bpf/Machine.antt =====
-- The machine that runs a BPF program: eleven registers and a stack of 512 bytes. A pointer is kept
-- apart from a number, as the kernel's verifier does, and a use that the verifier refuses is a
-- fault: reading a register or a stack byte that was never written, or leaving the stack.
use mathlib.Core.Option
use rust_ebpf_demo.Prelude.{
  ◌>>=◌, ℕ, zero, suc, ◌+◌, ◌-◌, ◌%◌, ◌^◌, Bool, false, Option, none, some, List, [], ◌∷◌, ◌==◌,
  leb, if◌then◌else◌, get_elem?, set, drop,
}
use rust_ebpf_demo.Prelude.Int.{ℤ, pos, negsuc}
use rust_ebpf_demo.Bpf.Insn.{word}

-- `stack n` points to byte `n` of the stack, so that the frame pointer is `stack 512`;
-- `map_value fd a n` points to byte `n` of the value at address `a` of the map `fd`.
pub data Value : Type 0 where
  num : ℕ → Value
  stack : ℕ → Value
  ctx : Value
  map_fd : ℤ → Value
  map_value : ℤ → ℕ → ℕ → Value

abbrev pub Memory : Type 0
Memory = List (Option ℕ)

pub record Machine (S : Type 0) : Type 0 where
  pub regs : List (Option Value)
  pub memory : Memory
  pub kernel : S

pub data Outcome (S : Type 0) : Type 0 where
  exited : ℕ → S → Outcome S
  fault : Outcome S
  out_of_fuel : Outcome S

abbrev pub write_at : ℕ → List ℕ → Memory → Option Memory
write_at o [] m = some m
write_at o (b ∷ bs) [] = none
write_at zero (b ∷ bs) (x ∷ m) = Option.map (λ r. some b ∷ r) (write_at zero bs m)
write_at (suc o) (b ∷ bs) (x ∷ m) = Option.map (λ r. x ∷ r) (write_at o (b ∷ bs) m)

-- `n` bytes from `o` on, all of which must have been written.
abbrev pub read_at : ℕ → ℕ → Memory → Option (List ℕ)
read_at o zero m = some []
read_at o (suc n) [] = none
read_at zero (suc n) (x ∷ m) = do b ← x; bs ← read_at zero n m; some (b ∷ bs)
read_at (suc o) (suc n) (x ∷ m) = read_at o (suc n) m

-- What an instruction leads to: the next instruction, one of two, or the end.
pub data Next (S : Type 0) : Type 0 where
  goto : ℕ → Machine S → Next S
  branch : Bool → ℕ → ℕ → Machine S → Next S
  stop : ℕ → S → Next S

-- A pointer moved by a signed offset, if that is not below the start of what it points into.
abbrev pub move : ℕ → ℤ → Option ℕ
move o (pos n) = some (o + n)
move o (negsuc n) = if leb (n + 1) o then some (o - (n + 1)) else none

abbrev pub number : Value → Option ℕ
number (num n) = some n
number _ = none

abbrev pub is_ctx : Value → Option (Unit {0})
is_ctx ctx = some tt
is_ctx _ = none

abbrev pub fd_of : Value → Option ℤ
fd_of (map_fd fd) = some fd
fd_of _ = none

abbrev pub add_value : Value → ℤ → Option Value
add_value (num a) i = some (num ((a + word 64 i) % 2 ^ 64))
add_value (stack o) i = Option.map (λ p. stack p) (move o i)
add_value (map_value fd a o) i = Option.map (λ p. map_value fd a p) (move o i)
add_value _ i = none

-- Whether a value equals a number. A pointer may be compared with zero only, and is not zero.
abbrev pub eq_value : Value → ℕ → Option Bool
eq_value (num a) k = some (a == k)
eq_value (map_value fd a o) k = if k == 0 then some false else none
eq_value _ k = none

-- The address that `probe_read` is given: that of a map's value, or any number.
abbrev pub source_address : Value → Option ℕ
source_address (num a) = some a
source_address (map_value fd a o) = some (a + o)
source_address _ = none

abbrev pub found_value : ℤ → Option ℕ → Value
found_value fd none = num 0
found_value fd (some a) = map_value fd a 0

-- The target of a jump: the offset counts from the next instruction.
abbrev pub jump : ℕ → ℤ → Option ℕ
jump pc off = move (pc + 1) off

module _ {S : Type 0} where
  abbrev pub reg : ℕ → Machine S → Option Value
  reg i m = do v ← get_elem? m.regs i; v

  abbrev pub set_reg : ℕ → Value → Machine S → Machine S
  set_reg i v m = record m { regs = set m.regs i (some v) }

  -- A call leaves its result in register 0 and may overwrite registers 1 to 5.
  abbrev pub return_value : Value → S → Machine S → Machine S
  return_value v s m = record m {
    regs = some v ∷ none ∷ none ∷ none ∷ none ∷ none ∷ drop 6 m.regs;
    kernel = s;
  }

  -- `n` bytes from the stack that a register points to
  abbrev pub read_stack : Value → ℕ → Machine S → Option (List ℕ)
  read_stack (stack o) n m = read_at o n m.memory
  read_stack _ n m = none

  abbrev pub write_stack : Value → List ℕ → Machine S → Option (Machine S)
  write_stack (stack o) bs m =
      Option.map (λ mem. record m { memory = mem }) (write_at o bs m.memory)
  write_stack _ bs m = none
