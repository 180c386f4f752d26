-- ===== src/Bpf/Vm.antt =====
-- The instructions of a BPF program on the machine, one by one, and runs of a program.
use Prim.Native.Nat.{bit_and}
use rust_ebpf_demo.Prelude.{
  ◌>>=◌, ◌>>◌, ℕ, zero, suc, ◌+◌, ◌*◌, ◌/◌, ◌%◌, ◌^◌, Option, none, some, List, [], ◌∷◌, ◌==◌, leb,
  if◌then◌else◌, length, get_elem?, replicate, tabulate,
}
use rust_ebpf_demo.Prelude.Int.{ℤ}
use rust_ebpf_demo.Prelude.Bytes.{to_le, from_le}
use rust_ebpf_demo.Bpf.Insn.{
  BpfInsn, Op, ld_dw, ldx_dw, stx_dw, stx_w, stx_b, mov_k, mov_x, add_k, lsh_k, rsh_k, and_x, jeq_k,
  jne_k, jne_x, call, exit, decode_op, word,
}
use rust_ebpf_demo.Bpf.Kernel.{Kernel, MapSpec}
use rust_ebpf_demo.Bpf.Machine.{
  Value, num, stack, ctx, map_fd, map_value, Machine, Outcome, exited, fault, out_of_fuel, read_at,
  Next, goto, branch, stop, move, number, is_ctx, fd_of, add_value, eq_value, source_address,
  found_value, jump, reg, set_reg, return_value, read_stack, write_stack,
}

-- `hash` gives the sizes of the map whose entries the program reads and writes, and `arg o` is the
-- 8-byte field at offset `o` of the program's context.
module _ {S : Type 0} (k : Kernel S) (hash : MapSpec) (arg : ℕ → ℕ) where
  load : Value → ℤ → ℕ → Machine S → Option ℕ
  load (stack o) off n m = do p ← move o off; bs ← read_at p n m.memory; some (from_le bs)
  load (map_value fd a o) off n m = do
    p ← move o off
    if leb (p + n) hash.value_size
        then some (from_le (tabulate n (λ i. k.value_byte m.kernel (a + p + i))))
        else none
  load ctx off n m = do p ← move 0 off; if n == 8 then some (arg p) else none
  load _ off n m = none

  store : Value → ℤ → List ℕ → Machine S → Option (Machine S)
  store v off bs m = do p ← add_value v off; write_stack p bs m

  -- The helpers that the programs call, by the numbers of `enum bpf_func_id`.
  call_helper : ℕ → Machine S → Option (Machine S)
  call_helper f m =
      if f == 1
      then (do
        fd ← reg 1 m >>= fd_of
        key ← reg 2 m >>= λ v. read_stack v hash.key_size m
        let found = k.map_lookup_elem fd key m.kernel
        some (return_value (found_value fd found.address) found.state m))
      else if f == 2
      then (do
        fd ← reg 1 m >>= fd_of
        key ← reg 2 m >>= λ v. read_stack v hash.key_size m
        value ← reg 3 m >>= λ v. read_stack v hash.value_size m
        flags ← reg 4 m >>= number
        let r = k.map_update_elem fd key value flags m.kernel
        some (return_value (num r.value) r.state m))
      else if f == 3
      then (do
        fd ← reg 1 m >>= fd_of
        key ← reg 2 m >>= λ v. read_stack v hash.key_size m
        let r = k.map_delete_elem fd key m.kernel
        some (return_value (num r.value) r.state m))
      else if f == 4
      then (do
        to ← reg 1 m
        n ← reg 2 m >>= number
        a ← reg 3 m >>= source_address
        let r = k.probe_read n a m.kernel
        m' ← write_stack to (tabulate n r.written) m
        some (return_value (num r.value) r.state m'))
      else if f == 5
      then (let r = k.ktime_get_ns m.kernel in some (return_value (num r.value) r.state m))
      else if f == 6
      then (do
        n ← reg 2 m >>= number
        bs ← reg 1 m >>= λ v. read_stack v n m
        let r = k.trace_printk bs m.kernel
        some (return_value (num r.value) r.state m))
      else if f == 14
      then (let r = k.get_current_pid_tgid m.kernel in some (return_value (num r.value) r.state m))
      else if f == 16
      then (do
        to ← reg 1 m
        n ← reg 2 m >>= number
        let r = k.get_current_comm n m.kernel
        m' ← write_stack to (tabulate n r.written) m
        some (return_value (num r.value) r.state m'))
      else if f == 25
      then (do
        reg 1 m >>= λ v. is_ctx v
        fd ← reg 2 m >>= fd_of
        flags ← reg 3 m >>= number
        n ← reg 5 m >>= number
        bs ← reg 4 m >>= λ v. read_stack v n m
        let r = k.perf_event_output fd flags bs m.kernel
        some (return_value (num r.value) r.state m))
      else none

  -- One instruction. `next` is the immediate of the one behind it, which `ld_dw` takes in.
  operate : Op → BpfInsn → Option BpfInsn → ℕ → Machine S → Option (Next S)
  unfolding load store call_helper
  operate ld_dw i next pc m = do
    n ← next
    v ←
        if i.src_reg == 1
        then some (map_fd i.imm)
        else if i.src_reg == 0
        then some (num (word 32 i.imm + 2 ^ 32 * word 32 n.imm))
        else none
    some (goto (pc + 2) (set_reg i.dst_reg v m))
  operate ldx_dw i next pc m = do
    p ← reg i.src_reg m
    x ← load p i.off 8 m
    some (goto (pc + 1) (set_reg i.dst_reg (num x) m))
  operate stx_dw i next pc m = do
    p ← reg i.dst_reg m
    x ← reg i.src_reg m >>= number
    m' ← store p i.off (to_le 8 x) m
    some (goto (pc + 1) m')
  operate stx_w i next pc m = do
    p ← reg i.dst_reg m
    x ← reg i.src_reg m >>= number
    m' ← store p i.off (to_le 4 x) m
    some (goto (pc + 1) m')
  operate stx_b i next pc m = do
    p ← reg i.dst_reg m
    x ← reg i.src_reg m >>= number
    m' ← store p i.off (to_le 1 x) m
    some (goto (pc + 1) m')
  operate mov_k i next pc m = some (goto (pc + 1) (set_reg i.dst_reg (num (word 64 i.imm)) m))
  operate mov_x i next pc m = do v ← reg i.src_reg m; some (goto (pc + 1) (set_reg i.dst_reg v m))
  operate add_k i next pc m = do
    v ← reg i.dst_reg m
    v' ← add_value v i.imm
    some (goto (pc + 1) (set_reg i.dst_reg v' m))
  operate lsh_k i next pc m = do
    x ← reg i.dst_reg m >>= number
    some (goto (pc + 1) (set_reg i.dst_reg (num (x * 2 ^ word 64 i.imm % 2 ^ 64)) m))
  operate rsh_k i next pc m = do
    x ← reg i.dst_reg m >>= number
    some (goto (pc + 1) (set_reg i.dst_reg (num (x / 2 ^ word 64 i.imm)) m))
  operate and_x i next pc m = do
    x ← reg i.dst_reg m >>= number
    y ← reg i.src_reg m >>= number
    some (goto (pc + 1) (set_reg i.dst_reg (num (bit_and x y)) m))
  operate jeq_k i next pc m = do
    t ← reg i.dst_reg m >>= λ v. eq_value v (word 64 i.imm)
    to ← jump pc i.off
    some (branch t to (pc + 1) m)
  operate jne_k i next pc m = do
    t ← reg i.dst_reg m >>= λ v. eq_value v (word 64 i.imm)
    to ← jump pc i.off
    some (branch t (pc + 1) to m)
  operate jne_x i next pc m = do
    y ← reg i.src_reg m >>= number
    t ← reg i.dst_reg m >>= λ v. eq_value v y
    to ← jump pc i.off
    some (branch t (pc + 1) to m)
  operate call i next pc m = do m' ← call_helper (word 32 i.imm) m; some (goto (pc + 1) m')
  operate exit i next pc m = do x ← reg 0 m >>= number; some (stop x m.kernel)

  step : List BpfInsn → ℕ → Machine S → Option (Next S)
  unfolding operate
  step prog pc m = do
    i ← get_elem? prog pc
    op ← decode_op i.code
    operate op i (get_elem? prog (pc + 1)) pc m

  -- The rest of a run, `rest`, after an instruction.
  follow : (ℕ → Machine S → Outcome S) → Option (Next S) → Outcome S
  follow rest none = fault
  follow rest (some (goto pc m)) = rest pc m
  follow rest (some (branch t yes_pc no_pc m)) = if t then rest yes_pc m else rest no_pc m
  follow rest (some (stop x s)) = exited x s

  unfoldable pub exec : ℕ → List BpfInsn → ℕ → Machine S → Outcome S
  unfolding step follow
  exec zero prog pc m = out_of_fuel
  exec (suc f) prog pc m = follow (exec f prog) (step prog pc m)

  -- A program starts at its first instruction, with its context in register 1 and the frame pointer
  -- in register 10. Jumps go forward, so that a run takes at most as many steps as instructions.
  unfoldable pub run : List BpfInsn → S → Outcome S
  unfolding exec
  run prog s = exec (length prog) prog 0 (record {
    regs =
        none
        ∷ some ctx
        ∷ none
        ∷ none
        ∷ none
        ∷ none
        ∷ none
        ∷ none
        ∷ none
        ∷ none
        ∷ some (stack 512)
        ∷ [];
    memory = replicate 512 none;
    kernel = s;
  })
