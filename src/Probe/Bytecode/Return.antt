-- ===== src/Probe/Bytecode/Return.antt =====
-- The program for the return of `do_sys_open`: `generate_trace_return` of
-- opensnoop/generated_bytecode.h, instruction by instruction.
use rust_ebpf_demo.Prelude.{Option, List, [], ◌∷◌, ◌++◌}
use rust_ebpf_demo.Prelude.Int.{ℤ, pos, neg}
use rust_ebpf_demo.Bpf.Insn.{BpfInsn, insn, r0, r1, r2, r3, r4, r5, r6, r7, r8, r10}
use rust_ebpf_demo.Probe.Bytecode.Store.{store_all}

-- The instructions 0 to 19: the id, and the first part of a `struct data_t` of zeros.
abbrev pub return_zeros : List BpfInsn
return_zeros =
    (insn 0xbf r6 r1 (pos 0) (pos 0)
      ∷ insn 0x85 r0 r0 (pos 0) (pos 14)
      ∷ insn 0x7b r10 r0 (neg 8) (pos 0)
      ∷ insn 0xb7 r1 r0 (pos 0) (pos 0)
      ∷ insn 0x7b r10 r1 (neg 16) (pos 0)
      ∷ insn 0x7b r10 r1 (neg 24) (pos 0)
      ∷ insn 0x7b r10 r1 (neg 32) (pos 0)
      ∷ insn 0x7b r10 r1 (neg 40) (pos 0)
      ∷ insn 0x7b r10 r1 (neg 48) (pos 0)
      ∷ insn 0x7b r10 r1 (neg 56) (pos 0)
      ∷ insn 0x7b r10 r1 (neg 64) (pos 0)
      ∷ insn 0x7b r10 r1 (neg 72) (pos 0)
      ∷ insn 0x7b r10 r1 (neg 80) (pos 0)
      ∷ insn 0x7b r10 r1 (neg 88) (pos 0)
      ∷ insn 0x7b r10 r1 (neg 96) (pos 0)
      ∷ insn 0x7b r10 r1 (neg 104) (pos 0)
      ∷ insn 0x7b r10 r1 (neg 112) (pos 0)
      ∷ insn 0x7b r10 r1 (neg 120) (pos 0)
      ∷ insn 0x7b r10 r1 (neg 128) (pos 0)
      ∷ insn 0x7b r10 r1 (neg 136) (pos 0)
      ∷ [])

-- The instructions 20 to 40: the rest of the zeros.
abbrev pub return_more_zeros : List BpfInsn
return_more_zeros =
    (insn 0x7b r10 r1 (neg 144) (pos 0)
      ∷ insn 0x7b r10 r1 (neg 152) (pos 0)
      ∷ insn 0x7b r10 r1 (neg 160) (pos 0)
      ∷ insn 0x7b r10 r1 (neg 168) (pos 0)
      ∷ insn 0x7b r10 r1 (neg 176) (pos 0)
      ∷ insn 0x7b r10 r1 (neg 184) (pos 0)
      ∷ insn 0x7b r10 r1 (neg 192) (pos 0)
      ∷ insn 0x7b r10 r1 (neg 200) (pos 0)
      ∷ insn 0x7b r10 r1 (neg 208) (pos 0)
      ∷ insn 0x7b r10 r1 (neg 216) (pos 0)
      ∷ insn 0x7b r10 r1 (neg 224) (pos 0)
      ∷ insn 0x7b r10 r1 (neg 232) (pos 0)
      ∷ insn 0x7b r10 r1 (neg 240) (pos 0)
      ∷ insn 0x7b r10 r1 (neg 248) (pos 0)
      ∷ insn 0x7b r10 r1 (neg 256) (pos 0)
      ∷ insn 0x7b r10 r1 (neg 264) (pos 0)
      ∷ insn 0x7b r10 r1 (neg 272) (pos 0)
      ∷ insn 0x7b r10 r1 (neg 280) (pos 0)
      ∷ insn 0x7b r10 r1 (neg 288) (pos 0)
      ∷ insn 0x7b r10 r1 (neg 296) (pos 0)
      ∷ insn 0x7b r10 r1 (neg 304) (pos 0)
      ∷ [])

-- The instructions 41 to 49: the time, and the entry of the map.
abbrev pub return_lookup : ℤ → List BpfInsn
return_lookup fd3 =
    (insn 0x85 r0 r0 (pos 0) (pos 5)
      ∷ insn 0xbf r7 r0 (pos 0) (pos 0)
      ∷ insn 0x18 r1 r1 (pos 0) fd3
      ∷ insn 0x0 r0 r0 (pos 0) (pos 0)
      ∷ insn 0xbf r2 r10 (pos 0) (pos 0)
      ∷ insn 0x7 r2 r0 (pos 0) (neg 8)
      ∷ insn 0x85 r0 r0 (pos 0) (pos 1)
      ∷ insn 0xbf r8 r0 (pos 0) (pos 0)
      ∷ insn 0x15 r8 r0 (pos 30) (pos 0)
      ∷ [])

-- The instructions 50 to 65: the event.
abbrev pub return_fill : List BpfInsn
return_fill =
    (insn 0xbf r3 r8 (pos 0) (pos 0)
      ∷ insn 0x7 r3 r0 (pos 0) (pos 8)
      ∷ insn 0xbf r1 r10 (pos 0) (pos 0)
      ∷ insn 0x7 r1 r0 (pos 0) (neg 284)
      ∷ insn 0xb7 r2 r0 (pos 0) (pos 16)
      ∷ insn 0x85 r0 r0 (pos 0) (pos 4)
      ∷ insn 0x79 r3 r8 (pos 24) (pos 0)
      ∷ insn 0xbf r1 r10 (pos 0) (pos 0)
      ∷ insn 0x7 r1 r0 (pos 0) (neg 268)
      ∷ insn 0xb7 r2 r0 (pos 0) (pos 255)
      ∷ insn 0x85 r0 r0 (pos 0) (pos 4)
      ∷ insn 0x79 r1 r8 (pos 0) (pos 0)
      ∷ insn 0x7b r10 r7 (neg 296) (pos 0)
      ∷ insn 0x7b r10 r1 (neg 304) (pos 0)
      ∷ insn 0x79 r1 r6 (pos 80) (pos 0)
      ∷ insn 0x63 r10 r1 (neg 288) (pos 0)
      ∷ [])

-- The instructions 66 to 81: the event is handed over, and the entry of the map removed.
abbrev pub return_submit : ℤ → ℤ → List BpfInsn
return_submit fd3 fd4 =
    (insn 0x18 r2 r1 (pos 0) fd4
      ∷ insn 0x0 r0 r0 (pos 0) (pos 0)
      ∷ insn 0xbf r4 r10 (pos 0) (pos 0)
      ∷ insn 0x7 r4 r0 (pos 0) (neg 304)
      ∷ insn 0xbf r1 r6 (pos 0) (pos 0)
      ∷ insn 0x18 r3 r0 (pos 0) (neg 1)
      ∷ insn 0x0 r0 r0 (pos 0) (pos 0)
      ∷ insn 0xb7 r5 r0 (pos 0) (pos 296)
      ∷ insn 0x85 r0 r0 (pos 0) (pos 25)
      ∷ insn 0x18 r1 r1 (pos 0) fd3
      ∷ insn 0x0 r0 r0 (pos 0) (pos 0)
      ∷ insn 0xbf r2 r10 (pos 0) (pos 0)
      ∷ insn 0x7 r2 r0 (pos 0) (neg 8)
      ∷ insn 0x85 r0 r0 (pos 0) (pos 3)
      ∷ insn 0xb7 r0 r0 (pos 0) (pos 0)
      ∷ insn 0x95 r0 r0 (pos 0) (pos 0)
      ∷ [])

-- The instructions of `generate_trace_return`.
abbrev pub trace_return_insns : ℤ → ℤ → List BpfInsn
trace_return_insns fd3 fd4 =
    return_zeros
    ++ (return_more_zeros ++ (return_lookup fd3 ++ (return_fill ++ return_submit fd3 fd4)))

-- `generate_trace_return` stores them into the caller's array.
unfoldable pub generate_trace_return : List BpfInsn → ℤ → ℤ → Option (List BpfInsn)
generate_trace_return instructions fd3 fd4 = store_all instructions (trace_return_insns fd3 fd4)
