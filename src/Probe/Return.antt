-- ===== src/Probe/Return.antt =====
-- The bytecode for the return of `do_sys_open` does what its C source says.
use rust_ebpf_demo.Prelude.{
  ℕ, ◌%◌, ◌^◌, ◌≡◌, refl, Option, none, some, ap, List, [], ◌∷◌, ◌++◌, map, replicate, tabulate,
  ◌+◌,
}
use rust_ebpf_demo.Prelude.Int.{ℤ}
use rust_ebpf_demo.Prelude.Bytes.{to_le, to_le-mod}
use rust_ebpf_demo.Bpf.Kernel.{Kernel}
use rust_ebpf_demo.Bpf.Vm.{exec, run}
use rust_ebpf_demo.Bpf.Machine.{Machine, num, stack, ctx, found_value}
use rust_ebpf_demo.Probe.Layout.{DataT, encode_data, info_map}
use rust_ebpf_demo.Probe.Source.{trace_return, return_found, submit_event, regs_rc, val_u64}
use rust_ebpf_demo.Probe.Bytecode.Return.{trace_return_insns}

-- The stack once the id and a `struct data_t` of zeros are in place.
abbrev zeroed : ℕ → List (Option ℕ)
zeroed id = replicate 208 none ++ (map some (replicate 296 0) ++ map some (to_le 8 id))

-- The four bytes of `ret` are those of the whole register.
encode_data-ret : (d : DataT) → encode_data d ≡ encode_data (record d { ret = d.ret % 2 ^ 32 })
encode_data-ret d =
    ap
      (λ ret.
        to_le 8 d.id
        ++ (to_le 8 d.ts
            ++ (ret ++ (tabulate 16 d.comm ++ (tabulate 255 d.fname ++ replicate 5 0)))))
      (to_le-mod d.ret)

module _ {S : Type 0} (k : Kernel S) (arg : ℕ → ℕ) (infotmp events : ℤ) (s : S) where
  -- The machine behind the call of `infotmp.lookup`, which answers `found`.
  looked_up : (id tsp : ℕ) → Option ℕ → S → Machine S
  looked_up id tsp found s = record {
    regs =
        some (found_value infotmp found)
        ∷ none
        ∷ none
        ∷ none
        ∷ none
        ∷ none
        ∷ some ctx
        ∷ some (num tsp)
        ∷ none
        ∷ none
        ∷ some (stack 512)
        ∷ [];
    memory = zeroed id;
    kernel = s;
  }

  exec-looked_up :
      (id tsp : ℕ) (found : Option ℕ) (s : S)
      → exec k info_map arg 35 (trace_return_insns infotmp events) 48 (looked_up id tsp found s)
        ≡ return_found k arg infotmp events id tsp s found
  unfolding looked_up exec return_found
  exec-looked_up id tsp none s = refl
  exec-looked_up id tsp (some valp) s =
      let comm = k.probe_read 16 (valp + 8) s in
      let fname = k.probe_read 255 (val_u64 k comm.state valp 24) comm.state in
      ap (submit_event k arg infotmp events id fname.state) (
        encode_data-ret (record {
          id = val_u64 k fname.state valp 0;
          ts = tsp;
          ret = regs_rc arg;
          comm = comm.written;
          fname = fname.written;
        }))

  -- A run of the bytecode for the return ends as `trace_return` does: it looks up the entry, hands over
  -- the same 296 bytes and deletes the entry, or exits if there is none, whatever the kernel, its state
  -- and the descriptors.
  pub run-trace_return :
      run k info_map arg (trace_return_insns infotmp events) s ≡ trace_return k arg infotmp events s
  unfolding run trace_return looked_up
  run-trace_return =
      let id = k.get_current_pid_tgid s in
      let tsp = k.ktime_get_ns id.state in
      let found = k.map_lookup_elem infotmp (to_le 8 id.value) tsp.state in
      exec-looked_up id.value tsp.value found.address found.state
