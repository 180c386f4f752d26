-- ===== src/Tests/Interleave.antt =====
-- Two tasks whose calls of open() overlap.
use rust_ebpf_demo.Prelude.{ℕ, ◌≡◌, refl, ◌∙◌, none, some, List, [], ◌∷◌, arith}
use rust_ebpf_demo.Prelude.Int.{pos}
use rust_ebpf_demo.Bpf.Insn.{BpfInsn}
use rust_ebpf_demo.Bpf.Vm.{run}
use rust_ebpf_demo.Bpf.Machine.{exited}
use rust_ebpf_demo.Probe.Layout.{DataT, encode_val, encode_data, info_map}
use rust_ebpf_demo.Probe.Source.{all, trace_entry, trace_return}
use rust_ebpf_demo.Probe.Entry.{run-trace_entry}
use rust_ebpf_demo.Probe.Return.{run-trace_return}
use rust_ebpf_demo.Probe.Bytecode.Store.{store_all}
use rust_ebpf_demo.Probe.Session.{byte_at}
use rust_ebpf_demo.Probe.Bytecode.Entry.{trace_entry_insns, generate_trace_entry}
use rust_ebpf_demo.Probe.Bytecode.Return.{trace_return_insns, generate_trace_return}
use rust_ebpf_demo.Probe.Session.Calls.{Call}
use rust_ebpf_demo.Probe.Session.Agrees.{entry_call, return_call}
use rust_ebpf_demo.Probe.Session.Interleave.{
  enter, leave, switch, Reach, start, later, IsFresh, IsReported,
}
use rust_ebpf_demo.Snoop.Args.{defaults}
use rust_ebpf_demo.Snoop.Program.{entry_program, return_program}
use rust_ebpf_demo.Snoop.Program.Interleave.{runs, IsLoaded, programs-IsReported, programs-exited}
use rust_ebpf_demo.Tests.World.{
  World, view, kernel-Serves, kernel, quiet, regs, blank, put, comm_name, path_name,
}

abbrev pub entry : List BpfInsn
entry = trace_entry_insns (pos 4)

abbrev pub return : List BpfInsn
return = trace_return_insns (pos 4) (pos 5)

loaded : IsLoaded defaults (pos 4) (pos 5) entry return
unfolding entry_program return_program generate_trace_entry generate_trace_return store_all
loaded = record {
  array = blank 35;
  array' = blank 82;
  room = refl;
  room' = refl;
  valid = record { pid = refl; tid = refl; duration = refl };
  entry_loaded = refl;
  return_loaded = refl;
}

-- The entry of a task, as the probe on the way in leaves it.
abbrev note : ℕ → List ℕ
note t = encode_val (record { id = t; comm = byte_at comm_name; fname = 8192 })

-- The thread 43 of the process 42 is in open() when the thread 8 of the process 7 enters it.
abbrev one : World
one = record quiet { entry = put (λ t. none) 180388626475 (some (note 180388626475)) }

abbrev other : World
other = record one { running = 30064771080 }

abbrev both : World
both = record other { entry = put one.entry 30064771080 (some (note 30064771080)) }

abbrev back : World
back = record both { running = 180388626475 }

abbrev pub event : DataT
event = record {
  id = 180388626475;
  ts = 1000;
  ret = 5;
  comm = byte_at comm_name;
  fname = byte_at path_name;
}

abbrev pub last : World
last = record back {
  clock = 1001;
  entry = put both.entry 180388626475 none;
  events = encode_data event ∷ [];
}

enters_one : run kernel info_map regs entry quiet ≡ exited 0 one
unfolding trace_entry
enters_one = run-trace_entry kernel regs (pos 4) quiet ∙ refl

enters_both : run kernel info_map regs entry other ≡ exited 0 both
unfolding trace_entry
enters_both = run-trace_entry kernel regs (pos 4) other ∙ refl

leaves_last : run kernel info_map regs return back ≡ exited 0 last
unfolding trace_return
leaves_last = run-trace_return kernel regs (pos 4) (pos 5) back ∙ refl

abbrev pub calls : List Call
calls =
    return_call view kernel kernel-Serves (pos 4) (pos 5) all regs back
    ∷ (Call.unnoticed 30064771080
        ∷ (entry_call view kernel kernel-Serves (pos 4) (pos 5) all regs other
            ∷ (Call.unnoticed 180388626475
                ∷ (entry_call view kernel kernel-Serves (pos 4) (pos 5) all regs quiet ∷ []))))

pub reached :
    Reach view kernel kernel-Serves (pos 4) (pos 5) all (runs kernel entry return) quiet calls last
reached =
    later
      (later
        (later (later (later start (enter regs (omega arith) enters_one)) (switch refl refl))
          (enter regs (omega arith) enters_both))
        (switch refl refl))
      (leave regs leaves_last)

pub fresh : IsFresh view (pos 4) quiet
fresh = record { entry = λ t. refl; sent = refl }

programs-IsReported_example : IsReported view (pos 4) calls last
programs-IsReported_example =
    programs-IsReported view kernel kernel-Serves (pos 4) (pos 5) defaults entry return quiet last
      calls loaded fresh reached

programs-exited_example :
    ((s' : World) × (run kernel info_map regs entry last ≡ exited 0 s'))
    × ((s' : World) × (run kernel info_map regs return last ≡ exited 0 s'))
programs-exited_example =
    programs-exited view kernel kernel-Serves (pos 4) (pos 5) defaults entry return quiet last calls
      regs loaded fresh reached (omega arith)
