-- ===== src/Snoop/Main/Setup/Tests.antt =====
-- A setup that fails.
use rust_ebpf_demo.Prelude.{◌≡◌, refl, none, some, [], ◌∷◌}
use rust_ebpf_demo.Prelude.Int.{pos, neg}
use rust_ebpf_demo.Snoop.Args.{defaults}
use rust_ebpf_demo.Snoop.Main.State.{
  hash, create_map, complain, Replies, Locals, initial, error, Run,
}
use rust_ebpf_demo.Snoop.Main.Release.{on_error}
use rust_ebpf_demo.Snoop.Main.Setup.{
  take_cpus, get_cpus, allocate_readers, create_hash_map, setup_probes,
}
use rust_ebpf_demo.Snoop.Main.Setup.Failure.{on_error-undefined}
use rust_ebpf_demo.Snoop.Main.Setup.Granted.{granted}
use rust_ebpf_demo.Tests.Machine.{grant, online_two, online_some}

-- The map for the entries cannot be created.
abbrev refused : Replies
refused = record (granted grant) { hash_map = neg 1 }

abbrev no_map : Locals
no_map = record initial {
  cpus = some (pos 0 ∷ pos 1 ∷ []);
  readers = some (none ∷ none ∷ []);
  calls =
      complain "Failed to create BPF_HASH"
      ∷ create_map hash "hashMap name for debugging" 8 32 10240 0 (neg 1)
      ∷ [];
}

setup_probes-refused : setup_probes defaults refused ≡ error no_map
unfolding setup_probes get_cpus take_cpus allocate_readers create_hash_map
setup_probes-refused = rw online_two refl

on_error-undefined_example : on_error defaults no_map ≡ Run.undefined
on_error-undefined_example =
    on_error-undefined defaults refused no_map online_some setup_probes-refused
