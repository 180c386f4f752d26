-- ===== src/Snoop/Main/Setup/Rounds.antt =====
-- The rounds in front of one that fails.
use rust_ebpf_demo.Prelude.{
  ℕ, zero, suc, ◌+◌, ◌≡◌, refl, false, Option, none, some, List, ◌∷◌, ◌++◌, ◌==◌, if◌then◌else◌,
  arith, length, length-tabulate_from,
}
use rust_ebpf_demo.Prelude.Int.{pos, neg, negsuc}
use rust_ebpf_demo.Snoop.Args.{Options}
use rust_ebpf_demo.Snoop.Main.State.{Replies, Call, open_perf_buffer, update_elem}
use rust_ebpf_demo.Snoop.Main.Release.{free_readers}
use rust_ebpf_demo.Snoop.Main.Setup.{
  get_cpus, allocate_readers, create_hash_map, create_events_map, load_entry, load_entry_as,
  attach_entry, load_return, load_return_as, attach_return, setup_probes,
}
use rust_ebpf_demo.Snoop.Main.Setup.Granted.{Grant, granted}
use rust_ebpf_demo.Snoop.Main.Setup.Readers.{opened, filled, Go}

-- Every call succeeds up to round `k` of the loop; there the perf buffer is not opened.
abbrev pub not_opened : Grant → ℕ → Replies
not_opened g k = record (granted g) { reader = λ i. if i == k then none else some (g.reader i) }

-- Every call succeeds up to round `k`; there the map is not updated.
abbrev pub not_updated : Grant → ℕ → ℕ → Replies
not_updated g k rc = record (granted g) { updated = λ i. if i == k then negsuc rc else pos 0 }

module _ (g : Grant) (o : Options) where
  pub not_opened-Go : (k i j : ℕ) → i + j ≡ k → Go g (not_opened g k) i j
  not_opened-Go k i zero e = tt
  not_opened-Go k i (suc j) e =
      let early : (i == k) ≡ false = ground (arith, e) in
      (rw early, refl, not_opened-Go k (suc i) j (omega (arith, e)))

  pub not_updated-Go : (k rc i j : ℕ) → i + j ≡ k → Go g (not_updated g k rc) i j
  not_updated-Go k rc i zero e = tt
  not_updated-Go k rc i (suc j) e =
      let early : (i == k) ≡ false = ground (arith, e) in
      (refl, rw early, not_updated-Go k rc (suc i) j (omega (arith, e)))

  -- The setup of the probes asks for neither.
  pub probes-not_opened : (k : ℕ) → setup_probes o (not_opened g k) ≡ setup_probes o (granted g)
  unfolding setup_probes get_cpus allocate_readers create_hash_map create_events_map load_entry
      load_entry_as attach_entry load_return load_return_as attach_return
  probes-not_opened k = refl

  pub probes-not_updated :
      (k rc : ℕ) → setup_probes o (not_updated g k rc) ≡ setup_probes o (granted g)
  unfolding setup_probes get_cpus allocate_readers create_hash_map create_events_map load_entry
      load_entry_as attach_entry load_return load_return_as attach_return
  probes-not_updated k rc = refl

  pub opened-last :
      (i j k : ℕ) (calls : List Call)
      → k ≡ i + j
      → opened g i (suc j) calls
        ≡ update_elem (pos g.events_map) (pos k) (g.reader k)
          ∷ open_perf_buffer (neg 1) (pos k) 64 (some (g.reader k))
          ∷ opened g i j calls
  opened-last i zero k calls e =
      let same : i ≡ k = omega (arith, e) in
      λ t.
        update_elem (pos g.events_map) (pos (same t)) (g.reader (same t))
        ∷ open_perf_buffer (neg 1) (pos (same t)) 64 (some (g.reader (same t)))
        ∷ calls
  opened-last i (suc j) k calls e = opened-last (suc i) j k _ (omega (arith, e))

  pub length-filled : (i j : ℕ) → length (filled g i j) ≡ j
  length-filled i j = length-tabulate_from i j (λ k. some (g.reader k))

  pub free_readers-hole :
      (i j : ℕ) (rest : List (Option ℕ)) (calls : List Call)
      → free_readers (filled g i j ++ none ∷ rest) calls ≡ none
  unfolding free_readers
  free_readers-hole i zero rest calls = refl
  free_readers-hole i (suc j) rest calls = free_readers-hole (suc i) j rest _
