-- ===== src/Snoop/Main/Setup/Sparse.antt =====
-- Processors whose numbers have a gap: `readers[cpu]` is then outside the array.
use rust_ebpf_demo.Prelude.{
  ℕ, zero, suc, ◌≡◌, refl, ap, ◌∙◌, inl, inr, Bool, true, false, ◌&&◌, Option, none, some, List, [],
  ◌∷◌, Bool-cases, ltb, length, set, replicate, length-replicate,
}
use rust_ebpf_demo.Prelude.Int.{ℤ, pos, negsuc}
use rust_ebpf_demo.Bpf.Insn.{BpfInsn}
use rust_ebpf_demo.Snoop.Args.{Options}
use rust_ebpf_demo.Snoop.Cpus.{online, get_online_cpus}
use rust_ebpf_demo.Snoop.Program.{entry_program, return_program}
use rust_ebpf_demo.Snoop.Main.State.{Locals, Flow}
use rust_ebpf_demo.Snoop.Main.Setup.{open_readers, setup}
use rust_ebpf_demo.Snoop.Main.Setup.Granted.{Grant, granted, probed, setup_probes-probed, then_next}

-- All the numbers are indices of an array of this length.
abbrev pub all_below : ℕ → List ℤ → Bool
all_below n [] = true
all_below n (pos cpu ∷ cpus) = ltb cpu n && all_below n cpus
all_below n (negsuc m ∷ cpus) = false

length-set {ℓ} : {A : Type ℓ} (xs : List A) (i : ℕ) (x : A) → length (set xs i x) ≡ length xs
length-set [] i x = refl
length-set (y ∷ ys) zero x = refl
length-set (y ∷ ys) (suc i) x = ap suc (length-set ys i x)

module _ (g : Grant) (o : Options) where
  open_readers-outside :
      (i : ℕ) (cpus : List ℤ) (l : Locals) (slots : List (Option ℕ))
      → l.readers ≡ some slots
      → all_below (length slots) cpus ≡ false
      → open_readers o (granted g) i cpus l ≡ Flow.undefined
  unfolding open_readers
  open_readers-outside i [] l slots h outside = cc
  open_readers-outside i (negsuc m ∷ cpus) l slots h outside = rw h refl
  open_readers-outside i (pos cpu ∷ cpus) l slots h outside =
      elim (Bool-cases (ltb cpu (length slots))) [
        | inl inside ↦
            let slots' : List (Option ℕ) = set slots cpu (some (g.reader i)) in
            let later : all_below (length slots) cpus ≡ false = rw inside at outside in
            rw (h, inside)
              (open_readers-outside (suc i) cpus _ slots' refl
                (ap (λ n. all_below n cpus) (length-set slots cpu (some (g.reader i))) ∙ later))
        | inr beyond ↦ rw (h, beyond)
      ]

  -- If every call succeeds, but the number of some processor that is online is not below how many are
  -- online, as with "0,2", then the setup does what C leaves undefined: it stores a reader outside the
  -- array of readers.
  pub setup-undefined :
      (cpus : List ℤ) (entry return : List BpfInsn)
      → (get_online_cpus g.sysfs).outcome ≡ online cpus
      → entry_program o (pos g.hash_map) g.entry_array ≡ some entry
      → return_program (pos g.hash_map) (pos g.events_map) g.return_array ≡ some return
      → all_below (length cpus) cpus ≡ false
      → setup o (granted g) ≡ Flow.undefined
  unfolding setup
  setup-undefined cpus entry return hc he hr gap =
      let empty : Option ℕ = none in
      let slots : List (Option ℕ) = replicate (length cpus) empty in
      then_next _ (setup_probes-probed g o cpus entry return hc he hr) (
        open_readers-outside 0 cpus (probed g entry return cpus (length cpus)) slots refl
          (ap (λ n. all_below n cpus) (length-replicate (length cpus) empty) ∙ gap))
