-- ===== src/Snoop/Main/Setup/Refused.antt =====
-- The setup when a call fails in the loop over the readers, behind the probes.
use mathlib.Core.List.{append-nil}
use rust_ebpf_demo.Prelude.{
  ℕ, suc, ◌+◌, ◌≡◌, refl, sym, ap, ◌∙◌, Bool, true, false, Option, none, some, List, [], ◌∷◌, ◌++◌,
  ◌==◌, if◌then◌else◌, ltb, lt→ltb, arith, length, length-append, length-tabulate_from, replicate,
  tabulate, tabulate_from, tabulate_from-append, replicate-append,
}
use rust_ebpf_demo.Prelude.Int.{pos, neg}
use rust_ebpf_demo.Bpf.Insn.{BpfInsn}
use rust_ebpf_demo.Snoop.Args.{Options}
use rust_ebpf_demo.Snoop.Cpus.{online, get_online_cpus}
use rust_ebpf_demo.Snoop.Program.{entry_program, return_program}
use rust_ebpf_demo.Snoop.Main.State.{
  Replies, Call, print_log, open_perf_buffer, complain, Locals, next, error, Run, exited, called,
}
use rust_ebpf_demo.Snoop.Main.Release.{cleanup, on_error}
use rust_ebpf_demo.Snoop.Main.Setup.{open_readers, setup, setup_probes}
use rust_ebpf_demo.Snoop.Main.Setup.Granted.{
  Grant, granted, then_next, probe_calls, probed, setup_probes-probed,
}
use rust_ebpf_demo.Snoop.Main.Setup.Readers.{
  opened, freed, filled, at, set-append, Go, open_readers-filled,
}
use rust_ebpf_demo.Snoop.Main.Setup.Success.{logs, release_calls, ready, ready-IsReleased}
use rust_ebpf_demo.Snoop.Main.Setup.Rounds.{
  not_opened, not_updated, not_opened-Go, not_updated-Go, probes-not_opened, probes-not_updated,
  opened-last, length-filled, free_readers-hole,
}

module _ (g : Grant) (o : Options) where
  module _ (n : ℕ) (entry return : List BpfInsn) where
    -- The variables in the loop, with these readers and calls.
    abbrev looping : List (Option ℕ) → List Call → Locals
    looping slots calls = at g (ready g entry return n) slots calls

    on_error-hole :
        (j : ℕ) (rest : List (Option ℕ)) (calls : List Call)
        → on_error o (looping (filled g 0 j ++ none ∷ rest) calls) ≡ Run.undefined
    unfolding on_error cleanup
    on_error-hole j rest calls = logged g.return_logged
      where
        l : Locals
        l = looping (filled g 0 j ++ none ∷ rest) calls

        logged : (b : Bool) → cleanup o 1 (if b then called print_log l else l) ≡ Run.undefined
        logged true = rw (free_readers-hole g o 0 j rest (print_log ∷ calls)) refl
        logged false = rw (free_readers-hole g o 0 j rest calls) refl

    module _ (hc : (get_online_cpus g.sysfs).outcome ≡ online (tabulate n pos))
        (he : entry_program o (pos g.hash_map) g.entry_array ≡ some entry)
        (hr : return_program (pos g.hash_map) (pos g.events_map) g.return_array ≡ some return) where
      -- The setup up to round `k`.
      setup-round :
          (env : Replies) (k m : ℕ)
          → setup_probes o env ≡ setup_probes o (granted g)
          → Go g env 0 k
          → n ≡ k + suc m
          → setup o env
            ≡ open_readers o env k (pos k ∷ tabulate_from (suc k) m pos) (
                looping
                  (filled g 0 k ++ none ∷ replicate m none)
                  (opened g 0 k (probe_calls g entry return n)))
      unfolding setup
      setup-round env k m probes go e =
          let cpus = tabulate_from-append 0 k (suc m) n k (λ i. pos i) e (omega arith) in
          let empty = replicate-append {A = Option ℕ} k (suc m) n none e in
          let calls = probe_calls g entry return n in
          then_next _
            (probes
              ∙ (setup_probes-probed g o (tabulate n pos) entry return hc he hr
                  ∙ ap (λ c. next (probed g entry return (tabulate n pos) c))
                      (length-tabulate_from 0 n (λ i. pos i))))
            ((λ t. open_readers o env 0 (cpus t) (looping (empty t) calls))
              ∙ open_readers-filled g o env (ready g entry return n) 0 k k _ [] _ calls go
                  (omega arith) refl)

      setup-not_opened :
          (k m : ℕ)
          → n ≡ k + suc m
          → setup o (not_opened g k)
            ≡ error (
                looping (filled g 0 k ++ none ∷ replicate m none) (
                  complain "Error calling bpf_open_perf_buffer()."
                  ∷ open_perf_buffer (neg 1) (pos k) 64 none
                  ∷ opened g 0 k (probe_calls g entry return n)))
      unfolding open_readers
      setup-not_opened k m e =
          let here : (k == k) ≡ true = ground arith in
          setup-round (not_opened g k) k m (probes-not_opened g o k)
            (not_opened-Go g o k 0 k (omega arith)) e
          ∙ rw here refl

      setup-not_updated :
          (k m rc : ℕ)
          → n ≡ k + suc m
          → setup o (not_updated g k rc)
            ≡ error (
                looping (filled g 0 (suc k) ++ replicate m none) (
                  complain "Error calling bpf_update_elem()"
                  ∷ opened g 0 (suc k) (probe_calls g entry return n)))
      unfolding open_readers
      setup-not_updated k m rc e =
          let here : (k == k) ≡ true = ground arith in
          let front = filled g 0 k in
          let bad : ltb 0 (0 + suc rc) ≡ true = ground arith in
          let calls = sym (opened-last g o 0 k k (probe_calls g entry return n) (omega arith)) in
          let inside : ltb k (length (front ++ none ∷ replicate m none)) ≡ true =
            lt→ltb _ _ (
              omega
                (arith, length-filled g o 0 k, length-append front (none ∷ replicate m none))) in
          let last =
            tabulate_from-append 0 k 1 (suc k) k (λ i. some (g.reader i)) (omega arith)
              (omega arith) in
          let stored =
            set-append front k none (some (g.reader k)) (replicate m none) (length-filled g o 0 k)
            ∙ ap (λ s. s ++ replicate m none) (sym last) in
          setup-round (not_updated g k rc) k m (probes-not_updated g o k rc)
            (not_updated-Go g o k rc 0 k (omega arith)) e
          ∙ rw (inside, here, bad)
              (λ t.
                error (looping (stored t) (complain "Error calling bpf_update_elem()" ∷ calls t)))

      -- What the label `error` makes of the two.
      pub on_error-not_opened :
          (k m : ℕ)
          → n ≡ k + suc m
          → (l : Locals) × (setup o (not_opened g k) ≡ error l) × (on_error o l ≡ Run.undefined)
      on_error-not_opened k m e = (_, setup-not_opened k m e, on_error-hole k (replicate m none) _)

      pub on_error-last_not_updated :
          (k m rc : ℕ)
          → n ≡ k + suc m
          → suc k ≡ n
          → (l : Locals) × (setup o (not_updated g k rc) ≡ error l)
            × (on_error o l
                ≡ exited 1 (
                    release_calls g o (
                      freed g 0 n (
                        logs g (
                          complain "Error calling bpf_update_elem()"
                          ∷ opened g 0 n (probe_calls g entry return n))))))
      on_error-last_not_updated k m rc e last =
          let none_left : m ≡ 0 = omega (arith, e, last) in
          let full : filled g 0 (suc k) ++ replicate {A = Option ℕ} m none ≡ filled g 0 n =
            (λ t. filled g 0 (last t) ++ replicate {A = Option ℕ} (none_left t) none)
            ∙ append-nil (filled g 0 n) in
          (
            _,
            setup-not_updated k m rc e ∙ (λ t. error (
                looping (full t) (
                  complain "Error calling bpf_update_elem()"
                  ∷ opened g 0 (last t) (probe_calls g entry return n)))),
            (ready-IsReleased g o n entry return).failed _,
          )

      pub on_error-not_updated :
          (k m rc : ℕ)
          → n ≡ k + suc (suc m)
          → (l : Locals) × (setup o (not_updated g k rc) ≡ error l) × (on_error o l ≡ Run.undefined)
      on_error-not_updated k m rc e =
          (_, setup-not_updated k (suc m) rc e, on_error-hole (suc k) (replicate m none) _)
