-- ===== src/Snoop/Main/Setup/Readers.antt =====
-- The loop of `main` over the readers, for rounds that go through.
use mathlib.Core.List.{append-nil, append_assoc}
use rust_ebpf_demo.Prelude.{
  ℕ, zero, suc, ◌+◌, ◌≡◌, refl, sym, ap, ◌∙◌, true, Option, none, some, List, [], ◌∷◌, ◌++◌, ltb,
  lt→ltb, arith, length, length-append, set, replicate, tabulate, tabulate_from,
}
use rust_ebpf_demo.Prelude.Int.{ℤ, pos, neg}
use rust_ebpf_demo.Snoop.Args.{Options}
use rust_ebpf_demo.Snoop.Main.State.{
  Replies, Call, open_perf_buffer, update_elem, free_reader, Locals, next, all_set,
}
use rust_ebpf_demo.Snoop.Main.Release.{free_readers}
use rust_ebpf_demo.Snoop.Main.Setup.{open_readers}
use rust_ebpf_demo.Snoop.Main.Setup.Granted.{Grant, granted}

pub set-append {ℓ} :
    {A : Type ℓ} (front : List A) (i : ℕ) (x y : A) (rest : List A)
    → length front ≡ i
    → set (front ++ x ∷ rest) i y ≡ (front ++ y ∷ []) ++ rest
set-append [] zero x y rest h = refl
set-append [] (suc i) x y rest h = absurd (omega arith)
set-append (a ∷ front) zero x y rest h = absurd (omega arith)
set-append (a ∷ front) (suc i) x y rest h =
    ap (λ l. a ∷ l) (set-append front i x y rest (omega arith))

module _ (g : Grant) where
  -- The calls for `m` processors from `i` on, the last one first.
  abbrev pub opened : ℕ → ℕ → List Call → List Call
  opened i zero calls = calls
  opened i (suc m) calls = opened (suc i) m (
      update_elem (pos g.events_map) (pos i) (g.reader i)
      ∷ open_perf_buffer (neg 1) (pos i) 64 (some (g.reader i))
      ∷ calls)

  -- The readers of `m` processors from `i` on, freed in this order.
  abbrev pub freed : ℕ → ℕ → List Call → List Call
  freed i zero calls = calls
  freed i (suc m) calls = freed (suc i) m (free_reader (g.reader i) ∷ calls)

  abbrev pub filled : ℕ → ℕ → List (Option ℕ)
  filled i m = tabulate_from i m (λ j. some (g.reader j))

  pub free_readers-filled :
      (i m : ℕ) (calls : List Call) → free_readers (filled i m) calls ≡ some (freed i m calls)
  unfolding free_readers
  free_readers-filled i zero calls = refl
  free_readers-filled i (suc m) calls =
      free_readers-filled (suc i) m (free_reader (g.reader i) ∷ calls)

  pub all_some-filled : (i m : ℕ) → all_set (some (filled i m)) ≡ true
  all_some-filled i zero = refl
  all_some-filled i (suc m) = all_some-filled (suc i) m

  abbrev pub at : Locals → List (Option ℕ) → List Call → Locals
  at l slots calls = record l {
    events_map_fd = pos g.events_map;
    readers = some slots;
    calls = calls;
  }

  -- The rounds of `j` processors from `i` on, which go through.
  abbrev pub Go : Replies → ℕ → ℕ → Type 0
  Go env i zero = Unit
  Go env i (suc j) = (env.reader i ≡ some (g.reader i)) × (env.updated i ≡ pos 0) × Go env (suc i) j

  -- Where `j` rounds have gone through, the loop goes on with the next one.
  pub open_readers-filled :
      (o : Options) (env : Replies) (l : Locals) (i j k : ℕ) (cpus : List ℤ)
      (front rest : List (Option ℕ)) (calls : List Call)
      → Go env i j
      → k ≡ i + j
      → length front ≡ i
      → open_readers o env i
          (tabulate_from i j pos ++ cpus)
          (at l (front ++ (replicate j none ++ rest)) calls)
        ≡ open_readers o env k cpus (at l ((front ++ filled i j) ++ rest) (opened i j calls))
  unfolding open_readers
  open_readers-filled o env l i zero k cpus front rest calls go e h =
      let same : i ≡ k = omega (arith, e) in
      let slots : front ++ rest ≡ (front ++ []) ++ rest = sym (append_assoc front [] rest) in
      λ t. open_readers o env (same t) cpus (at l (slots t) calls)
  open_readers-filled o env l i (suc j) k cpus front rest calls (read, updated, go) e h =
      let r : Option ℕ = some (g.reader i) in
      let empty : List (Option ℕ) = replicate j none ++ rest in
      let inside : ltb i (length (front ++ none ∷ empty)) ≡ true =
        lt→ltb _ _ (omega (arith, length-append front (none ∷ empty))) in
      let calls' =
        update_elem (pos g.events_map) (pos i) (g.reader i)
        ∷ open_perf_buffer (neg 1) (pos i) 64 r
        ∷ calls in
      rw (read, updated, inside, set-append front i none r empty h)
        (open_readers-filled o env l (suc i) j k cpus (front ++ r ∷ []) rest calls' go
            (omega (arith, e)) (omega (arith, length-append front (r ∷ [])))
          ∙ ap (λ s. open_readers o env k cpus (at l (s ++ rest) (opened (suc i) j calls')))
              (append_assoc front (r ∷ []) (filled (suc i) j)))

  granted-Go : (i j : ℕ) → Go (granted g) i j
  granted-Go i zero = tt
  granted-Go i (suc j) = (refl, refl, granted-Go (suc i) j)

  pub open_readers-all :
      (o : Options) (l : Locals) (n : ℕ) (calls : List Call)
      → open_readers o (granted g) 0 (tabulate n pos) (at l (replicate n none) calls)
        ≡ next (at l (filled 0 n) (opened 0 n calls))
  unfolding open_readers
  open_readers-all o l n calls =
      let cpus = sym (append-nil (tabulate n pos)) in
      let empty = sym (append-nil (replicate {A = Option ℕ} n none)) in
      (λ t. open_readers o (granted g) 0 (cpus t) (at l (empty t) calls))
      ∙ (open_readers-filled o (granted g) l 0 n n [] [] [] calls (granted-Go 0 n) (omega arith)
            refl
          ∙ ap (λ s. next (at l s (opened 0 n calls))) (append-nil (filled 0 n)))
