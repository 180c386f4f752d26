-- ===== src/Probe/Session/Interleave.antt =====
-- The two probes in any order of any tasks.
use mathlib.Core.Option
use mathlib.Core.Path.{subst}
use rust_ebpf_demo.Prelude.{Every, ℕ, ◌^◌, ◌<◌, ◌≡◌, sym, ap, ◌∙◌, none, List, [], ◌∷◌, map}
use rust_ebpf_demo.Prelude.Int.{ℤ}
use rust_ebpf_demo.Bpf.Kernel.{Kernel}
use rust_ebpf_demo.Bpf.Machine.{Outcome, exited, fault, out_of_fuel}
use rust_ebpf_demo.Probe.Layout.{IsData, DataT, encode_val, encode_data}
use rust_ebpf_demo.Probe.Source.{Filter, filename, trace_entry, trace_return}
use rust_ebpf_demo.Probe.Session.{View, Serves}
use rust_ebpf_demo.Probe.Session.Calls.{
  Call, unnoticed, empty, perform_all, calls_of, events_of, events_of-perform_all, pending-calls_of,
}
use rust_ebpf_demo.Probe.Session.Agrees.{
  Agrees, unnoticed-Agrees, entry_call, return_call, trace_entry-Agrees, trace_return-Agrees,
}

-- The program for the entry, and the one for the return, as functions of the registers and the state.
pub record Probes (S : Type 0) : Type 0 where
  pub enters : (ℕ → ℕ) → S → Outcome S
  pub leaves : (ℕ → ℕ) → S → Outcome S

module _ {S : Type 0} (w : View S) (infotmp : ℤ) where
  -- Nothing is noted in the map, and no event was handed over.
  pub record IsFresh (s : S) : Type 0 where
    pub entry : (t : ℕ) → w.entry s infotmp t ≡ none
    pub sent : w.sent s ≡ []

  -- The events that were handed over are those of a log in which the events of each task are those that
  -- its own calls alone would give, a refused one giving nothing; and the map holds for each task the entry
  -- of its call that is pending.
  abbrev pub IsReported : List Call → S → Type 0
  IsReported cs s =
      (log : List DataT) × Every IsData log
      × (w.sent s ≡ map encode_data log)
      × ((t : ℕ) → events_of t log ≡ (perform_all (calls_of t cs) empty).log)
      × ((t : ℕ)
          → w.entry s infotmp t
            ≡ Option.map encode_val ((perform_all (calls_of t cs) empty).pending t))

module _ {S : Type 0} (w : View S) (k : Kernel S) (serves : Serves w k) (infotmp events : ℤ)
    (filter : Filter) (probes : Probes S) where
  -- The task that runs enters open() or returns from it, or something else happens, another task may be
  -- the one that runs then, and the map and the events stay.
  pub data Step (s : S) : Call → S → Type 0 where
    enter :
        (arg : ℕ → ℕ) {s' : S}
        → filename arg < 2 ^ 64
        → probes.enters arg s ≡ exited 0 s'
        → Step s (entry_call w k serves infotmp events filter arg s) s'
    leave :
        (arg : ℕ → ℕ) {s' : S}
        → probes.leaves arg s ≡ exited 0 s'
        → Step s (return_call w k serves infotmp events filter arg s) s'
    switch :
        {s' : S}
        → w.entry s' infotmp ≡ w.entry s infotmp
        → w.sent s' ≡ w.sent s
        → Step s (unnoticed (w.task s)) s'

  -- What is reached from a state, and the calls on the way, the last one first.
  pub data Reach (s : S) : List Call → S → Type 0 where
    start : Reach s [] s
    later :
        {cs : List Call} {c : Call} {s' s'' : S}
        → Reach s cs s'
        → Step s' c s''
        → Reach s (c ∷ cs) s''

  -- The two programs do what the C source says.
  pub record Follow : Type 0 where
    pub enters : (arg : ℕ → ℕ) (s : S) → probes.enters arg s ≡ trace_entry k arg filter infotmp s
    pub leaves : (arg : ℕ → ℕ) (s : S) → probes.leaves arg s ≡ trace_return k arg infotmp events s

  abbrev InStep : List Call → S → Type 0
  InStep cs s = Agrees w infotmp (perform_all cs empty) s

  exited_state : S → Outcome S → S
  exited_state s (exited n s') = s'
  exited_state s fault = s
  exited_state s out_of_fuel = s

  -- A run has one end.
  same_end : (s s' : S) (a b : Outcome S) → a ≡ b → b ≡ exited 0 s → a ≡ exited 0 s' → s ≡ s'
  unfolding exited_state
  same_end s s' a b same p q = ap (exited_state s) (sym p ∙ (sym same ∙ q))

  Step-InStep :
      Follow
      → (cs : List Call) (s s' : S) (c : Call) → InStep cs s
      → Step s c s'
      → InStep (c ∷ cs) s'
  Step-InStep f cs s s' c agrees (enter arg small run) =
      let (s'', run', after) =
        trace_entry-Agrees w k serves infotmp events filter arg (perform_all cs empty) s small
          agrees in
      subst (InStep (c ∷ cs)) (same_end s'' s' _ _ (f.enters arg s) run' run) after
  Step-InStep f cs s s' c agrees (leave arg run) =
      let (s'', run', after) =
        trace_return-Agrees w k serves infotmp events filter arg (perform_all cs empty) s agrees in
      subst (InStep (c ∷ cs)) (same_end s'' s' _ _ (f.leaves arg s) run' run) after
  Step-InStep f cs s s' c agrees (switch entry sent) =
      unnoticed-Agrees w infotmp (perform_all cs empty) s s' agrees entry sent

  -- Whatever the order of the calls, the state is in step with what they mean together.
  pub Reach-InStep :
      Follow → (s₀ s : S) (cs : List Call) → IsFresh w infotmp s₀ → Reach s₀ cs s → InStep cs s
  Reach-InStep f s₀ s cs fresh start = record {
    entry = fresh.entry;
    kept = λ t. tt;
    events = tt;
    sent = fresh.sent;
  }
  Reach-InStep f s₀ s cs fresh (later {cs = cs'} {c = c} {s' = s'} before step) =
      Step-InStep f cs' s' s c (Reach-InStep f s₀ s' cs' fresh before) step

  pub Reach-IsReported :
      Follow
      → (s₀ s : S) (cs : List Call) → IsFresh w infotmp s₀
      → Reach s₀ cs s
      → IsReported w infotmp cs s
  Reach-IsReported f s₀ s cs fresh reach =
      let agrees = Reach-InStep f s₀ s cs fresh reach in
      (
        (perform_all cs empty).log,
        agrees.events,
        agrees.sent,
        λ t. events_of-perform_all t cs,
        λ t. agrees.entry t ∙ ap (Option.map encode_val) (pending-calls_of t cs),
      )

  -- Wherever the probes are, either of them exits with 0 for the task that runs.
  pub Reach-exited :
      Follow
      → (s₀ s : S) (cs : List Call) (arg : ℕ → ℕ) → IsFresh w infotmp s₀
      → Reach s₀ cs s
      → filename arg < 2 ^ 64
      → ((s' : S) × (probes.enters arg s ≡ exited 0 s'))
        × ((s' : S) × (probes.leaves arg s ≡ exited 0 s'))
  Reach-exited f s₀ s cs arg fresh reach small =
      let agrees = Reach-InStep f s₀ s cs fresh reach in
      let table = perform_all cs empty in
      let (s₁, run, after) =
        trace_entry-Agrees w k serves infotmp events filter arg table s small agrees in
      let (s₂, run', after') =
        trace_return-Agrees w k serves infotmp events filter arg table s agrees in
      ((s₁, f.enters arg s ∙ run), (s₂, f.leaves arg s ∙ run'))
