-- ===== src/Snoop/Genuine.antt =====
-- No line is made up: what `main` prints comes of calls of open(), also where libraries fail and where
-- events are lost, doubled, or handed over out of order.
use mathlib.Core.List.{Mem, Memᴰ}
use mathlib.Core.List.Memᴰ
use mathlib.Core.Logic.{∥∥₁_map}
use mathlib.Core.Path.{subst}
use rust_ebpf_demo.Prelude.{
  ℕ, ◌≡◌, refl, sym, ap, ◌∙◌, Bool, true, Bool-cases, inl, inr, some, List, [], ◌∷◌, map, Every,
  length, ◌==◌, arith,
}
use rust_ebpf_demo.Prelude.Int.{ℤ}
use rust_ebpf_demo.Bpf.Insn.{BpfInsn}
use rust_ebpf_demo.Bpf.Kernel.{Kernel}
use rust_ebpf_demo.Probe.Bytecode.{num_trace_return_instructions, max_num_trace_entry_instructions}
use rust_ebpf_demo.Probe.Layout.{DataT, IsData, encode_data}
use rust_ebpf_demo.Probe.Session.{View, Serves}
use rust_ebpf_demo.Probe.Session.Calls.{Call, empty, perform_all, calls_of, events_of}
use rust_ebpf_demo.Probe.Session.Interleave.{Reach, IsFresh, IsReported}
use rust_ebpf_demo.Snoop.Args.{Options, Got, defaults, go_on, parse_args}
use rust_ebpf_demo.Snoop.Program.{entry_program, return_program, filter_of}
use rust_ebpf_demo.Snoop.Program.Interleave.{runs, parse_args-IsLoaded, programs-IsReported}
use rust_ebpf_demo.Snoop.Report.{
  Line, Printed, nothing, line, on_event, event_at, perf_reader_raw_callback,
}
use rust_ebpf_demo.Snoop.Report.Decode.{event_of, event_at-encode_data}
use rust_ebpf_demo.Snoop.Main.State.{Replies}
use rust_ebpf_demo.Snoop.Main.Poll.{Round, main}
use rust_ebpf_demo.Snoop.Main.Poll.Output.{events_in}
use rust_ebpf_demo.Snoop.Main.Poll.Lines.{Fits, Gives, MainKeeps, main-MainKeeps}

-- The events that the calls of a task give by themselves.
abbrev pub own_events : List Call → ℕ → List DataT
own_events cs t = (perform_all (calls_of t cs) empty).log

-- The line is what the callback prints, with some `initialTimestamp`, of an event that the calls of some
-- task give.
abbrev pub IsGenuine : Options → List Call → Line → Type 0
IsGenuine o cs l = ∥ (
    (t : ℕ) × (d : DataT) × Memᴰ d (own_events cs t)
    × (initial : ℕ) × ((on_event o initial (event_of d)).1 ≡ line l)) ∥₁

Memᴰ-events_of : (log : List DataT) (d : DataT) → Memᴰ d log → Memᴰ d (events_of d.id log)
Memᴰ-events_of [] d m = absurd (Memᴰ.not-nil m)
Memᴰ-events_of (x ∷ log) d (Memᴰ.head e) =
    let own : (d.id == x.id) ≡ true = ap (λ z. d.id == z.id) (sym e) ∙ ground arith in
    rw own (Memᴰ.head e)
Memᴰ-events_of (x ∷ log) d (Memᴰ.tail m) = elim (Bool-cases (d.id == x.id)) [
  | inl own ↦ rw own (Memᴰ.tail (Memᴰ-events_of log d m))
  | inr other ↦ rw other (Memᴰ-events_of log d m)
]

-- An event that was handed over is that of a record of the log.
Memᴰ-encode_data :
    (log : List DataT) (raw : List ℕ)
    → Every IsData log
    → Memᴰ raw (map encode_data log)
    → (d : DataT) × IsData d × Memᴰ d log × (raw ≡ encode_data d)
Memᴰ-encode_data [] raw good m = absurd (Memᴰ.not-nil m)
Memᴰ-encode_data (x ∷ log) raw (first, good) (Memᴰ.head e) = (x, first, Memᴰ.head refl, e)
Memᴰ-encode_data (x ∷ log) raw (first, good) (Memᴰ.tail m) =
    let (d, valid, found, e) = Memᴰ-encode_data log raw good m in (d, valid, Memᴰ.tail found, e)

module _ (o : Options) (cs : List Call) where
  Fits-IsGenuine :
      (p : Printed) (initial : ℕ)
      → ∥ (
          (t : ℕ) × (d : DataT) × Memᴰ d (own_events cs t)
          × ((on_event o initial (event_of d)).1 ≡ p)) ∥₁
      → Fits (IsGenuine o cs) p
  Fits-IsGenuine nothing initial h = tt
  Fits-IsGenuine (line l) initial h = ∥∥₁_map h λ (t, d, m, e). (t, d, m, initial, e)
  Fits-IsGenuine Printed.undefined initial h = tt

module _ {S : Type 0} (w : View S) (k : Kernel S) (serves : Serves w k) (o : Options)
    (entry return : List BpfInsn) where
  -- An event that the programs handed over gives lines of calls of open().
  Gives-IsGenuine :
      (infotmp : ℤ) (cs : List Call) (s : S) (raw : List ℕ)
      → IsReported w infotmp cs s
      → Mem raw (w.sent s)
      → Gives (IsGenuine o cs) o raw
  unfolding perf_reader_raw_callback
  Gives-IsGenuine infotmp cs s raw (log, good, sent, own, pending) found initial =
      Fits-IsGenuine o cs (on_event o initial (event_at raw)).1 initial (
        ∥∥₁_map found λ m.
          let (d, valid, m', e) = Memᴰ-encode_data log raw good (subst (λ l. Memᴰ raw l) sent m) in
          let decoded : event_of d ≡ event_at raw =
            sym (ap event_at e ∙ event_at-encode_data d valid) in
          (
            d.id,
            d,
            subst (λ l. Memᴰ d l) (own d.id) (Memᴰ-events_of log d m'),
            ap (λ x. (on_event o initial x).1) decoded,
          ))

  All-Gives :
      (infotmp : ℤ) (cs : List Call) (s : S) (events : List (List ℕ))
      → IsReported w infotmp cs s
      → Every (λ raw. Mem raw (w.sent s)) events
      → Every (Gives (IsGenuine o cs) o) events
  All-Gives infotmp cs s [] reported h = tt
  All-Gives infotmp cs s (raw ∷ events) reported (first, h) =
      (Gives-IsGenuine infotmp cs s raw reported first, All-Gives infotmp cs s events reported h)

  -- For helpers that do what their manual says, options that the parser gives, and arrays of 35 and 82
  -- instructions that are filled with the two programs: tasks call open() in any order, with addresses that
  -- are 64-bit words, from a state in which nothing is noted and no event was handed over. Let the
  -- libraries and the clock answer anything, so that any call may fail, and let the polls give the callback
  -- only events that the programs handed over, in any order, some of them not at all or more than once.
  -- Then every line that `main` has printed when it exits, or so far, is what the callback makes, with
  -- some `initialTimestamp`, of an event that the calls of some task alone would give. Nothing is said
  -- where C leaves undefined what `main` does.
  pub main-IsGenuine :
      (allocates : ℕ → Bool) (args : List Got) (env : Replies) (rounds : List Round)
      (cs : List Call) (s₀ s : S)
      → parse_args allocates defaults args ≡ go_on o
      → length env.entry_array ≡ max_num_trace_entry_instructions
      → length env.return_array ≡ num_trace_return_instructions
      → entry_program o env.hash_map env.entry_array ≡ some entry
      → return_program env.hash_map env.events_map env.return_array ≡ some return
      → IsFresh w env.hash_map s₀
      → Reach w k serves env.hash_map env.events_map (filter_of o) (runs k entry return) s₀ cs s
      → Every (λ raw. Mem raw (w.sent s)) (events_in rounds)
      → MainKeeps (IsGenuine o cs) (main allocates args env rounds)
  main-IsGenuine allocates args env rounds cs s₀ s parsed room room' entry_loads return_loads fresh
        reached handed =
      let loaded =
        parse_args-IsLoaded allocates args o env.hash_map env.events_map env.entry_array
          env.return_array entry return parsed room room' entry_loads return_loads in
      let reported =
        programs-IsReported w k serves env.hash_map env.events_map o entry return s₀ s cs loaded
          fresh reached in
      main-MainKeeps (IsGenuine o cs) allocates args env rounds o parsed
        (All-Gives env.hash_map cs s (events_in rounds) reported handed)
