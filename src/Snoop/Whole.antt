-- ===== src/Snoop/Whole.antt =====
-- The whole of opensnoop: `main` loads the two programs, any tasks call open() while they are attached,
-- and the callback prints what they hand over.
use rust_ebpf_demo.Prelude.{
  ℕ, ◌≡◌, refl, sym, ap, ◌∙◌, Bool, true, some, List, [], ◌∷◌, ◌++◌, map, Every, length,
}
use rust_ebpf_demo.Prelude.Int.{pos}
use rust_ebpf_demo.Bpf.Insn.{BpfInsn}
use rust_ebpf_demo.Bpf.Kernel.{Kernel}
use rust_ebpf_demo.Probe.Bytecode.{num_trace_return_instructions, max_num_trace_entry_instructions}
use rust_ebpf_demo.Probe.Layout.{DataT, IsData, encode_data}
use rust_ebpf_demo.Probe.Session.{View, Serves}
use rust_ebpf_demo.Probe.Session.Calls.{Call, empty, perform_all, calls_of, events_of}
use rust_ebpf_demo.Probe.Session.Interleave.{Reach, IsFresh}
use rust_ebpf_demo.Snoop.Main.State
use rust_ebpf_demo.Snoop.Args.{Options, Got}
use rust_ebpf_demo.Snoop.Args.{is_unset}
use rust_ebpf_demo.Snoop.Program.{filter_of}
use rust_ebpf_demo.Snoop.Program.Interleave.{runs, parse_args-IsLoaded, programs-IsReported}
use rust_ebpf_demo.Snoop.Report.{event_at}
use rust_ebpf_demo.Snoop.Report.Decode.{event_of, event_at-encode_data}
use rust_ebpf_demo.Snoop.Report.Stamps.{on_events}
use rust_ebpf_demo.Snoop.Main.State.{exited}
use rust_ebpf_demo.Snoop.Main.Setup.Granted.{Grant, granted}
use rust_ebpf_demo.Snoop.Main.Setup.Readers.{freed}
use rust_ebpf_demo.Snoop.Main.Setup.Success.{release_calls}
use rust_ebpf_demo.Snoop.Main.Poll.{Round, Loop, running, ended, polling, finished, main}
use rust_ebpf_demo.Snoop.Main.Poll.Output.{events_in, AllQuiet, print_all, map-append}
use rust_ebpf_demo.Snoop.Main.Poll.Whole.{
  Starts, Timed, IsTimed, prelude, output, main-polling, main-exited,
}

-- The events in the order in which they were handed over.
abbrev pub in_order : {A : Type 0} → List A → List A
in_order [] = []
in_order (x ∷ xs) = in_order xs ++ (x ∷ [])

map-in_order : {A B : Type 0} (f : A → B) (xs : List A) → map f (in_order xs) ≡ in_order (map f xs)
map-in_order f [] = refl
map-in_order f (x ∷ xs) =
    map-append f (in_order xs) (x ∷ []) ∙ ap (λ l. l ++ (f x ∷ [])) (map-in_order f xs)

-- What is written by the probe is read by the callback.
event_at-log :
    (log : List DataT) → Every IsData log → map event_at (map encode_data log) ≡ map event_of log
event_at-log [] h = refl
event_at-log (d ∷ log) h =
    let first = event_at-encode_data d h.0 in
    let rest = event_at-log log h.1 in λ i. first i ∷ rest i

module _ {S : Type 0} (w : View S) (k : Kernel S) (serves : Serves w k) (allocates : ℕ → Bool)
    (args : List Got) (g : Grant) (o : Options) (n : ℕ) (entry return : List BpfInsn) where
  -- What is reached with the programs and the maps of `main`.
  abbrev pub Reached : S → List Call → S → Type 0
  Reached = Reach w k serves (pos g.hash_map) (pos g.events_map) (filter_of o) (runs k entry return)

  -- What `main` prints is the header and the lines for the events of a log, in which the events of each
  -- task are those of its own calls, refused ones giving nothing; `rest` is what `main` does then, and `r` where this leads.
  abbrev pub Tells : List Call → (List State.Call → Loop) → Loop → Type 0
  Tells cs rest r =
      (log : List DataT) × (print_all (on_events o 0 (map event_of (in_order log)))
          (prelude allocates args g o n entry return) rest
        ≡ r)
      × ((t : ℕ) → events_of t log ≡ (perform_all (calls_of t cs) empty).log)

  -- `main` still polls, or has ended with the exit code 0 and with everything released.
  abbrev pub Shows : List Round → List Call → List State.Call → Type 0
  Shows rounds cs out =
      (main allocates args (granted g) rounds ≡ polling out)
      × Tells cs (λ calls. running calls) (running out)

  abbrev pub Completes : List Round → List Call → List State.Call → Type 0
  Completes rounds cs out =
      (main allocates args (granted g) rounds
        ≡ finished (exited 0 (release_calls g o (freed g 0 n out))))
      × Tells cs (λ calls. ended calls) (ended out)

  read-log :
      (events : List (List ℕ)) (s : S) (log : List DataT)
      → Every IsData log
      → w.sent s ≡ map encode_data log
      → events ≡ in_order (w.sent s)
      → map event_at events ≡ map event_of (in_order log)
  read-log events s log good sent order =
      ap (map event_at) (order ∙ ap in_order sent)
      ∙ (map-in_order event_at (map encode_data log)
          ∙ (ap in_order (event_at-log log good) ∙ sym (map-in_order event_of log)))

  tells :
      (rounds : List Round) (cs : List Call) (s₀ s : S) (rest : List State.Call → Loop) (r : Loop)
      → Starts allocates args g o n entry return
      → length g.entry_array ≡ max_num_trace_entry_instructions
      → length g.return_array ≡ num_trace_return_instructions
      → IsFresh w (pos g.hash_map) s₀
      → Reached s₀ cs s
      → events_in rounds ≡ in_order (w.sent s)
      → print_all
          (output allocates args g o n entry return rounds)
          (prelude allocates args g o n entry return)
          rest
        ≡ r
      → Tells cs rest r
  tells rounds cs s₀ s rest r starts room room' fresh reached order prints =
      let loaded =
        parse_args-IsLoaded allocates args o (pos g.hash_map) (pos g.events_map) g.entry_array
          g.return_array entry return starts.parsed room room' starts.entry_loads
          starts.return_loads in
      let (log, good, sent, own, pending) =
        programs-IsReported w k serves (pos g.hash_map) (pos g.events_map) o entry return s₀ s cs
          loaded fresh reached in
      let read = read-log (events_in rounds) s log good sent order in
      (
        log,
        ap (λ es. print_all (on_events o 0 es) (prelude allocates args g o n entry return) rest)
              (sym read)
            ∙ prints,
        own,
      )

  -- For helpers that do what their manual says, processors that are numbered from 0 on, calls that all
  -- succeed, arrays of 35 and 82 instructions, and no duration: `main` loads two programs, tasks call
  -- open() in any order, with addresses that are 64-bit words, from a state in which nothing is noted and
  -- no event was handed over; and no poll fails, the polls give the callback what the programs
  -- handed over, in order, and none of the lines is undefined.
  -- Then `main` still polls, and has printed the header and what the callback makes of the events of a
  -- log, in order; and the events of each task in the log are those that its own calls alone would give,
  -- where an open() that is filtered out, or begins when the map, which all tasks share, has no room for
  -- it, counts as one that notes nothing.
  pub main-Shows :
      (rounds : List Round) (cs : List Call) (s₀ s : S) (out : List State.Call)
      → Starts allocates args g o n entry return
      → length g.entry_array ≡ max_num_trace_entry_instructions
      → length g.return_array ≡ num_trace_return_instructions
      → is_unset o.duration ≡ true
      → AllQuiet rounds
      → IsFresh w (pos g.hash_map) s₀
      → Reached s₀ cs s
      → events_in rounds ≡ in_order (w.sent s)
      → print_all
          (output allocates args g o n entry return rounds)
          (prelude allocates args g o n entry return)
          (λ calls. running calls)
        ≡ running out
      → Shows rounds cs out
  main-Shows rounds cs s₀ s out starts room room' untimed quiet fresh reached order prints = (
    main-polling allocates args g o n entry return rounds out starts untimed quiet prints,
    tells rounds cs s₀ s (λ calls. running calls) (running out) starts room room' fresh reached
        order prints,
  )

  -- For helpers that do what their manual says, processors that are numbered from 0 on, calls that all
  -- succeed, arrays of 35 and 82 instructions, a duration, and valid readings of the clock: `main` loads
  -- two programs, tasks call open() in any order, with addresses that are 64-bit words, from a state in
  -- which nothing is noted and no event was handed over; and no poll in front of the deadline fails, these
  -- polls give the callback what the programs handed over, in order, and none of the lines is undefined.
  -- Then the process ends with the exit code 0, whatever rounds come behind the deadline, and has printed
  -- the header and what the callback makes of the events of a log, in order; the events of each task in
  -- the log are those that its own calls alone would give, where an open() that is filtered out, or begins
  -- when the map, which all tasks share, has no room for it, counts as one that notes nothing; and last it
  -- released every reader, descriptor and allocation, each once.
  pub main-Completes :
      (c : Timed) (rounds : List Round) (cs : List Call) (s₀ s : S) (out : List State.Call)
      → Starts allocates args g o n entry return
      → length g.entry_array ≡ max_num_trace_entry_instructions
      → length g.return_array ≡ num_trace_return_instructions
      → o.duration ≡ pos c.seconds
      → g.start_time ≡ some c.start
      → IsTimed c
      → IsFresh w (pos g.hash_map) s₀
      → Reached s₀ cs s
      → events_in c.before ≡ in_order (w.sent s)
      → print_all
          (output allocates args g o n entry return c.before)
          (prelude allocates args g o n entry return)
          (λ calls. ended calls)
        ≡ ended out
      → Completes (c.before ++ c.last ∷ rounds) cs out
  main-Completes c rounds cs s₀ s out starts room room' timed read h fresh reached order prints = (
    main-exited allocates args g o n entry return c rounds out starts timed read h prints,
    tells c.before cs s₀ s (λ calls. ended calls) (ended out) starts room room' fresh reached order
        prints,
  )
