-- ===== src/Snoop/Report/Stamps.antt =====
-- The times that a run of the callback prints with `-T`.
use rust_ebpf_demo.Prelude.{
  ℕ, ◌+◌, ◌-◌, ◌%◌, ◌^◌, ◌<◌, ◌≤◌, ◌≡◌, refl, sym, ◌∙◌, inl, inr, true, false, Option, none, some,
  List, [], ◌∷◌, ◌++◌, ap, ◌==◌, if◌then◌else◌, arith, Bool-cases,
}
use rust_ebpf_demo.Prelude.Int.{ℤ, pos}
use rust_ebpf_demo.Snoop.Args.{Options}
use rust_ebpf_demo.Snoop.Report.{
  Event, Printed, nothing, line, undefined, fd_and_err, is_filtered, next_initial, delta, printed,
  on_event,
}

-- The callback on one event after the other, with the global `initialTimestamp` between them.
unfoldable pub on_events : Options → ℕ → List Event → List Printed
unfolding on_event
on_events o initial [] = []
on_events o initial (e ∷ es) =
    let (initial', p) = on_event o initial e in p ∷ on_events o initial' es

-- `initialTimestamp` behind these events.
unfoldable pub initial_after : Options → ℕ → List Event → ℕ
unfolding on_event
initial_after o initial [] = initial
initial_after o initial (e ∷ es) = initial_after o (on_event o initial e).0 es

pub on_events-append :
    (o : Options) (initial : ℕ) (xs ys : List Event)
    → on_events o initial (xs ++ ys)
      ≡ on_events o initial xs ++ on_events o (initial_after o initial xs) ys
unfolding on_events initial_after
on_events-append o initial [] ys = refl
on_events-append o initial (x ∷ xs) ys =
    ap (λ ps. (on_event o initial x).1 ∷ ps) (on_events-append o (on_event o initial x).0 xs ys)

-- A line for this event carries the time since `start`.
abbrev pub IsSince : ℕ → Event → Printed → Type 0
IsSince start e nothing = Unit
IsSince start e undefined = Unit
IsSince start e (line l) = l.delta ≡ some (pos (e.ts - start))

abbrev pub Since : ℕ → List Event → List Printed → Type 0
Since start [] ps = Unit
Since start (e ∷ es) [] = ⊥
Since start (e ∷ es) (p ∷ ps) = IsSince start e p × Since start es ps

-- The times of the events that are printed are those of a clock that counts nanoseconds from boot,
-- and none of them lies before `start`.
abbrev pub NotBefore : Options → ℕ → List Event → Type 0
NotBefore o start [] = Unit
NotBefore o start (e ∷ es) =
    (is_filtered o e ≡ false → (start ≤ e.ts) × (e.ts < 2 ^ 63)) × NotBefore o start es

-- The time of the first event that is printed.
unfoldable pub start_of : Options → List Event → ℕ
start_of o [] = 0
start_of o (e ∷ es) = if is_filtered o e then start_of o es else e.ts

delta_since :
    (o : Options) (start ts : ℕ)
    → o.timestamp ≡ true
    → 0 < start
    → start ≤ ts
    → ts < 2 ^ 63
    → delta o start ts ≡ some (pos (ts - start))
delta_since o start ts on h le lt =
    let e : (start == 0) ≡ false = ground arith in
    let small : (ts + 2 ^ 64 - start) % 2 ^ 64 ≡ ts - start = omega arith in
    rw (on, e, small) (ground arith)

delta_first : (o : Options) (ts : ℕ) → o.timestamp ≡ true → delta o 0 ts ≡ some (pos (ts - ts))
delta_first o ts on =
    let small : (ts + 2 ^ 64 - ts) % 2 ^ 64 ≡ ts - ts = omega arith in rw (on, small) (ground arith)

printed-IsSince :
    (o : Options) (start initial : ℕ) (e : Event) (r : Option (ℤ × ℤ))
    → delta o initial e.ts ≡ some (pos (e.ts - start))
    → IsSince start e (printed o initial e r)
printed-IsSince o start initial e none h = tt
printed-IsSince o start initial e (some (fd_s, err)) h = h

next_initial-pos : (o : Options) (start ts : ℕ) → 0 < start → next_initial o start ts ≡ start
next_initial-pos o start ts h = ground arith

next_initial-zero : (o : Options) (ts : ℕ) → o.timestamp ≡ true → next_initial o 0 ts ≡ ts
next_initial-zero o ts h = rw h

on_events-Since_started :
    (o : Options) (start : ℕ) (es : List Event)
    → o.timestamp ≡ true
    → 0 < start
    → NotBefore o start es
    → Since start es (on_events o start es)
unfolding on_events
on_events-Since_started o start [] on h times = tt
on_events-Since_started o start (e ∷ es) on h (now, times) = elim (Bool-cases (is_filtered o e)) [
  | inl f ↦ rw f (tt, on_events-Since_started o start es on h times)
  | inr f ↦
      rw (f, next_initial-pos o start e.ts h)
        (
          printed-IsSince o start start e (fd_and_err e.ret)
              (delta_since o start e.ts on h (now f).0 (now f).1),
          on_events-Since_started o start es on h times,
        )
]

on_events-Since_from :
    (o : Options) (start : ℕ) (es : List Event)
    → o.timestamp ≡ true
    → start ≡ start_of o es
    → 0 < start
    → NotBefore o start es
    → Since start es (on_events o 0 es)
unfolding on_events start_of
on_events-Since_from o start [] on s h times = tt
on_events-Since_from o start (e ∷ es) on s h (now, times) = elim (Bool-cases (is_filtered o e)) [
  | inl f ↦ rw f (tt, on_events-Since_from o start es on (rw f at s) h times)
  | inr f ↦
      let first : start ≡ e.ts = rw f at s in
      rw (f, next_initial-zero o e.ts on ∙ sym first)
        (
          printed-IsSince o start 0 e (fd_and_err e.ret) (rw first (delta_first o e.ts on)),
          on_events-Since_started o start es on h times,
        )
]

-- With `-T`, from the start of the program, each line carries the time since the first event that is
-- printed: the first carries 0, and events that are not printed do not count. This is for events whose
-- times are below 2^63 and not before the first one's, which is not 0.
pub on_events-Since :
    (o : Options) (es : List Event)
    → o.timestamp ≡ true
    → 0 < start_of o es
    → NotBefore o (start_of o es) es
    → Since (start_of o es) es (on_events o 0 es)
on_events-Since o es on h times = on_events-Since_from o (start_of o es) es on refl h times
