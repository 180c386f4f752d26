-- ===== src/Snoop/Main/Poll/Output.antt =====
-- What the loop prints.
use rust_ebpf_demo.Prelude.{
  ℕ, ◌≡◌, refl, sym, ap, ◌∙◌, true, Option, none, List, if◌then◌else◌, [], ◌∷◌, ◌++◌, map,
}
use mathlib.Core.Option
use rust_ebpf_demo.Prelude.Int.{ℤ, pos}
use rust_ebpf_demo.Snoop.Args.{Options}
use rust_ebpf_demo.Snoop.Report.{
  Printed, nothing, line, undefined, event_at, on_event, perf_reader_raw_callback,
}
use rust_ebpf_demo.Snoop.Report.Stamps.{on_events, initial_after, on_events-append}
use rust_ebpf_demo.Snoop.Main.State.{Call, print_line, all_set}
use rust_ebpf_demo.Snoop.Main.Poll.{
  Round, Polled, Loop, ended, emit, or_undefined, deliver, after_poll, poll,
}
use rust_ebpf_demo.Snoop.Main.Poll.Deadline.{polls}

-- The calls that print these lines, and then the rest; `Loop.undefined` if one of them is undefined.
abbrev pub print_all : List Printed → List Call → (List Call → Loop) → Loop
print_all [] calls rest = rest calls
print_all (nothing ∷ ps) calls rest = print_all ps calls rest
print_all (line l ∷ ps) calls rest = print_all ps (print_line l ∷ calls) rest
print_all (undefined ∷ ps) calls rest = Loop.undefined

print_all-append :
    (ps qs : List Printed) (calls : List Call) (rest : List Call → Loop)
    → print_all (ps ++ qs) calls rest ≡ print_all ps calls (λ c. print_all qs c rest)
print_all-append [] qs calls rest = refl
print_all-append (nothing ∷ ps) qs calls rest = print_all-append ps qs calls rest
print_all-append (line l ∷ ps) qs calls rest = print_all-append ps qs (print_line l ∷ calls) rest
print_all-append (undefined ∷ ps) qs calls rest = refl

-- Lines that are defined are printed whatever comes behind them.
pub print_all-ended :
    (ps : List Printed) (calls out : List Call) (rest : List Call → Loop)
    → print_all ps calls (λ c. ended c) ≡ ended out
    → print_all ps calls rest ≡ rest out
print_all-ended [] calls out rest h = let same : calls ≡ out = cc in ap rest same
print_all-ended (nothing ∷ ps) calls out rest h = print_all-ended ps calls out rest h
print_all-ended (line l ∷ ps) calls out rest h =
    print_all-ended ps (print_line l ∷ calls) out rest h
print_all-ended (undefined ∷ ps) calls out rest h = cc

pub map-append {ℓ κ} :
    {A : Type ℓ} {B : Type κ} (f : A → B) (xs ys : List A) → map f (xs ++ ys) ≡ map f xs ++ map f ys
map-append f [] ys = refl
map-append f (x ∷ xs) ys = ap (λ l. f x ∷ l) (map-append f xs ys)

-- All events, in order.
abbrev pub events_in : List Round → List (List ℕ)
events_in [] = []
events_in (r ∷ rs) = r.events ++ events_in rs

abbrev pub AllQuiet : List Round → Type 0
AllQuiet [] = Unit
AllQuiet (r ∷ rs) = (r.result ≡ pos 0) × AllQuiet rs

module _ (o : Options) where
  deliver-print_all :
      (initial : ℕ) (events : List (List ℕ)) (calls : List Call) (rest : Polled → Loop)
      → or_undefined o (Option.map (after_poll o (pos 0)) (deliver o initial events calls)) rest
        ≡ print_all (on_events o initial (map event_at events)) calls (λ c.
          rest (record { initial = initial_after o initial (map event_at events); calls = c }))
  unfolding deliver on_events initial_after perf_reader_raw_callback
  deliver-print_all initial [] calls rest = refl
  deliver-print_all initial (raw ∷ events) calls rest =
      emitted (λ c. deliver-print_all (on_event o initial (event_at raw)).0 events c rest)
        (on_event o initial (event_at raw)).1
    where
      initial' : ℕ
      initial' = (on_event o initial (event_at raw)).0

      delivered : List Call → Loop
      delivered c =
          or_undefined o (Option.map (after_poll o (pos 0)) (deliver o initial' events c)) rest

      printed : List Printed → List Call → Loop
      printed ps calls = print_all ps calls (λ c.
          rest (record { initial = initial_after o initial' (map event_at events); calls = c }))

      emitted :
          ((c : List Call) → delivered c ≡ printed (on_events o initial' (map event_at events)) c)
          → (p : Printed)
          → or_undefined o
              (Option.map (after_poll o (pos 0)) (emit p calls (λ c. deliver o initial' events c)))
              rest
            ≡ printed (p ∷ on_events o initial' (map event_at events)) calls
      emitted ih nothing = ih calls
      emitted ih (line l) = ih (print_line l ∷ calls)
      emitted ih undefined = refl

  -- Polls whose results are all 0 print what the callback makes of the events, in order, each with the
  -- `initialTimestamp` that those in front of it leave, across the polls, if every reader is set.
  pub polls-print_all :
      (readers : Option (List (Option ℕ))) (rounds : List Round) (p : Polled)
      (rest : List Call → Loop)
      → all_set readers ≡ true
      → AllQuiet rounds
      → polls o readers rounds p (λ p'. rest p'.calls)
        ≡ print_all (on_events o p.initial (map event_at (events_in rounds))) p.calls rest
  unfolding poll on_events
  polls-print_all readers [] p rest set h = refl
  polls-print_all readers (r ∷ rs) p rest set (h, hs) =
      let now = map event_at r.events in
      let later = map event_at (events_in rs) in
      let after : Polled → Loop = λ p'. print_all (on_events o p'.initial later) p'.calls rest in
      let polled : ℤ → Option Polled =
        λ z. Option.map (after_poll o z) (deliver o p.initial r.events p.calls) in
      (λ i. or_undefined o (poll o readers r p) (λ p'. polls-print_all readers rs p' rest set hs i))
      ∙ (ap (λ b. or_undefined o (if b then polled r.result else none) after) set
          ∙ (ap (λ z. or_undefined o (polled z) after) h
              ∙ (deliver-print_all p.initial r.events p.calls after
                  ∙ (sym (
                        print_all-append (on_events o p.initial now)
                          (on_events o (initial_after o p.initial now) later) p.calls rest)
                      ∙ ap (λ ps. print_all ps p.calls rest)
                          (sym (on_events-append o p.initial now later)
                            ∙ ap (on_events o p.initial)
                                (sym (map-append event_at r.events (events_in rs))))))))
