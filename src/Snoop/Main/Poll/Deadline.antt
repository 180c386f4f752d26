-- ===== src/Snoop/Main/Poll/Deadline.antt =====
-- When the loop ends.
use mathlib.Core.Path.{subst, fun_ext}
use rust_ebpf_demo.Prelude.{
  ℕ, ◌+◌, ◌*◌, ◌<◌, ◌≤◌, ◌≡◌, refl, ap, ◌∙◌, true, false, Option, none, some, List, [], ◌∷◌, ◌++◌,
  leb, arith,
}
use rust_ebpf_demo.Prelude.Int.{pos}
use rust_ebpf_demo.Snoop.Args.{Options, is_unset}
use rust_ebpf_demo.Snoop.Main.State.{Timespec, complain}
use rust_ebpf_demo.Snoop.Main.Poll.{
  end_time, is_past, Round, Polled, Loop, ended, clock_failed, running, or_undefined, poll,
  poll_loop,
}

-- A time in nanoseconds.
abbrev pub nanos : Timespec → ℕ
nanos t = 1_000_000_000 * t.tv_sec + t.tv_nsec

abbrev pub IsTimespec : Timespec → Type 0
IsTimespec t = t.tv_nsec < 1_000_000_000

is_past-nanos :
    (end now : Timespec)
    → IsTimespec end
    → IsTimespec now
    → is_past end now ≡ leb (nanos end) (nanos now)
is_past-nanos end now he hn = ground arith

-- A round whose reading of the clock lies before a number of nanoseconds.
pub record IsBefore (deadline : ℕ) (r : Round) : Type 0 where
  pub time : Timespec
  pub read : r.reading ≡ some time
  pub valid : IsTimespec time
  pub early : nanos time < deadline

abbrev pub AllBefore : ℕ → List Round → Type 0
AllBefore deadline [] = Unit
AllBefore deadline (r ∷ rs) = IsBefore deadline r × AllBefore deadline rs

-- One poll behind the other.
abbrev pub polls : Options → Option (List (Option ℕ)) → List Round → Polled → (Polled → Loop) → Loop
polls o readers [] p rest = rest p
polls o readers (r ∷ rs) p rest =
    or_undefined o (poll o readers r p) (λ p'. polls o readers rs p' rest)

poll_loop-before :
    (o : Options) (readers : Option (List (Option ℕ))) (end : Timespec) (p : Polled)
    (before rounds : List Round)
    → is_unset o.duration ≡ false
    → IsTimespec end
    → AllBefore (nanos end) before
    → poll_loop o readers end p (before ++ rounds)
      ≡ polls o readers before p (λ p'. poll_loop o readers end p' rounds)
unfolding poll_loop
poll_loop-before o readers end p [] rounds timed he hs = refl
poll_loop-before o readers end p (r ∷ rs) rounds timed he (h, hs) =
    let early : is_past end h.time ≡ false =
      is_past-nanos end h.time he h.valid ∙ ground (arith, h.early) in
    rw (timed, h.read, early)
      (λ i.
        or_undefined o (poll o readers r p)
          (λ p'. poll_loop-before o readers end p' rs rounds timed he hs i))

-- With a duration the loop polls once for each reading before the deadline, which is the start plus
-- the duration, and ends at the first reading that is not before it, if each time has less than 10^9
-- nanoseconds beside its seconds.
pub poll_loop-ended :
    (o : Options) (readers : Option (List (Option ℕ))) (start : Timespec) (d : ℕ) (p : Polled)
    (before : List Round) (last : Round) (now : Timespec) (rounds : List Round)
    → o.duration ≡ pos d
    → IsTimespec start
    → AllBefore (nanos start + 1_000_000_000 * d) before
    → last.reading ≡ some now
    → IsTimespec now
    → nanos start + 1_000_000_000 * d ≤ nanos now
    → poll_loop o readers (end_time start o.duration) p (before ++ last ∷ rounds)
      ≡ polls o readers before p (λ p'. ended p'.calls)
unfolding poll_loop
poll_loop-ended o readers start d p before last now rounds e hs hb read hn le =
    let end : Timespec = end_time start (pos d) in
    let deadline : nanos start + 1_000_000_000 * d ≡ nanos end = omega arith in
    let timed : is_unset o.duration ≡ false = ap is_unset e in
    let past : is_past end now ≡ true = is_past-nanos end now hs hn ∙ ground arith in
    ap (λ z. poll_loop o readers (end_time start z) p (before ++ last ∷ rounds)) e
    ∙ (poll_loop-before o readers end p before (last ∷ rounds) timed hs
          (subst (λ k. AllBefore k before) deadline hb)
        ∙ ap (λ f. polls o readers before p f) (fun_ext λ p'. rw (timed, read, past)))

-- If the clock fails in front of the deadline, the loop ends there.
pub poll_loop-clock_failed :
    (o : Options) (readers : Option (List (Option ℕ))) (start : Timespec) (d : ℕ) (p : Polled)
    (before : List Round) (last : Round) (rounds : List Round)
    → o.duration ≡ pos d
    → IsTimespec start
    → AllBefore (nanos start + 1_000_000_000 * d) before
    → last.reading ≡ none
    → poll_loop o readers (end_time start o.duration) p (before ++ last ∷ rounds)
      ≡ polls o readers before p
          (λ p'. clock_failed (complain "Error calling clock_gettime()" ∷ p'.calls))
unfolding poll_loop
poll_loop-clock_failed o readers start d p before last rounds e hs hb read =
    let end : Timespec = end_time start (pos d) in
    let deadline : nanos start + 1_000_000_000 * d ≡ nanos end = omega arith in
    let timed : is_unset o.duration ≡ false = ap is_unset e in
    ap (λ z. poll_loop o readers (end_time start z) p (before ++ last ∷ rounds)) e
    ∙ (poll_loop-before o readers end p before (last ∷ rounds) timed hs
          (subst (λ k. AllBefore k before) deadline hb)
        ∙ ap (λ f. polls o readers before p f) (fun_ext λ p'. rw (timed, read)))

-- Without a duration the loop goes on as long as there are rounds.
pub poll_loop-running :
    (o : Options) (readers : Option (List (Option ℕ))) (end : Timespec) (p : Polled)
    (rounds : List Round)
    → is_unset o.duration ≡ true
    → poll_loop o readers end p rounds ≡ polls o readers rounds p (λ p'. running p'.calls)
unfolding poll_loop
poll_loop-running o readers end p [] h = refl
poll_loop-running o readers end p (r ∷ rounds) h =
    rw h (λ i.
      or_undefined o (poll o readers r p) (λ p'. poll_loop-running o readers end p' rounds h i))
