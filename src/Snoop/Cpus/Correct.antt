-- ===== src/Snoop/Cpus/Correct.antt =====
-- What `getOnlineCpus` makes of a list of ranges.
use mathlib.Core.List.{append_assoc, append-nil}
use rust_ebpf_demo.Prelude.{
  Every, ℕ, ◌+◌, ◌<◌, ◌≤◌, ◌≡◌, refl, sym, ap, ◌∙◌, true, false, none, some, List, [], ◌∷◌, ◌++◌,
  arith, inl, inr, Bool-cases, leb→le, leb, ◌==◌, if◌then◌else◌, length, length-append,
  length-tabulate_from,
}
use rust_ebpf_demo.Prelude.Int.{ℤ, pos, ltb_ℤ}
use rust_ebpf_demo.Snoop.Cpus.{
  CpuOutcome, online, failed, undefined, capacity, buf_size, Sysfs, after_read, get_online_cpus,
  continue, scan,
}
use rust_ebpf_demo.Snoop.Cpus.Ranges.{
  Range, one, span, IsRange, text, count, first_cpu, expand, extended, scan-text, add_range-text,
}

-- The contents of the file: the ranges with commas between them, and a newline.
abbrev pub online_text : Range → List Range → List ℕ
online_text r [] = text r (10 ∷ [])
online_text r (q ∷ qs) = text r (b',' ∷ online_text q qs)

abbrev pub total : List Range → ℕ
total [] = 0
total (r ∷ rs) = count r + total rs

abbrev pub expand_all : List Range → List ℤ
expand_all [] = []
expand_all (r ∷ rs) = expand r ++ expand_all rs

-- The outcome of adding the processors of all ranges: undefined as soon as they are too many.
abbrev pub appended : List ℤ → List Range → CpuOutcome
appended cpus rs =
    if leb (length cpus + total rs) capacity then online (cpus ++ expand_all rs) else undefined

-- What one range does to the outcome of those behind it.
abbrev step_outcome : Range → List ℤ → (List ℤ → CpuOutcome) → CpuOutcome
step_outcome r cpus next = continue (extended (first_cpu r) (count r) cpus) next

step-appended :
    (r : Range) (rs : List Range) (cpus : List ℤ) (next : List ℤ → CpuOutcome)
    → ((cpus' : List ℤ) → length cpus' ≤ capacity → next cpus' ≡ appended cpus' rs)
    → step_outcome r cpus next ≡ appended cpus (r ∷ rs)
step-appended r rs cpus next h = elim (Bool-cases (leb (length cpus + count r) capacity)) [
  | inl fits ↦
      let cpus' = cpus ++ expand r in
      let len : length cpus' ≡ length cpus + count r = omega (
        arith,
        length-append cpus (expand r),
        length-tabulate_from 0 (count r) (λ j. pos (first_cpu r + j)),
      ) in
      let sum : length cpus' + total rs ≡ length cpus + (count r + total rs) = omega (arith, len) in
      let joined = append_assoc cpus (expand r) (expand_all rs) in
      rw fits (
        h cpus' (omega (arith, leb→le _ _ fits)) ∙ λ i.
        if leb (sum i) capacity then online (joined i) else undefined)
  | inr full ↦
      let more : leb (length cpus + (count r + total rs)) capacity ≡ false = ground arith in
      rw (full, more)
]

continue-online : (o : CpuOutcome) → continue o online ≡ o
continue-online (online cpus) = refl
continue-online (failed b) = refl
continue-online undefined = refl

appended-nil : (cpus : List ℤ) → length cpus ≤ capacity → online cpus ≡ appended cpus []
appended-nil cpus h =
    let fits : leb (length cpus + 0) capacity ≡ true = ground arith in rw (fits, append-nil)

-- On the text of a list of ranges, behind processors that fit, the scan appends the processors of the
-- ranges in order if they fit too, and is undefined in C otherwise.
pub scan-online_text :
    (r : Range) (rs : List Range) (cpus : List ℤ)
    → IsRange r
    → Every IsRange rs
    → length cpus ≤ capacity
    → scan (online_text r rs) none cpus (online_text r rs) ≡ appended cpus (r ∷ rs)
unfolding scan
scan-online_text r [] cpus h hs hc =
    let end : List ℕ = 10 ∷ [] in
    scan-text r (text r end) cpus end h
    ∙ (add_range-text r end cpus h refl hc
        ∙ (sym (continue-online _) ∙ step-appended r [] cpus online appended-nil))
scan-online_text r (q ∷ qs) cpus h (hq, hqs) hc =
    let rest = online_text q qs in
    let field = text r (b',' ∷ rest) in
    scan-text r field cpus (b',' ∷ rest) h
    ∙ (ap (λ o. continue o (λ c. scan rest none c rest))
          (add_range-text r (b',' ∷ rest) cpus h refl hc)
        ∙ step-appended r (q ∷ qs) cpus (λ c. scan rest none c rest)
            (λ c. scan-online_text q qs c hq hqs))

-- The system answers with an open file that holds these ranges, and all calls succeed.
pub record Answers (sys : Sysfs) (r : Range) (rs : List Range) : Type 0 where
  pub opened : ltb_ℤ sys.fd (pos 0) ≡ false
  pub contents : sys.contents ≡ some (online_text r rs)
  pub short : length (online_text r rs) < buf_size
  pub closes : ltb_ℤ sys.closed (pos 0) ≡ false
  pub allocates : sys.allocated ≡ true

nonempty : (r : Range) (rs : List Range) → 0 < length (online_text r rs)
nonempty (one a) [] = omega arith
nonempty (span a b) [] = omega arith
nonempty (one a) (q ∷ qs) = omega arith
nonempty (span a b) (q ∷ qs) = omega arith

-- If the file holds a list of ranges `a` or `a-b` with commas between them and a newline, of less than
-- 256 bytes, every number an `int` and `a` at most `b`, and the calls succeed, then the descriptor is
-- closed, and the result is the list of their processors, in order, if these are at most 16. If they
-- are more, what happens is undefined in C.
pub get_online_cpus-appended :
    (sys : Sysfs) (r : Range) (rs : List Range)
    → Answers sys r rs
    → IsRange r
    → Every IsRange rs
    → get_online_cpus sys ≡ record { outcome = appended [] (r ∷ rs); fd_open = false }
unfolding get_online_cpus after_read
get_online_cpus-appended sys r rs h hr hrs =
    let full : (length (online_text r rs) == buf_size) ≡ false = ground (arith, h.short) in
    let filled : (length (online_text r rs) == 0) ≡ false = ground (arith, nonempty r rs) in
    rw (h.opened, h.contents, full, filled, h.closes, h.allocates)
      (rw (scan-online_text r rs [] hr hrs (omega arith)))
