-- ===== src/Snoop/Report/Filter.antt =====
-- Which events are printed, and with what.
use rust_ebpf_demo.Prelude.{
  ℕ, ◌≡◌, ◌≢◌, ◌⊎◌, ◌↔◌, refl, sym, ap, ◌∙◌, inl, inr, Bool, true, false, not, ◌&&◌, Option, none,
  some, List, ◌++◌, if◌then◌else◌, arith, Bool-cases,
}
use rust_ebpf_demo.Prelude.Int.{ℤ, pos, negsuc}
use rust_ebpf_demo.Clib.Text.{strstr, strstr-append, strstr_split}
use rust_ebpf_demo.Snoop.Args.{Options}
use rust_ebpf_demo.Snoop.Report.{
  Event, nothing, nonneg, fd_and_err, name_matches, is_filtered, printed, on_event,
}

-- The name is part of the process name.
pub Occurs : List ℕ → List ℕ → Type 0
Occurs name comm = (front : List ℕ) × (rest : List ℕ) × (comm ≡ front ++ (name ++ rest))

-- The user does not want to see the event: it succeeded and only failures are shown, or a name was
-- given that is not part of the process name.
abbrev pub Unwanted : Options → Event → Type 0
Unwanted o e =
    ((o.failed ≡ true) × (n : ℕ) × (e.ret ≡ pos n))
    ⊎ ((name : List ℕ) × (o.name ≡ some name) × ¬ Occurs name e.comm)

name_matches-Occurs :
    (name : Option (List ℕ)) (comm : List ℕ)
    → name_matches name comm ≡ false
    → (n : List ℕ) × (name ≡ some n) × ¬ Occurs n comm
unfolding Occurs
name_matches-Occurs none comm h = cc
name_matches-Occurs (some n) comm h = (
  n,
  refl,
  λ (front, rest, e).
      absurd_bool (sym (strstr-append front n rest) ∙ (ap (λ c. strstr c n) (sym e) ∙ h)),
)
  where
    absurd_bool : true ≡ false → ⊥
    absurd_bool e = cc

is_filtered-Unwanted :
    (failed : Bool) (ret : ℤ) (matches : Bool)
    → (if failed && nonneg ret then true else not matches) ≡ true
    → ((failed ≡ true) × (n : ℕ) × (ret ≡ pos n)) ⊎ (matches ≡ false)
is_filtered-Unwanted true (pos n) matches h = inl (refl, n, refl)
is_filtered-Unwanted true (negsuc n) matches h = inr (ground arith)
is_filtered-Unwanted false ret matches h = inr (ground arith)

printed-ne-nothing :
    (o : Options) (initial : ℕ) (e : Event) (r : Option (ℤ × ℤ)) → printed o initial e r ≢ nothing
printed-ne-nothing o initial e none h = cc
printed-ne-nothing o initial e (some (fd_s, err)) h = cc

silent-is_filtered :
    (o : Options) (initial : ℕ) (e : Event)
    → (on_event o initial e).1 ≡ nothing
    → is_filtered o e ≡ true
unfolding on_event
silent-is_filtered o initial e h = elim (Bool-cases (is_filtered o e)) [
  | inl f ↦ f
  | inr f ↦ absurd (printed-ne-nothing o initial e (fd_and_err e.ret) (rw f at h))
]

Unwanted-is_filtered : (o : Options) (e : Event) → Unwanted o e → is_filtered o e ≡ true
unfolding Occurs
Unwanted-is_filtered o e (inl (f, n, r)) = rw (f, r)
Unwanted-is_filtered o e (inr (name, given, absent)) = elim (Bool-cases (strstr e.comm name)) [
  | inl found ↦ absurd (absent (strstr_split e.comm name found))
  | inr missing ↦ rw (given, missing) (if_same (o.failed && nonneg e.ret))
]
  where
    if_same : (b : Bool) → (if b then true else true) ≡ true
    if_same true = refl
    if_same false = refl

is_filtered-to_Unwanted : (o : Options) (e : Event) → is_filtered o e ≡ true → Unwanted o e
is_filtered-to_Unwanted o e h =
    go (is_filtered-Unwanted o.failed e.ret (name_matches o.name e.comm) h)
  where
    go :
        ((o.failed ≡ true) × (n : ℕ) × (e.ret ≡ pos n)) ⊎ (name_matches o.name e.comm ≡ false)
        → Unwanted o e
    go (inl shown) = inl shown
    go (inr miss) = inr (name_matches-Occurs o.name e.comm miss)

-- The callback prints nothing exactly for the events that the user does not want.
pub on_event-silent_iff :
    (o : Options) (initial : ℕ) (e : Event) → ((on_event o initial e).1 ≡ nothing) ↔ Unwanted o e
unfolding on_event
on_event-silent_iff o initial e = (
  λ h. is_filtered-to_Unwanted o e (silent-is_filtered o initial e h),
  λ u. silent o initial e (Unwanted-is_filtered o e u),
)
  where
    silent :
        (o : Options) (initial : ℕ) (e : Event)
        → is_filtered o e ≡ true
        → (on_event o initial e).1 ≡ nothing
    silent o initial e f = rw f
