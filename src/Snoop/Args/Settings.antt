-- ===== src/Snoop/Args/Settings.antt =====
-- What `parseArgs` can leave in the options.
use rust_ebpf_demo.Prelude.{
  ℕ, ◌+◌, ◌^◌, ◌<◌, ◌≡◌, ◌≢◌, refl, sym, ap, ◌∙◌, inl, inr, Bool, true, false, List, [], ◌∷◌, ◌++◌,
  ◌==◌, if◌then◌else◌, arith, Bool-cases, length,
}
use rust_ebpf_demo.Prelude.Int.{ℤ, pos, negsuc}
use rust_ebpf_demo.Clib.Strtol.{no_error}
use rust_ebpf_demo.Snoop.Number.{
  Parsed, IsParsed, parse_non_negative_integer, parse_non_negative_integer-IsParsed,
}
use rust_ebpf_demo.Snoop.Args.{
  Options, Got, Parsing, go_on, exit_with, Message, usage_on_stdout, usage_on_stderr, malloc_failed,
  invalid_value, is_unset, accept, parse_arg, parse_next, parse_args,
}

-- -1, or a non-negative `int`.
abbrev pub IsSetting : ℤ → Type 0
IsSetting (pos n) = n < 2 ^ 31
IsSetting (negsuc n) = n ≡ 0

pub record IsValid (o : Options) : Type 0 where
  pub pid : IsSetting o.pid
  pub tid : IsSetting o.tid
  pub duration : IsSetting o.duration

-- An exit with 0 is one with the usage text on stdout, and every other has code 1.
abbrev pub IsExit : ℕ → Message → Type 0
IsExit code usage_on_stdout = code ≡ 0
IsExit code usage_on_stderr = code ≡ 1
IsExit code malloc_failed = code ≡ 1
IsExit code (invalid_value c text) = code ≡ 1

abbrev pub IsSafe : Parsing → Type 0
IsSafe (go_on o) = IsValid o
IsSafe (exit_with code m) = IsExit code m

IsParsed-IsSetting : (r : Parsed) → IsParsed r → IsSetting r.result
IsParsed-IsSetting r (inl h) = rw h.0 refl
IsParsed-IsSetting r (inr (n, small, e, _)) = rw e small

if_IsSafe : (b : Bool) (x y : Parsing) → IsSafe x → IsSafe y → IsSafe (if b then x else y)
if_IsSafe true x y hx hy = hx
if_IsSafe false x y hx hy = hy

accept-IsSafe : (n : ℤ) (g : Got) (o : Options) → IsValid o → IsSafe (accept n g o)
accept-IsSafe n g o v = if_IsSafe (is_unset n) _ _ refl v

parse_next-IsSafe :
    (p : Parsing) (next : Options → Parsing)
    → IsSafe p
    → ((o : Options) → IsValid o → IsSafe (next o))
    → IsSafe (parse_next p next)
parse_next-IsSafe (go_on o) f h next = next o h
parse_next-IsSafe (exit_with code m) f h next = h

parse_next_congr :
    (p : Parsing) (f g k : Options → Parsing)
    → ((o : Options) → f o ≡ parse_next (g o) k)
    → parse_next p f ≡ parse_next (parse_next p g) k
parse_next_congr (go_on o) f g k h = h o
parse_next_congr (exit_with code m) f g k h = refl

accept-eq-go_on :
    (n : ℤ) (g : Got) (o o' : Options) → accept n g o ≡ go_on o' → (o' ≡ o) × (is_unset n ≡ false)
accept-eq-go_on n g o o' e = elim (Bool-cases (is_unset n)) [
  | inl h ↦ absurd (exit-ne-go_on (rw h at e))
  | inr h ↦ (go_on-injective (sym (rw h at e)), h)
]
  where
    exit-ne-go_on : exit_with 1 (invalid_value g.c g.optarg) ≡ go_on o' → ⊥
    exit-ne-go_on e = cc

    go_on-injective : {a b : Options} → go_on a ≡ go_on b → a ≡ b
    go_on-injective e = cc

no_error_of_set : (r : Parsed) → IsParsed r → is_unset r.result ≡ false → r.errno ≡ no_error
no_error_of_set r (inl h) e = absurd (absurd_bool (rw h.0 at e))
  where
    absurd_bool : true ≡ false → ⊥
    absurd_bool e = cc
no_error_of_set r (inr (n, _, _, h)) e = h

parse_next-eq-go_on :
    (p : Parsing) {f : Options → Parsing} {o' : Options}
    → parse_next p f ≡ go_on o'
    → (o : Options) × (p ≡ go_on o) × (f o ≡ go_on o')
parse_next-eq-go_on (go_on o) h = (o, refl, h)
parse_next-eq-go_on (exit_with code m) h = cc

module _ (allocates : ℕ → Bool) where
  parse_arg-IsSafe : (o : Options) (g : Got) → IsValid o → IsSafe (parse_arg allocates o g)
  unfolding parse_arg
  parse_arg-IsSafe o g v =
      let z = (parse_non_negative_integer g.optarg).result in
      let n : IsSetting (parse_non_negative_integer g.optarg).result =
        IsParsed-IsSetting (parse_non_negative_integer g.optarg)
          (parse_non_negative_integer-IsParsed g.optarg) in
      if_IsSafe (g.c == 0) _ _ v (
        if_IsSafe (g.c == b'T') _ _ (record { pid = v.pid; tid = v.tid; duration = v.duration })
          (if_IsSafe (g.c == b'x') _ _ (record { pid = v.pid; tid = v.tid; duration = v.duration })
            (if_IsSafe (g.c == b'p') _ _
              (accept-IsSafe z g (record o { pid = z })
                (record { pid = n; tid = v.tid; duration = v.duration }))
              (if_IsSafe (g.c == b't') _ _
                (accept-IsSafe z g (record o { tid = z })
                  (record { pid = v.pid; tid = n; duration = v.duration }))
                (if_IsSafe (g.c == b'd') _ _
                  (accept-IsSafe z g (record o { duration = z })
                    (record { pid = v.pid; tid = v.tid; duration = n }))
                  (if_IsSafe (g.c == b'n') _ _
                    (if_IsSafe (allocates (length g.optarg + 1)) _ _
                      (record { pid = v.pid; tid = v.tid; duration = v.duration }) (omega arith))
                    (if_IsSafe (g.c == b'h') _ _ (omega arith) (omega arith))))))))

  -- From valid options, whatever the arguments, the parser goes on with valid options (each of the
  -- process, the thread and the duration is -1 or a non-negative `int`), or exits: with 0 behind the
  -- usage text on stdout, or with 1 behind another message.
  pub parse_args-IsSafe :
      (o : Options) (gs : List Got) → IsValid o → IsSafe (parse_args allocates o gs)
  unfolding parse_args
  parse_args-IsSafe o [] v = v
  parse_args-IsSafe o (g ∷ gs) v =
      parse_next-IsSafe (parse_arg allocates o g) _ (parse_arg-IsSafe o g v)
        (λ o' v'. parse_args-IsSafe o' gs v')

  -- Parsing two lists of arguments one behind the other is parsing the first, and, unless that exits,
  -- the second with the options that the first leaves.
  pub parse_args-append :
      (o : Options) (gs hs : List Got)
      → parse_args allocates o (gs ++ hs)
        ≡ parse_next (parse_args allocates o gs) (λ o'. parse_args allocates o' hs)
  unfolding parse_args
  parse_args-append o [] hs = refl
  parse_args-append o (g ∷ gs) hs =
      parse_next_congr (parse_arg allocates o g) _ _ _ (λ o'. parse_args-append o' gs hs)

  -- No argument of the list is `-p`.
  abbrev pub NoPid : List Got → Type 0
  NoPid [] = Unit
  NoPid (g ∷ gs) = (g.c ≢ b'p') × NoPid gs

  parse_arg-pid :
      (o o' : Options) (g : Got) → g.c ≢ b'p' → parse_arg allocates o g ≡ go_on o' → o'.pid ≡ o.pid
  unfolding parse_arg
  parse_arg-pid o o' g h e = ground arith

  parse_args-pid :
      (o o' : Options) (gs : List Got)
      → NoPid gs
      → parse_args allocates o gs ≡ go_on o'
      → o'.pid ≡ o.pid
  unfolding parse_args
  parse_args-pid o o' [] h e = ground arith
  parse_args-pid o o' (g ∷ gs) h e =
      let (o₁, first, rest) = parse_next-eq-go_on (parse_arg allocates o g) e in
      parse_args-pid o₁ o' gs h.1 rest ∙ parse_arg-pid o o₁ g h.0 first

  -- The last `-p` decides: if the parser goes on, `opt_pid` is what `parseNonNegativeInteger` makes of
  -- its text, and that call left no error in `errno`.
  pub parse_args-last_pid :
      (o o' : Options) (gs hs : List Got) (text : List ℕ)
      → NoPid hs
      → parse_args allocates o (gs ++ record { c = b'p'; optarg = text } ∷ hs) ≡ go_on o'
      → (o'.pid ≡ (parse_non_negative_integer text).result)
        × ((parse_non_negative_integer text).errno ≡ no_error)
  unfolding parse_args parse_arg
  parse_args-last_pid o o' gs hs text h e =
      let g : Got = record { c = b'p'; optarg = text } in
      let (o₁, _, rest) =
        parse_next-eq-go_on (parse_args allocates o gs)
          (sym (parse_args-append o gs (g ∷ hs)) ∙ e) in
      let (o₂, second, last) = parse_next-eq-go_on (parse_arg allocates o₁ g) rest in
      let z = (parse_non_negative_integer text).result in
      let (accepted, set) = accept-eq-go_on z g (record o₁ { pid = z }) o₂ second in
      (
        parse_args-pid o₂ o' hs h last ∙ ap (λ x. x.pid) accepted,
        no_error_of_set (parse_non_negative_integer text) (parse_non_negative_integer-IsParsed text)
            set,
      )
