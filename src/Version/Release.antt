-- ===== src/Version/Release.antt =====
-- What is printed for a release, and for which releases the program is undefined.
use rust_ebpf_demo.Prelude.{
  ℕ, suc, ◌+◌, ◌^◌, ◌<◌, ◌≡◌, ◌↔◌, Bool-cases, if◌then◌else◌, inl, inr, refl, ap, ◌∙◌, true, false,
  none, some, List, [], ◌∷◌, ◌++◌, ◌==◌, arith, ltb, lt→ltb, Option,
}
use rust_ebpf_demo.Prelude.Int.{ℤ, pos}
use rust_ebpf_demo.Clib.Strtol.{strtol-numeral, numeral, value, IsDigits, Ends}
use rust_ebpf_demo.Clib.Words.{to_int, to_int_id}
use rust_ebpf_demo.Version.{
  behind_dot, atoi, prints, undefined, with_patchlevel, with_sublevel, main,
}

-- A number of a release: its digits, and a value that is an `int`.
pub record IsNumber (d : ℕ) (ds : List ℕ) : Type 0 where
  pub digits : IsDigits (d ∷ ds)
  pub small : value (d ∷ ds) < 2 ^ 31

atoi-numeral :
    (d : ℕ) (ds rest : List ℕ)
    → IsNumber d ds
    → Ends rest
    → atoi (numeral (d ∷ ds) ++ rest) ≡ pos (value (d ∷ ds))
atoi-numeral d ds rest n e =
    let fits : ltb (value (d ∷ ds)) (2 ^ 63) ≡ true = lt→ltb _ _ (omega (arith, n.small)) in
    ap (λ l. to_int l.value) (strtol-numeral d ds rest n.digits e)
    ∙ rw fits (to_int_id (pos (value (d ∷ ds))) n.small)

behind_dot-numeral :
    (ds rest : List ℕ) → IsDigits ds → behind_dot (numeral ds ++ (b'.' ∷ rest)) ≡ some rest
behind_dot-numeral [] rest h = refl
behind_dot-numeral (d ∷ ds) rest h =
    let digit : (b'0' + d == b'.') ≡ false = ground arith in
    rw digit (behind_dot-numeral ds rest h.1)

-- `a.b.c` and a rest that does not go on with a digit.
abbrev pub release : List ℕ → List ℕ → List ℕ → List ℕ → List ℕ
release a b c rest = numeral a ++ (b'.' ∷ (numeral b ++ (b'.' ∷ (numeral c ++ rest))))

-- How many dots are in the text.
unfoldable pub dots : List ℕ → ℕ
dots [] = 0
dots (c ∷ cs) = let more = dots cs in if c == b'.' then suc more else more

-- Behind the first dot is one dot less.
Behind : List ℕ → Option (List ℕ) → Type 0
unfolding dots
Behind text none = dots text ≡ 0
Behind text (some rest) = dots text ≡ suc (dots rest)

-- A byte in front that is a dot, or is none.
Behind-dot : (c : ℕ) (cs : List ℕ) → (c == b'.') ≡ true → Behind (c ∷ cs) (some cs)
unfolding Behind
Behind-dot c cs e = rw e refl

Behind-other :
    (c : ℕ) (cs : List ℕ) (r : Option (List ℕ))
    → (c == b'.') ≡ false
    → Behind cs r
    → Behind (c ∷ cs) r
unfolding Behind
Behind-other c cs none e h = rw e h
Behind-other c cs (some rest) e h = rw e h

Behind-behind_dot : (text : List ℕ) → Behind text (behind_dot text)
unfolding Behind
Behind-behind_dot [] = refl
Behind-behind_dot (c ∷ cs) = elim (Bool-cases (c == b'.')) [
  | inl e ↦ rw e (Behind-dot c cs e)
  | inr e ↦ rw e (Behind-other c cs (behind_dot cs) e (Behind-behind_dot cs))
]

module _ (version_code : ℤ) (kernel_version : ℤ → ℤ → ℤ → ℤ) where
  -- For a release `a.b.c` of three numbers of type `int`, and whatever follows that does not go on with a
  -- digit, the program prints LINUX_VERSION_CODE, these numbers and what KERNEL_VERSION makes of
  -- them.
  pub main-prints :
      (a b c : ℕ) (xs ys zs rest : List ℕ)
      → IsNumber a xs
      → IsNumber b ys
      → IsNumber c zs
      → Ends rest
      → main version_code kernel_version (some (release (a ∷ xs) (b ∷ ys) (c ∷ zs) rest))
        ≡ prints (release (a ∷ xs) (b ∷ ys) (c ∷ zs) rest) version_code (record {
          version = pos (value (a ∷ xs));
          patchlevel = pos (value (b ∷ ys));
          sublevel = pos (value (c ∷ zs));
          code =
              kernel_version (pos (value (a ∷ xs))) (pos (value (b ∷ ys))) (pos (value (c ∷ zs)));
        })
  unfolding main
  main-prints a b c xs ys zs rest na nb nc e =
      let third = numeral (c ∷ zs) ++ rest in
      let second = numeral (b ∷ ys) ++ (b'.' ∷ third) in
      let all = release (a ∷ xs) (b ∷ ys) (c ∷ zs) rest in
      let va : atoi all ≡ pos (value (a ∷ xs)) = atoi-numeral a xs (b'.' ∷ second) na refl in
      let vb : atoi second ≡ pos (value (b ∷ ys)) = atoi-numeral b ys (b'.' ∷ third) nb refl in
      let vc : atoi third ≡ pos (value (c ∷ zs)) = atoi-numeral c zs rest nc e in
      let da = behind_dot-numeral (a ∷ xs) second na.digits in
      let db = behind_dot-numeral (b ∷ ys) third nb.digits in
      (λ i. with_patchlevel version_code kernel_version all (va i) (da i))
      ∙ ((λ i. with_sublevel version_code kernel_version all (pos (value (a ∷ xs))) (vb i) (db i))
          ∙ λ i. prints all version_code (record {
            version = pos (value (a ∷ xs));
            patchlevel = pos (value (b ∷ ys));
            sublevel = vc i;
            code = kernel_version (pos (value (a ∷ xs))) (pos (value (b ∷ ys))) (vc i);
          }))

  sublevel-undefined_iff :
      (text : List ℕ) (version patchlevel : ℤ) (second : List ℕ) (third : Option (List ℕ))
      → Behind second third
      → (with_sublevel version_code kernel_version text version patchlevel third ≡ undefined)
        ↔ (dots second < 1)
  unfolding Behind
  sublevel-undefined_iff text version patchlevel second none h =
      (λ e. omega (arith, h), λ few. refl)
  sublevel-undefined_iff text version patchlevel second (some third) h =
      (λ e. cc, λ few. absurd (omega (arith, h, few)))

  patchlevel-undefined_iff :
      (text : List ℕ) (version : ℤ) (second : Option (List ℕ))
      → Behind text second
      → (with_patchlevel version_code kernel_version text version second ≡ undefined)
        ↔ (dots text < 2)
  unfolding Behind
  patchlevel-undefined_iff text version none h = (λ e. omega (arith, h), λ few. refl)
  patchlevel-undefined_iff text version (some second) h =
      let both =
        sublevel-undefined_iff text version (atoi second) second (behind_dot second)
          (Behind-behind_dot second) in
      (λ e. omega (arith, h, both.0 e), λ few. both.1 (omega (arith, h, few)))

  -- The program is undefined exactly if fewer than two bytes of the release are dots: it then adds one to
  -- the null pointer of `strstr` and reads there.
  pub main-undefined_iff :
      (text : List ℕ) → (main version_code kernel_version (some text) ≡ undefined) ↔ (dots text < 2)
  unfolding main
  main-undefined_iff text =
      patchlevel-undefined_iff text (atoi text) (behind_dot text) (Behind-behind_dot text)
