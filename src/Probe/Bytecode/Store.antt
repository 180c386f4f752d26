-- ===== src/Probe/Bytecode/Store.antt =====
-- An array of the caller, filled from its start. A store past its end is undefined in C: `none`.
use mathlib.Core.Option
use rust_ebpf_demo.Prelude.{
  ◌≤◌, ◌≡◌, refl, ap, Option, none, some, List, [], ◌∷◌, ◌++◌, arith, length, drop,
}

module _ {ℓ} {A : Type ℓ} where
  -- `instructions[0] = i0; instructions[1] = i1; ...`
  unfoldable pub store_all : List A → List A → Option (List A)
  store_all array [] = some array
  store_all [] (x ∷ xs) = none
  store_all (a ∷ array) (x ∷ xs) = Option.map (λ r. x ∷ r) (store_all array xs)

  -- In an array that is long enough the stores succeed, and keep what stands behind them.
  pub store_all-append-drop :
      (array xs : List A)
      → length xs ≤ length array
      → store_all array xs ≡ some (xs ++ drop (length xs) array)
  unfolding store_all
  store_all-append-drop array [] h = refl
  store_all-append-drop [] (x ∷ xs) h = absurd (omega arith)
  store_all-append-drop (a ∷ array) (x ∷ xs) h =
      ap (Option.map (λ r. x ∷ r)) (store_all-append-drop array xs (omega arith))
