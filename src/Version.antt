-- ===== src/Version.antt =====
-- opensnoop/uname_test.c: the three numbers in the kernel's release, and the number that the macro
-- KERNEL_VERSION of the kernel's headers makes of them. The macro is a parameter, and so is
-- LINUX_VERSION_CODE.
pub mod Release
use rust_ebpf_demo.Prelude.{Option, none, some, List, [], ◌∷◌, ◌==◌, if◌then◌else◌, ℕ}
use rust_ebpf_demo.Prelude.Int.{ℤ}
use rust_ebpf_demo.Clib.Strtol.{strtol}
use rust_ebpf_demo.Clib.Words.{to_int}

-- What stands behind the first dot: `strstr(text, ".") + 1`, and `none` if there is no dot.
abbrev pub behind_dot : List ℕ → Option (List ℕ)
behind_dot [] = none
behind_dot (c ∷ cs) = let later = behind_dot cs in if c == b'.' then some cs else later

-- `atoi` is `strtol` in base 10, converted to `int`.
abbrev pub atoi : List ℕ → ℤ
atoi text = to_int (strtol text).value

-- What the last line has.
pub record Numbers : Type 0 where
  pub version : ℤ
  pub patchlevel : ℤ
  pub sublevel : ℤ
  pub code : ℤ

-- The release, LINUX_VERSION_CODE and the last line are printed. `undefined` is a use of the null pointer that `strstr` gave.
pub data Outcome : Type 0 where
  no_release : Outcome
  prints : List ℕ → ℤ → Numbers → Outcome
  undefined : Outcome

module _ (version_code : ℤ) (kernel_version : ℤ → ℤ → ℤ → ℤ) where
  abbrev pub with_sublevel : List ℕ → ℤ → ℤ → Option (List ℕ) → Outcome
  with_sublevel release version patchlevel none = undefined
  with_sublevel release version patchlevel (some third) =
      let sublevel = atoi third in
      prints release version_code (record {
        version = version;
        patchlevel = patchlevel;
        sublevel = sublevel;
        code = kernel_version version patchlevel sublevel;
      })

  abbrev pub with_patchlevel : List ℕ → ℤ → Option (List ℕ) → Outcome
  with_patchlevel release version none = undefined
  with_patchlevel release version (some second) =
      with_sublevel release version (atoi second) (behind_dot second)

  -- `none` stands for a `uname` that fails.
  unfoldable pub main : Option (List ℕ) → Outcome
  main none = no_release
  main (some release) = with_patchlevel release (atoi release) (behind_dot release)
