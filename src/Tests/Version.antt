-- ===== src/Tests/Version.antt =====
-- The release of a kernel, and one with a single dot.
use rust_ebpf_demo.Prelude.{◌≡◌, ◌<◌, ◌↔◌, [], ◌∷◌, some, refl, arith}
use rust_ebpf_demo.Prelude.Int.{ℤ, pos}
use rust_ebpf_demo.Clib.Text.{codes}
use rust_ebpf_demo.Clib.Strtol.{value_from}
use rust_ebpf_demo.Version.{prints, undefined, main}
use rust_ebpf_demo.Version.Release.{dots, release, main-prints, main-undefined_iff}

abbrev middle : ℤ → ℤ → ℤ → ℤ
middle a b c = b

main-prints_example :
    main (pos 266002) middle (some (release (4 ∷ []) (1 ∷ (8 ∷ [])) (0 ∷ []) (codes "-15-generic")))
    ≡ prints
        (release (4 ∷ []) (1 ∷ (8 ∷ [])) (0 ∷ []) (codes "-15-generic"))
        (pos 266002)
        (record { version = pos 4; patchlevel = pos 18; sublevel = pos 0; code = pos 18 })
unfolding value_from
main-prints_example =
    main-prints (pos 266002) middle 4 1 0 [] (8 ∷ []) [] (codes "-15-generic")
      (record { digits = (omega arith, tt); small = omega arith })
      (record { digits = (omega arith, (omega arith, tt)); small = omega arith })
      (record { digits = (omega arith, tt); small = omega arith }) refl

main-undefined_iff_example :
    (main (pos 266002) middle (some (codes "6.1-rc3")) ≡ undefined) ↔ (dots (codes "6.1-rc3") < 2)
main-undefined_iff_example = main-undefined_iff (pos 266002) middle (codes "6.1-rc3")

release-text :
    release (4 ∷ []) (1 ∷ (8 ∷ [])) (0 ∷ []) (codes "-15-generic") ≡ codes "4.18.0-15-generic"
release-text = refl

dots-undefined : dots (codes "6.1-rc3") ≡ 1
unfolding dots
dots-undefined = refl
