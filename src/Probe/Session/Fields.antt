-- ===== src/Probe/Session/Fields.antt =====
-- Bytes that agree make the same fields of an entry and of an event.
use rust_ebpf_demo.Prelude.{
  ℕ, zero, suc, ◌+◌, ◌^◌, ◌<◌, ◌≡◌, refl, ap, ◌∙◌, ◌∷◌, ◌++◌, arith, tabulate, tabulate_from,
  replicate,
}
use rust_ebpf_demo.Prelude.Bytes.{to_le, from_le, from_le-to_le_8}
use rust_ebpf_demo.Bpf.Kernel.{Kernel}
use rust_ebpf_demo.Probe.Layout.{ValT, DataT, encode_val, encode_data}
use rust_ebpf_demo.Probe.Source.{val_u64}
use rust_ebpf_demo.Probe.Session.{View, byte_at, Holds}

pub tabulate_from_congr :
    (i n : ℕ) (f g : ℕ → ℕ)
    → ((j : ℕ) → j < i + n → f j ≡ g j)
    → tabulate_from i n f ≡ tabulate_from i n g
tabulate_from_congr i zero f g h = refl
tabulate_from_congr i (suc n) f g h =
    let first = h i (omega arith) in
    let rest = tabulate_from_congr (suc i) n f g (λ j lt. h j (omega arith)) in
    λ t. first t ∷ rest t

pub encode_data_congr :
    (d e : DataT)
    → d.id ≡ e.id
    → d.ts ≡ e.ts
    → d.ret ≡ e.ret
    → tabulate 16 d.comm ≡ tabulate 16 e.comm
    → tabulate 255 d.fname ≡ tabulate 255 e.fname
    → encode_data d ≡ encode_data e
encode_data_congr d e id ts ret comm fname = λ t.
    to_le 8 (id t)
    ++ (to_le 8 (ts t) ++ (to_le 4 (ret t) ++ (comm t ++ (fname t ++ replicate 5 0))))

module _ {S : Type 0} (w : View S) (k : Kernel S) where
  pub val_u64-id :
      (s : S) (a : ℕ) (v : ValT)
      → Holds w k s a (encode_val v)
      → v.id < 2 ^ 64
      → val_u64 k s a 0 ≡ v.id
  val_u64-id s a v held small =
      ap from_le (
        tabulate_from_congr 0 8 (λ i. k.value_byte s (a + 0 + i))
          (λ i. byte_at (encode_val v) (0 + i)) (λ i lt. held.load 0 i (omega arith)))
      ∙ from_le-to_le_8 v.id small

  pub val_u64-fname :
      (s : S) (a : ℕ) (v : ValT)
      → Holds w k s a (encode_val v)
      → v.fname < 2 ^ 64
      → val_u64 k s a 24 ≡ v.fname
  val_u64-fname s a v held small =
      ap from_le (
        tabulate_from_congr 0 8 (λ i. k.value_byte s (a + 24 + i))
          (λ i. byte_at (encode_val v) (24 + i)) (λ i lt. held.load 24 i (omega arith)))
      ∙ from_le-to_le_8 v.fname small
