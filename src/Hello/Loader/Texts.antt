-- ===== src/Hello/Loader/Texts.antt =====
-- The texts that the loader writes and reads: none of them is cut off.
use rust_ebpf_demo.Prelude.{
  ℕ, ◌+◌, ◌^◌, drop, ◌<◌, ◌≡◌, ◌≢◌, refl, sym, ap, ◌∙◌, true, false, List, [], ◌∷◌, ◌++◌,
  length-append, arith, ltb, ◌==◌,
}
use rust_ebpf_demo.Clib.Strtol.{numeral, value, IsDigits}
use rust_ebpf_demo.Clib.Text.{codes, snprintf, snprintf-fits, c_string}
use rust_ebpf_demo.Clib.Decimal.{decimal, length-decimal, decimal_injective}
use rust_ebpf_demo.Clib.Prefixed.{strtol_any, strtol_any-numeral}
use rust_ebpf_demo.Hello.Loader.{event_alias, probe_text, event_path, id_path, config_of, to_u64}

-- `p_do_sys_open_bcc_<pid>`
abbrev pub name_of : ℕ → List ℕ
name_of pid = codes "p_do_sys_open_bcc_" ++ decimal pid

abbrev pub probe_line : ℕ → List ℕ
probe_line pid = codes "p:kprobes/" ++ (name_of pid ++ codes " do_sys_open")

abbrev pub path_of : ℕ → List ℕ
path_of pid = codes "/sys/kernel/debug/tracing/events/kprobes/" ++ name_of pid

event_alias_lem : (pid : ℕ) → event_alias pid ≡ name_of pid
event_alias_lem pid = snprintf-fits 128 (name_of pid) (omega (arith, length-decimal pid))

pub probe_text_lem : (pid : ℕ) → probe_text pid ≡ probe_line pid
probe_text_lem pid =
    ap (λ a. snprintf 256 (codes "p:kprobes/" ++ (a ++ codes " do_sys_open"))) (event_alias_lem pid)
    ∙ snprintf-fits 256 (probe_line pid)
        (omega (arith, length-decimal pid, length-append (decimal pid) (codes " do_sys_open")))

event_path_lem : (pid : ℕ) → event_path pid ≡ path_of pid
event_path_lem pid =
    ap (λ a. snprintf 256 (codes "/sys/kernel/debug/tracing/events/kprobes/" ++ a))
      (event_alias_lem pid)
    ∙ snprintf-fits 256 (path_of pid) (omega (arith, length-decimal pid))

pub id_path_lem : (pid : ℕ) → id_path (event_path pid) ≡ path_of pid ++ codes "/id"
id_path_lem pid =
    ap id_path (event_path_lem pid)
    ∙ snprintf-fits 4096 (path_of pid ++ codes "/id")
        (omega (arith, length-decimal pid, length-append (decimal pid) (codes "/id")))

c_string-line_of : (ds : List ℕ) → c_string (numeral ds ++ (10 ∷ [])) ≡ numeral ds ++ (10 ∷ [])
unfolding c_string
c_string-line_of [] = refl
c_string-line_of (d ∷ ds) =
    let e : (b'0' + d == 0) ≡ false = ground arith in
    rw e (ap (λ l. (b'0' + d) ∷ l) (c_string-line_of ds))

-- The number in the file of an event's id.
pub config_of-numeral :
    (d : ℕ) (ds : List ℕ)
    → IsDigits (d ∷ ds)
    → 0 < d
    → value (d ∷ ds) < 2 ^ 63
    → config_of (numeral (d ∷ ds) ++ (10 ∷ [])) ≡ value (d ∷ ds)
config_of-numeral d ds digits positive small =
    let text = numeral (d ∷ ds) ++ (10 ∷ []) in
    let fits : ltb (value (d ∷ ds)) (2 ^ 63) ≡ true = ground arith in
    ap (λ t. to_u64 (strtol_any t).value) (c_string-line_of (d ∷ ds))
    ∙ (ap (λ l. to_u64 l.value) (strtol_any-numeral d ds (10 ∷ []) digits positive refl)
        ∙ rw fits (omega arith))

-- Two processes with different ids, of type `int`, name their events differently.
pub event_alias_distinct :
    (p q : ℕ) → p < 2 ^ 31 → q < 2 ^ 31 → p ≢ q → event_alias p ≢ event_alias q
event_alias_distinct p q small small' ne e =
    let same : decimal p ≡ decimal q =
      ap (drop 18) (sym (event_alias_lem p) ∙ (e ∙ event_alias_lem q)) in
    ne (decimal_injective p q (omega arith) (omega arith) same)
