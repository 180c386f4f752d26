-- ===== src/Tests/Loader.antt =====
-- The loader of the hello-world probe, in the process 4711.
use rust_ebpf_demo.Prelude.{◌≡◌, ◌≢◌, refl, true, none, some, [], ◌∷◌, arith}
use rust_ebpf_demo.Prelude.Int.{pos, neg}
use rust_ebpf_demo.Clib.Strtol.{clamp_pos, value_from}
use rust_ebpf_demo.Clib.Decimal.{decimal}
use rust_ebpf_demo.Clib.Text.{codes}
use rust_ebpf_demo.Clib.Prefixed.{strtol_any}
use rust_ebpf_demo.Hello.Loader.{
  System, State, all_closed, main, probe_text, event_alias, id_path, event_path,
}
use rust_ebpf_demo.Hello.Loader.Exit.{outcome, main_lem}
use rust_ebpf_demo.Hello.Loader.Texts.{probe_line, event_alias_distinct}
use rust_ebpf_demo.Hello.Loader.Attach.{all_calls, main-all_calls}

hex_text : strtol_any (b'0' ∷ b'x' ∷ b'1' ∷ b'F' ∷ 10 ∷ []) ≡ clamp_pos 31
unfolding strtol_any
hex_text = refl

octal_text : strtol_any (b'0' ∷ b'1' ∷ b'7' ∷ b'8' ∷ []) ≡ clamp_pos 15
unfolding strtol_any
octal_text = refl

-- The event has the number 1492.
abbrev granted : System
granted = record {
  version = 264_721;
  pid = 4711;
  prog = pos 3;
  events = pos 4;
  written = pos 45;
  no_entry = true;
  id = pos 4;
  id_text = some (codes "1492\n");
  perf = λ number. pos 5;
  set_bpf = pos 0;
  enable = pos 0;
  sigaddset = pos 0;
  sigprocmask = pos 0;
  sigwait = pos 0;
  sig = some (pos 2);
}

probe_text-granted : probe_text 4711 ≡ codes "p:kprobes/p_do_sys_open_bcc_4711 do_sys_open"
unfolding decimal
probe_text-granted = refl

id_path-granted :
    id_path (event_path 4711)
    ≡ codes "/sys/kernel/debug/tracing/events/kprobes/p_do_sys_open_bcc_4711/id"
unfolding decimal
id_path-granted = refl

event_alias_distinct_example : event_alias 4711 ≢ event_alias 4712
event_alias_distinct_example =
    event_alias_distinct 4711 4712 (omega arith) (omega arith) (λ e. omega (arith, e))

main-all_calls_example :
    (st : State) × (main granted ≡ some (0, st))
    × (st.calls ≡ all_calls granted (probe_line 4711) 1492 (pos 2))
unfolding value_from
main-all_calls_example = main-all_calls granted 1 (4 ∷ (9 ∷ (2 ∷ []))) (pos 2) (record {
  digits = (omega arith, (omega arith, (omega arith, (omega arith, tt))));
  positive = omega arith;
  small = omega arith;
  short = omega arith;
  prog = refl;
  events = refl;
  written = refl;
  id = refl;
  id_text = refl;
  perf = refl;
  set_bpf = refl;
  enable = refl;
  sigaddset = refl;
  sigprocmask = refl;
  sigwait = refl;
  signal = refl;
})

-- The second call of ioctl fails.
abbrev not_enabled : System
not_enabled = record granted { enable = neg 1 }

main_lem_example : outcome (main not_enabled) ≡ some (1, record all_closed { perf = true })
main_lem_example = main_lem not_enabled

-- EINVAL: nothing is stored.
main-no_signal : outcome (main (record granted { sigwait = pos 22; sig = none })) ≡ none
unfolding strtol_any value_from
main-no_signal = main_lem (record granted { sigwait = pos 22; sig = none })
