-- ===== src/Snoop/Main/Setup/Post.antt =====
-- What holds behind a step of the setup.
use rust_ebpf_demo.Prelude.{Bool, true, false, if◌then◌else◌}
use rust_ebpf_demo.Snoop.Main.State.{Locals, Flow, next, error, ◌>>=◌}

-- `P` holds of the variables if the step goes on, `E` at the label `error`.
pub data Post (P E : Locals → Type 0) : Flow → Type 0 where
  goes : {l : Locals} → P l → Post P E (next l)
  fails : {l : Locals} → E l → Post P E (error l)
  stops : Post P E Flow.undefined

module _ {P Q E : Locals → Type 0} where
  pub Post-bind :
      {m : Flow} {f : Locals → Flow}
      → Post P E m
      → ((l : Locals) → P l → Post Q E (f l))
      → Post Q E (m >>= f)
  Post-bind (goes h) k = k _ h
  Post-bind (fails h) k = fails h
  Post-bind stops k = stops

module _ {P E : Locals → Type 0} where
  pub Post-if : (b : Bool) (l l' : Locals) → E l → P l' → Post P E (if b then error l else next l')
  Post-if true l l' e p = fails e
  Post-if false l l' e p = goes p

  pub Post-error : {l : Locals} → Post P E (error l) → E l
  Post-error (fails h) = h

  pub Post-next : {l : Locals} → Post P E (next l) → P l
  Post-next (goes h) = h
