-- ===== src/Snoop/Main/Setup/Ascending.antt =====
-- The file of the system lists the processors in ascending order. For such a list the setup is defined
-- exactly if there is no gap.
use rust_ebpf_demo.Prelude.{ℕ, ◌+◌, ◌≤◌, ◌≡◌, List, [], ◌∷◌}
use rust_ebpf_demo.Snoop.Args.{Options}
use rust_ebpf_demo.Snoop.Main.State.{Locals, Flow, next}
use rust_ebpf_demo.Snoop.Main.Setup.Granted.{Grant}

-- Each number is above `low`, or is `low`, and above those in front of it.
abbrev pub Ascends : ℕ → List ℕ → Type 0
Ascends low [] = Unit
Ascends low (c ∷ cs) = (low ≤ c) × Ascends (c + 1) cs

module _ (g : Grant) (o : Options) where
  abbrev pub IsDefined : Flow → Type 0
  IsDefined f = (l : Locals) × (f ≡ next l)
