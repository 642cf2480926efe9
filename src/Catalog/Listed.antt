-- ===== src/Catalog/Listed.antt =====
-- crates/mjx-agent-catalog/src/lib.rs: the list of agents against the commands that are run.
use mjx_acp_agent.Prelude.{
  ◌≤◌, String, Option, none, some, List, [], ◌∷◌, ◌≡◌, Bool, false, and_then, string_eq, All,
}
use mjx_acp_agent.Catalog.Registry.{AgentCommand}
use mjx_acp_agent.Catalog.{
  Machine, Catalog, AgentEntry, RegistryAgent, is_ready, display, find_override, find_agent,
  agents_of, is_known, rank, program_exists, resolve,
}

abbrev pub Ranked : List AgentEntry → Type 0
Ranked [] = Unit
Ranked (x ∷ xs) = All (λ y. rank x ≤ rank y) xs × Ranked xs

module _ (m : Machine) where
  abbrev runnable : Option AgentCommand → Bool
  runnable none = false
  runnable (some command) = program_exists m command.program

  -- An entry shows the command that its id is run by, and is ready exactly if that can be run.
  abbrev pub Agrees : Catalog → AgentEntry → Type 0
  Agrees c e =
      (e.command ≡ (and_then (resolve m c e.id) λ command. some (display command)))
      × (is_ready e.availability ≡ runnable (resolve m c e.id))

  -- An id that is not listed yet is not configured, and is still to come in the registry if it is there at all.
  abbrev Unlisted : Catalog → List AgentEntry → List RegistryAgent → Type 0
  Unlisted c listed others =
      (x : String)
      → is_known x listed ≡ false
      → (find_override x c.overrides ≡ none) × (find_agent x (agents_of c) ≡ find_agent x others)
