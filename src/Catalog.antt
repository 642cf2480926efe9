-- ===== src/Catalog.antt =====
-- crates/mjx-agent-catalog/src/lib.rs: which agents are listed, and the command that each is run by. Paths and the
-- machine that programs are looked for on are a parameter (`Machine`).
pub mod Registry
pub mod Counted
pub mod Listed
pub mod Bounded
use mjx_acp_agent.Prelude.{
  ℕ, ◌+◌, String, Option, none, some, List, [], ◌∷◌, ◌++◌, map, any, Bool, true, false, not, ltb,
  and_then, if◌then◌else◌, ◌==◌, string_eq, ◌||◌,
}
use mjx_acp_agent.Prelude.Map.{Map}
use mjx_acp_agent.Prelude.Text.{Text, contains}
use mjx_acp_agent.Catalog.Registry.{AgentCommand, Distribution, to_command}

pub data Availability : Type 0 where
  ready : Availability
  missing_program : Text → Availability
  needs_manual_install : Availability

abbrev pub is_ready : Availability → Bool
is_ready ready = true
is_ready _ = false

pub record AgentEntry : Type 0 where
  pub id : String
  pub name : String
  pub description : Option String
  pub icon : Option String
  pub availability : Availability
  pub command : Option (List Text)
  pub is_local_override : Bool

pub record AgentOverride : Type 0 where
  pub id : String
  pub name : String
  pub description : Option String
  pub command : Text
  pub args : List Text
  pub env : Map String String

pub record RegistryAgent : Type 0 where
  pub id : String
  pub name : String
  pub description : Option String
  pub version : Option String
  pub icon : Option String
  pub distribution : Distribution

-- `registry` holds the agents of the document, if there is one.
pub record Catalog : Type 0 where
  pub overrides : List AgentOverride
  pub registry : Option (List RegistryAgent)
  pub base_dir : Text

-- `main_separator` is a byte; `paths` are the directories of `PATH`.
pub record Machine : Type 0 where
  pub main_separator : ℕ
  pub join : Text → Text → Text
  pub is_absolute : Text → Bool
  pub is_file : Text → Bool
  pub with_cmd : Text → Text
  pub paths : Option (List Text)

-- `AgentCommand::display`
abbrev pub display : AgentCommand → List Text
display c = c.program ∷ c.args

unfoldable pub find_override : String → List AgentOverride → Option AgentOverride
find_override id [] = none
find_override id (o ∷ os) = let rest = find_override id os in if o.id == id then some o else rest

unfoldable pub find_agent : String → List RegistryAgent → Option RegistryAgent
find_agent id [] = none
find_agent id (a ∷ others) = let rest = find_agent id others in if a.id == id then some a else rest

abbrev pub agents_of : Catalog → List RegistryAgent
agents_of c = elim c.registry [ none ↦ [] | some agents ↦ agents ]

-- Whether an id is listed already.
abbrev pub is_known : String → List AgentEntry → Bool
is_known id entries = any (λ e. e.id == id) entries

-- The key that the list is sorted by, as a number: `false` sorts before `true`.
abbrev pub rank : AgentEntry → ℕ
rank e = (if is_ready e.availability then 0 else 2) + (if e.is_local_override then 0 else 1)

-- A stable sort by that key.
unfoldable pub insert_by_rank : AgentEntry → List AgentEntry → List AgentEntry
insert_by_rank e [] = e ∷ []
insert_by_rank e (x ∷ xs) =
    let rest = insert_by_rank e xs in if ltb (rank x) (rank e) then x ∷ rest else e ∷ x ∷ xs

unfoldable pub sort_by_rank : List AgentEntry → List AgentEntry
sort_by_rank [] = []
sort_by_rank (x ∷ xs) = insert_by_rank x (sort_by_rank xs)

module _ (m : Machine) where
  unfoldable pub program_exists : Text → Bool
  program_exists program =
      if m.is_absolute program || contains b'/' program then m.is_file program else (elim m.paths [
        | none ↦ false
        | some dirs ↦
            any
              (λ dir. m.is_file (m.join dir program) || m.is_file (m.with_cmd (m.join dir program)))
              dirs
      ])

  unfoldable pub availability_of : AgentCommand → Availability
  availability_of c = if program_exists c.program then ready else missing_program c.program

  unfoldable pub resolve_program : Catalog → Text → Text
  resolve_program c program =
      if contains b'/' program || contains m.main_separator program
      then m.join c.base_dir program
      else program

  unfoldable pub override_command : Catalog → AgentOverride → AgentCommand
  override_command c o = record {
    program = resolve_program c o.command;
    args = o.args;
    env = o.env;
  }

  unfoldable pub override_entry : Catalog → AgentOverride → AgentEntry
  override_entry c o = record {
    id = o.id;
    name = o.name;
    description = o.description;
    icon = none;
    availability = availability_of (override_command c o);
    command = some (display (override_command c o));
    is_local_override = true;
  }

  abbrev pub registry_availability : Option AgentCommand → Availability
  registry_availability none = needs_manual_install
  registry_availability (some command) = availability_of command

  unfoldable pub registry_entry : RegistryAgent → AgentEntry
  registry_entry a = record {
    id = a.id;
    name = a.name;
    description = a.description;
    icon = a.icon;
    availability = registry_availability (to_command a.distribution);
    command = and_then (to_command a.distribution) (λ command. some (display command));
    is_local_override = false;
  }

  unfoldable pub add_registry : List AgentEntry → List RegistryAgent → List AgentEntry
  add_registry entries [] = entries
  add_registry entries (a ∷ others) =
      add_registry (if is_known a.id entries then entries else entries ++ registry_entry a ∷ [])
        others

  unfoldable pub entries : Catalog → List AgentEntry
  entries c = sort_by_rank (add_registry (map (override_entry c) c.overrides) (agents_of c))

  unfoldable pub resolve : Catalog → String → Option AgentCommand
  resolve c id = elim (find_override id c.overrides) [
    | some o ↦ some (override_command c o)
    | none ↦ and_then (find_agent id (agents_of c)) (λ a. to_command a.distribution)
  ]
