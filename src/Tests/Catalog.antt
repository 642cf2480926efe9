-- ===== src/Tests/Catalog.antt =====
-- The theorems on the catalog of agents at concrete inputs.
use mjx_acp_agent.Prelude.{some, none, [], ◌∷◌, false, ◌≡◌, refl}
use mjx_acp_agent.Prelude.Text.{str, text_beq, rsplit_once}
use mjx_acp_agent.Catalog.{Machine, Catalog, AgentOverride, RegistryAgent}
use mjx_acp_agent.Catalog.Registry.{bounded_npm_package_spec, is_semver, core_of, split_dots}
use mjx_acp_agent.Catalog.Bounded.{bounded_npm_package_spec-twice}

-- Only `npx` is on the path.
abbrev machine : Machine
machine = record {
  main_separator = b'/';
  join = λ base program. program;
  is_absolute = λ program. false;
  is_file = λ program. text_beq program (str "npx");
  with_cmd = λ program. program;
  paths = some (str "/bin" ∷ []);
}

abbrev kilo : AgentOverride
kilo = record {
  id = "kilo";
  name = "Kilo";
  description = none;
  command = str "bin/kilo";
  args = str "acp" ∷ [];
  env = [];
}

abbrev published : RegistryAgent
published = record {
  id = "gemini";
  name = "Gemini";
  description = none;
  version = none;
  icon = none;
  distribution = record {
    npx = some (record { spec = str "gemini@0.5.3"; args = []; env = [] });
    uvx = none;
    binary = [];
  };
}

abbrev shadowed : RegistryAgent
shadowed = record published { id = "kilo" }

abbrev catalog : Catalog
catalog = record {
  overrides = kilo ∷ [];
  registry = some (published ∷ shadowed ∷ []);
  base_dir = str "/base";
}

bounded_npm_package_spec-twice_example :
    bounded_npm_package_spec (bounded_npm_package_spec (str "@google/gemini-cli@0.53.0"))
    ≡ bounded_npm_package_spec (str "@google/gemini-cli@0.53.0")
bounded_npm_package_spec-twice_example =
    bounded_npm_package_spec-twice (str "@google/gemini-cli@0.53.0")

-- A version is bounded, a tag is not.
only_versions_bounded :
    (bounded_npm_package_spec (str "a@1.2.3-beta") ≡ str "a@0.0.0 - 1.2.3-beta")
    × (bounded_npm_package_spec (str "a@latest") ≡ str "a@latest")
unfolding bounded_npm_package_spec is_semver core_of split_dots rsplit_once
only_versions_bounded = (refl, refl)
