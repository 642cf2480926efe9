-- ===== src/Catalog/Registry.antt =====
-- crates/mjx-agent-catalog/src/registry.rs: the command that a published agent is run by. A text is a list of bytes.
use mjx_acp_agent.Prelude.{
  ℕ, String, Option, none, some, List, [], ◌∷◌, ◌++◌, Bool, true, false, not, ◌&&◌, ◌||◌, nat_beq,
  if◌then◌else◌,
}
use mjx_acp_agent.Prelude.Map.{Map}
use mjx_acp_agent.Prelude.Text.{Text, str, is_empty, between, rsplit_once}

pub record AgentCommand : Type 0 where
  pub program : Text
  pub args : List Text
  pub env : Map String String

-- `spec` is the field `package`.
pub record PackageDistribution : Type 0 where
  pub spec : Text
  pub args : List Text
  pub env : Map String String

pub record BinaryDistribution : Type 0 where
  pub archive : String
  pub cmd : String
  pub args : List String
  pub env : Map String String
  pub sha256 : Option String

pub record Distribution : Type 0 where
  pub npx : Option PackageDistribution
  pub uvx : Option PackageDistribution
  pub binary : Map String BinaryDistribution

-- `v.split_once(['-', '+'])`, and the whole text where there is neither.
unfoldable pub core_of : Text → Text
core_of [] = []
core_of (c ∷ s) = let rest = core_of s in if nat_beq c b'-' || nat_beq c b'+' then [] else c ∷ rest

-- `split`, whose pieces are one more than the separators.
abbrev pub cons_part : ℕ → List Text → List Text
cons_part c [] = (c ∷ []) ∷ []
cons_part c (part ∷ rest) = (c ∷ part) ∷ rest

unfoldable pub split_dots : Text → List Text
split_dots [] = [] ∷ []
split_dots (c ∷ s) =
    let rest = split_dots s in if nat_beq c b'.' then [] ∷ rest else cons_part c rest

abbrev pub all_digits : Text → Bool
all_digits [] = true
all_digits (c ∷ s) = between b'0' b'9' c && all_digits s

abbrev pub is_number : Text → Bool
is_number part = not (is_empty part) && all_digits part

abbrev pub three_numbers : List Text → Bool
three_numbers (major ∷ minor ∷ patch ∷ []) = is_number major && (is_number minor && is_number patch)
three_numbers _ = false

unfoldable pub is_semver : Text → Bool
is_semver v = three_numbers (split_dots (core_of v))

unfoldable pub bounded_npm_package_spec : Text → Text
bounded_npm_package_spec spec = elim (rsplit_once b'@' spec) [
  | none ↦ spec
  | some (package_name, version) ↦
      if is_empty package_name || not (is_semver version)
      then spec
      else package_name ++ b'@' ∷ (str "0.0.0 - " ++ version)
]

unfoldable pub npx_command : PackageDistribution → AgentCommand
npx_command npx = record {
  program = str "npx";
  args = str "-y" ∷ bounded_npm_package_spec npx.spec ∷ npx.args;
  env = npx.env;
}

unfoldable pub uvx_command : PackageDistribution → AgentCommand
uvx_command uvx = record { program = str "uvx"; args = uvx.spec ∷ uvx.args; env = uvx.env }

unfoldable pub to_command : Distribution → Option AgentCommand
to_command d = elim d.npx [
  | some npx ↦ some (npx_command npx)
  | none ↦ elim d.uvx [ some uvx ↦ some (uvx_command uvx) | none ↦ none ]
]
