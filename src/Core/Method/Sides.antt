-- ===== src/Core/Method/Sides.antt =====
-- How the classes of method.rs lie to one another.
use mjx_acp_agent.Core.Method.{
  side, client, matches, agent_methods, client_methods, either_methods, server_methods,
  is_server_provided_capability, is_mcp_over_acp, is_extension,
}
use mjx_acp_agent.Prelude.{
  String, true, false, none, some, List, [], ◌∷◌, ◌≡◌, inl, inr, arith, string_eq, ◌==◌, ==→≡,
  Bool-cases, sym,
}
use mathlib.Core.Path.{subst}

abbrev pub All : (String → Type 0) → List String → Type 0
All P [] = Unit
All P (x ∷ xs) = P x × All P xs

-- What holds of each literal of an arm holds of a method that the arm matches.
pub matches_elim :
    (P : String → Type 0) (xs : List String) (m : String) → All P xs → matches xs m ≡ true → P m
matches_elim P [] m a h = cc
matches_elim P (x ∷ xs) m a h = elim (Bool-cases (m == x)) [
  | inl e ↦ subst P (sym (==→≡ m x e)) a.0
  | inr ne ↦ matches_elim P xs m a.1 (ground (arith, ne))
]

not_extension :
    (xs : List String) (m : String)
    → All (λ x. is_extension x ≡ false) xs
    → is_extension m ≡ true
    → matches xs m ≡ false
not_extension xs m a h = elim (Bool-cases (matches xs m)) [
  | inl e ↦ cc (matches_elim (λ x. is_extension x ≡ false) xs m a e)
  | inr ne ↦ ne
]

agent_plain : All (λ x. is_extension x ≡ false) agent_methods
unfolding is_extension
agent_plain = ground arith

client_plain : All (λ x. is_extension x ≡ false) client_methods
unfolding is_extension
client_plain = ground arith

either_plain : All (λ x. is_extension x ≡ false) either_methods
unfolding is_extension
either_plain = ground arith

abbrev ServedByClient : String → Type 0
ServedByClient x = (side x ≡ some client) × (is_mcp_over_acp x ≡ false) × (is_extension x ≡ false)

server_client : All ServedByClient server_methods
unfolding side is_mcp_over_acp is_extension
server_client = ground arith

-- A method that the server answers itself is one of the client's, is no MCP-over-ACP method and is no
-- extension.
pub server_provided_side :
    (m : String)
    → is_server_provided_capability m ≡ true
    → (side m ≡ some client) × (is_mcp_over_acp m ≡ false) × (is_extension m ≡ false)
unfolding is_server_provided_capability
server_provided_side m h = matches_elim ServedByClient server_methods m server_client h

-- No extension method, such as `_mjx/...`, is a method of either side of the protocol.
pub extension_side : (m : String) → is_extension m ≡ true → side m ≡ none
unfolding side
extension_side m h = rw (
  not_extension agent_methods m agent_plain h,
  not_extension client_methods m client_plain h,
  not_extension either_methods m either_plain h,
)
