-- ===== src/Tests/Json.antt =====
-- A small instance of serde_json's values: `true`, strings, and objects.
use mjx_acp_agent.Prelude.{String, Option, none, some, [], ◌∷◌, ◌≡◌, refl, ap}
use mjx_acp_agent.Prelude.Map.{Map}
use mjx_acp_agent.Server.Relay.Capabilities.{JsonValues}

mutual
  pub data Tree : Type 0 where
    truth : Tree
    word : String → Tree
    object : Members → Tree

  pub data Members : Type 0 where
    empty : Members
    with_member : String → Tree → Members → Members

abbrev pub as_map : Members → Map String Tree
as_map empty = []
as_map (with_member key v rest) = (key, v) ∷ as_map rest

abbrev pub from_map : Map String Tree → Members
from_map [] = empty
from_map ((key, v) ∷ rest) = with_member key v (from_map rest)

abbrev pub members_of : Tree → Option (Map String Tree)
members_of (object m) = some (as_map m)
members_of _ = none

as_map-from_map : (m : Map String Tree) → as_map (from_map m) ≡ m
as_map-from_map [] = refl
as_map-from_map ((key, v) ∷ rest) = ap (λ t. (key, v) ∷ t) (as_map-from_map rest)

-- Params of a browser that opts out of reading files.
abbrev pub opted_out : Tree
opted_out = object (
    with_member "clientCapabilities"
      (object (with_member "fs" (object (with_member "readTextFile" (word "false") empty)) empty))
      (with_member "protocolVersion" (word "1") empty))

abbrev pub tree_json : JsonValues Tree
tree_json = record {
  from_str = λ raw. some opted_out;
  members = members_of;
  object = λ m. object (from_map m);
  truth = truth;
  to_raw_value = λ v. some "{}";
}

pub reads_back : (m : Map String Tree) → tree_json.members (tree_json.object m) ≡ some m
reads_back m = ap some (as_map-from_map m)
