-- ===== src/Server/Relay/Capabilities.antt =====
-- relay.rs: `merge_client_capabilities`. serde_json's values are a parameter (`JsonValues`).
pub mod Declared
use mjx_acp_agent.Prelude.{
  String, Option, none, some, List, [], ◌∷◌, Bool, true, false, and_then, unwrap_or, if◌then◌else◌,
  ◌==◌, string_eq,
}
use mjx_acp_agent.Prelude.Map.{Map, lookup, insert}
use mjx_acp_agent.Core.Frame.{RawValue, Frame, request, response, notification}
use mjx_acp_agent.Core.Method.Agent.{initialize}

-- `members` is `as_object`, and `truth` is `true`.
pub record JsonValues (V : Type 0) : Type 0 where
  pub from_str : RawValue → Option V
  pub members : V → Option (Map String V)
  pub object : Map String V → V
  pub truth : V
  pub to_raw_value : V → Option RawValue

module _ {V : Type 0} (json : JsonValues V) where
  abbrev pub empty_object : V
  empty_object = json.object []

  -- `entry(key).or_insert_with({})`
  unfoldable pub entry_or_empty : String → Map String V → V
  entry_or_empty key m = unwrap_or empty_object (lookup key m)

  -- The request's params, or an empty object where they are missing or unreadable.
  unfoldable pub value_of : Option RawValue → V
  value_of params = unwrap_or empty_object (and_then params json.from_str)

  -- What is no object stays as it is.
  unfoldable pub with_fs : V → V
  with_fs fs_caps = elim (json.members fs_caps) [
    | some m ↦ json.object (insert "writeTextFile" json.truth (insert "readTextFile" json.truth m))
    | none ↦ fs_caps
  ]

  unfoldable pub add_fs : V → Option V
  unfolding with_fs entry_or_empty
  add_fs capabilities =
      and_then (json.members capabilities)
        λ m. some (json.object (insert "fs" (with_fs (entry_or_empty "fs" m)) m))

  unfoldable pub add_terminal : V → Option V
  add_terminal capabilities =
      and_then (json.members capabilities) λ m. some (json.object (insert "terminal" json.truth m))

  unfoldable pub add_capabilities : Bool → Bool → V → Option V
  unfolding add_fs add_terminal
  add_capabilities fs terminal capabilities =
      and_then (if fs then add_fs capabilities else some capabilities)
        λ with_fs. if terminal then add_terminal with_fs else some with_fs

  unfoldable pub merged_value : Bool → Bool → V → Option V
  unfolding add_capabilities entry_or_empty
  merged_value fs terminal value = and_then (json.members value) λ top.
      and_then (add_capabilities fs terminal (entry_or_empty "clientCapabilities" top))
        λ caps. some (json.object (insert "clientCapabilities" caps top))

  unfoldable pub merge_client_capabilities : Frame → Bool → Bool → Option Frame
  unfolding merged_value value_of
  merge_client_capabilities (request i method params) fs terminal =
      if method == initialize
      then (and_then (merged_value fs terminal (value_of params))
          λ value. and_then (json.to_raw_value value) λ raw. some (request i method (some raw)))
      else none
  merge_client_capabilities (response i payload) fs terminal = none
  merge_client_capabilities (notification method params) fs terminal = none
