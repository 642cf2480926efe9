-- ===== src/Core/Correlator.antt =====
-- crates/mjx-acp-core/src/correlator.rs.
pub mod Pairing
use mjx_acp_agent.Prelude.{
  ℕ, ◌+◌, String, Option, none, some, length, arith, PartialEq, ◌==◌, ◌≡◌, List, [], ◌∷◌,
}
use mjx_acp_agent.Prelude.Map.{Map, lookup, insert, remove}
use mjx_acp_agent.Core.Frame.{RequestId, Frame, request, response, notification, id_eq}

pub data Direction : Type 0 where
  client_to_agent agent_to_client : Direction

-- `Direction::reply`
abbrev pub flip : Direction → Direction
flip client_to_agent = agent_to_client
flip agent_to_client = client_to_agent

pub record MethodCorrelator : Type 0 where
  pub from_client : Map RequestId String
  pub from_agent : Map RequestId String

abbrev pub new : MethodCorrelator
new = record { from_client = []; from_agent = [] }

unfoldable pub pending : MethodCorrelator → Direction → Map RequestId String
pending c client_to_agent = c.from_client
pending c agent_to_client = c.from_agent

-- A write through `pending_mut`.
unfoldable pub set_pending : MethodCorrelator → Direction → Map RequestId String → MethodCorrelator
set_pending c client_to_agent m = record c { from_client = m }
set_pending c agent_to_client m = record c { from_agent = m }

-- The new correlator, and the method that a response answers.
unfoldable pub observe : MethodCorrelator → Direction → Frame → MethodCorrelator × Option String
unfolding pending set_pending
observe c d (request i method params) = (set_pending c d (insert i method (pending c d)), none)
observe c d (response i payload) =
    let asked = pending c (flip d) in (set_pending c (flip d) (remove i asked), lookup i asked)
observe c d (notification method params) = (c, none)

unfoldable pub peek : MethodCorrelator → Direction → RequestId → Option String
unfolding pending
peek c d i = lookup i (pending c d)

unfoldable pub in_flight : MethodCorrelator → ℕ
in_flight c = length c.from_client + length c.from_agent
