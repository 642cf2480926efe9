-- ===== src/Server/IdBridge.antt =====
-- crates/mjx-acp-server/src/id_bridge.rs.
pub mod Delivery
use mjx_acp_agent.Prelude.{ℕ, ℤ, pos, i64_suc, Option, length, [], PartialEq}
use mjx_acp_agent.Prelude.Map.{Map, lookup, insert, remove}
use mjx_acp_agent.Core.Frame.{RequestId, number, id_eq}

-- `next` is an `i64`.
pub record IdBridge : Type 0 where
  pub next : ℤ
  pub outstanding : Map RequestId RequestId

abbrev pub new : IdBridge
new = record { next = pos 0; outstanding = [] }

unfoldable pub reattach : IdBridge → IdBridge
reattach b = record b { outstanding = [] }

-- The new bridge, and the id that the agent sees.
unfoldable pub for_agent : IdBridge → RequestId → IdBridge × RequestId
for_agent b browser =
    let next = i64_suc b.next in
    let agent = number next in
    (record { next = next; outstanding = insert agent browser b.outstanding }, agent)

-- The new bridge, and the browser's id if its browser is still there.
unfoldable pub for_browser : IdBridge → RequestId → IdBridge × Option RequestId
for_browser b agent =
    (record b { outstanding = remove agent b.outstanding }, lookup agent b.outstanding)

unfoldable pub in_flight : IdBridge → ℕ
in_flight b = length b.outstanding
