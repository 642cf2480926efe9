-- ===== src/Server/Relay/Sink.antt =====
-- relay.rs: `BrowserSink`, the socket that frames for the browser go to. A socket is the number of the
-- attachment that made it; `alive` says of tokio's channel to it whether its receiver still is there.
pub mod Takeover
use mjx_acp_agent.Prelude.{
  ◌+◌, ℕ, String, Option, none, some, Bool, true, false, ◌==◌, nat_eq, if◌then◌else◌,
}
use Prim.Native.Nat.{◌+◌, ◌%◌, ◌^◌}

-- `generation` is a `u64`.
pub record Attached : Type 0 where
  pub generation : ℕ
  pub sender : Option ℕ

abbrev pub new : Attached
new = record { generation = 0; sender = none }

abbrev pub next_generation : ℕ → ℕ
next_generation g = (g + 1) % 2 ^ 64

-- The new sink, and the attachment's number.
unfoldable pub attach : Attached → Attached × ℕ
attach slot =
    let g = next_generation slot.generation in (record { generation = g; sender = some g }, g)

unfoldable pub detach : Attached → ℕ → Attached
detach slot g = if slot.generation == g then record slot { sender = none } else slot

unfoldable pub is_current : Attached → ℕ → Bool
is_current slot g = slot.generation == g

is_open : (ℕ → Bool) → Option ℕ → Bool
is_open alive none = false
is_open alive (some g) = alive g

unfoldable pub is_attached : (ℕ → Bool) → Attached → Bool
unfolding is_open
is_attached alive slot = is_open alive slot.sender

send_to : (ℕ → Bool) → Attached → Option ℕ → Attached × Option ℕ
send_to alive slot none = (slot, none)
send_to alive slot (some g) =
    if alive g then (slot, some g) else (record slot { sender = none }, none)

-- The new sink, and the socket that the line went to, if it went to one.
unfoldable pub send : (ℕ → Bool) → Attached → Attached × Option ℕ
unfolding send_to
send alive slot = send_to alive slot slot.sender
