-- ===== src/Server/Relay/Handshake/Replay.antt =====
-- What a browser that reattaches is told of the handshake that the agent has already had.
use mjx_acp_agent.Server.Relay.Handshake.{
  from_initialize_result, Transports, initialize, transports, session_new, Handshake, recorded,
  RawValue, record_answer, JsonReader,
}
use mjx_acp_agent.Server.Relay.Handshake.{reattach}
use mjx_acp_agent.Server.Relay.Handshake.{reattach, recorded}
use mjx_acp_agent.Prelude.{Bool, Option, none, some, ◌≡◌, String, List, [], ◌∷◌, string_eq}

pub data Op : Type 0 where
  answers : String → RawValue → Op
  asks : String → Op
  lists_servers : Op

-- One browser's attachment: the agent's answers are recorded, the browser asks.
pub step : JsonReader → Handshake → Op → Handshake
step json h (answers method r) = record_answer h method r
step json h (asks method) = (recorded h method).0
step json h lists_servers = (transports json h).0

pub run : JsonReader → Handshake → List Op → Handshake
run json h [] = h
run json h (o ∷ os) = run json (step json h o) os

-- The first answers are these, and the transports are those of the first one to `initialize`.
pub record Holds (json : JsonReader) (i s : RawValue) (h : Handshake) : Type 0 where
  pub first : h.initialized ≡ some i
  pub opened : h.new_session ≡ some s
  pub read : (t : Transports) → h.read_transports ≡ some t → t ≡ from_initialize_result json i

-- The handshake with these fields.
abbrev held : RawValue → RawValue → Option Transports → Bool → Handshake
held i s t b = record {
  initialized = some i;
  new_session = some s;
  read_transports = t;
  replay_new_session = b;
}

abbrev Reads : JsonReader → RawValue → Option Transports → Type 0
Reads json i t = (u : Transports) → t ≡ some u → u ≡ from_initialize_result json i

abbrev Replays : JsonReader → RawValue → RawValue → Handshake → Type 0
Replays json i s h =
    let next = reattach h in
    let asked = recorded next session_new in
    ((recorded next initialize).1 ≡ some i)
    × (asked.1 ≡ some s)
    × ((recorded asked.0 session_new).1 ≡ none)
    × ((recorded asked.0 initialize).1 ≡ some i)
    × ((transports json asked.0).1 ≡ from_initialize_result json i)
