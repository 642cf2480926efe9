-- ===== src/Server/Relay/Handshake.antt =====
-- relay.rs: `Handshake`, and mcp.rs: `Transports`. serde_json's `Value` and its reader are parameters.
pub mod Replay
use mjx_acp_agent.Prelude.{
  String, Option, none, some, Bool, true, false, Result, ok, err, ◌==◌, string_eq, if◌then◌else◌,
}
use mjx_acp_agent.Core.Frame.{RawValue}
use mjx_acp_agent.Core.Method.Agent.{initialize, session_new}

pub record Transports : Type 0 where
  pub http : Bool
  pub sse : Bool
  pub acp : Bool

abbrev pub no_transports : Transports
no_transports = record { http = false; sse = false; acp = false }

-- `is_true` is whether `value[a][b] == Value::Bool(true)`.
pub record JsonReader : Type 1 where
  pub Value : Type 0
  pub E : Type 0
  pub from_str : RawValue → Result Value E
  pub at : Value → String → Value
  pub is_true : Value → Bool

transports_of : (json : JsonReader) → Result json.Value json.E → Transports
transports_of json (ok value) =
    let caps = json.at (json.at value "agentCapabilities") "mcpCapabilities" in
    record {
      http = json.is_true (json.at caps "http");
      sse = json.is_true (json.at caps "sse");
      acp = json.is_true (json.at caps "acp");
    }
transports_of json (err e) = no_transports

unfoldable pub from_initialize_result : JsonReader → RawValue → Transports
unfolding transports_of
from_initialize_result json r = transports_of json (json.from_str r)

pub record Handshake : Type 0 where
  pub initialized : Option RawValue
  pub new_session : Option RawValue
  pub read_transports : Option Transports
  pub replay_new_session : Bool

abbrev pub new : Handshake
new = record {
  initialized = none;
  new_session = none;
  read_transports = none;
  replay_new_session = false;
}

abbrev pub is_some {ℓ} : {A : Type ℓ} → Option A → Bool
is_some none = false
is_some (some a) = true

-- `slot.get_or_insert_with(...)`
abbrev pub get_or_insert {ℓ} : {A : Type ℓ} → Option A → A → Option A
get_or_insert none a = some a
get_or_insert (some a) b = some a

unfoldable pub reattach : Handshake → Handshake
reattach h = record h { replay_new_session = is_some h.new_session }

unfoldable pub record_answer : Handshake → String → RawValue → Handshake
record_answer h method r =
    if method == initialize
    then record h { initialized = get_or_insert h.initialized r }
    else if method == session_new
    then record h { new_session = get_or_insert h.new_session r }
    else h

read_once : JsonReader → Handshake → Option RawValue → Handshake × Transports
read_once json h none = (h, no_transports)
read_once json h (some r) = (
  record h { read_transports = some (from_initialize_result json r) },
  from_initialize_result json r,
)

transports_in : JsonReader → Handshake → Option Transports → Handshake × Transports
unfolding read_once
transports_in json h (some t) = (h, t)
transports_in json h none = read_once json h h.initialized

-- The new handshake, and the transports.
unfoldable pub transports : JsonReader → Handshake → Handshake × Transports
unfolding transports_in
transports json h = transports_in json h h.read_transports

-- The new handshake, and the recorded answer if this attachment should be given it.
unfoldable pub recorded : Handshake → String → Handshake × Option RawValue
recorded h method =
    if method == initialize
    then (h, h.initialized)
    else if method == session_new
    then if h.replay_new_session
      then (record h { replay_new_session = false }, h.new_session)
      else (h, none)
    else (h, none)
