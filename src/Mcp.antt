-- ===== src/Mcp.antt =====
-- crates/mjx-mcp/src/lib.rs: an MCP server that this process holds open. A caller that waits for an answer is a number;
-- the two tasks of `over_streams` are the events `reader_ends` and `writer_ends`. Processes and streams are not here.
pub mod Waiting
pub mod Calls
pub mod Answers
pub mod Late
use mjx_acp_agent.Prelude.{
  ℕ, ℤ, pos, i64_suc, String, Option, none, some, List, [], ◌∷◌, ◌++◌, Bool, true, false, Result,
  ok, err, if◌then◌else◌,
}
use mjx_acp_agent.Prelude.Map.{Map, lookup, insert, remove}
use mjx_acp_agent.Core.Frame.{
  Wire, RequestId, number, id_eq, RawValue, JsonRpcError, ResponsePayload, result, error, internal,
  Frame, request, response, notification, parse,
}
use mjx_acp_agent.Core.Frame.Line.{Printer, to_line}
use Prim.Native.String.{◌++◌ as str_append}

abbrev pub Reply : Type 0
Reply = Result RawValue JsonRpcError

pub data FromServer : Type 0 where
  notified : String → Option RawValue → FromServer
  asked : RequestId → String → Option RawValue → FromServer

-- `to_server_open` is whether the task that writes still reads from its channel; `child` is whether there is one.
pub record McpServer : Type 0 where
  pub name : String
  pub to_server_open : Bool
  pub pending : Map RequestId ℕ
  pub next_id : ℤ
  pub child : Bool

-- A line for the server's input, an answer to a caller, something for the agent, and the end of the child.
pub data Effect : Type 0 where
  sends : String → Effect
  replies : ℕ → Reply → Effect
  tells : FromServer → Effect
  ends_child : Effect

-- `spawn` starts with a child, `over_streams` alone without.
unfoldable pub over_streams : String → Bool → McpServer
over_streams name child = record {
  name = name;
  to_server_open = true;
  pending = [];
  next_id = pos 1;
  child = child;
}

unfoldable pub gone : McpServer → String → JsonRpcError
gone s what = internal (str_append "the MCP server `" (str_append s.name (str_append "` " what)))

abbrev pub reply_of : ResponsePayload → Reply
reply_of (result r) = ok r
reply_of (error e) = err e

-- The answer that a dropped sender comes to.
unfoldable pub dropped : McpServer → Option ℕ → List Effect
dropped s none = []
dropped s (some caller) = replies caller (err (gone s "stopped before answering")) ∷ []

-- `fail_everything_pending`
unfoldable pub fail_each : McpServer → Map RequestId ℕ → List Effect
fail_each s [] = []
fail_each s ((i, caller) ∷ waiting) = replies caller (err (gone s "stopped")) ∷ fail_each s waiting

unfoldable pub fail_everything_pending : McpServer → McpServer × List Effect
fail_everything_pending s = (record s { pending = [] }, fail_each s s.pending)

-- `shutdown`; the grace period and the kill are one effect.
unfoldable pub shutdown : McpServer → McpServer × List Effect
unfolding fail_everything_pending
shutdown s =
    let (s', told) = fail_everything_pending s in
    if s.child then (record s' { child = false }, told ++ ends_child ∷ []) else (s', told)

-- An answer from the server, to the caller that waits for it.
unfoldable pub answered : McpServer → RequestId → ResponsePayload → McpServer × List Effect
answered s i payload = elim (lookup i s.pending) [
  | some caller ↦
      (record s { pending = remove i s.pending }, replies caller (reply_of payload) ∷ [])
  | none ↦ (record s { pending = remove i s.pending }, [])
]

unfoldable pub on_frame : McpServer → Frame → McpServer × List Effect
on_frame s (response i payload) = answered s i payload
on_frame s (notification method params) = (s, tells (notified method params) ∷ [])
on_frame s (request i method params) = (s, tells (asked i method params) ∷ [])

-- What can happen to a server that is held.
pub data Event : Type 0 where
  calls : ℕ → String → Option RawValue → Event
  says : String → Event
  notifies : String → Option RawValue → Event
  answers : RequestId → Reply → Event
  reader_ends writer_ends shuts_down : Event

module _ {E : Type 0} (from_str : String → Result Wire E) (printer : Printer) where
  -- `to_server.send(..)`, whose failure is ignored.
  unfoldable pub send : McpServer → Frame → List Effect
  send s f = if s.to_server_open then sends (to_line printer f) ∷ [] else []

  unfoldable pub on_line : McpServer → String → McpServer × List Effect
  on_line s line = elim (parse from_str line) [ ok f ↦ on_frame s f | err e ↦ (s, []) ]

  -- `request`, up to where it waits.
  unfoldable pub call : McpServer → ℕ → String → Option RawValue → McpServer × List Effect
  call s caller method params =
      let id = number s.next_id in
      let displaced = dropped s (lookup id s.pending) in
      if s.to_server_open
      then (
        record s { pending = insert id caller s.pending; next_id = i64_suc s.next_id },
        displaced ++ sends (to_line printer (request id method params)) ∷ [],
      )
      else (
        record s { pending = remove id s.pending; next_id = i64_suc s.next_id },
        displaced ++ replies caller (err (gone s "is not running")) ∷ [],
      )

  unfoldable pub notify : McpServer → String → Option RawValue → List Effect
  notify s method params = send s (notification method params)

  unfoldable pub answer : McpServer → RequestId → Reply → List Effect
  answer s i (ok r) = send s (response i (result r))
  answer s i (err e) = send s (response i (error e))

  unfoldable pub step : McpServer → Event → McpServer × List Effect
  step s (calls caller method params) = call s caller method params
  step s (says line) = on_line s line
  step s (notifies method params) = (s, notify s method params)
  step s (answers i reply) = (s, answer s i reply)
  step s reader_ends = fail_everything_pending s
  step s writer_ends = (record s { to_server_open = false }, [])
  step s shuts_down = shutdown s

  unfoldable pub run : McpServer → List Event → McpServer × List Effect
  run s [] = (s, [])
  run s (e ∷ es) = let (s', told) = step s e in let (s'', later) = run s' es in (s'', told ++ later)
