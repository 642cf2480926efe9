-- ===== src/Core/Frame/Line.antt =====
-- `Frame::to_line` of frame.rs, over a printer for the values that serde_json writes.
use mjx_acp_agent.Core.Frame.{
  RequestId, JsonRpcError, RawValue, ResponsePayload, Frame, request, response, notification,
  result, error,
}
use mjx_acp_agent.Prelude.{String, Option, none, some}
use Prim.Native.String.{◌++◌}

-- `push_json` at the three types of value that it is used with.
pub record Printer : Type 0 where
  pub id_json : RequestId → String
  pub string_json : String → String
  pub error_json : JsonRpcError → String

push_params : String → Option RawValue → String
push_params out none = out
push_params out (some p) = (out ++ ",\"params\":") ++ p

push_payload : Printer → String → ResponsePayload → String
push_payload pr out (result r) = (out ++ ",\"result\":") ++ r
push_payload pr out (error e) = (out ++ ",\"error\":") ++ pr.error_json e

push_frame : Printer → String → Frame → String
unfolding push_params push_payload
push_frame pr out (request i m p) =
    let with_id = (out ++ ",\"id\":") ++ pr.id_json i in
    push_params ((with_id ++ ",\"method\":") ++ pr.string_json m) p
push_frame pr out (notification m p) = push_params ((out ++ ",\"method\":") ++ pr.string_json m) p
push_frame pr out (response i payload) =
    push_payload pr ((out ++ ",\"id\":") ++ pr.id_json i) payload

unfoldable pub to_line : Printer → Frame → String
unfolding push_frame
to_line pr f = push_frame pr "{\"jsonrpc\":\"2.0\"" f ++ "}"
