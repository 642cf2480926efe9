-- ===== src/Core/Frame.antt =====
-- crates/mjx-acp-core/src/frame.rs. A `RawValue` is its JSON text. serde_json is a parameter: its reader
-- of a line is an argument of `parse`, its printers of ids, strings and errors are a `Printer`.
pub mod Line
pub mod RoundTrip
pub mod Params
use mjx_acp_agent.Prelude.{
  String, ℕ, ℤ, pos, negsuc, int_beq, int_eq, PartialEq, ◌==◌, string_eq, Result, ok, err, Option,
  none, some, Bool, true, false, ◌≡◌, ◌↔◌, refl, arith, int_beq_iff, if◌then◌else◌, ◌||◌,
}
use text.Mathlib.TextEquality.{eq_iff}
use Prim.Native.String.{◌++◌}

pub data RequestId : Type 0 where
  null : RequestId
  number : ℤ → RequestId
  string : String → RequestId

abbrev pub id_beq : RequestId → RequestId → Bool
id_beq null null = true
id_beq (number a) (number b) = a == b
id_beq (string a) (string b) = a == b
id_beq _ _ = false

pub id_beq_iff : (a b : RequestId) → (id_beq a b ≡ true) ↔ (a ≡ b)
id_beq_iff null null = ground arith
id_beq_iff (number a) (number b) = ground (arith, int_beq_iff a b)
id_beq_iff (string a) (string b) = ground (arith, eq_iff a b)
id_beq_iff null (number b) = ground arith
id_beq_iff null (string b) = ground arith
id_beq_iff (number a) null = ground arith
id_beq_iff (number a) (string b) = ground arith
id_beq_iff (string a) null = ground arith
id_beq_iff (string a) (number b) = ground arith

instance abbrev pub id_eq : PartialEq RequestId
id_eq = record { eq = id_beq; eq_sound = id_beq_iff }

-- JSON text that is passed through.
abbrev pub RawValue : Type 0
RawValue = String

-- `error_data` is the field `data`.
pub record JsonRpcError : Type 0 where
  pub code : ℤ
  pub message : String
  pub error_data : Option RawValue

unfoldable pub method_not_found : String → JsonRpcError
method_not_found method = record {
  code = negsuc 32600;
  message = "method not found: " ++ method;
  error_data = none;
}

unfoldable pub invalid_params : String → JsonRpcError
invalid_params detail = record {
  code = negsuc 32601;
  message = "invalid params: " ++ detail;
  error_data = none;
}

unfoldable pub resource_not_found : String → JsonRpcError
resource_not_found detail = record { code = negsuc 32001; message = detail; error_data = none }

unfoldable pub internal : String → JsonRpcError
internal detail = record { code = negsuc 32602; message = detail; error_data = none }

pub data ResponsePayload : Type 0 where
  result : RawValue → ResponsePayload
  error : JsonRpcError → ResponsePayload

pub data Frame : Type 0 where
  request : RequestId → String → Option RawValue → Frame
  response : RequestId → ResponsePayload → Frame
  notification : String → Option RawValue → Frame

-- `E` is serde_json's own error.
pub data FrameError (E : Type 0) : Type 0 where
  json : E → FrameError E
  shape : String → FrameError E

-- What serde_json reads of a line. An explicit `"id": null` reads as no id; an explicit
-- `"result": null` reads as `some none`.
pub record Wire : Type 0 where
  pub id : Option RequestId
  pub method : Option String
  pub params : Option RawValue
  pub outcome : Option (Option RawValue)
  pub failure : Option JsonRpcError

abbrev is_some {ℓ} : {A : Type ℓ} → Option A → Bool
is_some none = false
is_some (some a) = true

unfoldable pub null_value : RawValue
null_value = "null"

abbrev raw_or_null : Option RawValue → RawValue
unfolding null_value
raw_or_null none = null_value
raw_or_null (some r) = r

-- `wire.id.unwrap_or(RequestId::Null)`
abbrev id_or_null : Option RequestId → RequestId
id_or_null none = null
id_or_null (some i) = i

call : Option RequestId → String → Option RawValue → Frame
call none method params = notification method params
call (some null) method params = notification method params
call (some i) method params = request i method params

reply :
    {E : Type 0}
    → RequestId
    → Option (Option RawValue)
    → Option JsonRpcError
    → Result Frame (FrameError E)
reply i (some r) none = ok (response i (result (raw_or_null r)))
reply i none (some e) = ok (response i (error e))
reply i (some r) (some e) = err (shape "reply has both result and error")
reply i none none = err (shape "neither a call nor a reply")

-- `parse` after the line is read.
unfoldable pub read_wire : {E : Type 0} → Wire → Result Frame (FrameError E)
unfolding call reply null_value
read_wire w = elim w.method [
  | some method ↦
      if is_some w.outcome || is_some w.failure
      then err (shape "message has both a method and a result/error")
      else ok (call w.id method w.params)
  | none ↦ reply (id_or_null w.id) w.outcome w.failure
]

unfoldable pub parse :
    {E : Type 0} → (String → Result Wire E) → String → Result Frame (FrameError E)
unfolding read_wire
parse from_str line = elim (from_str line) [ err e ↦ err (json e) | ok w ↦ read_wire w ]

unfoldable pub method : Frame → Option String
method (request i m p) = some m
method (notification m p) = some m
method (response i p) = none

unfoldable pub id : Frame → Option RequestId
id (request i m p) = some i
id (response i p) = some i
id (notification m p) = none

unfoldable pub params : Frame → Option RawValue
params (request i m p) = p
params (notification m p) = p
params (response i p) = none
