-- ===== src/Core/Frame/RoundTrip.antt =====
-- What a peer reads of the line that `to_line` writes.
use mjx_acp_agent.Core.Frame.{
  RequestId, null, number, string, JsonRpcError, RawValue, Frame, request, response, notification,
  result, error, Wire, parse, read_wire, null_value,
}
use mjx_acp_agent.Core.Frame.Line.{Printer, to_line}
use mjx_acp_agent.Prelude.{
  String, Option, none, some, List, [], ◌∷◌, ◌≡◌, refl, arith, Result, ok, if◌then◌else◌, ◌==◌,
  string_eq, ==→≡,
}
use Prim.Native.String.{◌++◌}
use text.Mathlib.TextLemmas.{append_assoc}

-- A JSON object's members, in the order in which they are written.
pub data Member : Type 0 where
  id : RequestId → Member
  method : String → Member
  params : RawValue → Member
  outcome : RawValue → Member
  failure : JsonRpcError → Member

abbrev pub member_text : Printer → Member → String
member_text pr (id i) = ",\"id\":" ++ pr.id_json i
member_text pr (method m) = ",\"method\":" ++ pr.string_json m
member_text pr (params p) = ",\"params\":" ++ p
member_text pr (outcome r) = ",\"result\":" ++ r
member_text pr (failure e) = ",\"error\":" ++ pr.error_json e

abbrev members_text : Printer → List Member → String
members_text pr [] = "}"
members_text pr (m ∷ ms) = member_text pr m ++ members_text pr ms

-- The JSON object with these members.
abbrev pub object_text : Printer → List Member → String
object_text pr ms = "{\"jsonrpc\":\"2.0\"" ++ members_text pr ms

-- An optional member that is the JSON literal `null` reads as absent.
abbrev present : RawValue → Option RawValue
present r = if r == "null" then none else some r

abbrev present_id : RequestId → Option RequestId
present_id null = none
present_id (number n) = some (number n)
present_id (string s) = some (string s)

abbrev present_error : JsonRpcError → JsonRpcError
present_error e = record e { error_data = elim e.error_data [ none ↦ none | some r ↦ present r ] }

abbrev pub add_member : Member → Wire → Wire
add_member (id i) w = record w { id = present_id i }
add_member (method m) w = record w { method = some m }
add_member (params p) w = record w { params = present p }
add_member (outcome r) w = record w { outcome = some (present r) }
add_member (failure e) w = record w { failure = some (present_error e) }

-- What serde_json documents of reading such an object into `Wire`.
abbrev pub wire_of : List Member → Wire
wire_of [] = record { id = none; method = none; params = none; outcome = none; failure = none }
wire_of (m ∷ ms) = add_member m (wire_of ms)

abbrev params_members : Option RawValue → List Member
params_members none = []
params_members (some p) = params p ∷ []

abbrev pub members : Frame → List Member
members (request i m p) = id i ∷ method m ∷ params_members p
members (notification m p) = method m ∷ params_members p
members (response i (result r)) = id i ∷ outcome r ∷ []
members (response i (error e)) = id i ∷ failure e ∷ []

abbrev present_params : Option RawValue → Option RawValue
present_params none = none
present_params (some p) = present p

-- The frame that the line stands for: a request whose id is null is a notification, and parameters
-- that are `null` are none.
abbrev pub canonical : Frame → Frame
canonical (request null m p) = notification m (present_params p)
canonical (request (number n) m p) = request (number n) m (present_params p)
canonical (request (string s) m p) = request (string s) m (present_params p)
canonical (notification m p) = notification m (present_params p)
canonical (response i (result r)) = response i (result r)
canonical (response i (error e)) = response i (error (present_error e))

pub to_line-members : (pr : Printer) (f : Frame) → to_line pr f ≡ object_text pr (members f)
unfolding to_line
to_line-members pr (request i m none) = simp append_assoc
to_line-members pr (request i m (some p)) = simp append_assoc
to_line-members pr (notification m none) = simp append_assoc
to_line-members pr (notification m (some p)) = simp append_assoc
to_line-members pr (response i (result r)) = simp append_assoc
to_line-members pr (response i (error e)) = simp append_assoc

raw_or_null-present :
    {E : Type 0} (i : RequestId) (r : RawValue)
    → read_wire {E = E} (wire_of (id i ∷ outcome r ∷ [])) ≡ ok (response i (result r))
unfolding read_wire null_value
raw_or_null-present null r = ground (arith, ==→≡ r "null")
raw_or_null-present (number n) r = ground (arith, ==→≡ r "null")
raw_or_null-present (string s) r = ground (arith, ==→≡ r "null")

read_wire-members :
    {E : Type 0} (f : Frame) → read_wire {E = E} (wire_of (members f)) ≡ ok (canonical f)
unfolding read_wire
read_wire-members (request null m none) = refl
read_wire-members (request null m (some p)) = refl
read_wire-members (request (number n) m none) = refl
read_wire-members (request (number n) m (some p)) = refl
read_wire-members (request (string s) m none) = refl
read_wire-members (request (string s) m (some p)) = refl
read_wire-members (notification m none) = refl
read_wire-members (notification m (some p)) = refl
read_wire-members (response i (result r)) = raw_or_null-present i r
read_wire-members (response null (error e)) = refl
read_wire-members (response (number n) (error e)) = refl
read_wire-members (response (string s) (error e)) = refl

-- A peer whose JSON reader reads the members of the object that `to_line` writes for a frame parses
-- from that line the frame in canonical form: ids, methods, results, errors and parameters arrive as they
-- were, an explicit `"result": null` included; a request with a null id arrives as a notification.
pub parse-to_line :
    {E : Type 0} (pr : Printer) (from_str : String → Result Wire E) (f : Frame)
    → from_str (object_text pr (members f)) ≡ ok (wire_of (members f))
    → parse from_str (to_line pr f) ≡ ok (canonical f)
unfolding parse
parse-to_line pr from_str f reads = rw (to_line-members pr f, parse, reads) (read_wire-members f)
