-- ===== src/Thread/Mention.antt =====
-- crates/mjx-acp-thread/src/mention.rs: what an `@`-mention points at.
pub mod Lines
pub mod Escapes
pub mod Native
pub mod Targets
pub mod Queries
pub mod Zed
pub mod Parse
pub mod Print
pub mod Positions
pub mod Components
pub mod Spellings
pub mod Laws
pub mod Printed
pub mod RoundTrip
use mjx_acp_agent.Prelude.{none, some, ok_or, List, Bool, Result, Option}
use Prim.Native.Nat.{ℕ}
use mjx_acp_agent.Prelude.Text.{Text, str}

-- The crates url, percent-encoding and serde_json, as far as the file calls them. `user_uuid u` is the JSON value
-- `{ "User": { "uuid": u } }`, and `uuid_of` reads that text.
pub record Crates : Type 1 where
  pub Url : Type 0
  pub parse_url : Text → Result Url Text
  pub scheme : Url → Text
  pub path : Url → Text
  pub fragment : Url → Option Text
  pub query_pairs : Url → List (Text × Text)
  pub set_path : Text → Url → Url
  pub append_pair : Text → Text → Url → Url
  pub set_fragment : Text → Url → Url
  pub percent_decode_str : Text → Text
  pub Json : Type 0
  pub user_uuid : Text → Json
  pub uuid_of : Json → Option Text

-- The message; a message with a Debug form in it is kept by the text that it shows.
pub data MentionUriError : Type 0 where
  message : Text → MentionUriError
  invalid_zed_url : Text → MentionUriError
  unrecognized_scheme : Text → MentionUriError

-- `Context::context` on an `Option`.
abbrev pub context {ℓ} : {A : Type ℓ} → Text → Option A → Result A MentionUriError
context m o = ok_or (message m) o

-- `RangeInclusive<u32>`
abbrev pub LineRange : Type 0
LineRange = ℕ × ℕ

pub data MentionUri (C : Crates) : Type 0 where
  file : Text → MentionUri C
  pasted_image : Text → MentionUri C
  directory : Text → MentionUri C
  symbol : Text → Text → LineRange → MentionUri C
  thread : Text → Text → MentionUri C
  rule : C.Json → Text → MentionUri C
  diagnostics : Bool → Bool → MentionUri C
  selection : Option Text → LineRange → Option ℕ → MentionUri C
  fetch : C.Url → MentionUri C
  terminal_selection : ℕ → MentionUri C
  git_diff : Text → MentionUri C
  merge_conflict : Text → MentionUri C
  skill : Text → Text → Text → MentionUri C

-- `abs_path`
unfoldable pub abs_path : {C : Crates} → MentionUri C → Option Text
abs_path (file path) = some path
abs_path (directory path) = some path
abs_path (symbol path name lines) = some path
abs_path (selection path lines column) = path
abs_path (skill name source path) = some path
abs_path _ = none

abbrev pub default_deprecated_rule_id : (C : Crates) → C.Json
default_deprecated_rule_id C = C.user_uuid (str "00000000-0000-0000-0000-000000000000")
