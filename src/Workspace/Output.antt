-- ===== src/Workspace/Output.antt =====
-- terminal.rs: `Output`, the bytes that a terminal has produced, within its budget.
pub mod Window
use mjx_acp_agent.Prelude.{
  ℕ, List, [], ◌∷◌, ◌++◌, Bool, true, false, ltb, length, if◌then◌else◌, String,
}

-- A byte is a number below 256.
pub record Output : Type 0 where
  pub buffer : List ℕ
  pub limit : ℕ
  pub truncated : Bool

abbrev pub default_output_limit : ℕ
default_output_limit = 1048576

abbrev pub new : ℕ → Output
new limit = record { buffer = []; limit = limit; truncated = false }

-- The loop: one byte off the front, and the flag set, for as long as there are too many.
unfoldable pub pop_excess : ℕ → List ℕ → Bool → List ℕ × Bool
pop_excess limit [] truncated = ([], truncated)
pop_excess limit (x ∷ xs) truncated =
    let rest = pop_excess limit xs true in
    if ltb limit (length (x ∷ xs)) then rest else (x ∷ xs, truncated)

unfoldable pub push : Output → List ℕ → Output
push o chunk =
    let (buffer, truncated) = pop_excess o.limit (o.buffer ++ chunk) o.truncated in
    record o { buffer = buffer; truncated = truncated }

-- `text`; the lossy decoder is the standard library's.
abbrev pub shown : (List ℕ → String) → Output → String
shown from_utf8_lossy o = from_utf8_lossy o.buffer
