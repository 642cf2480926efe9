-- ===== src/Mcp/Late.antt =====
-- A call made after the server's output has ended.
use mjx_acp_agent.Prelude.{
  ℕ, ◌+◌, ◌<◌, ◌≤◌, pos, i64_max, String, Option, List, [], ◌∷◌, ◌≡◌, ◌≢◌, true, some, Result,
  arith, length, All, nat_beq, Bool-cases, inl, inr, ◌==◌, refl,
}
use mjx_acp_agent.Prelude.Map.{Map, lookup}
use mjx_acp_agent.Core.Frame.{Wire, RequestId, id_eq, RawValue}
use mjx_acp_agent.Core.Frame.Line.{Printer}
use mjx_acp_agent.Mcp.{
  McpServer, Event, calls, says, notifies, answers, reader_ends, writer_ends, shuts_down, run, step,
  fail_everything_pending,
}
use mjx_acp_agent.Mcp.Waiting.{waiting, one_if, answered_times, called_times}
use mjx_acp_agent.Mcp.Calls.{run-Balanced}
use mjx_acp_agent.Mcp.Answers.{Spares, run-Waits, asked-Waits}

-- What can still happen, but for the shutdown: nothing is read any more, and caller `c` calls no further.
abbrev pub Afterwards : ℕ → Event → Type 0
Afterwards c (calls d method params) = nat_beq d c ≢ true
Afterwards c (says line) = ⊥
Afterwards c reader_ends = ⊥
Afterwards c shuts_down = ⊥
Afterwards c _ = Unit

waiting-lookup :
    (c : ℕ) (i : RequestId) (m : Map RequestId ℕ) → lookup i m ≡ some c → 1 ≤ waiting c m
unfolding waiting lookup
waiting-lookup c i [] h = cc
waiting-lookup c i ((j, d) ∷ m) h = elim (Bool-cases (j == i)) [
  | inl hit ↦ ground (arith, hit)
  | inr miss ↦ ground (arith, miss, waiting-lookup c i m)
]

quiet : (c : ℕ) (es : List Event) → All (Afterwards c) es → called_times c es ≡ 0
unfolding called_times
quiet c [] h = refl
quiet c (calls d m p ∷ es) (other, h) = ground (arith, other, quiet c es h)
quiet c (says line ∷ es) (h, hs) = absurd h
quiet c (reader_ends ∷ es) (h, hs) = absurd h
quiet c (shuts_down ∷ es) (h, hs) = absurd h
quiet c (notifies m p ∷ es) (h, hs) = omega (arith, quiet c es hs)
quiet c (answers i r ∷ es) (h, hs) = omega (arith, quiet c es hs)
quiet c (writer_ends ∷ es) (h, hs) = omega (arith, quiet c es hs)

module _ {E : Type 0} (from_str : String → Result Wire E) (printer : Printer) where
  spared : (k c : ℕ) (es : List Event) → All (Afterwards c) es → All (Spares from_str printer k) es
  spared k c [] h = tt
  spared k c (calls d m p ∷ es) (h, hs) = (tt, spared k c es hs)
  spared k c (says line ∷ es) (h, hs) = absurd h
  spared k c (reader_ends ∷ es) (h, hs) = absurd h
  spared k c (shuts_down ∷ es) (h, hs) = absurd h
  spared k c (notifies m p ∷ es) (h, hs) = (tt, spared k c es hs)
  spared k c (answers i r ∷ es) (h, hs) = (tt, spared k c es hs)
  spared k c (writer_ends ∷ es) (h, hs) = (tt, spared k c es hs)

  -- A caller that calls once the server's output has ended, while its input still takes lines, is never answered unless
  -- the server is shut down: not by the end of the task that writes, nor by anything else, for as long as fewer than
  -- 2 ^ 63 - 1 calls are numbered.
  pub late_call_unanswered :
      (s : McpServer) (k c : ℕ) (method : String) (params : Option RawValue) (es : List Event)
      → s.to_server_open ≡ true
      → s.next_id ≡ pos k
      → k + length es < i64_max
      → All (Afterwards c) es
      → answered_times c
          (run from_str printer
            (step from_str printer s reader_ends).0
            (calls c method params ∷ es)).1
        ≡ 0
  unfolding step fail_everything_pending run called_times waiting
  late_call_unanswered s k c method params es is_open at fits after =
      let t : McpServer = record s { pending = [] } in
      let here =
        (run-Waits from_str printer k c _ es (spared k c es after)
          (asked-Waits from_str printer t k c (length es) method params is_open at fits)).here in
      let balance = (run-Balanced from_str printer c t (calls c method params ∷ es) tt).count in
      omega (arith, balance, waiting-lookup c _ _ here, quiet c es after, one_call c)
    where
      one_call : (c : ℕ) → one_if (nat_beq c c) ≡ 1
      one_call c = ground arith
