-- ===== src/Mcp/Calls.antt =====
-- Every call of an MCP server is answered once, or waits.
use mathlib.Core.Path.{subst, sym, ap}
use mjx_acp_agent.Prelude.{
  ℕ, ◌+◌, String, Option, List, [], ◌∷◌, ◌++◌, ◌≡◌, inl, inr, refl, Bool, true, false, Result, ok,
  err, arith, nat_beq, Bool-cases, Option-cases, Result-cases, i64_suc, ◌∙◌,
}
use mjx_acp_agent.Prelude.Map.{lookup, insert, remove}
use mjx_acp_agent.Core.Frame.{
  Wire, RequestId, number, id_eq, ResponsePayload, result, error, Frame, request, response,
  notification, parse,
}
use mjx_acp_agent.Core.Frame.Line.{Printer, to_line}
use mjx_acp_agent.Mcp.Waiting.{
  one_if, waiting, answered_times, calls_it, called_times, answered_times-append, Unique,
  remove-Unique, insert-Unique, taken, waiting-remove, fail_each-answers, waiting-insert,
  dropped-answers,
}
use mjx_acp_agent.Mcp.{
  McpServer, Effect, sends, replies, ends_child, Event, calls, says, notifies, answers, reader_ends,
  writer_ends, shuts_down, step, run, call, on_line, on_frame, answered, dropped, fail_each,
  fail_everything_pending, shutdown, send, notify, answer, over_streams, gone,
}

-- What a step must keep: no id twice, and every call waits or is answered.
pub record Balanced (c : ℕ) (s s' : McpServer) (fs : List Effect) (new : ℕ) : Type 0 where
  pub unique : Unique s'.pending
  pub count : waiting c s'.pending + answered_times c fs ≡ waiting c s.pending + new

answered-Balanced :
    (c : ℕ) (s : McpServer) (i : RequestId) (payload : ResponsePayload)
    → Unique s.pending
    → Balanced c s (answered s i payload).0 (answered s i payload).1 0
unfolding answered answered_times taken
answered-Balanced c s i payload u = elim (Option-cases (lookup i s.pending)) [
  | inl none_waits ↦
      rw (none_waits, answered)
        (record {
          unique = remove-Unique i s.pending u;
          count = omega (arith, waiting-remove c i s.pending u, ap (taken c) none_waits);
        })
  | inr (d, waits) ↦
      rw (waits, answered)
        (record {
          unique = remove-Unique i s.pending u;
          count = omega (arith, waiting-remove c i s.pending u, ap (taken c) waits);
        })
]

fail_everything_pending-Balanced :
    (c : ℕ) (s : McpServer)
    → Balanced c s (fail_everything_pending s).0 (fail_everything_pending s).1 0
unfolding fail_everything_pending waiting
fail_everything_pending-Balanced c s = record {
  unique = tt;
  count = omega (arith, fail_each-answers c s s.pending);
}

ended : McpServer → McpServer
ended s = record s { pending = []; child = false }

shutdown-child :
    (s : McpServer)
    → s.child ≡ true
    → shutdown s ≡ (ended s, fail_each s s.pending ++ ends_child ∷ [])
unfolding shutdown ended
shutdown-child s h = ground (arith, h)

shutdown-no_child :
    (s : McpServer)
    → s.child ≡ false
    → shutdown s ≡ (record s { pending = [] }, fail_each s s.pending)
unfolding shutdown
shutdown-no_child s h = ground (arith, h)

shutdown-Balanced : (c : ℕ) (s : McpServer) → Balanced c s (shutdown s).0 (shutdown s).1 0
unfolding ended waiting answered_times
shutdown-Balanced c s = elim (Bool-cases s.child) [
  | inl child ↦
      subst (λ r. Balanced c s r.0 r.1 0) (sym (shutdown-child s child))
        (record {
          unique = tt;
          count = omega (
            arith,
            fail_each-answers c s s.pending,
            answered_times-append c (fail_each s s.pending) (ends_child ∷ []),
          );
        })
  | inr alone ↦
      subst (λ r. Balanced c s r.0 r.1 0) (sym (shutdown-no_child s alone))
        (record { unique = tt; count = omega (arith, fail_each-answers c s s.pending) })
]

module _ {E : Type 0} (from_str : String → Result Wire E) (printer : Printer) where
  send-answers :
      (c : ℕ) (s : McpServer) (f : Frame) → answered_times c (send from_str printer s f) ≡ 0
  unfolding send answered_times
  send-answers c s f = ground arith

  displaced : McpServer → List Effect
  displaced s = dropped s (lookup (number s.next_id) s.pending)

  asked_now : McpServer → ℕ → McpServer
  asked_now s d = record s {
    pending = insert (number s.next_id) d s.pending;
    next_id = i64_suc s.next_id;
  }

  refused : McpServer → McpServer
  refused s = record s {
    pending = remove (number s.next_id) s.pending;
    next_id = i64_suc s.next_id;
  }

  call-open :
      (s : McpServer) (d : ℕ) (method : String) (params : Option String)
      → s.to_server_open ≡ true
      → call from_str printer s d method params ≡ (
        asked_now s d,
        displaced s ++ sends (to_line printer (request (number s.next_id) method params)) ∷ [],
      )
  unfolding call asked_now displaced
  call-open s d method params h = ground (arith, h)

  call-closed :
      (s : McpServer) (d : ℕ) (method : String) (params : Option String)
      → s.to_server_open ≡ false
      → call from_str printer s d method params
        ≡ (refused s, displaced s ++ replies d (err (gone s "is not running")) ∷ [])
  unfolding call refused displaced
  call-closed s d method params h = ground (arith, h)

  call-Balanced :
      (c : ℕ) (s : McpServer) (d : ℕ) (method : String) (params : Option String)
      → Unique s.pending
      → Balanced c s
          (call from_str printer s d method params).0
          (call from_str printer s d method params).1
          (one_if (nat_beq d c))
  unfolding answered_times asked_now refused displaced
  call-Balanced c s d method params u =
      let i = number s.next_id in
      let old = dropped-answers c s (lookup i s.pending) in
      let add = answered_times-append c (dropped s (lookup i s.pending)) in
      elim (Bool-cases s.to_server_open) [
        | inl open_still ↦
            subst (λ r. Balanced c s r.0 r.1 (one_if (nat_beq d c)))
              (sym (call-open s d method params open_still))
              (record {
                unique = insert-Unique i d s.pending u;
                count = omega (
                  arith,
                  old,
                  add (sends (to_line printer (request i method params)) ∷ []),
                  waiting-insert c i d s.pending u,
                );
              })
        | inr over ↦
            subst (λ r. Balanced c s r.0 r.1 (one_if (nat_beq d c)))
              (sym (call-closed s d method params over))
              (record {
                unique = remove-Unique i s.pending u;
                count = omega (
                  arith,
                  old,
                  add (replies d (err (gone s "is not running")) ∷ []),
                  waiting-remove c i s.pending u,
                );
              })
      ]

  on_line-Balanced :
      (c : ℕ) (s : McpServer) (line : String)
      → Unique s.pending
      → Balanced c s (on_line from_str printer s line).0 (on_line from_str printer s line).1 0
  unfolding on_line on_frame answered_times
  on_line-Balanced c s line u = elim (Result-cases (parse from_str line)) [
    | inr (e, bad) ↦ rw (bad, on_line) (record { unique = u; count = omega arith })
    | inl (request i m p, read) ↦ rw (read, on_line) (record { unique = u; count = omega arith })
    | inl (notification m p, read) ↦ rw (read, on_line) (record { unique = u; count = omega arith })
    | inl (response i payload, read) ↦ rw (read, on_line) (answered-Balanced c s i payload u)
  ]

  step-Balanced :
      (c : ℕ) (s : McpServer) (e : Event)
      → Unique s.pending
      → Balanced c s (step from_str printer s e).0 (step from_str printer s e).1 (calls_it c e)
  unfolding step notify answer waiting answered_times
  step-Balanced c s (calls d method params) u = call-Balanced c s d method params u
  step-Balanced c s (says line) u = on_line-Balanced c s line u
  step-Balanced c s (notifies method params) u = record {
    unique = u;
    count = omega (arith, send-answers c s (notification method params));
  }
  step-Balanced c s (answers i (ok r)) u = record {
    unique = u;
    count = omega (arith, send-answers c s (response i (result r)));
  }
  step-Balanced c s (answers i (err e)) u = record {
    unique = u;
    count = omega (arith, send-answers c s (response i (error e)));
  }
  step-Balanced c s reader_ends u = fail_everything_pending-Balanced c s
  step-Balanced c s writer_ends u = record { unique = u; count = omega arith }
  step-Balanced c s shuts_down u = shutdown-Balanced c s

  pub run-Balanced :
      (c : ℕ) (s : McpServer) (es : List Event)
      → Unique s.pending
      → Balanced c s (run from_str printer s es).0 (run from_str printer s es).1 (called_times c es)
  unfolding run answered_times called_times
  run-Balanced c s [] u = record { unique = u; count = refl }
  run-Balanced c s (e ∷ es) u =
      let now = step-Balanced c s e u in
      let next = step from_str printer s e in
      let later = run-Balanced c next.0 es now.unique in
      record {
        unique = later.unique;
        count = rw (answered_times-append c next.1 _) (omega (arith, now.count, later.count));
      }

  -- The state after one event more.
  run-snoc :
      (s : McpServer) (es : List Event) (e : Event)
      → (run from_str printer s (es ++ e ∷ [])).0
        ≡ (step from_str printer (run from_str printer s es).0 e).0
  unfolding run
  run-snoc s [] e = refl
  run-snoc s (f ∷ es) e = run-snoc (step from_str printer s f).0 es e

  called_times-snoc :
      (c : ℕ) (es : List Event) (e : Event)
      → called_times c (es ++ e ∷ []) ≡ called_times c es + calls_it c e
  unfolding called_times
  called_times-snoc c [] e = omega arith
  called_times-snoc c (f ∷ es) e = omega (arith, called_times-snoc c es e)

  shutdown-nobody : (s : McpServer) → (shutdown s).0.pending ≡ []
  unfolding shutdown fail_everything_pending
  shutdown-nobody s = ground arith

  -- After an event that leaves nobody waiting, every call has been answered.
  all_answered :
      (c : ℕ) (s : McpServer) (es : List Event) (e : Event)
      → s.pending ≡ []
      → calls_it c e ≡ 0
      → ((t : McpServer) → (step from_str printer t e).0.pending ≡ [])
      → answered_times c (run from_str printer s (es ++ e ∷ [])).1 ≡ called_times c es
  unfolding waiting
  all_answered c s es e fresh quiet empties =
      let u : Unique s.pending = subst Unique (sym fresh) tt in
      let all = run-Balanced c s (es ++ e ∷ []) u in
      let none_before : waiting c s.pending ≡ 0 = ap (waiting c) fresh in
      let none_after : waiting c (run from_str printer s (es ++ e ∷ [])).0.pending ≡ 0 =
        ap (λ t. waiting c t.pending) (run-snoc s es e)
        ∙ ap (waiting c) (empties (run from_str printer s es).0) in
      omega (arith, all.count, none_before, none_after, called_times-snoc c es e)

  -- For every caller and every history of a server that is held: its calls are as many as the answers that it was given
  -- and the calls that still wait; and at the moment that the server's output ends, and at a shutdown, each call that it
  -- made until then has been answered. A call that is made later may wait again.
  pub every_call_answered :
      (name : String) (child : Bool) (c : ℕ) (es : List Event)
      → (waiting c (run from_str printer (over_streams name child) es).0.pending
            + answered_times c (run from_str printer (over_streams name child) es).1
          ≡ called_times c es)
        × (answered_times c
              (run from_str printer (over_streams name child) (es ++ reader_ends ∷ [])).1
            ≡ called_times c es)
        × (answered_times c
              (run from_str printer (over_streams name child) (es ++ shuts_down ∷ [])).1
            ≡ called_times c es)
  unfolding over_streams waiting step fail_everything_pending
  every_call_answered name child c es = (
    omega (arith, (run-Balanced c (over_streams name child) es tt).count),
    all_answered c (over_streams name child) es reader_ends refl refl (λ t. refl),
    all_answered c (over_streams name child) es shuts_down refl refl shutdown-nobody,
  )
