-- ===== src/Mcp/Answers.antt =====
-- A call gets the answer that the server gives under the call's own id.
use mjx_acp_agent.Prelude.{
  ℕ, suc, ◌+◌, ◌<◌, ◌≤◌, pos, i64_max, String, Option, none, some, List, [], ◌∷◌, ◌≡◌, ◌≢◌, inl,
  inr, refl, true, Result, ok, arith, length, All, Option-cases, Result-cases, ==-ne, ==-refl, ap,
  ◌∙◌,
}
use mjx_acp_agent.Prelude.Map.{lookup, remove, lookup-remove, lookup-insert}
use mjx_acp_agent.Core.Frame.{
  Wire, RequestId, number, id_eq, RawValue, ResponsePayload, request, response, notification, parse,
}
use mjx_acp_agent.Core.Frame.Line.{Printer}
use mjx_acp_agent.Mcp.{
  McpServer, replies, reply_of, Event, calls, says, reader_ends, shuts_down, step, run, call,
  on_line, on_frame, answered,
}

module _ {E : Type 0} (from_str : String → Result Wire E) (printer : Printer) where
  -- Events after which the call under number `k` still waits: no answer to it, and no end of the server.
  abbrev pub Spares : ℕ → Event → Type 0
  Spares k (says line) =
      (payload : ResponsePayload) → parse from_str line ≢ ok (response (number (pos k)) payload)
  Spares k reader_ends = ⊥
  Spares k shuts_down = ⊥
  Spares k _ = Unit

  -- Caller `c` waits under number `k`, and `room` more calls can be numbered.
  pub record Waits (k c room : ℕ) (s : McpServer) : Type 0 where
    next : ℕ
    at : s.next_id ≡ pos next
    past : k < next
    fits : next + room ≤ i64_max
    pub here : lookup (number (pos k)) s.pending ≡ some c

  answered-Waits :
      (k c room : ℕ) (s : McpServer) (i : RequestId) (payload : ResponsePayload)
      → i ≢ number (pos k)
      → Waits k c (suc room) s
      → Waits k c room (answered s i payload).0
  unfolding answered
  answered-Waits k c room s i payload other w =
      let kept : lookup (number (pos k)) (remove i s.pending) ≡ some c =
        lookup-remove i (number (pos k)) s.pending ∙ rw (==-ne i (number (pos k)) other) w.here in
      elim (Option-cases (lookup i s.pending)) [
        | inl nobody ↦
            rw (nobody, answered)
              (record {
                next = w.next;
                at = w.at;
                past = w.past;
                fits = omega (arith, w.fits);
                here = kept;
              })
        | inr (d, somebody) ↦
            rw (somebody, answered)
              (record {
                next = w.next;
                at = w.at;
                past = w.past;
                fits = omega (arith, w.fits);
                here = kept;
              })
      ]

  call-Waits :
      (k c room : ℕ) (s : McpServer) (d : ℕ) (method : String) (params : Option RawValue)
      → Waits k c (suc room) s
      → Waits k c room (call from_str printer s d method params).0
  unfolding call
  call-Waits k c room s d method params w =
      let other : s.next_id ≢ pos k = ground (arith, w.at, w.past) in
      let here' = w.here in
      record {
        next = suc w.next;
        at = ground (arith, w.at, w.fits);
        past = omega (arith, w.past);
        fits = omega (arith, w.fits);
        here = ground (
          arith,
          w.at,
          w.past,
          here',
          lookup-insert (number s.next_id) (number (pos k)) d s.pending,
          lookup-remove (number s.next_id) (number (pos k)) s.pending,
        );
      }

  on_line-Waits :
      (k c room : ℕ) (s : McpServer) (line : String)
      → Spares k (says line)
      → Waits k c (suc room) s
      → Waits k c room (on_line from_str printer s line).0
  unfolding on_line on_frame
  on_line-Waits k c room s line spares w =
      let same : Waits k c room s = record {
        next = w.next;
        at = w.at;
        past = w.past;
        fits = omega (arith, w.fits);
        here = w.here;
      } in
      elim (Result-cases (parse from_str line)) [
        | inr (e, bad) ↦ rw (bad, on_line) same
        | inl (request i m p, read) ↦ rw (read, on_line) same
        | inl (notification m p, read) ↦ rw (read, on_line) same
        | inl (response i payload, read) ↦
            rw (read, on_line)
              (answered-Waits k c room s i payload
                (λ own. spares payload (read ∙ ap (λ j. ok (response j payload)) own)) w)
      ]

  step-Waits :
      (k c room : ℕ) (s : McpServer) (e : Event)
      → Spares k e
      → Waits k c (suc room) s
      → Waits k c room (step from_str printer s e).0
  unfolding step
  step-Waits k c room s (calls d method params) sp w = call-Waits k c room s d method params w
  step-Waits k c room s (says line) sp w = on_line-Waits k c room s line sp w
  step-Waits k c room s reader_ends sp w = absurd sp
  step-Waits k c room s shuts_down sp w = absurd sp
  step-Waits k c room s _ sp w = record {
    next = w.next;
    at = w.at;
    past = w.past;
    fits = omega (arith, w.fits);
    here = w.here;
  }

  pub run-Waits :
      (k c : ℕ) (s : McpServer) (es : List Event)
      → All (Spares k) es
      → Waits k c (length es) s
      → Waits k c 0 (run from_str printer s es).0
  unfolding run
  run-Waits k c s [] sp w = w
  run-Waits k c s (e ∷ es) (sp, sps) w =
      run-Waits k c (step from_str printer s e).0 es sps (step-Waits k c (length es) s e sp w)

  pub asked-Waits :
      (s : McpServer) (k c room : ℕ) (method : String) (params : Option RawValue)
      → s.to_server_open ≡ true
      → s.next_id ≡ pos k
      → k + room < i64_max
      → Waits k c room (call from_str printer s c method params).0
  unfolding call
  asked-Waits s k c room method params is_open at fits = record {
    next = suc k;
    at = ground (arith, at, fits, is_open);
    past = omega arith;
    fits = omega (arith, fits);
    here =
        ground (arith, at, is_open, lookup-insert (number s.next_id) (number (pos k)) c s.pending);
  }

  delivered :
      (s : McpServer) (k c : ℕ) (line : String) (payload : ResponsePayload)
      → lookup (number (pos k)) s.pending ≡ some c
      → parse from_str line ≡ ok (response (number (pos k)) payload)
      → ((on_line from_str printer s line).1 ≡ replies c (reply_of payload) ∷ [])
        × (lookup (number (pos k)) (on_line from_str printer s line).0.pending ≡ none)
  unfolding on_line on_frame answered
  delivered s k c line payload here read =
      rw (read, on_line)
        (rw (here, answered)
          (
            refl,
            lookup-remove (number (pos k)) (number (pos k)) s.pending
                ∙ rw (==-refl (number (pos k))) refl,
          ))

  -- A call made while the server's input is open is given, by the first line that answers its id, exactly that answer,
  -- and then waits no more, whatever else is said, called and answered in between, as long as the server does not end
  -- and fewer than 2 ^ 63 - 1 calls are numbered.
  pub call_gets_its_answer :
      (s : McpServer) (k c : ℕ) (method : String) (params : Option RawValue) (es : List Event)
      (line : String) (payload : ResponsePayload)
      → s.to_server_open ≡ true
      → s.next_id ≡ pos k
      → k + length es < i64_max
      → All (Spares k) es
      → parse from_str line ≡ ok (response (number (pos k)) payload)
      → ((on_line from_str printer
            (run from_str printer (call from_str printer s c method params).0 es).0
            line).1
          ≡ replies c (reply_of payload) ∷ [])
        × (lookup
              (number (pos k))
              (on_line from_str printer
                (run from_str printer (call from_str printer s c method params).0 es).0
                line).0.pending
            ≡ none)
  call_gets_its_answer s k c method params es line payload is_open at fits spares read =
      let asked = asked-Waits s k c (length es) method params is_open at fits in
      delivered _ k c line payload (run-Waits k c _ es spares asked).here read
