-- ===== src/Thread/Elicitations/Lifecycle.antt =====
-- An elicitation is settled once, and every other entry stays as it is.
use mjx_acp_agent.Prelude.{
  ◌∙◌, sym, ap, ◌++◌, any, ℕ, ◌+◌, Option, none, some, List, [], ◌∷◌, Bool, true, false, ◌≡◌, refl,
  arith, inl, inr, Option-cases, Bool-cases, ◌&&◌, if◌then◌else◌, ◌⊎◌, ◌==◌,
}
use mathlib.Core.Option.{some-injective}
use mjx_acp_agent.Core.Frame.{RequestId, id_eq}
use mjx_acp_agent.Thread.Schema.{Schema}
use mjx_acp_agent.Thread.Model.{
  Thread, Entry, user, assistant, tool_call, elicitation, Elicitation, ElicitationState,
}
use mjx_acp_agent.Thread.Elicitations.{
  is_pending, write_first, behind, settle_elicitation, cancel_entries, cancel_pending_elicitations,
}

module _ {S : Schema} where
  abbrev pub waits : Entry S → ℕ
  waits (elicitation a) = if is_pending a.state then 1 else 0
  waits _ = 0

  -- How many questions wait for an answer.
  pub waiting : List (Entry S) → ℕ
  waiting [] = 0
  waiting (e ∷ es) = waits e + waiting es

  -- The entries that are no waiting question are the same ones, at the same places.
  abbrev pub KeepsSettled : List (Entry S) → List (Entry S) → Type 0
  KeepsSettled [] [] = Unit
  KeepsSettled (e ∷ es) (f ∷ fs) = ((f ≡ e) ⊎ (waits e ≡ 1)) × KeepsSettled es fs
  KeepsSettled _ _ = ⊥

  KeepsSettled-refl : (es : List (Entry S)) → KeepsSettled es es
  KeepsSettled-refl [] = tt
  KeepsSettled-refl (e ∷ es) = (inl refl, KeepsSettled-refl es)

  cancel_entries_lem :
      (es : List (Entry S))
      → ((cancel_entries es).1 ≡ waiting es)
        × (waiting (cancel_entries es).0 ≡ 0)
        × KeepsSettled es (cancel_entries es).0
  unfolding cancel_entries waiting
  cancel_entries_lem [] = (refl, refl, tt)
  cancel_entries_lem (user m ∷ es) = ground (arith, cancel_entries_lem es)
  cancel_entries_lem (assistant m ∷ es) = ground (arith, cancel_entries_lem es)
  cancel_entries_lem (tool_call m ∷ es) = ground (arith, cancel_entries_lem es)
  cancel_entries_lem (elicitation a ∷ es) = ground (arith, cancel_entries_lem es)

  -- Giving up counts the questions that were waiting, leaves none, and touches nothing else.
  pub cancel_pending_lem :
      (t : Thread S)
      → ((cancel_pending_elicitations t).1 ≡ waiting t.entries)
        × (waiting (cancel_pending_elicitations t).0.entries ≡ 0)
        × KeepsSettled t.entries (cancel_pending_elicitations t).0.entries
  unfolding cancel_pending_elicitations
  cancel_pending_lem t = cancel_entries_lem t.entries

  -- A waiting question that passes a test.
  abbrev pub pending_that : (Elicitation S → Bool) → Entry S → Bool
  pending_that test (elicitation a) = is_pending a.state && test a
  pending_that test _ = false

  abbrev pub wrote : Option (List (Entry S)) → Bool
  wrote none = false
  wrote (some es) = true

  wrote-behind : (e : Entry S) (o : Option (List (Entry S))) → wrote (behind e o) ≡ wrote o
  wrote-behind e none = refl
  wrote-behind e (some es) = refl

  write_first-any :
      (test : Elicitation S → Bool) (write : Elicitation S → Elicitation S) (es : List (Entry S))
      → wrote (write_first test write es) ≡ any (pending_that test) es
  unfolding write_first
  write_first-any test write [] = refl
  write_first-any test write (user m ∷ es) = wrote-behind (user m) _ ∙ write_first-any test write es
  write_first-any test write (assistant m ∷ es) =
      wrote-behind (assistant m) _ ∙ write_first-any test write es
  write_first-any test write (tool_call m ∷ es) =
      wrote-behind (tool_call m) _ ∙ write_first-any test write es
  write_first-any test write (elicitation a ∷ es) =
      elim (Bool-cases (is_pending a.state && test a)) [
        | inl hit ↦ rw hit
        | inr miss ↦ rw miss (wrote-behind (elicitation a) _ ∙ write_first-any test write es)
      ]

  -- The first waiting question that passes a test is written to, and every other entry stays where and as it is.
  pub record WroteFirst (test : Elicitation S → Bool) (write : Elicitation S → Elicitation S)
      (es fs : List (Entry S)) : Type 0 where
    pub before : List (Entry S)
    pub question : Elicitation S
    pub after : List (Entry S)
    pub was : es ≡ before ++ elicitation question ∷ after
    pub becomes : fs ≡ before ++ elicitation (write question) ∷ after
    pub waited : is_pending question.state ≡ true
    pub passes : test question ≡ true
    pub first : any (pending_that test) before ≡ false

  -- A write behind an entry that it passes over.
  WroteFirst-behind :
      (test : Elicitation S → Bool) (write : Elicitation S → Elicitation S) (e : Entry S)
      (es fs : List (Entry S)) (o : Option (List (Entry S)))
      → pending_that test e ≡ false
      → ((gs : List (Entry S)) → o ≡ some gs → WroteFirst test write es gs)
      → behind e o ≡ some fs
      → WroteFirst test write (e ∷ es) fs
  WroteFirst-behind test write e es fs none passed rest h = cc
  WroteFirst-behind test write e es fs (some gs) passed rest h =
      let w = rest gs refl in
      record {
        before = e ∷ w.before;
        question = w.question;
        after = w.after;
        was = ap (λ t. e ∷ t) w.was;
        becomes = sym (some-injective (e ∷ gs) fs h) ∙ ap (λ t. e ∷ t) w.becomes;
        waited = w.waited;
        passes = w.passes;
        first = rw passed w.first;
      }

  write_first-WroteFirst :
      (test : Elicitation S → Bool) (write : Elicitation S → Elicitation S) (es fs : List (Entry S))
      → write_first test write es ≡ some fs
      → WroteFirst test write es fs
  unfolding write_first
  write_first-WroteFirst test write [] fs h = cc
  write_first-WroteFirst test write (user m ∷ es) fs h =
      WroteFirst-behind test write (user m) es fs _ refl (write_first-WroteFirst test write es) h
  write_first-WroteFirst test write (assistant m ∷ es) fs h =
      WroteFirst-behind test write (assistant m) es fs _ refl (write_first-WroteFirst test write es)
        h
  write_first-WroteFirst test write (tool_call m ∷ es) fs h =
      WroteFirst-behind test write (tool_call m) es fs _ refl (write_first-WroteFirst test write es)
        h
  write_first-WroteFirst test write (elicitation a ∷ es) fs h =
      elim (Bool-cases (is_pending a.state && test a)) [
        | inl hit ↦ record {
          before = [];
          question = a;
          after = es;
          was = refl;
          becomes = ground (arith, hit, h);
          waited = ground (arith, hit);
          passes = ground (arith, hit);
          first = refl;
        }
        | inr miss ↦
            WroteFirst-behind test write (elicitation a) es fs _ miss
              (write_first-WroteFirst test write es) (rw miss at h)
      ]

  -- Settling an elicitation succeeds if and only if a waiting question has that request's id. Then the first such
  -- question is given the new state and content, and every other entry, and all else of the thread, stays as it is;
  -- otherwise nothing changes. A question that is settled is never rewritten.
  pub settle_elicitation_lem :
      (t : Thread S) (i : RequestId) (state : ElicitationState)
      (content : Option S.ElicitationContent)
      → let r = settle_elicitation t i state content in
        let asked = λ (a : Elicitation S). a.request_id == i in
        (r.1 ≡ any (pending_that asked) t.entries)
        × (((r.1 ≡ true)
              × (r.0 ≡ record t { entries = r.0.entries })
              × WroteFirst asked
                  (λ a. record a { state = state; content = content })
                  t.entries
                  r.0.entries)
            ⊎ ((r.1 ≡ false) × (r.0 ≡ t)))
  unfolding settle_elicitation
  settle_elicitation_lem t i state content =
      let test = λ (a : Elicitation S). a.request_id == i in
      let write = λ (a : Elicitation S). record a { state = state; content = content } in
      let found = write_first-any test write t.entries in
      elim (Option-cases (write_first test write t.entries)) [
        | inl e ↦ rw (e, settle_elicitation) (rw e at found, inr (refl, refl))
        | inr (fs, e) ↦
            rw (e, settle_elicitation)
              (rw e at found, inl (refl, refl, write_first-WroteFirst test write t.entries fs e))
      ]
