-- ===== src/Thread/Fold/ToolCalls/Lookup.antt =====
-- What a tool call's update does to the calls that the thread holds.
use mjx_acp_agent.Prelude.{
  ℕ, zero, suc, ◌<◌, String, Option, none, some, List, [], ◌∷◌, ◌++◌, false, ◌==◌, string_eq,
  get_elem?, set, length, if◌then◌else◌, ◌≡◌, refl, arith, ◌⊎◌, inl, inr, Bool-cases, ==→≡, ==-refl,
  ◌∙◌,
}
use mjx_acp_agent.Thread.Schema.{Schema, ToolCallUpdate, ToolCallFields}
use mjx_acp_agent.Thread.Model.{
  Thread, Entry, user, assistant, tool_call, elicitation, ToolCall, find_tool_call, tool_call?,
}
use mjx_acp_agent.Thread.Fold.ToolCalls.{
  position, index_of_tool_call, unseen, merge, update_tool_call, is_call,
}
use text.Mathlib.TextEquality.{eq_iff}

-- The first call named `i` is `c`, and stands at index `n`.
pub data Found {S : Schema} (i : String) (c : ToolCall S) : ℕ → List (Entry S) → Type 0 where
  here : {es : List (Entry S)} → c.id ≡ i → Found i c zero (tool_call c ∷ es)
  there :
      {n : ℕ} {e : Entry S} {es : List (Entry S)}
      → is_call i e ≡ false
      → Found i c n es
      → Found i c (suc n) (e ∷ es)

module _ {S : Schema} where
  pub position-cases :
      (i : String) (es : List (Entry S))
      → ((position i es ≡ none) × (find_tool_call i es ≡ none))
        ⊎ ((n : ℕ) × (c : ToolCall S) × (position i es ≡ some n) × Found i c n es)
  unfolding position find_tool_call
  position-cases i [] = inl (refl, refl)
  position-cases i (tool_call c ∷ es) = elim (Bool-cases (c.id == i)) [
    | inl hit ↦ inr (0, c, rw hit, here (==→≡ c.id i hit))
    | inr miss ↦ elim (position-cases i es) [
      | inl (p, f) ↦ inl (rw (miss, p), rw (miss, f))
      | inr (n, d, p, f) ↦ inr (suc n, d, rw (miss, p), there miss f)
    ]
  ]
  position-cases i (user m ∷ es) = elim (position-cases i es) [
    | inl (p, f) ↦ inl (rw p, f)
    | inr (n, d, p, f) ↦ inr (suc n, d, rw p, there refl f)
  ]
  position-cases i (assistant m ∷ es) = elim (position-cases i es) [
    | inl (p, f) ↦ inl (rw p, f)
    | inr (n, d, p, f) ↦ inr (suc n, d, rw p, there refl f)
  ]
  position-cases i (elicitation a ∷ es) = elim (position-cases i es) [
    | inl (p, f) ↦ inl (rw p, f)
    | inr (n, d, p, f) ↦ inr (suc n, d, rw p, there refl f)
  ]

  -- The entry at the index that `index_of_tool_call` returns is a tool call.
  pub position-get :
      {i : String} {c : ToolCall S} {n : ℕ} {es : List (Entry S)}
      → Found i c n es
      → get_elem? es n ≡ some (tool_call c)
  position-get (here e) = refl
  position-get (there m f) = position-get f

  pub position-lt :
      {i : String} {c : ToolCall S} {n : ℕ} {es : List (Entry S)} → Found i c n es → n < length es
  position-lt (here e) = omega arith
  position-lt (there m f) = omega (arith, position-lt f)

  find-Found :
      {i : String} {c : ToolCall S} {n : ℕ} {es : List (Entry S)}
      → Found i c n es
      → find_tool_call i es ≡ some c
  unfolding find_tool_call
  find-Found {i} {c} (here e) = rw (e, ==-refl i)
  find-Found {i} (there {e = tool_call d} m f) = rw m (find-Found f)
  find-Found (there {e = user d} m f) = find-Found f
  find-Found (there {e = assistant d} m f) = find-Found f
  find-Found (there {e = elicitation d} m f) = find-Found f

  -- A call written over the one found is the one found next, and no other changes.
  find-set :
      {i : String} {c : ToolCall S} {n : ℕ} {es : List (Entry S)} (c' : ToolCall S) (j : String)
      → c'.id ≡ i
      → Found i c n es
      → find_tool_call j (set es n (tool_call c'))
        ≡ (if i == j then some c' else find_tool_call j es)
  unfolding find_tool_call
  find-set {i} {c} c' j e (here h) = rw (e, h) (ground arith)
  find-set {i} c' j e (there {e = tool_call d} m f) =
      ground (arith, find-set c' j e f, m, eq_iff d.id i, eq_iff d.id j, eq_iff i j)
  find-set c' j e (there {e = user d} m f) = find-set c' j e f
  find-set c' j e (there {e = assistant d} m f) = find-set c' j e f
  find-set c' j e (there {e = elicitation d} m f) = find-set c' j e f

  find-append :
      (c : ToolCall S) (j : String) (es : List (Entry S))
      → find_tool_call c.id es ≡ none
      → find_tool_call j (es ++ tool_call c ∷ [])
        ≡ (if c.id == j then some c else find_tool_call j es)
  unfolding find_tool_call
  find-append c j [] h = refl
  find-append c j (tool_call d ∷ es) h =
      ground (arith, find-append c j es, eq_iff d.id c.id, eq_iff d.id j, eq_iff c.id j)
  find-append c j (user d ∷ es) h = find-append c j es h
  find-append c j (assistant d ∷ es) h = find-append c j es h
  find-append c j (elicitation d ∷ es) h = find-append c j es h

  -- The call that a thread holds after an update: the one it held with the fields that the update gives.
  abbrev pub updated : ToolCallUpdate S → Option (ToolCall S) → ToolCall S
  updated u none = unseen u
  updated u (some c) = merge u.fields c

  merge-id : (u : ToolCallFields S) (c : ToolCall S) → (merge u c).id ≡ c.id
  unfolding merge
  merge-id u c = refl

  unseen-id : (u : ToolCallUpdate S) → (unseen u).id ≡ u.tool_call_id
  unfolding unseen
  unseen-id u = refl

  Found-id : {i : String} {c : ToolCall S} {n : ℕ} {es : List (Entry S)} → Found i c n es → c.id ≡ i
  Found-id (here e) = e
  Found-id (there m f) = Found-id f

  -- After a partial update the thread holds the call with exactly the fields that the update gives
  -- replaced, or, for an id that it had not seen, a call of these fields with defaults for the others; every
  -- other call is as it was.
  pub tool_call?-update :
      (t : Thread S) (u : ToolCallUpdate S) (j : String)
      → tool_call? (update_tool_call t u).0 j ≡ (
          if u.tool_call_id == j
          then some (updated u (tool_call? t u.tool_call_id))
          else tool_call? t j)
  unfolding tool_call? update_tool_call index_of_tool_call
  tool_call?-update t u j = elim (position-cases u.tool_call_id t.entries) [
    | inl (p, f) ↦
        rw (p, f) (find-append (unseen u) j t.entries (rw (unseen-id u) f) ∙ rw (unseen-id u))
    | inr (n, c, p, f) ↦
        rw (p, update_tool_call, position-get f, find-Found f)
          (find-set (merge u.fields c) j (merge-id u.fields c ∙ Found-id f) f)
  ]
