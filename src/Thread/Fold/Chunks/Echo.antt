-- ===== src/Thread/Fold/Chunks/Echo.antt =====
-- A prompt that the agent echoes back is shown once.
use mjx_acp_agent.Prelude.{
  String, Option, none, some, List, [], ◌∷◌, ◌++◌, true, any, ◌≡◌, refl, ==-refl, string_eq,
}
use mjx_acp_agent.Prelude.Ends.{get_last?-append, set_last-append}
use mjx_acp_agent.Thread.Schema.{Schema, ContentBlock}
use mjx_acp_agent.Thread.Model.{
  Thread, Entry, user, UserMessage, push_user_prompt, mint_id, can_merge_message_chunks,
}
use mjx_acp_agent.Thread.Fold.Blocks.{same_block}
use mjx_acp_agent.Thread.Fold.Chunks.{ThreadEvent, push_user_chunk, is_echo, label}

label_merges :
    (pid mid : Option String)
    → can_merge_message_chunks pid mid ≡ true
    → can_merge_message_chunks (label pid mid) mid ≡ true
label_merges none none h = refl
label_merges none (some i) h = ==-refl i
label_merges (some j) mid h = h

module _ {S : Schema} where
  -- The agent sends these blocks as user chunks under one message id.
  pub echo : Thread S → List (ContentBlock S) → Option String → Thread S × List ThreadEvent
  echo t [] mid = (t, [])
  echo t (b ∷ bs) mid =
      let (t', events) = push_user_chunk t b mid in
      let (t'', more) = echo t' bs mid in (t'', events ++ more)

  -- Each block is one of the content's.
  abbrev pub AllIn : List (ContentBlock S) → List (ContentBlock S) → Type 0
  AllIn content [] = Unit
  AllIn content (b ∷ bs) = (any (λ block. same_block block b) content ≡ true) × AllIn content bs

  -- The id of the message once the blocks are echoed.
  abbrev pub echoed_id : Option String → List (ContentBlock S) → Option String → Option String
  echoed_id pid [] mid = pid
  echoed_id pid (b ∷ bs) mid = echoed_id (label pid mid) bs mid

  echoes :
      (m : UserMessage S) (b : ContentBlock S) (mid : Option String)
      → m.is_optimistic ≡ true
      → any (λ block. same_block block b) m.content ≡ true
      → can_merge_message_chunks m.protocol_id mid ≡ true
      → is_echo m b mid ≡ true
  unfolding is_echo
  echoes m b mid o a c = simp (o, a, c)

  absorb :
      (t : Thread S) (es : List (Entry S)) (m : UserMessage S) (b : ContentBlock S)
      (mid : Option String)
      → t.entries ≡ es ++ user m ∷ []
      → m.is_optimistic ≡ true
      → any (λ block. same_block block b) m.content ≡ true
      → can_merge_message_chunks m.protocol_id mid ≡ true
      → push_user_chunk t b mid ≡ (
        record t { entries = es ++ user (record m { protocol_id = label m.protocol_id mid }) ∷ [] },
        [],
      )
  unfolding push_user_chunk
  absorb t es m b mid e o a c = rw (
    e,
    get_last?-append es (user m),
    push_user_chunk,
    echoes m b mid o a c,
    set_last-append es (user m),
  )

  echo_absorbed :
      (t : Thread S) (es : List (Entry S)) (m : UserMessage S) (bs : List (ContentBlock S))
      (mid : Option String)
      → t.entries ≡ es ++ user m ∷ []
      → m.is_optimistic ≡ true
      → AllIn m.content bs
      → can_merge_message_chunks m.protocol_id mid ≡ true
      → echo t bs mid ≡ (
        record t {
          entries = es ++ user (record m { protocol_id = echoed_id m.protocol_id bs mid }) ∷ [];
        },
        [],
      )
  unfolding echo
  echo_absorbed t es m [] mid e o a c = λ i. (record t { entries = e i }, [])
  echo_absorbed t es m (b ∷ bs) mid e o a c = rw (absorb t es m b mid e o a.0 c) (
      rw (
        echo_absorbed
          (record t {
            entries = es ++ user (record m { protocol_id = label m.protocol_id mid }) ∷ [];
          })
          es (record m { protocol_id = label m.protocol_id mid }) bs mid refl o a.1
          (label_merges m.protocol_id mid c)))

  -- After a prompt, an echo of any of its blocks, in any order and number, under one message id or none,
  -- adds no entry and reports no event: the timeline ends in the one prompt, which learns the id.
  pub prompt_echo :
      (t : Thread S) (content bs : List (ContentBlock S)) (mid : Option String)
      → AllIn content bs
      → let prompted = push_user_prompt t content in
        echo prompted bs mid ≡ (
          record prompted {
            entries =
                t.entries
                ++ user (record {
                  id = (mint_id t "user").1;
                  protocol_id = echoed_id none bs mid;
                  is_optimistic = true;
                  content = content;
                })
                  ∷ [];
          },
          [],
        )
  unfolding push_user_prompt
  prompt_echo t content bs mid a =
      echo_absorbed (push_user_prompt t content) t.entries _ bs mid refl refl a refl
