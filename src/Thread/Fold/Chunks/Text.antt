-- ===== src/Thread/Fold/Chunks/Text.antt =====
-- No text that the agent streams is lost, doubled or reordered.
use mjx_acp_agent.Prelude.{
  String, Option, none, some, List, [], ◌∷◌, ◌++◌, Bool, true, false, get_last?, ◌≡◌, refl, arith,
  inl, inr, Option-cases, Bool-cases, ap, ◌∙◌, ◌&&◌, sym, if◌then◌else◌,
}
use mjx_acp_agent.Prelude.Ends.{last_split}
use Prim.Native.String.{◌++◌ as str_append}
use package.text.Mathlib.TextLemmas.{append_assoc, append-nil, nil-append}
use mjx_acp_agent.Thread.Schema.{
  Schema, ContentBlock, text, image, audio, resource_link, resource, other,
}
use mjx_acp_agent.Thread.Model.{
  Thread, Entry, user, assistant, tool_call, elicitation, AssistantMessage, AssistantChunk,
  ChunkKind, blocks_text, chunk_text, can_merge_message_chunks,
}
use mjx_acp_agent.Thread.Fold.Blocks.{append_content, append_to}
use mjx_acp_agent.Thread.Fold.Chunks.{
  push_assistant_chunk, extend_chunks, last_assistant, kind_beq, new_chunk, label,
}

kind_beq→≡ : (j k : ChunkKind) → kind_beq j k ≡ true → j ≡ k
kind_beq→≡ j k h = ground arith

-- A conditional end, appended.
if_append :
    (b : Bool) (s r : String)
    → (if b then str_append s r else "") ≡ str_append (if b then s else "") (if b then r else "")
if_append true s r = refl
if_append false s r = refl

module _ {S : Schema} where
  blocks_text-append :
      (bs cs : List (ContentBlock S))
      → blocks_text (bs ++ cs) ≡ str_append (blocks_text bs) (blocks_text cs)
  unfolding blocks_text
  blocks_text-append [] cs = sym (nil-append _)
  blocks_text-append (text s x ∷ bs) cs =
      rw (blocks_text-append bs cs) (sym (append_assoc s (blocks_text bs) (blocks_text cs)))
  blocks_text-append (image a b x ∷ bs) cs = blocks_text-append bs cs
  blocks_text-append (audio a b x ∷ bs) cs = blocks_text-append bs cs
  blocks_text-append (resource_link a x ∷ bs) cs = blocks_text-append bs cs
  blocks_text-append (resource a x ∷ bs) cs = blocks_text-append bs cs
  blocks_text-append (other a ∷ bs) cs = blocks_text-append bs cs

  -- What appending a block does to a content that ends in `l`.
  appended_to :
      (bs : List (ContentBlock S)) (b l : ContentBlock S)
      → get_last? bs ≡ some l
      → blocks_text (append_to bs (some l) b) ≡ str_append (blocks_text bs) (blocks_text (b ∷ []))
  unfolding append_to
  appended_to bs (text s x) (text r y) e =
      let (ys, split, write) = last_split bs e in
      rw
        (
          write,
          split,
          blocks_text-append ys (text (str_append r s) y ∷ []),
          blocks_text-append ys (text r y ∷ []),
        )
        (unfold blocks_text in simp (append_assoc, append-nil))
  appended_to bs (image a m y) (text r x) e = blocks_text-append bs (image a m y ∷ [])
  appended_to bs (audio a m y) (text r x) e = blocks_text-append bs (audio a m y ∷ [])
  appended_to bs (resource_link a y) (text r x) e = blocks_text-append bs (resource_link a y ∷ [])
  appended_to bs (resource a y) (text r x) e = blocks_text-append bs (resource a y ∷ [])
  appended_to bs (other a) (text r x) e = blocks_text-append bs (other a ∷ [])
  appended_to bs b (image a m y) e = blocks_text-append bs (b ∷ [])
  appended_to bs b (audio a m y) e = blocks_text-append bs (b ∷ [])
  appended_to bs b (resource_link a y) e = blocks_text-append bs (b ∷ [])
  appended_to bs b (resource a y) e = blocks_text-append bs (b ∷ [])
  appended_to bs b (other a) e = blocks_text-append bs (b ∷ [])

  append_content-text :
      (bs : List (ContentBlock S)) (b : ContentBlock S)
      → blocks_text (append_content bs b) ≡ str_append (blocks_text bs) (blocks_text (b ∷ []))
  unfolding append_content
  append_content-text bs b = elim (Option-cases (get_last? bs)) [
    | inl e ↦ rw e (blocks_text-append bs (b ∷ []))
    | inr (l, e) ↦ rw e (appended_to bs b l e)
  ]

  -- The text of one kind, message or thought, over a list of chunks and over the timeline.
  pub chunks_text : ChunkKind → List (AssistantChunk S) → String
  chunks_text k [] = ""
  chunks_text k (c ∷ cs) =
      if kind_beq c.kind k then str_append (chunk_text c) (chunks_text k cs) else chunks_text k cs

  pub entries_text : ChunkKind → List (Entry S) → String
  entries_text k [] = ""
  entries_text k (assistant m ∷ es) = str_append (chunks_text k m.chunks) (entries_text k es)
  entries_text k (_ ∷ es) = entries_text k es

  chunks_text-append :
      (k : ChunkKind) (cs ds : List (AssistantChunk S))
      → chunks_text k (cs ++ ds) ≡ str_append (chunks_text k cs) (chunks_text k ds)
  unfolding chunks_text
  chunks_text-append k [] ds = sym (nil-append _)
  chunks_text-append k (c ∷ cs) ds = elim (Bool-cases (kind_beq c.kind k)) [
    | inl e ↦ rw (e, chunks_text-append k cs ds) (sym (append_assoc _ _ _))
    | inr e ↦ rw e (chunks_text-append k cs ds)
  ]

  entries_text-append :
      (k : ChunkKind) (es fs : List (Entry S))
      → entries_text k (es ++ fs) ≡ str_append (entries_text k es) (entries_text k fs)
  unfolding entries_text
  entries_text-append k [] fs = sym (nil-append _)
  entries_text-append k (assistant m ∷ es) fs =
      rw (entries_text-append k es fs) (sym (append_assoc _ _ _))
  entries_text-append k (user m ∷ es) fs = entries_text-append k es fs
  entries_text-append k (tool_call m ∷ es) fs = entries_text-append k es fs
  entries_text-append k (elicitation m ∷ es) fs = entries_text-append k es fs

  -- What a chunk of one kind adds to the text of kind `k`.
  abbrev pub said : ChunkKind → ChunkKind → ContentBlock S → String
  said k kind b = if kind_beq kind k then blocks_text (b ∷ []) else ""

  one_chunk-text :
      (k : ChunkKind) (c : AssistantChunk S)
      → chunks_text k (c ∷ []) ≡ (if kind_beq c.kind k then blocks_text c.content else "")
  unfolding chunks_text chunk_text
  one_chunk-text k c = elim (Bool-cases (kind_beq c.kind k)) [
    | inl e ↦ rw e (append-nil _)
    | inr e ↦ rw e
  ]

  merged-text :
      (k kind : ChunkKind) (c : AssistantChunk S) (i : Option String) (b : ContentBlock S)
      → c.kind ≡ kind
      → chunks_text k (record c { id = i; content = append_content c.content b } ∷ [])
        ≡ str_append (chunks_text k (c ∷ [])) (said k kind b)
  merged-text k kind c i b e =
      rw
        (
          one_chunk-text k (record c { id = i; content = append_content c.content b }),
          one_chunk-text k c,
          e,
          append_content-text c.content b,
        )
        (if_append (kind_beq kind k) (blocks_text c.content) (blocks_text (b ∷ [])))

  extended-text :
      (k kind : ChunkKind) (cs : List (AssistantChunk S)) (b : ContentBlock S) (i : Option String)
      → chunks_text k (cs ++ new_chunk kind b i ∷ [])
        ≡ str_append (chunks_text k cs) (said k kind b)
  extended-text k kind cs b i =
      chunks_text-append k cs (new_chunk kind b i ∷ [])
      ∙ ap (str_append (chunks_text k cs)) (one_chunk-text k (new_chunk kind b i))

  extend_chunks-text :
      (k kind : ChunkKind) (cs : List (AssistantChunk S)) (b : ContentBlock S) (i : Option String)
      → chunks_text k (extend_chunks cs (get_last? cs) kind b i)
        ≡ str_append (chunks_text k cs) (said k kind b)
  unfolding extend_chunks
  extend_chunks-text k kind cs b i = elim (Option-cases (get_last? cs)) [
    | inl e ↦ rw e (extended-text k kind cs b i)
    | inr (c, e) ↦ elim (Bool-cases (kind_beq c.kind kind && can_merge_message_chunks c.id i)) [
      | inr apart ↦ rw (e, extend_chunks, apart) (extended-text k kind cs b i)
      | inl joins ↦
          let (ys, split, write) = last_split cs e in
          rw
            (
              e,
              extend_chunks,
              joins,
              write,
              split,
              chunks_text-append k ys _,
              chunks_text-append k ys (c ∷ []),
            )
            (rw
              (merged-text k kind c (label c.id i) b
                (kind_beq→≡ c.kind kind (ground (arith, joins))))
              (sym (append_assoc _ _ _)))
    ]
  ]

  last_assistant-some :
      (o : Option (Entry S)) {m : AssistantMessage S}
      → last_assistant o ≡ some m
      → o ≡ some (assistant m)
  last_assistant-some none h = cc
  last_assistant-some (some (assistant n)) h = cc
  last_assistant-some (some (user n)) h = cc
  last_assistant-some (some (tool_call n)) h = cc
  last_assistant-some (some (elicitation n)) h = cc

  one_entry-text :
      (k : ChunkKind) (m : AssistantMessage S)
      → entries_text k (assistant m ∷ []) ≡ chunks_text k m.chunks
  unfolding entries_text
  one_entry-text k m = append-nil _

  -- A chunk of the agent's prose or thinking adds its text at the end of the timeline's text of that
  -- kind, once and in order, wherever it is merged; the timeline's text of the other kind stays as it is.
  pub push_assistant_chunk-text :
      (k kind : ChunkKind) (t : Thread S) (b : ContentBlock S) (i : Option String)
      → entries_text k (push_assistant_chunk t kind b i).0.entries
        ≡ str_append (entries_text k t.entries) (said k kind b)
  unfolding push_assistant_chunk
  push_assistant_chunk-text k kind t b i =
      elim (Option-cases (last_assistant (get_last? t.entries))) [
        | inl e ↦
            rw (e, push_assistant_chunk)
              (entries_text-append k t.entries _
                ∙ ap (str_append (entries_text k t.entries))
                    (one_entry-text k _ ∙ one_chunk-text k (new_chunk kind b i)))
        | inr (m, e) ↦
            let (es, split, write) =
              last_split t.entries (last_assistant-some (get_last? t.entries) e) in
            rw
              (
                e,
                push_assistant_chunk,
                write,
                split,
                entries_text-append k es _,
                entries_text-append k es (assistant m ∷ []),
              )
              (ap (str_append (entries_text k es)) (
                  one_entry-text k _
                  ∙ extend_chunks-text k kind m.chunks b i
                  ∙ ap (λ s. str_append s (said k kind b)) (sym (one_entry-text k m)))
                ∙ sym (append_assoc _ _ _))
      ]
