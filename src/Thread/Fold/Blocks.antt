-- ===== src/Thread/Fold/Blocks.antt =====
-- fold.rs: `same_block`, `resource_uri` and `append_content`.
use mjx_acp_agent.Prelude.{
  String, Option, some, List, [], ◌∷◌, ◌++◌, Bool, false, ◌==◌, string_eq, ◌&&◌, option_beq,
  get_last?, set_last,
}
use Prim.Native.String.{◌++◌ as str_append}
use mjx_acp_agent.Thread.Schema.{
  Schema, ContentBlock, text, image, audio, resource_link, resource, other,
}

-- Two resources that both have a uri are compared by it, else field by field; `eq` compares the fields
-- but the uri.
same_resource : {X : Type 0} → (X → X → Bool) → Option String → X → Option String → X → Bool
same_resource eq (some a) x (some b) y = a == b
same_resource eq a x b y = option_beq a b && eq x y

module _ {S : Schema} where
  unfoldable pub same_block : ContentBlock S → ContentBlock S → Bool
  unfolding same_resource
  same_block (text a x) (text b y) = a == b
  same_block (resource_link a x) (resource_link b y) = a == b
  same_block (image a m x) (image b n y) = a == b && m == n
  same_block (audio a m x) (audio b n y) = a == b && m == n
  same_block (resource a x) (resource b y) = same_resource S.extra_eq a x b y
  same_block (other a) (other b) = S.other_eq a b
  same_block _ _ = false

  unfoldable pub append_to :
      List (ContentBlock S) → Option (ContentBlock S) → ContentBlock S → List (ContentBlock S)
  append_to content (some (text existing x)) (text incoming y) =
      set_last content (text (str_append existing incoming) x)
  append_to content _ incoming = content ++ incoming ∷ []

  -- Text joins a text block at the end; any other block is kept whole.
  unfoldable pub append_content : List (ContentBlock S) → ContentBlock S → List (ContentBlock S)
  unfolding append_to
  append_content content incoming = append_to content (get_last? content) incoming
