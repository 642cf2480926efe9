-- ===== src/Thread/Mention/Laws.antt =====
-- What mention.rs relies on of the crates url, percent-encoding and serde_json: a part that is written is read back,
-- and the others are kept. A path is set only on a URL
-- of `zed` or `file` that has one.
use mjx_acp_agent.Prelude.{
  not, ◌&&◌, ◌&&◌, ◌++◌, ◌||◌, ◌++◌, Option, nat_beq, ◌||◌, ◌≡◌, List, ℕ, Bool, ◌≡◌, true, false,
  [], ◌∷◌, none, some, ok,
}
use mjx_acp_agent.Prelude.Text.{between, is_ascii_alphabetic, text_beq, Text, str}
use mjx_acp_agent.Thread.Mention.{LineRange, Crates}
use mjx_acp_agent.Thread.Mention.Lines.{line_fragment}

abbrev pub plain_byte : ℕ → Bool
plain_byte c =
    is_ascii_alphabetic c
    || between b'0' b'9' c
    || nat_beq c b'-'
    || nat_beq c b'_'
    || nat_beq c b'/'

-- No dot and no slash behind a slash, so that no segment is `.` or `..`, and none but the last is empty.
abbrev pub plain_tail : Bool → Text → Bool
plain_tail after_slash [] = true
plain_tail after_slash (c ∷ s) =
    (plain_byte c || nat_beq c b'.')
    && not (after_slash && (nat_beq c b'.' || nat_beq c b'/'))
    && plain_tail (nat_beq c b'/') s

-- A path that a URL stores as it is written: ASCII letters, digits, `-`, `_`, slashes and dots.
abbrev pub plain : Text → Bool
plain [] = false
plain (c ∷ s) = nat_beq c b'/' && plain_tail true s

-- The parts of a URL.
pub record Shape (C : Crates) (u : C.Url) (s p : Text) (q : List (Text × Text)) (f : Option Text)
    : Type 0 where
  pub has_scheme : C.scheme u ≡ s
  pub has_path : C.path u ≡ p
  pub has_pairs : C.query_pairs u ≡ q
  pub has_fragment : C.fragment u ≡ f

pub record CrateLaws (C : Crates) : Type 0 where
  pub opens_zed :
      (p : Text)
      → plain p ≡ true
      → (u : C.Url) × (C.parse_url (str "zed://" ++ p) ≡ ok u) × Shape C u (str "zed") p [] none
  pub opens_file :
      (u : C.Url) × (C.parse_url (str "file:///") ≡ ok u) × Shape C u (str "file") (str "/") [] none
  pub set_path_Shape :
      (u : C.Url) (s p r : Text) (q : List (Text × Text)) (f : Option Text)
      → (text_beq s (str "zed") || text_beq s (str "file")) ≡ true
      → plain p ≡ true
      → plain r ≡ true
      → Shape C u s p q f
      → Shape C (C.set_path r u) s r q f
  pub append_pair_Shape :
      (u : C.Url) (s p k v : Text) (q : List (Text × Text)) (f : Option Text)
      → Shape C u s p q f
      → Shape C (C.append_pair k v u) s p (q ++ (k, v) ∷ []) f
  pub set_fragment_Shape :
      (u : C.Url) (s p : Text) (q : List (Text × Text)) (f : Option Text) (lines : LineRange)
      → Shape C u s p q f
      → Shape C (C.set_fragment (line_fragment lines) u) s p q (some (line_fragment lines))
  pub plain_decoded : (p : Text) → plain p ≡ true → C.percent_decode_str p ≡ p
  pub uuid_read : (t : Text) → C.uuid_of (C.user_uuid t) ≡ some t
