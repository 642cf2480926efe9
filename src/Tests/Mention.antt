-- ===== src/Tests/Mention.antt =====
-- The theorems on mentions at concrete inputs, over a small model of the crates: a URL is its parts, and only one query
-- pair is read.
use mjx_acp_agent.Thread.Mention.Parse.{parse}
use mjx_acp_agent.Thread.Mention.Components.{decode_path_escapes-components, components}
use mjx_acp_agent.Thread.Mention.RoundTrip.{parse-to_uri}
use mjx_acp_agent.Thread.Mention.Targets.{is_bare_path, strip_backticks}
use mjx_acp_agent.Thread.Mention.Spellings.{native_path-spellings}
use mjx_acp_agent.Thread.Mention.Printed.{Carried}
use mjx_acp_agent.Thread.Mention.Escapes.{hex_digit, escaped, decode_bytes, decode_path_escapes}
use mjx_acp_agent.Thread.Mention.Print.{to_uri}
use mjx_acp_agent.Thread.Mention.Native.{join_drive, native_path}
use mjx_acp_agent.Thread.Mention.Queries.{Pairs}
use mjx_acp_agent.Prelude.{
  map, ◌≢◌, ◌≢◌, ◌⊎◌, if◌then◌else◌, ◌⊎◌, ◌≡◌, ◌≡◌, Option, Result, true, false, [], ◌∷◌, none,
  some, refl, ok, err, ◌++◌, ap,
}
use mjx_acp_agent.Prelude.Text.{
  strip_suffix, contains_str, is_utf8, text_beq, contains, strip_prefix, split_once, Text, str,
}
use mjx_acp_agent.Thread.Paths.{is_absolute, unix}
use mjx_acp_agent.Thread.Mention.{Crates, git_diff}
use mjx_acp_agent.Thread.Mention.Laws.{plain, CrateLaws}

record SmallUrl : Type 0 where
  scheme : Text
  path : Text
  pairs : Pairs
  fragment : Option Text

abbrev opened : Text → Text → SmallUrl
opened scheme path = record { scheme = scheme; path = path; pairs = []; fragment = none }

-- `path?key=value`
abbrev with_query : Text → SmallUrl
with_query t = elim (split_once b'?' t) [
  | some cut ↦ elim (split_once b'=' cut.1) [
    | some pair ↦ record (opened (str "zed") cut.0) { pairs = pair ∷ [] }
    | none ↦ opened (str "zed") cut.0
  ]
  | none ↦ opened (str "zed") t
]

abbrev read_url : Text → Result SmallUrl Text
read_url t = elim (strip_prefix (str "zed://") t) [
  | some rest ↦ if plain rest then ok (opened (str "zed") rest) else ok (with_query rest)
  | none ↦
      if text_beq t (str "file:///")
      then ok (opened (str "file") (str "/"))
      else err (str "relative URL without a base")
]

abbrev small : Crates
small = record {
  Url = SmallUrl;
  parse_url = read_url;
  scheme = λ u. u.scheme;
  path = λ u. u.path;
  fragment = λ u. u.fragment;
  query_pairs = λ u. u.pairs;
  set_path = λ p u. record u { path = p };
  append_pair = λ k v u. record u { pairs = u.pairs ++ (k, v) ∷ [] };
  set_fragment = λ f u. record u { fragment = some f };
  percent_decode_str = λ t. t;
  Json = Text;
  user_uuid = λ t. t;
  uuid_of = some;
}

small_laws : CrateLaws small
small_laws = record {
  opens_zed = λ p h. (
    opened (str "zed") p,
    rw h,
    record { has_scheme = refl; has_path = refl; has_pairs = refl; has_fragment = refl },
  );
  opens_file = (
    opened (str "file") (str "/"),
    refl,
    record { has_scheme = refl; has_path = refl; has_pairs = refl; has_fragment = refl },
  );
  set_path_Shape = λ u s p r q f special old h sh. record {
    has_scheme = sh.has_scheme;
    has_path = refl;
    has_pairs = sh.has_pairs;
    has_fragment = sh.has_fragment;
  };
  append_pair_Shape = λ u s p k v q f sh. record {
    has_scheme = sh.has_scheme;
    has_path = sh.has_path;
    has_pairs = ap (λ pairs. pairs ++ (k, v) ∷ []) sh.has_pairs;
    has_fragment = sh.has_fragment;
  };
  set_fragment_Shape = λ u s p q f lines sh. record {
    has_scheme = sh.has_scheme;
    has_path = sh.has_path;
    has_pairs = sh.has_pairs;
    has_fragment = refl;
  };
  plain_decoded = λ p h. refl;
  uuid_read = λ t. refl;
}

abbrev branch_url : SmallUrl
branch_url = record (opened (str "zed") (str "/agent/git-diff")) {
  pairs = (str "base", str "main") ∷ [];
}

parse-to_uri_example :
    parse small (str "zed:///agent/git-diff?base=main") unix ≡ ok (git_diff (str "main"))
unfolding to_uri Carried split_once strip_backticks is_bare_path is_absolute contains_str
    strip_suffix
parse-to_uri_example =
    parse-to_uri small_laws (git_diff (str "main")) branch_url
      (str "zed:///agent/git-diff?base=main") tt refl refl refl refl

decode_path_escapes-components_example :
    (decode_path_escapes (str "/a%20b%2fc/d") ≡ (str "/a%20b%2fc/d", false))
    ⊎ (((decode_path_escapes (str "/a%20b%2fc/d")).1 ≡ true)
        × ((decode_path_escapes (str "/a%20b%2fc/d")).0 ≢ str "/a%20b%2fc/d")
        × (components (decode_path_escapes (str "/a%20b%2fc/d")).0
            ≡ map decode_bytes (components (str "/a%20b%2fc/d"))))
decode_path_escapes-components_example = decode_path_escapes-components (str "/a%20b%2fc/d")

-- An escaped `..` becomes one, so that what is decoded names another file.
dots_decoded : decode_path_escapes (str "/a/%2e%2e/b") ≡ (str "/a/../b", true)
unfolding decode_path_escapes decode_bytes escaped hex_digit contains is_utf8
dots_decoded = refl

-- The escape of the space is decoded, the escape of the slash is not.
decoded : decode_path_escapes (str "/a%20b%2fc/d") ≡ (str "/a b%2fc/d", true)
unfolding decode_path_escapes decode_bytes escaped hex_digit contains is_utf8
decoded = refl

native_path-spellings_example :
    (native_path (str "/C:/src/lib.rs") ≡ join_drive b'c' (str "src/lib.rs"))
    × (native_path (str "/c:\\src/lib.rs") ≡ join_drive b'c' (str "src/lib.rs"))
    × (native_path (str "/c/src/lib.rs") ≡ join_drive b'c' (str "src/lib.rs"))
    × (native_path (str "c:/src/lib.rs") ≡ join_drive b'c' (str "src/lib.rs"))
    × (native_path (join_drive b'c' (str "src/lib.rs")) ≡ join_drive b'c' (str "src/lib.rs"))
native_path-spellings_example = native_path-spellings b'c' (str "src/lib.rs") refl
