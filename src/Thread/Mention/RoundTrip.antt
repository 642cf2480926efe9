-- ===== src/Thread/Mention/RoundTrip.antt =====
-- Every mention that a URL carries whole, printed and read back.
use mjx_acp_agent.Thread.Mention.Lines.{line_fragment}
use mjx_acp_agent.Thread.Mention.Positions.{parse_line_range-line_fragment}
use mathlib.Core.Path.{sym, subst}
use mjx_acp_agent.Thread.Mention.Targets.{is_bare_path, strip_backticks}
use mjx_acp_agent.Thread.Mention.Escapes.{percent_decode}
use mjx_acp_agent.Thread.Mention.Queries.{query_param, Pairs, validate_query_params}
use mjx_acp_agent.Thread.Mention.Printed.{
  skill-Printed, merge_conflict-Printed, git_diff-Printed, terminal_selection-Printed,
  fetch-Printed, untitled-Printed, diagnostics-Printed, rule-Printed, column_read, column_Shape,
  ColumnFits, by_file, thread-Printed, pasted_image-Printed, LinesFit, column_pairs, Printed,
  Carried,
}
use mjx_acp_agent.Thread.Mention.Laws.{Shape, plain, CrateLaws}
use mjx_acp_agent.Thread.Mention.Print.{base, to_uri}
use mjx_acp_agent.Thread.Mention.Parse.{by_scheme, file_lines, file_mention, file_path, parse}
use mathlib.Core.Option.{some-injective}
use mjx_acp_agent.Prelude.{
  and_then, ◌∙◌, ◌∙◌, ℕ, arith, Option, ◌≡◌, ◌≡◌, true, false, [], ◌∷◌, none, some, refl, ok,
}
use mjx_acp_agent.Prelude.Text.{Text, str}
use mjx_acp_agent.Thread.Paths.{unix}
use mjx_acp_agent.Thread.Mention.{
  LineRange, Crates, MentionUri, file, pasted_image, directory, symbol, thread, rule, diagnostics,
  selection, fetch, terminal_selection, git_diff, merge_conflict, skill,
}

module _ {C : Crates} (L : CrateLaws C) (input : Text) where
  plain-file_path :
      (p : Text) (q : Pairs) (f : Option Text)
      → plain p ≡ true
      → file_path C unix (record { path = p; query_pairs = q; fragment = f }) ≡ p
  unfolding file_path percent_decode
  plain-file_path p q f h = rw (L.plain_decoded p h) (ground arith)

  plain-file_mention :
      (p f : Text) (q : Pairs)
      → plain p ≡ true
      → file_mention C input unix (record { path = p; query_pairs = q; fragment = some f })
        ≡ file_lines C p f (record { path = p; query_pairs = q; fragment = some f })
  unfolding file_mention
  plain-file_mention p f q h = rw (plain-file_path p q (some f) h)

  -- `file:///` with a path in place of its own.
  at_file :
      (r : Text)
      → plain r ≡ true
      → (u : C.Url) × (C.parse_url (str "file:///") ≡ ok u)
        × Shape C (C.set_path r u) (str "file") r [] none
  at_file r h =
      let (u, opened, sh) = L.opens_file in (u, opened, L.set_path_Shape u _ _ r _ _ refl refl h sh)

  symbol-Printed :
      (path name : Text) (lines : LineRange)
      → plain path ≡ true
      → LinesFit lines
      → Printed C input (symbol path name lines)
  unfolding Printed to_uri file_mention file_lines LinesFit query_param validate_query_params
  symbol-Printed path name lines h (hs, he) =
      let (u, opened, sh) = at_file path h in
      let one = L.append_pair_Shape _ _ _ (str "symbol") name _ _ sh in
      let out = L.set_fragment_Shape _ _ _ _ _ lines one in
      (
        _,
        rw opened,
        by_file L input _ _ _ _ out
            ∙ rw (plain-file_path path _ _ h, parse_line_range-line_fragment lines hs he),
      )

  no_symbol :
      (column : Option ℕ)
      → (validate_query_params (str "symbol" ∷ str "column" ∷ []) (column_pairs L input column)
          ≡ ok tt)
        × (query_param (str "symbol") (column_pairs L input column) ≡ none)
  unfolding column_pairs validate_query_params query_param
  no_symbol none = (refl, refl)
  no_symbol (some column) = (refl, refl)

  lines_selected :
      (path : Text) (lines : LineRange) (column : Option ℕ)
      → LinesFit lines
      → ColumnFits column
      → file_lines C path (line_fragment lines) (record {
        path = path;
        query_pairs = column_pairs L input column;
        fragment = some (line_fragment lines);
      })
        ≡ ok (selection (some path) lines column)
  unfolding file_lines LinesFit
  lines_selected path lines column (hs, he) hc =
      let (allowed, absent) = no_symbol column in
      rw
        (allowed, absent, parse_line_range-line_fragment lines hs he, column_read L input column hc)

  selection-Printed :
      (path : Text) (lines : LineRange) (column : Option ℕ)
      → plain path ≡ true
      → LinesFit lines
      → ColumnFits column
      → Printed C input (selection (some path) lines column)
  unfolding Printed to_uri
  selection-Printed path lines column h hl hc =
      let (u, opened, sh) = at_file path h in
      let out = L.set_fragment_Shape _ _ _ _ _ lines (column_Shape L input _ _ _ _ column sh) in
      (
        _,
        rw opened,
        by_file L input _ _ _ _ out
            ∙ plain-file_mention path _ _ h
            ∙ lines_selected path lines column hl hc,
      )

  Carried-Printed : (m : MentionUri C) → Carried C m → Printed C input m
  unfolding Carried
  Carried-Printed (file path) h = absurd h
  Carried-Printed (directory path) h = absurd h
  Carried-Printed (pasted_image name) h = pasted_image-Printed L input name
  Carried-Printed (symbol path name lines) (p, l) = symbol-Printed path name lines p l
  Carried-Printed (thread id name) h = thread-Printed L input id name h
  Carried-Printed (rule id name) (t, filled, p, e) =
      subst (λ i. Printed C input (rule i name)) (sym e) (rule-Printed L input t name filled p)
  Carried-Printed (diagnostics errors warnings) h = diagnostics-Printed L input errors warnings
  Carried-Printed (selection none lines column) (l, c) = untitled-Printed L input lines column l c
  Carried-Printed (selection (some path) lines column) (p, l, c) =
      selection-Printed path lines column p l c
  Carried-Printed (fetch url) h = fetch-Printed L input url h
  Carried-Printed (terminal_selection n) h = terminal_selection-Printed L input n h
  Carried-Printed (git_diff base_ref) h = git_diff-Printed L input base_ref
  Carried-Printed (merge_conflict path) h = merge_conflict-Printed L input path
  Carried-Printed (skill name source path) h = skill-Printed L input name source path

-- On Unix, a mention that a URL carries whole, printed as a URL, is read back from every text that the crate reads as that
-- URL, given that the text is no bare path and stands in no backticks. A path or an id in it is plain: ASCII letters,
-- digits, `-`, `_` and dots between single slashes, with no component that begins with a dot.
pub parse-to_uri :
    {C : Crates} (L : CrateLaws C) (m : MentionUri C) (u : C.Url) (shown : Text)
    → Carried C m
    → to_uri C m ≡ some u
    → C.parse_url shown ≡ ok u
    → strip_backticks shown ≡ shown
    → is_bare_path shown unix ≡ false
    → parse C shown unix ≡ ok m
unfolding parse Printed
parse-to_uri {C} L m u shown carried printed reads unquoted no_path =
    let (v, same, read) = Carried-Printed L shown m carried in
    let e : v ≡ u = some-injective v u (sym same ∙ printed) in
    rw (unquoted, no_path, reads) (subst (λ w. by_scheme C shown unix w ≡ ok m) e read)

opened_once :
    (C : Crates) (t : Text) {v : C.Url} (f : C.Url → C.Url)
    → C.parse_url t ≡ ok v
    → (u : C.Url) × (and_then (base C t) (λ w. some (f w)) ≡ some u)
unfolding base
opened_once C t {v} f opened = (f v, rw opened)

-- Printing never panics: every base is a URL.
pub to_uri-total :
    (C : Crates) (L : CrateLaws C) (m : MentionUri C) → (u : C.Url) × (to_uri C m ≡ some u)
unfolding to_uri
to_uri-total C L (file path) = opened_once C (str "file:///") _ L.opens_file.1
to_uri-total C L (directory path) = opened_once C (str "file:///") _ L.opens_file.1
to_uri-total C L (symbol path name lines) = opened_once C (str "file:///") _ L.opens_file.1
to_uri-total C L (selection (some path) lines column) =
    opened_once C (str "file:///") _ L.opens_file.1
to_uri-total C L (selection none lines column) =
    opened_once C (str "zed:///") _ (L.opens_zed (str "/") refl).1
to_uri-total C L (thread id name) = opened_once C (str "zed:///") _ (L.opens_zed (str "/") refl).1
to_uri-total C L (rule id name) = opened_once C (str "zed:///") _ (L.opens_zed (str "/") refl).1
to_uri-total C L (diagnostics errors warnings) =
    opened_once C (str "zed:///") _ (L.opens_zed (str "/") refl).1
to_uri-total C L (skill name source path) =
    opened_once C (str "zed:///") _ (L.opens_zed (str "/") refl).1
to_uri-total C L (pasted_image name) =
    opened_once C (str "zed:///agent/pasted-image") _
      (L.opens_zed (str "/agent/pasted-image") refl).1
to_uri-total C L (terminal_selection n) =
    opened_once C (str "zed:///agent/terminal-selection") _
      (L.opens_zed (str "/agent/terminal-selection") refl).1
to_uri-total C L (git_diff base_ref) =
    opened_once C (str "zed:///agent/git-diff") _ (L.opens_zed (str "/agent/git-diff") refl).1
to_uri-total C L (merge_conflict path) =
    opened_once C (str "zed:///agent/merge-conflict") _
      (L.opens_zed (str "/agent/merge-conflict") refl).1
to_uri-total C L (fetch url) = (url, refl)
