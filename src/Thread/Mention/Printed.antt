-- ===== src/Thread/Mention/Printed.antt =====
-- Mentions printed by `to_uri` are read back by `parse`.
use mjx_acp_agent.Thread.Mention.Positions.{u32_suc-fits, parse_line_range-line_fragment}
use mjx_acp_agent.Thread.Mention.Lines.{u32_suc}
use mjx_acp_agent.Prelude.Text.Numbers.{parse_u32-show_u32}
use mjx_acp_agent.Thread.Mention.Queries.{
  skill_param, diagnostics_params, skill_params, parse_column, validate_query_params, query_param,
  Pairs, single_query_param,
}
use Prim.Native.Nat.{suc, ◌^◌}
use mjx_acp_agent.Thread.Mention.Zed.{
  terminal_mention, skill_mention, diagnostics_mention, rule_mention, untitled_mention, by_prefix,
  thread_mention, by_path, zed_mention,
}
use mjx_acp_agent.Thread.Mention.Parse.{file_mention, by_scheme}
use mjx_acp_agent.Thread.Mention.Print.{with_column, flags_of, to_uri}
use mjx_acp_agent.Thread.Mention.Laws.{Shape, plain, CrateLaws}
use mjx_acp_agent.Prelude.{
  arith, Bool, ◌∙◌, ◌∷◌, ◌∷◌, inr, ◌∙◌, inl, [], ◌⊎◌, ◌⊎◌, ◌++◌, ◌<◌, ◌<◌, ◌++◌, ◌≡◌, ◌+◌, ◌+◌, ℕ,
  ◌≡◌, Option, true, false, none, some, refl, ok,
}
use mjx_acp_agent.Prelude.Text.{show_u32, is_empty, Text, str}
use mjx_acp_agent.Thread.Paths.{unix}
use mjx_acp_agent.Thread.Mention.{
  diagnostics, skill, merge_conflict, git_diff, LineRange, Crates, MentionUri, file, pasted_image,
  directory, symbol, thread, rule, selection, fetch, terminal_selection,
}

-- Both lines, counted from 1, are a `u32`.
unfoldable pub LinesFit : LineRange → Type 0
LinesFit lines = (lines.0 + 1 < 2 ^ 32) × (lines.1 + 1 < 2 ^ 32)

unfoldable pub ColumnFits : Option ℕ → Type 0
ColumnFits none = Unit
ColumnFits (some column) = column + 1 < 2 ^ 32

module _ (C : Crates) where
  -- The mentions that a URL carries whole. A file and a directory are told apart by the text around the URL.
  unfoldable pub Carried : MentionUri C → Type 0
  Carried (file path) = ⊥
  Carried (directory path) = ⊥
  Carried (symbol path name lines) = (plain path ≡ true) × LinesFit lines
  Carried (thread id name) = plain (str "/agent/thread/" ++ id) ≡ true
  Carried (rule id name) =
      (u : Text) × (is_empty u ≡ false)
      × (plain (str "/agent/rule/" ++ u) ≡ true)
      × (id ≡ C.user_uuid u)
  Carried (selection none lines column) = LinesFit lines × ColumnFits column
  Carried (selection (some path) lines column) =
      (plain path ≡ true) × LinesFit lines × ColumnFits column
  Carried (fetch url) = (C.scheme url ≡ str "http") ⊎ (C.scheme url ≡ str "https")
  Carried (terminal_selection line_count) = line_count < 2 ^ 32
  Carried _ = Unit

  -- `m` is printed as some URL, which is read as `m`.
  unfoldable pub Printed : Text → MentionUri C → Type 0
  Printed input m = (u : C.Url) × (to_uri C m ≡ some u) × (by_scheme C input unix u ≡ ok m)

module _ {C : Crates} (L : CrateLaws C) (input : Text) where
  pub by_zed :
      (u : C.Url) (p : Text) (q : Pairs) (f : Option Text)
      → Shape C u (str "zed") p q f
      → by_scheme C input unix u
        ≡ zed_mention C input (record { path = p; query_pairs = q; fragment = f })
  unfolding by_scheme
  by_zed u p q f sh = rw (sh.has_scheme, sh.has_path, sh.has_pairs, sh.has_fragment)

  pub by_file :
      (u : C.Url) (p : Text) (q : Pairs) (f : Option Text)
      → Shape C u (str "file") p q f
      → by_scheme C input unix u
        ≡ file_mention C input unix (record { path = p; query_pairs = q; fragment = f })
  unfolding by_scheme
  by_file u p q f sh = rw (sh.has_scheme, sh.has_path, sh.has_pairs, sh.has_fragment)

  pub pasted_image-Printed : (name : Text) → Printed C input (pasted_image name)
  unfolding Printed to_uri zed_mention by_path single_query_param
  pasted_image-Printed name =
      let (u, opened, sh) = L.opens_zed (str "/agent/pasted-image") refl in
      let out = L.append_pair_Shape u _ _ (str "name") name _ _ sh in
      (C.append_pair (str "name") name u, rw opened, by_zed _ _ _ _ out)

  pub git_diff-Printed : (base_ref : Text) → Printed C input (git_diff base_ref)
  unfolding Printed to_uri zed_mention by_path by_prefix single_query_param
  git_diff-Printed base_ref =
      let (u, opened, sh) = L.opens_zed (str "/agent/git-diff") refl in
      let out = L.append_pair_Shape u _ _ (str "base") base_ref _ _ sh in
      (C.append_pair (str "base") base_ref u, rw opened, by_zed _ _ _ _ out)

  pub merge_conflict-Printed : (path : Text) → Printed C input (merge_conflict path)
  unfolding Printed to_uri zed_mention by_path by_prefix single_query_param
  merge_conflict-Printed path =
      let (u, opened, sh) = L.opens_zed (str "/agent/merge-conflict") refl in
      let out = L.append_pair_Shape u _ _ (str "path") path _ _ sh in
      (C.append_pair (str "path") path u, rw opened, by_zed _ _ _ _ out)

  pub terminal_selection-Printed :
      (line_count : ℕ) → line_count < 2 ^ 32 → Printed C input (terminal_selection line_count)
  unfolding Printed to_uri zed_mention by_path by_prefix terminal_mention single_query_param
  terminal_selection-Printed line_count h =
      let (u, opened, sh) = L.opens_zed (str "/agent/terminal-selection") refl in
      let out = L.append_pair_Shape u _ _ (str "lines") (show_u32 line_count) _ _ sh in
      (
        C.append_pair (str "lines") (show_u32 line_count) u,
        rw opened,
        by_zed _ _ _ _ out ∙ rw (parse_u32-show_u32 line_count h),
      )

  -- `zed:///` with a path in place of its own.
  at_path :
      (r : Text)
      → plain r ≡ true
      → (u : C.Url) × (C.parse_url (str "zed:///") ≡ ok u)
        × Shape C (C.set_path r u) (str "zed") r [] none
  at_path r h =
      let (u, opened, sh) = L.opens_zed (str "/") refl in
      (u, opened, L.set_path_Shape u _ _ r _ _ refl refl h sh)

  pub thread-Printed :
      (id name : Text)
      → plain (str "/agent/thread/" ++ id) ≡ true
      → Printed C input (thread id name)
  unfolding Printed to_uri zed_mention thread_mention single_query_param
  thread-Printed id name h =
      let (u, opened, sh) = at_path (str "/agent/thread/" ++ id) h in
      let out = L.append_pair_Shape _ _ _ (str "name") name _ _ sh in
      (
        C.append_pair (str "name") name (C.set_path (str "/agent/thread/" ++ id) u),
        rw opened,
        by_zed _ _ _ _ out,
      )

  pub skill-Printed : (name source path : Text) → Printed C input (skill name source path)
  unfolding Printed to_uri zed_mention by_path by_prefix skill_mention skill_params skill_param
  skill-Printed name source path =
      let (u, opened, sh) = at_path (str "/agent/skill") refl in
      let one = L.append_pair_Shape _ _ _ (str "name") name _ _ sh in
      let two = L.append_pair_Shape _ _ _ (str "source") source _ _ one in
      let out = L.append_pair_Shape _ _ _ (str "path") path _ _ two in
      (_, rw opened, by_zed _ _ _ _ out)

  pub diagnostics-Printed : (errors warnings : Bool) → Printed C input (diagnostics errors warnings)
  unfolding Printed to_uri flags_of zed_mention by_path diagnostics_mention diagnostics_params
  diagnostics-Printed true false =
      let (u, opened, sh) = at_path (str "/agent/diagnostics") refl in
      (_, rw opened, by_zed _ _ _ _ sh)
  diagnostics-Printed true true =
      let (u, opened, sh) = at_path (str "/agent/diagnostics") refl in
      let out = L.append_pair_Shape _ _ _ (str "include_warnings") (str "true") _ _ sh in
      (_, rw opened, by_zed _ _ _ _ out)
  diagnostics-Printed false false =
      let (u, opened, sh) = at_path (str "/agent/diagnostics") refl in
      let out = L.append_pair_Shape _ _ _ (str "include_errors") (str "false") _ _ sh in
      (_, rw opened, by_zed _ _ _ _ out)
  diagnostics-Printed false true =
      let (u, opened, sh) = at_path (str "/agent/diagnostics") refl in
      let one = L.append_pair_Shape _ _ _ (str "include_warnings") (str "true") _ _ sh in
      let out = L.append_pair_Shape _ _ _ (str "include_errors") (str "false") _ _ one in
      (_, rw opened, by_zed _ _ _ _ out)

  pub rule-Printed :
      (t : Text) (name : Text)
      → is_empty t ≡ false
      → plain (str "/agent/rule/" ++ t) ≡ true
      → Printed C input (rule (C.user_uuid t) name)
  unfolding Printed to_uri zed_mention rule_mention single_query_param
  rule-Printed t name filled h =
      let (u, opened, sh) = at_path (str "/agent/rule/" ++ t) h in
      let out = L.append_pair_Shape _ _ _ (str "name") name _ _ sh in
      (
        C.append_pair (str "name") name (C.set_path (str "/agent/rule/" ++ t) u),
        rw (opened, L.uuid_read t),
        by_zed _ _ _ _ out ∙ rw filled,
      )

  pub fetch-Printed :
      (url : C.Url)
      → (C.scheme url ≡ str "http") ⊎ (C.scheme url ≡ str "https")
      → Printed C input (fetch url)
  unfolding Printed to_uri by_scheme
  fetch-Printed url (inl http) = (url, refl, rw http)
  fetch-Printed url (inr https) = (url, refl, rw https)

  -- The pairs that a column is written as.
  unfoldable pub column_pairs : Option ℕ → Pairs
  column_pairs none = []
  column_pairs (some column) = (str "column", show_u32 (u32_suc column)) ∷ []

  pub column_Shape :
      (u : C.Url) (s p : Text) (f : Option Text) (column : Option ℕ)
      → Shape C u s p [] f
      → Shape C (with_column C column u) s p (column_pairs column) f
  unfolding with_column column_pairs
  column_Shape u s p f none sh = sh
  column_Shape u s p f (some column) sh = L.append_pair_Shape u s p _ _ [] f sh

  pub column_read :
      (column : Option ℕ)
      → ColumnFits column
      → parse_column (query_param (str "column") (column_pairs column)) ≡ column
  unfolding column_pairs query_param parse_column ColumnFits
  column_read none h = refl
  column_read (some column) h =
      rw (u32_suc-fits column h, parse_u32-show_u32 (suc column) (omega arith))

  pub column_allowed :
      (column : Option ℕ) → validate_query_params (str "column" ∷ []) (column_pairs column) ≡ ok tt
  unfolding column_pairs validate_query_params
  column_allowed none = refl
  column_allowed (some column) = refl

  pub untitled-Printed :
      (lines : LineRange) (column : Option ℕ)
      → LinesFit lines
      → ColumnFits column
      → Printed C input (selection none lines column)
  unfolding Printed to_uri zed_mention by_path untitled_mention LinesFit
  untitled-Printed lines column (hs, he) hc =
      let (u, opened, sh) = at_path (str "/agent/untitled-buffer") refl in
      let out = L.set_fragment_Shape _ _ _ _ _ lines (column_Shape _ _ _ _ column sh) in
      (
        _,
        rw opened,
        by_zed _ _ _ _ out
            ∙ rw (
              parse_line_range-line_fragment lines hs he,
              column_allowed column,
              column_read column hc,
            ),
      )
