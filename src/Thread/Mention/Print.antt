-- ===== src/Thread/Mention/Print.antt =====
-- mention.rs: `to_uri`. `none` is a panic of `unwrap`, on a base that the url crate does not parse.
use mjx_acp_agent.Thread.Mention.Lines.{u32_suc, line_fragment}
use mjx_acp_agent.Prelude.{
  unwrap_or, ◌++◌, ◌&&◌, ◌++◌, ◌&&◌, not, and_then, to_option, ℕ, Option, if◌then◌else◌, Bool, [],
  ◌∷◌, none, some,
}
use mjx_acp_agent.Prelude.Text.{show_u32, ends_with, Text, str}
use mjx_acp_agent.Thread.Mention.{
  Crates, MentionUri, file, pasted_image, directory, symbol, thread, rule, diagnostics, selection,
  fetch, terminal_selection, git_diff, merge_conflict, skill,
}

module _ (C : Crates) where
  -- `Url::parse(base).unwrap()`
  unfoldable pub base : Text → Option C.Url
  base text = to_option (C.parse_url text)

  unfoldable pub with_column : Option ℕ → C.Url → C.Url
  with_column none url = url
  with_column (some column) url = C.append_pair (str "column") (show_u32 (u32_suc column)) url

  as_directory : Text → Text
  as_directory path =
      if not (ends_with b'/' path) && not (ends_with b'\\' path) then path ++ b'/' ∷ [] else path

  unfoldable pub flags_of : Bool → Bool → C.Url → C.Url
  flags_of include_errors include_warnings url =
      let url =
        if include_warnings then C.append_pair (str "include_warnings") (str "true") url else url in
      if include_errors then url else C.append_pair (str "include_errors") (str "false") url

  -- `column + 1` is on a `u32`, as the lines' are.
  unfoldable pub to_uri : MentionUri C → Option C.Url
  unfolding with_column as_directory flags_of base
  to_uri (file path) = and_then (base (str "file:///")) λ url. some (C.set_path path url)
  to_uri (pasted_image name) =
      and_then (base (str "zed:///agent/pasted-image"))
        λ url. some (C.append_pair (str "name") name url)
  to_uri (directory path) =
      and_then (base (str "file:///")) λ url. some (C.set_path (as_directory path) url)
  to_uri (symbol path name lines) = and_then (base (str "file:///")) λ url. some (
      C.set_fragment (line_fragment lines)
        (C.append_pair (str "symbol") name (C.set_path path url)))
  to_uri (selection (some path) lines column) =
      and_then (base (str "file:///")) λ url.
        some (C.set_fragment (line_fragment lines) (with_column column (C.set_path path url)))
  to_uri (selection none lines column) = and_then (base (str "zed:///")) λ url. some (
      C.set_fragment (line_fragment lines)
        (with_column column (C.set_path (str "/agent/untitled-buffer") url)))
  to_uri (thread id name) =
      and_then (base (str "zed:///"))
        λ url. some (C.append_pair (str "name") name (C.set_path (str "/agent/thread/" ++ id) url))
  to_uri (rule id name) = and_then (base (str "zed:///")) λ url. some (
      C.append_pair (str "name") name
        (C.set_path (str "/agent/rule/" ++ unwrap_or [] (C.uuid_of id)) url))
  to_uri (diagnostics include_errors include_warnings) = and_then (base (str "zed:///")) λ url.
      some (flags_of include_errors include_warnings (C.set_path (str "/agent/diagnostics") url))
  to_uri (fetch url) = some url
  to_uri (terminal_selection line_count) =
      and_then (base (str "zed:///agent/terminal-selection"))
        λ url. some (C.append_pair (str "lines") (show_u32 line_count) url)
  to_uri (git_diff base_ref) =
      and_then (base (str "zed:///agent/git-diff"))
        λ url. some (C.append_pair (str "base") base_ref url)
  to_uri (merge_conflict file_path) =
      and_then (base (str "zed:///agent/merge-conflict"))
        λ url. some (C.append_pair (str "path") file_path url)
  to_uri (skill name source path) = and_then (base (str "zed:///")) λ url. some (
      C.append_pair (str "path") path (
        C.append_pair (str "source") source
          (C.append_pair (str "name") name (C.set_path (str "/agent/skill") url))))
