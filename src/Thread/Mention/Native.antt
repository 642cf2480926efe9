-- ===== src/Thread/Mention/Native.antt =====
-- mention.rs: `to_native_windows_path`.
use mjx_acp_agent.Prelude.{
  unwrap_or, not, ◌||◌, ◌||◌, ◌&&◌, ◌&&◌, nat_beq, if◌then◌else◌, Bool, and_then, Option, ℕ, ◌∷◌,
  none, some,
}
use mjx_acp_agent.Prelude.Text.{
  is_ascii_uppercase, is_ascii_alphabetic, is_ascii_lowercase, strip_prefix, replace, contains,
  to_ascii_uppercase, Text, str,
}

unfoldable pub join_drive : ℕ → Text → Text
join_drive drive rest = to_ascii_uppercase drive ∷ b':' ∷ b'\\' ∷ replace b'/' b'\\' rest

abbrev pub separates : ℕ → Bool
separates c = nat_beq c b'/' || nat_beq c b'\\'

-- `/C:/foo`, behind the slash.
unfoldable pub url_style : Text → Option Text
url_style (drive ∷ colon ∷ c ∷ rest) =
    if nat_beq colon b':' && separates c && is_ascii_alphabetic drive
    then some (join_drive drive rest)
    else none
url_style _ = none

-- `/c/foo`, behind the slash.
unfoldable pub msys_style : Text → Option Text
msys_style (drive ∷ c ∷ rest) =
    if separates c && is_ascii_lowercase drive then some (join_drive drive rest) else none
msys_style _ = none

unfoldable pub slashes : Text → Option Text
slashes path = if contains b'/' path then some (replace b'/' b'\\' path) else none

-- A drive prefix, or none.
unfoldable pub drive_style : Text → Option Text
drive_style (drive ∷ colon ∷ rest) =
    if nat_beq colon b':' && is_ascii_alphabetic drive
    then if is_ascii_uppercase drive && not (contains b'/' (drive ∷ colon ∷ rest))
      then none
      else some (to_ascii_uppercase drive ∷ b':' ∷ replace b'/' b'\\' rest)
    else slashes (drive ∷ colon ∷ rest)
drive_style path = slashes path

-- The two spellings behind a slash, then the others.
unfoldable pub behind_slash : Text → Option Text
behind_slash rest = elim (url_style rest) [ some native ↦ some native | none ↦ msys_style rest ]

unfoldable pub to_native_windows_path : Text → Option Text
to_native_windows_path path = elim (and_then (strip_prefix (str "/") path) behind_slash) [
  | some native ↦ some native
  | none ↦ drive_style path
]

-- The path that a Windows path is normalised to, where `to_native_windows_path` is called.
unfoldable pub native_path : Text → Text
native_path path = unwrap_or path (to_native_windows_path path)
