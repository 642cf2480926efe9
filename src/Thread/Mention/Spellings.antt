-- ===== src/Thread/Mention/Spellings.antt =====
-- The Windows spellings of a path and their native form.
use mathlib.Core.Path.{subst}
use mjx_acp_agent.Thread.Paths.{has_drive_prefix}
use mjx_acp_agent.Thread.Mention.Native.{
  native_path, separates, msys_style, url_style, behind_slash, join_drive, drive_style,
  to_native_windows_path, slashes,
}
use mjx_acp_agent.Prelude.{
  ◌&&◌, and_then, ◌&&◌, Option-cases, nat_beq, ℕ, Bool-cases, arith, ◌≡◌, ◌≡◌, true, false, [], ◌∷◌,
  none, some, refl, inl, inr,
}
use mjx_acp_agent.Prelude.Text.{
  str, strip_prefix, is_ascii_lowercase, to_ascii_uppercase, is_ascii_alphabetic, replace, contains,
  Text,
}

replaced_lacks : (s : Text) → contains b'/' (replace b'/' b'\\' s) ≡ false
unfolding contains replace
replaced_lacks [] = refl
replaced_lacks (c ∷ s) = ground (arith, replaced_lacks s)

-- A path that `to_native_windows_path` leaves as it is.
pub IsNative : Text → Type 0
IsNative path = to_native_windows_path path ≡ none

drive-IsNative :
    (drive : ℕ) (rest : Text)
    → is_ascii_alphabetic drive ≡ true
    → IsNative (to_ascii_uppercase drive ∷ b':' ∷ replace b'/' b'\\' rest)
unfolding IsNative to_native_windows_path drive_style contains
drive-IsNative drive rest h = ground (arith, replaced_lacks rest)

join_drive-IsNative :
    (drive : ℕ) (rest : Text) → is_ascii_alphabetic drive ≡ true → IsNative (join_drive drive rest)
unfolding IsNative to_native_windows_path join_drive drive_style contains
join_drive-IsNative drive rest h = ground (arith, replaced_lacks rest)

-- Replaced separators alone give no drive: the path has no drive prefix before, so none behind.
replace-IsNative :
    (path : Text) → has_drive_prefix path ≡ false → IsNative (replace b'/' b'\\' path)
unfolding IsNative to_native_windows_path drive_style slashes replace contains has_drive_prefix
replace-IsNative [] h = refl
replace-IsNative (a ∷ []) h = ground arith
replace-IsNative (a ∷ b ∷ s) h = ground (arith, replaced_lacks s)

slashes-IsNative :
    (path native : Text)
    → has_drive_prefix path ≡ false
    → slashes path ≡ some native
    → IsNative native
unfolding slashes
slashes-IsNative path native h e = elim (Bool-cases (contains b'/' path)) [
  | inl has ↦ subst IsNative (ground (arith, has)) (replace-IsNative path h)
  | inr lacks ↦ ground (arith, lacks)
]

url_style-IsNative : (rest native : Text) → url_style rest ≡ some native → IsNative native
unfolding url_style
url_style-IsNative (drive ∷ colon ∷ c ∷ rest) native e =
    elim (Bool-cases (nat_beq colon b':' && separates c && is_ascii_alphabetic drive)) [
      | inl hit ↦
          subst IsNative (ground (arith, hit)) (join_drive-IsNative drive rest (ground arith))
      | inr miss ↦ ground (arith, miss)
    ]
url_style-IsNative [] native e = ground arith
url_style-IsNative (a ∷ []) native e = ground arith
url_style-IsNative (a ∷ b ∷ []) native e = ground arith

msys_style-IsNative : (rest native : Text) → msys_style rest ≡ some native → IsNative native
unfolding msys_style
msys_style-IsNative (drive ∷ c ∷ rest) native e =
    elim (Bool-cases (separates c && is_ascii_lowercase drive)) [
      | inl hit ↦
          subst IsNative (ground (arith, hit)) (join_drive-IsNative drive rest (ground arith))
      | inr miss ↦ ground (arith, miss)
    ]
msys_style-IsNative [] native e = ground arith
msys_style-IsNative (a ∷ []) native e = ground arith

behind_slash-IsNative : (rest native : Text) → behind_slash rest ≡ some native → IsNative native
unfolding behind_slash
behind_slash-IsNative rest native e = elim (Option-cases (url_style rest)) [
  | inl miss ↦ msys_style-IsNative rest native (ground (arith, miss))
  | inr (found, hit) ↦ url_style-IsNative rest native (ground (arith, hit))
]

drive_style-IsNative : (path native : Text) → drive_style path ≡ some native → IsNative native
unfolding drive_style has_drive_prefix
drive_style-IsNative (drive ∷ colon ∷ rest) native e =
    elim (Bool-cases (nat_beq colon b':' && is_ascii_alphabetic drive)) [
      | inr miss ↦ slashes-IsNative (drive ∷ colon ∷ rest) native miss (ground (arith, miss))
      | inl hit ↦
          subst IsNative (ground (arith, hit)) (drive-IsNative drive rest (ground (arith, hit)))
    ]
drive_style-IsNative [] native e = slashes-IsNative [] native refl e
drive_style-IsNative (a ∷ []) native e = slashes-IsNative (a ∷ []) native refl e

-- What a path is converted to needs no conversion.
pub to_native_windows_path-IsNative :
    (path native : Text) → to_native_windows_path path ≡ some native → IsNative native
unfolding to_native_windows_path
to_native_windows_path-IsNative path native e =
    elim (Option-cases (and_then (strip_prefix (str "/") path) behind_slash)) [
      | inl miss ↦ drive_style-IsNative path native (ground (arith, miss))
      | inr (found, hit) ↦ elim (Option-cases (strip_prefix (str "/") path)) [
        | inl no_slash ↦ ground (arith, no_slash, hit)
        | inr (rest, slash) ↦ behind_slash-IsNative rest native (ground (arith, slash, hit))
      ]
    ]

native_path-fixed : (path : Text) → IsNative path → native_path path ≡ path
unfolding native_path IsNative
native_path-fixed path h = rw h

-- Normalising a normalised path changes nothing.
pub native_path_idem : (path : Text) → native_path (native_path path) ≡ native_path path
unfolding native_path
native_path_idem path = elim (Option-cases (to_native_windows_path path)) [
  | inl kept ↦ rw (kept, kept)
  | inr (native, converted) ↦
      rw converted
        (native_path-fixed native (to_native_windows_path-IsNative path native converted))
]

-- The spellings `/C:/x`, `/c:\x`, `/c/x`, `c:/x` and `C:\x` of one path,
-- for any lowercase letter and any rest, are normalised to one text, which is normalised already.
pub native_path-spellings :
    (drive : ℕ) (rest : Text)
    → is_ascii_lowercase drive ≡ true
    → (native_path (b'/' ∷ to_ascii_uppercase drive ∷ b':' ∷ b'/' ∷ rest) ≡ join_drive drive rest)
      × (native_path (b'/' ∷ drive ∷ b':' ∷ b'\\' ∷ rest) ≡ join_drive drive rest)
      × (native_path (b'/' ∷ drive ∷ b'/' ∷ rest) ≡ join_drive drive rest)
      × (native_path (drive ∷ b':' ∷ b'/' ∷ rest) ≡ join_drive drive rest)
      × (native_path (join_drive drive rest) ≡ join_drive drive rest)
unfolding native_path to_native_windows_path behind_slash url_style msys_style drive_style
    join_drive replace
native_path-spellings drive rest h = (
  ground arith,
  ground arith,
  ground arith,
  ground arith,
  native_path-fixed (join_drive drive rest) (join_drive-IsNative drive rest (ground arith)),
)
