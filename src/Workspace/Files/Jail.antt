-- ===== src/Workspace/Files/Jail.antt =====
-- What the jail of fs.rs keeps out.
use mathlib.Core.Path.{subst}
use mjx_acp_agent.Workspace.Files.{resolve_within, resolved, allowed}
use mjx_acp_agent.Prelude.{
  ==→≡, ◌==◌, ◌==◌, Result-cases, get_elem?, arith, ◌⊎◌, Option-cases, any, ℕ, String, ◌⊎◌,
  Bool-cases, ◌≡◌, Bool, List, ◌≡◌, true, false, [], ◌∷◌, none, some, refl, ok, err, inl, inr, ◌++◌,
  string_eq, ap, suc, negsuc,
}
use mjx_acp_agent.Prelude.Text.{Text}
use mjx_acp_agent.Workspace.Disk.{
  file_name, join, parent, strip_path, code, parts_behind, path_starts_with, FileSystem, FilePath,
  WorkspaceError,
}

-- `p` is `base` with `rest` behind it.
pub record Under (base p : FilePath) : Type 0 where
  pub same_root : p.rooted ≡ base.rooted
  pub rest : List String
  pub behind : p.parts ≡ base.parts ++ rest

parts_behind_sound : (ps xs rest : List String) → parts_behind ps xs ≡ some rest → xs ≡ ps ++ rest
unfolding parts_behind
parts_behind_sound [] xs rest h = ground arith
parts_behind_sound (p ∷ ps) [] rest h = ground arith
parts_behind_sound (p ∷ ps) (x ∷ xs) rest h = elim (Bool-cases (x == p)) [
  | inl same ↦
      rw (==→≡ x p same) (ap (λ t. p ∷ t) (parts_behind_sound ps xs rest (ground (arith, same))))
  | inr other ↦ ground (arith, other)
]

path_starts_with-Under : (p base : FilePath) → path_starts_with p base ≡ true → Under base p
unfolding path_starts_with strip_path
path_starts_with-Under p base h = elim (Option-cases (parts_behind base.parts p.parts)) [
  | inl miss ↦ ground (arith, miss)
  | inr (rest, hit) ↦ record {
    same_root = ground (arith, hit);
    rest = rest;
    behind = parts_behind_sound base.parts p.parts rest hit;
  }
]

any-index :
    {A : Type 0} (test : A → Bool) (xs : List A)
    → any test xs ≡ true
    → (i : ℕ) × (x : A) × (get_elem? xs i ≡ some x) × (test x ≡ true)
any-index test [] h = ground arith
any-index test (x ∷ xs) h = elim (Bool-cases (test x)) [
  | inl hit ↦ (0, x, refl, hit)
  | inr miss ↦
      let (i, y, found, passed) = any-index test xs (ground (arith, miss)) in
      (suc i, y, found, passed)
]

module _ (F : FileSystem) where
  -- `p` lies under what one of the roots is.
  unfoldable pub Inside : F.Disk → List FilePath → FilePath → Type 0
  Inside disk roots p =
      (i : ℕ) × (root : FilePath) × (base : FilePath) × (get_elem? roots i ≡ some root)
      × (F.canonicalize disk root ≡ some base)
      × Under base p

  allowed-Inside :
      (disk : F.Disk) (roots : List FilePath) (p : FilePath)
      → allowed F disk roots p ≡ true
      → Inside disk roots p
  unfolding allowed Inside
  allowed-Inside disk roots p h =
      let (i, root, found, passed) = any-index _ roots h in
      elim (Option-cases (F.canonicalize disk root)) [
        | inl miss ↦ ground (arith, miss)
        | inr (base, hit) ↦
            (i, root, base, found, hit, path_starts_with-Under p base (ground (arith, hit)))
      ]

  -- What the path that was asked for leads to: what the file system makes of it, or, where the file may be missing, its
  -- own name behind what the file system makes of its directory.
  unfoldable pub Reached : F.Disk → FilePath → Bool → FilePath → Type 0
  Reached disk path true p = F.canonicalize disk path ≡ some p
  Reached disk path false p =
      (dir : FilePath) × (found : FilePath) × (parent path ≡ some dir)
      × (F.canonicalize disk dir ≡ some found)
      × (p ≡ (elim (file_name path) [ some name ↦ join found name | none ↦ found ]))

  -- The path is absolute, and leads to `p`, which lies under what one of the roots is.
  unfoldable pub Target : F.Disk → List FilePath → FilePath → Bool → FilePath → Type 0
  Target disk roots path must_exist p =
      (path.rooted ≡ true) × Reached disk path must_exist p × Inside disk roots p

  resolved-Reached :
      (disk : F.Disk) (path : FilePath) (b : Bool) (p : FilePath)
      → resolved F disk path b ≡ ok p
      → Reached disk path b p
  unfolding resolved Reached
  resolved-Reached disk path true p h = elim (Option-cases (F.canonicalize disk path)) [
    | inl miss ↦ ground (arith, miss)
    | inr (q, hit) ↦ ground (arith, hit)
  ]
  resolved-Reached disk path false p h = elim (Option-cases (parent path)) [
    | inl miss ↦ ground (arith, miss)
    | inr (dir, up) ↦ elim (Option-cases (F.canonicalize disk dir)) [
      | inl miss ↦ ground (arith, up, miss)
      | inr (q, hit) ↦ (dir, q, up, hit, ground (arith, up, hit))
    ]
  ]

  -- Refusals: the request was wrong, or there is no such file.
  pub IsRefusal : WorkspaceError → Type 0
  IsRefusal e = (code e ≡ negsuc 32601) ⊎ (code e ≡ negsuc 32001)

  resolved-IsRefusal :
      (disk : F.Disk) (path : FilePath) (b : Bool) (e : WorkspaceError)
      → resolved F disk path b ≡ err e
      → IsRefusal e
  unfolding resolved IsRefusal code
  resolved-IsRefusal disk path true e h = elim (Option-cases (F.canonicalize disk path)) [
    | inl miss ↦ inr (ground (arith, miss))
    | inr (p, hit) ↦ ground (arith, hit)
  ]
  resolved-IsRefusal disk path false e h = elim (Option-cases (parent path)) [
    | inl miss ↦ inl (ground (arith, miss))
    | inr (dir, up) ↦ elim (Option-cases (F.canonicalize disk dir)) [
      | inl miss ↦ inr (ground (arith, up, miss))
      | inr (p, hit) ↦ ground (arith, up, hit)
    ]
  ]

  -- What is resolved is what an absolute path leads to, and lies inside a root.
  pub resolve_within-Target :
      (disk : F.Disk) (roots : List FilePath) (path p : FilePath) (must_exist : Bool)
      → resolve_within F disk roots path must_exist ≡ ok p
      → Target disk roots path must_exist p
  unfolding resolve_within Target
  resolve_within-Target disk roots path p must_exist h = elim (Bool-cases path.rooted) [
    | inr relative ↦ ground (arith, relative)
    | inl absolute ↦ elim (Result-cases (resolved F disk path must_exist)) [
      | inr (e, failed) ↦ ground (arith, absolute, failed)
      | inl (found, hit) ↦ elim (Bool-cases (allowed F disk roots found)) [
        | inr outside ↦ ground (arith, absolute, hit, outside)
        | inl inside ↦
            subst (λ q. (path.rooted ≡ true) × Reached disk path must_exist q × Inside disk roots q)
              (ground (arith, absolute, hit, inside))
              (
                absolute,
                resolved-Reached disk path must_exist found hit,
                allowed-Inside disk roots found inside,
              )
      ]
    ]
  ]

  pub resolve_within-Inside :
      (disk : F.Disk) (roots : List FilePath) (path p : FilePath) (must_exist : Bool)
      → resolve_within F disk roots path must_exist ≡ ok p
      → (path.rooted ≡ true) × Inside disk roots p
  unfolding Target
  resolve_within-Inside disk roots path p must_exist h =
      let (absolute, _, inside) = resolve_within-Target disk roots path p must_exist h in
      (absolute, inside)

  pub resolve_within-IsRefusal :
      (disk : F.Disk) (roots : List FilePath) (path : FilePath) (must_exist : Bool)
      (e : WorkspaceError)
      → resolve_within F disk roots path must_exist ≡ err e
      → IsRefusal e
  unfolding resolve_within IsRefusal code
  resolve_within-IsRefusal disk roots path must_exist e h = elim (Bool-cases path.rooted) [
    | inr relative ↦ inl (ground (arith, relative))
    | inl absolute ↦ elim (Result-cases (resolved F disk path must_exist)) [
      | inr (e', failed) ↦
          subst IsRefusal (ground (arith, absolute, failed))
            (resolved-IsRefusal disk path must_exist e' failed)
      | inl (found, hit) ↦ elim (Bool-cases (allowed F disk roots found)) [
        | inr outside ↦ inl (ground (arith, absolute, hit, outside))
        | inl inside ↦ ground (arith, absolute, hit, inside)
      ]
    ]
  ]
