-- ===== src/Workspace/Listing/Total.antt =====
-- `list_within` as a whole: it always answers, within its budgets, and only with entries inside the roots.
use mathlib.Core.Path.{subst, sym, ap}
use mathlib.Core.List.{append_assoc, append-nil}
use mjx_acp_agent.Workspace.Files.{resolve_within}
use mjx_acp_agent.Workspace.Files.Jail.{
  Under, Inside, IsRefusal, resolve_within-Inside, resolve_within-IsRefusal,
}
use mjx_acp_agent.Workspace.Listing.Ends.{Fine, Found}
use mjx_acp_agent.Workspace.Listing.Bounds.{Ended, walk-Ended, Flow-cases}
use mjx_acp_agent.Prelude.{
  refl, ◌++◌, Option-cases, Result-cases, get_elem?, arith, ◌≡◌, ◌⊎◌, All, length, ℕ, suc, [], ◌∷◌,
  none, some, inl, inr, true, false, ◌>>=◌, ok, err, ◌≤◌, List, Option, ◌∙◌,
}
use mjx_acp_agent.Prelude.Text.{Text}
use mjx_acp_agent.Workspace.Disk.{FileSystem, FilePath, WorkspaceError}
use mjx_acp_agent.Workspace.Listing.{
  max_visits, enough, walk, walk_all, canonical_roots, starts_of, list_within, Entry, Listing, Walk,
  Flow, go, stop,
}

Under-trans : {a b c : FilePath} → Under a b → Under b c → Under a c
Under-trans {a} {b} {c} h k = record {
  same_root = k.same_root ∙ h.same_root;
  rest = h.rest ++ k.rest;
  behind = rw (k.behind, h.behind) (append_assoc a.parts h.rest k.rest);
}

Under-self : (a : FilePath) → Under a a
Under-self a = record { same_root = refl; rest = []; behind = sym (append-nil a.parts) }

module _ (F : FileSystem) (lowercase : Text → Text) (disk : F.Disk) (roots : List FilePath) where
  -- An entry found below a start that lies inside a root, so that it lies inside that root itself.
  pub record Offered (e : Entry) : Type 0 where
    pub start : FilePath
    pub start_inside : Inside F disk roots start
    pub found : Found F disk start e
    pub inside : Inside F disk roots e.path

  Found-Offered :
      (start : FilePath)
      → Inside F disk roots start
      → (e : Entry) → Found F disk start e
      → Offered e
  unfolding Inside
  Found-Offered start (i, root, base, there, canonical, under) e found = record {
    start = start;
    start_inside = (i, root, base, there, canonical, under);
    found = found;
    inside = (i, root, base, there, canonical, Under-trans under found.below);
  }

  canonical_roots-Inside :
      (some_roots : List FilePath)
      → ((i : ℕ) (r : FilePath)
          → get_elem? some_roots i ≡ some r
          → (j : ℕ) × (get_elem? roots j ≡ some r))
      → All (Inside F disk roots) (canonical_roots F lowercase disk some_roots)
  unfolding canonical_roots Inside
  canonical_roots-Inside [] sub = tt
  canonical_roots-Inside (r ∷ rs) sub =
      let rest = canonical_roots-Inside rs (λ i. sub (suc i)) in
      elim (Option-cases (F.canonicalize disk r)) [
        | inl missing ↦ rw (missing, All) rest
        | inr (base, hit) ↦
            let (j, there) = sub 0 r refl in
            rw (hit, All) ((j, r, base, there, hit, Under-self base), rest)
      ]

  module _ (limit : ℕ) (needle : Text) where
    start_walk : FilePath → Listing → ℕ → Option Flow
    start_walk start listing visits =
        walk F lowercase (enough F lowercase) disk start limit needle
          (record { listing = listing; visits = visits; queue = (start, 0) ∷ [] })

    walk_all-nil :
        (listing : Listing) (visits : ℕ)
        → walk_all F lowercase disk [] limit needle listing visits ≡ some listing
    unfolding walk_all
    walk_all-nil listing visits = refl

    walk_all-go :
        (start : FilePath) (starts : List FilePath) (listing : Listing) (visits : ℕ) (w : Walk)
        → start_walk start listing visits ≡ some (go w)
        → walk_all F lowercase disk (start ∷ starts) limit needle listing visits
          ≡ walk_all F lowercase disk starts limit needle w.listing w.visits
    unfolding walk_all start_walk
    walk_all-go start starts listing visits w e = rw (e, walk_all)

    walk_all-stop :
        (start : FilePath) (starts : List FilePath) (listing : Listing) (visits : ℕ) (l : Listing)
        → start_walk start listing visits ≡ some (stop l)
        → walk_all F lowercase disk (start ∷ starts) limit needle listing visits ≡ some l
    unfolding walk_all start_walk
    walk_all-stop start starts listing visits l e = rw (e, walk_all)

    start_walk-Ended :
        (start : FilePath) (listing : Listing) (visits : ℕ) (inside : Inside F disk roots start)
        → length listing.entries ≤ limit
        → All Offered listing.entries
        → visits ≤ max_visits
        → (f : Flow) × (start_walk start listing visits ≡ some f)
          × Ended F lowercase disk Offered start limit needle (Found-Offered start inside) f
    unfolding start_walk Under-self
    start_walk-Ended start listing visits inside room listed counted =
        walk-Ended F lowercase disk Offered start limit needle (Found-Offered start inside)
          (enough F lowercase) listing visits ((start, 0) ∷ [])
          (record {
            fine = record { room = room; listed = listed };
            queued =
                (record { below = Under-self start; depth = refl; not_deep = omega arith }, tt);
            counted = counted;
          })
          (omega arith)

    -- What a listing of all starts comes to.
    abbrev Answered : Option Listing → Type 0
    Answered o = (l : Listing) × (o ≡ some l) × (length l.entries ≤ limit) × All Offered l.entries

    -- Every start in turn, on what the earlier ones left of the budgets.
    walk_all-ends :
        (starts : List FilePath) (listing : Listing) (visits : ℕ)
        → All (Inside F disk roots) starts
        → length listing.entries ≤ limit
        → All Offered listing.entries
        → visits ≤ max_visits
        → Answered (walk_all F lowercase disk starts limit needle listing visits)
    unfolding Ended
    walk_all-ends [] listing visits _ room listed counted =
        (listing, walk_all-nil listing visits, room, listed)
    walk_all-ends (start ∷ starts) listing visits (inside, later) room listed counted =
        let (f, ends, ended) = start_walk-Ended start listing visits inside room listed counted in
        elim (Flow-cases f) [
          | inr (l, stopped) ↦
              let fine : Fine F disk Offered start limit l =
                subst
                  (Ended F lowercase disk Offered start limit needle (Found-Offered start inside))
                  stopped ended in
              (
                l,
                walk_all-stop start starts listing visits l (ends ∙ ap some stopped),
                fine.room,
                fine.listed,
              )
          | inl (w, went) ↦
              let (fine, counted') : Fine F disk Offered start limit w.listing
                  × (w.visits ≤ max_visits) =
                subst
                  (Ended F lowercase disk Offered start limit needle (Found-Offered start inside))
                  went ended in
              let (l, rest, room', listed') =
                walk_all-ends starts w.listing w.visits later fine.room fine.listed counted' in
              (
                l,
                walk_all-go start starts listing visits w (ends ∙ ap some went) ∙ rest,
                room',
                listed',
              )
        ]

  -- A listing always answers: with the refusal of the root that was named, or with no more entries than its limit, each
  -- found on the disk below a start inside the roots, at most 13 levels down, and no link to a directory.
  pub list_within-answers :
      (root : Option FilePath) (query : Text) (limit : ℕ)
      → ((e : WorkspaceError) × IsRefusal F e
          × (list_within F lowercase disk roots root query limit ≡ err e))
        ⊎ ((l : Listing) × (list_within F lowercase disk roots root query limit ≡ ok (some l))
            × (length l.entries ≤ limit)
            × All Offered l.entries)
  unfolding list_within starts_of
  list_within-answers none query limit =
      let (l, ends, room, listed) =
        walk_all-ends limit (lowercase query) (canonical_roots F lowercase disk roots)
          (record { entries = []; truncated = false }) 0
          (canonical_roots-Inside roots (λ i r there. (i, there))) (omega arith) tt (omega arith) in
      inr (l, rw ends, room, listed)
  list_within-answers (some root) query limit =
      elim (Result-cases (resolve_within F disk roots root true)) [
        | inr (e, refused) ↦
            inl (e, resolve_within-IsRefusal F disk roots root true e refused, rw (refused, ◌>>=◌))
        | inl (start, found) ↦
            let (l, ends, room, listed) =
              walk_all-ends limit (lowercase query) (start ∷ [])
                (record { entries = []; truncated = false }) 0
                ((resolve_within-Inside F disk roots root start true found).1, tt) (omega arith) tt
                (omega arith) in
            inr (l, rw (found, ◌>>=◌) (ap ok ends), room, listed)
      ]
