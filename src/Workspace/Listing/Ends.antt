-- ===== src/Workspace/Listing/Ends.antt =====
-- What one round over a directory's entries keeps: the budgets, and where the entries lie.
use mathlib.Core.List.{append_assoc}
use mjx_acp_agent.Prelude.{
  refl, ◌++◌, Option-cases, String, length-append, All-snoc, ltb, arith, Bool-cases, ◌&&◌, Bool,
  ◌+◌, ◌≡◌, ◌≡◌, All, length, ℕ, false, [], ◌∷◌, some, inl, inr, string_eq, ◌≤◌,
}
use mjx_acp_agent.Workspace.Disk.{join, FileSystem, FilePath, Metadata}
use mjx_acp_agent.Workspace.Files.Jail.{Under}
use mjx_acp_agent.Workspace.Listing.{
  is_skipped, inspect, visit, offer, Text, max_visits, max_depth, descend, cut_short, Entry,
  Listing, Walk, Flow, go, stop,
}

module _ (F : FileSystem) (disk : F.Disk) where
  -- An entry listed below `start`: at most one level below the deepest directory, and no link to a directory.
  pub record Found (start : FilePath) (e : Entry) : Type 0 where
    pub below : Under start e.path
    pub levels : length below.rest ≤ max_depth + 1
    pub from : e.root ≡ start
    pub meta : Metadata
    pub seen : F.symlink_metadata disk e.path ≡ some meta
    pub no_link : (meta.is_symlink && F.leads_to_dir disk e.path) ≡ false
    pub kind : e.is_dir ≡ meta.is_dir

  -- A directory in the queue, as deep below the start as it says.
  pub record Queued (start : FilePath) (d : FilePath × ℕ) : Type 0 where
    pub below : Under start d.0
    pub depth : length below.rest ≡ d.1
    pub not_deep : d.1 ≤ max_depth

  module _ (P : Entry → Type 0) (start : FilePath) (limit : ℕ) where
    pub record Fine (l : Listing) : Type 0 where
      pub room : length l.entries ≤ limit
      pub listed : All P l.entries

    pub record Good (w : Walk) : Type 0 where
      pub fine : Fine w.listing
      pub queued : All (Queued start) w.queue
      pub counted : w.visits ≤ max_visits

    -- After a round that began at `visits` with `waiting` directories in the queue, the queue has grown by at most the
    -- visits.
    unfoldable pub FlowOk : ℕ → ℕ → Flow → Type 0
    FlowOk visits waiting (go next) =
        Good next × (length next.queue + visits ≤ waiting + next.visits) × (visits ≤ next.visits)
    FlowOk visits waiting (stop l) = Fine l

    Fine-cut_short : (l : Listing) → Fine l → Fine (cut_short l)
    Fine-cut_short l h = record { room = h.room; listed = h.listed }

    descend-FlowOk :
        (path : FilePath) (depth visits : ℕ) (is_dir : Bool) (w : Walk) (b : Under start path)
        → length b.rest ≡ depth + 1
        → Good w
        → visits + 1 ≤ w.visits
        → FlowOk visits (length w.queue) (go (descend path depth is_dir w))
    unfolding FlowOk descend
    descend-FlowOk path depth visits is_dir w b deep h count = elim (Bool-cases is_dir) [
      | inr file ↦ rw file (h, omega (arith, count), omega (arith, count))
      | inl dir ↦ elim (Bool-cases (ltb max_depth (depth + 1))) [
        | inl too_deep ↦
            rw (dir, too_deep)
              (
                record {
                  fine = Fine-cut_short w.listing h.fine;
                  queued = h.queued;
                  counted = h.counted;
                },
                omega (arith, count),
                omega (arith, count),
              )
        | inr fits ↦
            rw (dir, fits)
              (
                record {
                  fine = h.fine;
                  queued =
                      All-snoc (Queued start) w.queue (path, depth + 1) h.queued
                        (record { below = b; depth = deep; not_deep = ground (arith, fits) });
                  counted = h.counted;
                },
                rw (length-append w.queue ((path, depth + 1) ∷ [])) (omega (arith, count)),
                omega (arith, count),
              )
      ]
    ]

    offer-FlowOk :
        (path : FilePath) (depth visits : ℕ) (is_dir matches : Bool) (w : Walk)
        (b : Under start path)
        → length b.rest ≡ depth + 1
        → P (record { root = start; path = path; is_dir = is_dir })
        → Good w
        → visits + 1 ≤ w.visits
        → FlowOk visits (length w.queue) (offer start depth path limit is_dir matches w)
    unfolding FlowOk offer
    offer-FlowOk path depth visits is_dir matches w b deep p h count = elim (Bool-cases matches) [
      | inr other ↦ rw other (descend-FlowOk path depth visits is_dir w b deep h count)
      | inl hit ↦ elim (Bool-cases (ltb (length w.listing.entries) limit)) [
        | inr full ↦ rw (hit, full) (Fine-cut_short w.listing h.fine)
        | inl room ↦
            rw (hit, room)
              (descend-FlowOk path depth visits is_dir _ b deep
                (record {
                  fine = record {
                    room =
                        rw
                          (length-append w.listing.entries
                            (record { root = start; path = path; is_dir = is_dir } ∷ []))
                          (ground (arith, room));
                    listed = All-snoc P w.listing.entries _ h.fine.listed p;
                  };
                  queued = h.queued;
                  counted = h.counted;
                })
                count)
      ]
    ]

  module _ (lowercase : Text → Text) (P : Entry → Type 0) (start : FilePath) (limit : ℕ)
      (needle : Text) (holds : (e : Entry) → Found start e → P e) where
    Under-join : (dir : FilePath) (name : String) → Under start dir → Under start (join dir name)
    Under-join dir name b = record {
      same_root = b.same_root;
      rest = b.rest ++ name ∷ [];
      behind = rw b.behind (append_assoc start.parts b.rest (name ∷ []));
    }

    inspect-FlowOk :
        (name : String) (path : FilePath) (depth visits : ℕ) (meta : Metadata) (w : Walk)
        (b : Under start path)
        → length b.rest ≡ depth + 1
        → depth ≤ max_depth
        → F.symlink_metadata disk path ≡ some meta
        → Good P start limit w
        → visits + 1 ≤ w.visits
        → FlowOk P start limit visits
            (length w.queue)
            (inspect F lowercase disk start limit needle depth name path meta w)
    unfolding inspect FlowOk
    inspect-FlowOk name path depth visits meta w b deep shallow seen h count =
        elim (Bool-cases (meta.is_symlink && F.leads_to_dir disk path)) [
          | inl link ↦ rw link (h, omega (arith, count), omega (arith, count))
          | inr no_link ↦ elim (Bool-cases (meta.is_dir && is_skipped name)) [
            | inl skipped ↦ rw (no_link, skipped) (h, omega (arith, count), omega (arith, count))
            | inr kept ↦
                rw (no_link, kept)
                  (offer-FlowOk P start limit path depth visits meta.is_dir _ w b deep
                    (holds _ (record {
                      below = b;
                      levels = omega (arith, deep);
                      from = refl;
                      meta = meta;
                      seen = seen;
                      no_link = no_link;
                      kind = refl;
                    }))
                    h count)
          ]
        ]

    pub visit-FlowOk :
        (dir : FilePath) (depth : ℕ) (name : String) (w : Walk)
        → Queued start (dir, depth)
        → Good P start limit w
        → FlowOk P start limit w.visits
            (length w.queue)
            (visit F lowercase disk start limit needle dir depth name w)
    unfolding visit FlowOk Under-join
    visit-FlowOk dir depth name w d h = elim (Bool-cases (ltb max_visits (w.visits + 1))) [
      | inl over ↦ rw over (Fine-cut_short _ _ _ _ h.fine)
      | inr under ↦
          let counted : Good P start limit (record w { visits = w.visits + 1 }) = record {
            fine = h.fine;
            queued = h.queued;
            counted = ground (arith, under);
          } in
          elim (Option-cases (F.symlink_metadata disk (join dir name))) [
            | inl missing ↦ rw (under, missing) (counted, omega arith, omega arith)
            | inr (meta, seen) ↦
                rw (under, seen)
                  (inspect-FlowOk name (join dir name) depth w.visits meta _
                    (Under-join dir name d.below)
                    (rw (length-append d.below.rest (name ∷ [])) (omega (arith, d.depth)))
                    d.not_deep seen counted (omega arith))
          ]
    ]
