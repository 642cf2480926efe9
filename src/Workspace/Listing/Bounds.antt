-- ===== src/Workspace/Listing/Bounds.antt =====
-- A listing always ends, and keeps its budgets and the jail.
use mathlib.Core.Path.{subst}
use mjx_acp_agent.Workspace.Listing.Ends.{Fine, visit-FlowOk, Found, Good, Queued, FlowOk}
use mjx_acp_agent.Prelude.{
  none, ◌∙◌, sym, ◌<◌, ◌<◌, Option-cases, ◌+◌, arith, length, String, List, ◌⊎◌, ◌⊎◌, ◌≡◌, ◌≡◌, ℕ,
  [], ◌∷◌, some, refl, inl, inr, string_eq, ◌≤◌, zero, suc,
}
use mjx_acp_agent.Prelude.Text.{Text}
use mjx_acp_agent.Workspace.Disk.{FileSystem, FilePath}
use mjx_acp_agent.Workspace.Listing.{
  max_visits, visit_dir, walk, visit, visit_children, Entry, Listing, Walk, Flow, go, stop,
}

pub Flow-cases : (f : Flow) → ((w : Walk) × (f ≡ go w)) ⊎ ((l : Listing) × (f ≡ stop l))
Flow-cases (go w) = inl (w, refl)
Flow-cases (stop l) = inr (l, refl)

module _ (F : FileSystem) (lowercase : Text → Text) (disk : F.Disk) (P : Entry → Type 0) where
  module _ (start : FilePath) (limit : ℕ) (needle : Text)
      (holds : (e : Entry) → Found F disk start e → P e) where
    widen :
        (v v' q q' : ℕ) (f : Flow)
        → q' + v ≤ q + v'
        → v ≤ v'
        → FlowOk F disk P start limit v' q' f
        → FlowOk F disk P start limit v q f
    unfolding FlowOk
    widen v v' q q' (go w) grown later (good, g, l) = (good, omega arith, omega arith)
    widen v v' q q' (stop l) grown later fine = fine

    visit_children-go :
        (dir : FilePath) (depth : ℕ) (name : String) (names : List String) (w next : Walk)
        → visit F lowercase disk start limit needle dir depth name w ≡ go next
        → visit_children F lowercase disk start limit needle dir depth (name ∷ names) w
          ≡ visit_children F lowercase disk start limit needle dir depth names next
    unfolding visit_children
    visit_children-go dir depth name names w next went = rw (went, visit_children)

    visit_children-stop :
        (dir : FilePath) (depth : ℕ) (name : String) (names : List String) (w : Walk) (l : Listing)
        → visit F lowercase disk start limit needle dir depth name w ≡ stop l
        → visit_children F lowercase disk start limit needle dir depth (name ∷ names) w ≡ stop l
    unfolding visit_children
    visit_children-stop dir depth name names w l stopped = rw (stopped, visit_children)

    visit_dir-read :
        (dir : FilePath) (depth : ℕ) (names : List String) (w : Walk)
        → F.read_dir disk dir ≡ some names
        → visit_dir F lowercase disk start limit needle dir depth w
          ≡ visit_children F lowercase disk start limit needle dir depth names w
    unfolding visit_dir
    visit_dir-read dir depth names w read = rw (read, visit_dir)

    visit_dir-unreadable :
        (dir : FilePath) (depth : ℕ) (w : Walk)
        → F.read_dir disk dir ≡ none
        → visit_dir F lowercase disk start limit needle dir depth w ≡ go w
    unfolding visit_dir
    visit_dir-unreadable dir depth w unreadable = rw (unreadable, visit_dir)

    children-FlowOk :
        (dir : FilePath) (depth : ℕ) (names : List String) (w : Walk)
        → Queued F disk start (dir, depth)
        → Good F disk P start limit w
        → FlowOk F disk P start limit w.visits
            (length w.queue)
            (visit_children F lowercase disk start limit needle dir depth names w)
    unfolding FlowOk visit_children
    children-FlowOk dir depth [] w d h = (h, omega arith, omega arith)
    children-FlowOk dir depth (name ∷ names) w d h =
        let step = visit-FlowOk F disk lowercase P start limit needle holds dir depth name w d h in
        elim (Flow-cases (visit F lowercase disk start limit needle dir depth name w)) [
          | inr (l, stopped) ↦
              subst (FlowOk F disk P start limit w.visits (length w.queue))
                (stopped ∙ sym (visit_children-stop dir depth name names w l stopped)) step
          | inl (next, went) ↦
              let (good, grown, later) =
                subst (FlowOk F disk P start limit w.visits (length w.queue)) went step in
              subst (FlowOk F disk P start limit w.visits (length w.queue))
                (sym (visit_children-go dir depth name names w next went))
                (widen _ _ _ _ _ grown later (children-FlowOk dir depth names next d good))
        ]

    dir-FlowOk :
        (dir : FilePath) (depth : ℕ) (w : Walk)
        → Queued F disk start (dir, depth)
        → Good F disk P start limit w
        → FlowOk F disk P start limit w.visits
            (length w.queue)
            (visit_dir F lowercase disk start limit needle dir depth w)
    unfolding FlowOk
    dir-FlowOk dir depth w d h = elim (Option-cases (F.read_dir disk dir)) [
      | inl unreadable ↦
          subst (FlowOk F disk P start limit w.visits (length w.queue))
            (sym (visit_dir-unreadable dir depth w unreadable)) (h, omega arith, omega arith)
      | inr (names, read) ↦
          subst (FlowOk F disk P start limit w.visits (length w.queue))
            (sym (visit_dir-read dir depth names w read)) (children-FlowOk dir depth names w d h)
    ]

    -- What the walk leaves behind, however it ended.
    unfoldable pub Ended : Flow → Type 0
    Ended (go w) = Fine F disk P start limit w.listing × (w.visits ≤ max_visits)
    Ended (stop l) = Fine F disk P start limit l

    walk-go :
        (fuel : ℕ) (dir : FilePath) (depth : ℕ) (w next : Walk)
        → visit_dir F lowercase disk start limit needle dir depth w ≡ go next
        → walk F lowercase
            (suc fuel)
            disk
            start
            limit
            needle
            (record w { queue = (dir, depth) ∷ w.queue })
          ≡ walk F lowercase fuel disk start limit needle next
    unfolding walk
    walk-go fuel dir depth w next went = rw (went, walk)

    walk-stop :
        (fuel : ℕ) (dir : FilePath) (depth : ℕ) (w : Walk) (l : Listing)
        → visit_dir F lowercase disk start limit needle dir depth w ≡ stop l
        → walk F lowercase
            (suc fuel)
            disk
            start
            limit
            needle
            (record w { queue = (dir, depth) ∷ w.queue })
          ≡ some (stop l)
    unfolding walk
    walk-stop fuel dir depth w l stopped = rw (stopped, walk)

    -- With fuel for every directory in the queue and every visit that is left, the walk ends.
    pub walk-Ended :
        (fuel : ℕ) (listing : Listing) (visits : ℕ) (queue : List (FilePath × ℕ))
        → Good F disk P start limit (record { listing = listing; visits = visits; queue = queue })
        → length queue + max_visits < fuel + visits
        → (f : Flow) × (walk F lowercase fuel disk start limit needle
              (record { listing = listing; visits = visits; queue = queue })
            ≡ some f)
          × Ended f
    unfolding Ended FlowOk walk
    walk-Ended zero listing visits queue h enough = absurd (omega (arith, h.counted, enough))
    walk-Ended (suc fuel) listing visits [] h enough = (go _, refl, (h.fine, h.counted))
    walk-Ended (suc fuel) listing visits ((dir, depth) ∷ rest) h enough =
        let w : Walk = record { listing = listing; visits = visits; queue = rest } in
        let step =
          dir-FlowOk dir depth w h.queued.0
            (record { fine = h.fine; queued = h.queued.1; counted = h.counted }) in
        elim (Flow-cases (visit_dir F lowercase disk start limit needle dir depth w)) [
          | inr (l, stopped) ↦ (
            stop l,
            walk-stop fuel dir depth w l stopped,
            subst (FlowOk F disk P start limit visits (length rest)) stopped step,
          )
          | inl (next, went) ↦
              let (good, grown, later) =
                subst (FlowOk F disk P start limit visits (length rest)) went step in
              let (f, ends, ended) =
                walk-Ended fuel next.listing next.visits next.queue good
                  (omega (arith, grown, later, enough)) in
              (f, walk-go fuel dir depth w next went ∙ ends, ended)
        ]
