-- ===== src/Workspace/Files/Slices.antt =====
-- A file read as the slice of all its lines, against the file read whole.
use mathlib.Core.List.{List, append-nil}
use mathlib.Core.Path.{ap, sym, subst}
use mjx_acp_agent.Prelude.{
  not, ◌&&◌, if◌then◌else◌, ◌≢◌, Bool-cases, ◌≢◌, arith, ◌≡◌, nat_beq, ℕ, ◌∙◌, ◌++◌, true, false,
  [], ◌∷◌, none, some, refl, inl, inr,
}
use mjx_acp_agent.Prelude.Text.{is_empty, contains, ends_with, Text}
use mjx_acp_agent.Workspace.Files.{cons_line, join_lines, split_lines, without_cr, slice, lines}

without_cr-same : (s : Text) → contains b'\r' s ≡ false → without_cr s ≡ s
unfolding without_cr contains
without_cr-same [] h = refl
without_cr-same (c ∷ s) h = ground (arith, without_cr-same s)

-- The line feed behind the last line, where there is one.
last_feed : Text → Text
last_feed s = if ends_with b'\n' s then b'\n' ∷ [] else []

split_lines-begin :
    (c : ℕ) (s : Text) → (l : Text) × (ls : List Text) × (split_lines (c ∷ s) ≡ l ∷ ls)
unfolding split_lines
split_lines-begin c s = elim (Bool-cases (nat_beq c b'\n')) [
  | inl feed ↦ ([], split_lines s, rw feed)
  | inr other ↦ begin (split_lines s) other
]
  where
    begin :
        (rest : List Text)
        → nat_beq c b'\n' ≡ false
        → (l : Text) × (ls : List Text) × ((if nat_beq c b'\n' then [] ∷ rest else cons_line c rest)
            ≡ l ∷ ls)
    begin [] other = (c ∷ [], [], rw other)
    begin (l ∷ ls) other = (c ∷ l, ls, rw other)

join_lines-feed :
    (l : Text) (ls : List Text) → join_lines ([] ∷ l ∷ ls) ≡ b'\n' ∷ join_lines (l ∷ ls)
unfolding join_lines
join_lines-feed l ls = refl

join_lines-cons :
    (c : ℕ) (l : Text) (ls : List Text) → join_lines ((c ∷ l) ∷ ls) ≡ c ∷ join_lines (l ∷ ls)
unfolding join_lines
join_lines-cons c l [] = refl
join_lines-cons c l (m ∷ ls) = refl

split_lines-feed : (s : Text) → split_lines (b'\n' ∷ s) ≡ [] ∷ split_lines s
unfolding split_lines
split_lines-feed s = refl

split_lines-other :
    (c : ℕ) (s : Text) → nat_beq c b'\n' ≡ false → split_lines (c ∷ s) ≡ cons_line c (split_lines s)
unfolding split_lines
split_lines-other c s h = rw h

last_feed-cons : (c d : ℕ) (s : Text) → last_feed (c ∷ d ∷ s) ≡ last_feed (d ∷ s)
unfolding last_feed ends_with
last_feed-cons c d s = refl

one_line : (c : ℕ) → join_lines (split_lines (c ∷ [])) ++ last_feed (c ∷ []) ≡ c ∷ []
unfolding join_lines split_lines last_feed ends_with
one_line c = ground arith

no_line : join_lines (split_lines []) ++ last_feed [] ≡ []
unfolding join_lines split_lines last_feed ends_with
no_line = refl

feed_of : (c : ℕ) → nat_beq c b'\n' ≡ true → c ≡ b'\n'
feed_of c h = ground arith

-- The lines joined, with the line feed behind the last of them, are the text.
join_lines-split_lines : (s : Text) → join_lines (split_lines s) ++ last_feed s ≡ s
join_lines-split_lines [] = no_line
join_lines-split_lines (c ∷ []) = one_line c
join_lines-split_lines (c ∷ d ∷ s) =
    let (l, ls, begins) = split_lines-begin d s in
    let ih : join_lines (l ∷ ls) ++ last_feed (d ∷ s) ≡ d ∷ s =
      subst (λ ls. join_lines ls ++ last_feed (d ∷ s) ≡ d ∷ s) begins
        (join_lines-split_lines (d ∷ s)) in
    elim (Bool-cases (nat_beq c b'\n')) [
      | inl feed ↦
          subst (λ b. join_lines (split_lines (b ∷ d ∷ s)) ++ last_feed (b ∷ d ∷ s) ≡ b ∷ d ∷ s)
            (sym (feed_of c feed))
            (rw (split_lines-feed (d ∷ s), begins, join_lines-feed l ls, last_feed-cons b'\n' d s)
              (ap (λ t. b'\n' ∷ t) ih))
      | inr other ↦
          rw
            (
              split_lines-other c (d ∷ s) other,
              begins,
              join_lines-cons c l ls,
              last_feed-cons c d s,
            )
            (ap (λ t. c ∷ t) ih)
    ]

lines_whole : (s : Text) → contains b'\r' s ≡ false → join_lines (lines s) ++ last_feed s ≡ s
unfolding lines
lines_whole s h = rw (without_cr-same s h) (join_lines-split_lines s)

-- The condition on an empty slice only refuses a single line feed.
kept :
    (s : Text) (ls : List Text)
    → join_lines ls ++ last_feed s ≡ s
    → s ≢ b'\n' ∷ []
    → (if ends_with b'\n' s && not (is_empty (join_lines ls)) && true
        then join_lines ls ++ b'\n' ∷ []
        else join_lines ls)
      ≡ s
unfolding last_feed
kept s ls whole more = joined (join_lines ls) whole
  where
    joined :
        (out : Text)
        → out ++ (if ends_with b'\n' s then b'\n' ∷ [] else []) ≡ s
        → (if ends_with b'\n' s && not (is_empty out) && true then out ++ b'\n' ∷ [] else out) ≡ s
    joined [] e = elim (Bool-cases (ends_with b'\n' s)) [
      | inl feed ↦
          absurd (more (sym (subst (λ b. [] ++ (if b then b'\n' ∷ [] else []) ≡ s) feed e)))
      | inr no_feed ↦ rw no_feed (subst (λ b. [] ++ (if b then b'\n' ∷ [] else []) ≡ s) no_feed e)
    ]
    joined (c ∷ out) e = elim (Bool-cases (ends_with b'\n' s)) [
      | inl feed ↦ rw feed (subst (λ b. (c ∷ out) ++ (if b then b'\n' ∷ [] else []) ≡ s) feed e)
      | inr no_feed ↦ rw no_feed (
          sym (append-nil (c ∷ out))
          ∙ subst (λ b. (c ∷ out) ++ (if b then b'\n' ∷ [] else []) ≡ s) no_feed e)
    ]

-- A file without carriage returns, but for the one that is a single line feed, is read whole by the slice from its
-- first line on, written as line 0 or 1.
pub slice-all :
    (contents : Text)
    → contains b'\r' contents ≡ false
    → contents ≢ b'\n' ∷ []
    → (slice contents (some 1) none ≡ contents) × (slice contents (some 0) none ≡ contents)
unfolding slice
slice-all contents no_cr more =
    let whole = kept contents (lines contents) (lines_whole contents no_cr) more in (whole, whole)
