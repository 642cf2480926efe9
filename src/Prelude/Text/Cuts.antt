-- ===== src/Prelude/Text/Cuts.antt =====
-- Texts cut at a delimiter.
use mjx_acp_agent.Prelude.{◌||◌, arith, ◌≡◌, ◌++◌, [], ◌∷◌, false, refl, some, none}
use Prim.Native.Nat.{ℕ}
use mjx_acp_agent.Prelude.Text.{Text, contains, split_once, rsplit_once}

pub contains-append : (c : ℕ) (s t : Text) → contains c (s ++ t) ≡ (contains c s || contains c t)
unfolding contains
contains-append c [] t = refl
contains-append c (x ∷ s) t = ground (arith, contains-append c s t)

rsplit_once-none : (c : ℕ) (t : Text) → contains c t ≡ false → rsplit_once c t ≡ none
unfolding contains rsplit_once
rsplit_once-none c [] h = refl
rsplit_once-none c (x ∷ t) h = ground (arith, rsplit_once-none c t)

split_once-none : (c : ℕ) (t : Text) → contains c t ≡ false → split_once c t ≡ none
unfolding contains split_once
split_once-none c [] h = refl
split_once-none c (x ∷ t) h = ground (arith, split_once-none c t)

-- A text is cut at a delimiter that does not occur behind it.
pub rsplit_once-append :
    (c : ℕ) (s t : Text) → contains c t ≡ false → rsplit_once c (s ++ c ∷ t) ≡ some (s, t)
unfolding rsplit_once
rsplit_once-append c [] t h = rw (rsplit_once-none c t h) (ground arith)
rsplit_once-append c (x ∷ s) t h = rw (rsplit_once-append c s t h)

-- A text is cut at a delimiter that does not occur before it.
pub split_once-append :
    (c : ℕ) (s t : Text) → contains c s ≡ false → split_once c (s ++ c ∷ t) ≡ some (s, t)
unfolding split_once contains
split_once-append c [] t h = ground arith
split_once-append c (x ∷ s) t h = ground (arith, split_once-append c s t)
