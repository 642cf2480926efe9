-- ===== src/Mcp/Waiting.antt =====
-- Who waits for an MCP server, and who has been answered, counted.
use mathlib.Core.Path.{subst}
use mjx_acp_agent.Prelude.{
  ℕ, ◌+◌, Option, none, some, List, [], ◌∷◌, ◌++◌, ◌≡◌, inl, inr, refl, Bool, true, false, arith,
  nat_beq, Bool-cases, ◌==◌, ==-refl, ==→≡,
}
use mjx_acp_agent.Prelude.Map.{Map, lookup, insert, remove, lookup-remove}
use mjx_acp_agent.Core.Frame.{RequestId, id_eq}
use mjx_acp_agent.Mcp.{McpServer, Effect, replies, Event, calls, dropped, fail_each}

abbrev pub one_if : Bool → ℕ
one_if true = 1
one_if false = 0

-- How often a caller waits, has been answered, and has called.
unfoldable pub waiting : ℕ → Map RequestId ℕ → ℕ
waiting c [] = 0
waiting c ((i, d) ∷ m) = one_if (nat_beq d c) + waiting c m

abbrev pub answers_it : ℕ → Effect → ℕ
answers_it c (replies d r) = one_if (nat_beq d c)
answers_it c _ = 0

unfoldable pub answered_times : ℕ → List Effect → ℕ
answered_times c [] = 0
answered_times c (f ∷ fs) = answers_it c f + answered_times c fs

abbrev pub calls_it : ℕ → Event → ℕ
calls_it c (calls d method params) = one_if (nat_beq d c)
calls_it c _ = 0

unfoldable pub called_times : ℕ → List Event → ℕ
called_times c [] = 0
called_times c (e ∷ es) = calls_it c e + called_times c es

pub answered_times-append :
    (c : ℕ) (fs gs : List Effect)
    → answered_times c (fs ++ gs) ≡ answered_times c fs + answered_times c gs
unfolding answered_times
answered_times-append c [] gs = omega arith
answered_times-append c (f ∷ fs) gs = omega (arith, answered_times-append c fs gs)

-- No key twice.
abbrev pub Unique : Map RequestId ℕ → Type 0
Unique [] = Unit
Unique ((i, d) ∷ m) = (lookup i m ≡ none) × Unique m

pub remove-Unique : (i : RequestId) (m : Map RequestId ℕ) → Unique m → Unique (remove i m)
unfolding remove
remove-Unique i [] u = tt
remove-Unique i ((j, d) ∷ m) (fresh, u) = elim (Bool-cases (j == i)) [
  | inl hit ↦ rw hit (remove-Unique i m u)
  | inr miss ↦ rw miss (ground (arith, lookup-remove i j m), remove-Unique i m u)
]

pub insert-Unique : (i : RequestId) (c : ℕ) (m : Map RequestId ℕ) → Unique m → Unique (insert i c m)
unfolding insert
insert-Unique i c m u = (ground (arith, lookup-remove i i m, ==-refl i), remove-Unique i m u)

unfoldable pub taken : ℕ → Option ℕ → ℕ
taken c none = 0
taken c (some d) = one_if (nat_beq d c)

remove_absent : (i : RequestId) (m : Map RequestId ℕ) → lookup i m ≡ none → remove i m ≡ m
unfolding lookup remove
remove_absent i [] h = refl
remove_absent i ((j, d) ∷ m) h = elim (Bool-cases (j == i)) [
  | inl hit ↦ ground (arith, hit)
  | inr miss ↦ ground (arith, miss, remove_absent i m)
]

pub waiting-remove :
    (c : ℕ) (i : RequestId) (m : Map RequestId ℕ)
    → Unique m
    → waiting c (remove i m) + taken c (lookup i m) ≡ waiting c m
unfolding waiting remove lookup taken
waiting-remove c i [] u = refl
waiting-remove c i ((j, d) ∷ m) (fresh, u) = elim (Bool-cases (j == i)) [
  | inl hit ↦
      let absent : lookup i m ≡ none = subst (λ k. lookup k m ≡ none) (==→≡ j i hit) fresh in
      rw (hit, remove_absent i m absent) (omega arith)
  | inr miss ↦ rw miss (omega (arith, waiting-remove c i m u))
]

pub fail_each-answers :
    (c : ℕ) (s : McpServer) (m : Map RequestId ℕ) → answered_times c (fail_each s m) ≡ waiting c m
unfolding answered_times fail_each waiting
fail_each-answers c s [] = refl
fail_each-answers c s ((i, d) ∷ m) = omega (arith, fail_each-answers c s m)

pub waiting-insert :
    (c : ℕ) (i : RequestId) (d : ℕ) (m : Map RequestId ℕ)
    → Unique m
    → waiting c (insert i d m) + taken c (lookup i m) ≡ waiting c m + one_if (nat_beq d c)
unfolding waiting insert
waiting-insert c i d m u = omega (arith, waiting-remove c i m u)

pub dropped-answers :
    (c : ℕ) (s : McpServer) (o : Option ℕ) → answered_times c (dropped s o) ≡ taken c o
unfolding answered_times dropped taken
dropped-answers c s none = refl
dropped-answers c s (some d) = omega arith
