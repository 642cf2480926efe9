-- ===== src/Server/IdBridge/Delivery.antt =====
-- Which browser, if any, an agent's answer is delivered to.
use mjx_acp_agent.Prelude.{
  ℕ, suc, ◌+◌, ◌≤◌, ◌<◌, pos, i64_max, none, some, List, [], ◌∷◌, ◌≡◌, ◌≢◌, arith, length,
}
use mjx_acp_agent.Prelude.Map.{lookup, lookup-insert, lookup-remove, lookup-nil}
use mjx_acp_agent.Core.Frame.{RequestId, number, id_eq}
use mjx_acp_agent.Server.IdBridge.{IdBridge, reattach, for_agent, for_browser}

pub data Op : Type 0 where
  attaches : Op
  asks : RequestId → Op
  answers : RequestId → Op

pub step : IdBridge → Op → IdBridge
step b attaches = reattach b
step b (asks i) = (for_agent b i).0
step b (answers i) = (for_browser b i).0

pub run : IdBridge → List Op → IdBridge
run b [] = b
run b (o ∷ os) = run (step b o) os

-- `n` requests have been numbered so far, from one upwards.
pub record Numbered (n : ℕ) (b : IdBridge) : Type 0 where
  pub last : b.next ≡ pos n
  pub fresh : (j : ℕ) → n < j → lookup (number (pos j)) b.outstanding ≡ none

abbrev pub numbered_after : ℕ → Op → ℕ
numbered_after n attaches = n
numbered_after n (asks i) = suc n
numbered_after n (answers i) = n

reattach-Numbered : {n : ℕ} {b : IdBridge} → Numbered n b → Numbered n (reattach b)
unfolding reattach
reattach-Numbered v = record { last = v.last; fresh = λ j h. lookup-nil (number (pos j)) }

pub for_agent-Numbered :
    {n : ℕ} {b : IdBridge} (i : RequestId)
    → n < i64_max
    → Numbered n b
    → Numbered (suc n) (for_agent b i).0
unfolding for_agent
for_agent-Numbered {n} {b} i room v = record {
  last = ground (arith, v.last);
  fresh = λ j h. ground (
    arith,
    v.last,
    v.fresh j,
    lookup-insert (number (pos (suc n))) (number (pos j)) i b.outstanding,
  );
}

for_browser-Numbered :
    {n : ℕ} {b : IdBridge} (i : RequestId) → Numbered n b → Numbered n (for_browser b i).0
unfolding for_browser
for_browser-Numbered {n} {b} i v = record {
  last = v.last;
  fresh = λ j h. ground (arith, v.fresh j h, lookup-remove i (number (pos j)) b.outstanding);
}

step-Numbered :
    {n : ℕ} {b : IdBridge} (o : Op)
    → n < i64_max
    → Numbered n b
    → Numbered (numbered_after n o) (step b o)
unfolding step
step-Numbered attaches h v = reattach-Numbered v
step-Numbered (asks i) h v = for_agent-Numbered i h v
step-Numbered (answers i) h v = for_browser-Numbered i v

for_agent-id :
    {n : ℕ} {b : IdBridge} (i : RequestId)
    → n < i64_max
    → Numbered n b
    → (for_agent b i).1 ≡ number (pos (suc n))
unfolding for_agent
for_agent-id {n} {b} i room v = ground (arith, v.last)

-- A number that was given out before and is not outstanding stays so: it is never given out again.
step_stale :
    {n : ℕ} {b : IdBridge} (k : ℕ) (o : Op)
    → n < i64_max
    → Numbered n b
    → k ≤ n
    → lookup (number (pos k)) b.outstanding ≡ none
    → lookup (number (pos k)) (step b o).outstanding ≡ none
unfolding step reattach for_agent for_browser
step_stale k attaches h v le e = lookup-nil (number (pos k))
step_stale {n} {b} k (asks i) h v le e =
    ground (arith, v.last, lookup-insert (number (pos (suc n))) (number (pos k)) i b.outstanding)
step_stale {n} {b} k (answers i) h v le e =
    ground (arith, lookup-remove i (number (pos k)) b.outstanding)

numbered_after-le : (n : ℕ) (o : Op) → (n ≤ numbered_after n o) × (numbered_after n o ≤ n + 1)
numbered_after-le n attaches = omega arith
numbered_after-le n (asks i) = omega arith
numbered_after-le n (answers i) = omega arith

run_stale :
    {n : ℕ} {b : IdBridge} (k : ℕ) (os : List Op)
    → n + length os < i64_max
    → Numbered n b
    → k ≤ n
    → lookup (number (pos k)) b.outstanding ≡ none
    → lookup (number (pos k)) (run b os).outstanding ≡ none
unfolding run
run_stale k [] h v le e = e
run_stale {n} {b} k (o ∷ os) h v le e =
    run_stale {n = numbered_after n o} {b = step b o} k os (omega (arith, numbered_after-le n o))
      (step-Numbered o (omega arith) v) (omega (arith, numbered_after-le n o))
      (step_stale k o (omega arith) v le e)

-- After a browser is replaced, no answer to any request of an earlier browser is delivered, however many
-- requests and answers follow, as long as fewer than 2 ^ 63 - 1 requests are numbered in all.
pub stale_answer_dropped :
    (n : ℕ) (b : IdBridge) (k : ℕ) (os : List Op)
    → Numbered n b
    → k ≤ n
    → n + length os < i64_max
    → (for_browser (run (reattach b) os) (number (pos k))).1 ≡ none
unfolding for_browser reattach
stale_answer_dropped n b k os v le h =
    run_stale {n = n} {b = reattach b} k os h (reattach-Numbered v) le (lookup-nil (number (pos k)))

-- Nobody is replaced and request `k` is not answered.
abbrev pub Waits : ℕ → List Op → Type 0
Waits k [] = Unit
Waits k (attaches ∷ os) = ⊥
Waits k (asks i ∷ os) = Waits k os
Waits k (answers i ∷ os) = (i ≢ number (pos k)) × Waits k os

run_waiting :
    {n : ℕ} {b : IdBridge} (k : ℕ) (browser : RequestId) (os : List Op)
    → n + length os < i64_max
    → Numbered n b
    → k ≤ n
    → Waits k os
    → lookup (number (pos k)) b.outstanding ≡ some browser
    → lookup (number (pos k)) (run b os).outstanding ≡ some browser
unfolding run step
run_waiting k browser [] h v le w e = e
run_waiting k browser (attaches ∷ os) h v le w e = absurd w
run_waiting {n} {b} k browser (asks i ∷ os) h v le w e =
    run_waiting {n = suc n} {b = (for_agent b i).0} k browser os (omega arith)
      (for_agent-Numbered i (omega arith) v) (omega arith) w
      (unfold for_agent in
        ground
          (arith, v.last, lookup-insert (number (pos (suc n))) (number (pos k)) i b.outstanding))
run_waiting {n} {b} k browser (answers i ∷ os) h v le w e =
    run_waiting {n = n} {b = (for_browser b i).0} k browser os (omega arith)
      (for_browser-Numbered i v) le w.1
      (unfold for_browser in
        ground (
          arith,
          w.0,
          id_eq.eq_sound i (number (pos k)),
          lookup-remove i (number (pos k)) b.outstanding,
        ))

-- While a browser stays attached, the answer to its request is delivered under the id that it used,
-- whatever is asked and answered in between, and delivered once.
pub answer_delivered_once :
    (n : ℕ) (b : IdBridge) (browser : RequestId) (os : List Op)
    → Numbered n b
    → Waits (suc n) os
    → suc n + length os < i64_max
    → let asked = for_agent b browser in
      let answered = for_browser (run asked.0 os) asked.1 in
      (answered.1 ≡ some browser) × ((for_browser answered.0 asked.1).1 ≡ none)
unfolding for_browser
answer_delivered_once n b browser os v w h = rw (for_agent-id browser (omega arith) v) (
  run_waiting (suc n) browser os h (for_agent-Numbered browser (omega arith) v) (omega arith) w (
      unfold for_agent in
      ground (
        arith,
        v.last,
        lookup-insert (number (pos (suc n))) (number (pos (suc n))) browser b.outstanding,
      )),
  ground (
    arith,
    lookup-remove (number (pos (suc n))) (number (pos (suc n)))
        (run (for_agent b browser).0 os).outstanding,
  ),
)
