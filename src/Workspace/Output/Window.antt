-- ===== src/Workspace/Output/Window.antt =====
-- What a terminal still shows of all that it was sent.
use mjx_acp_agent.Workspace.Output.{new, push, pop_excess, Output}
use mathlib.Core.List.{append-nil, append_assoc}
use mjx_acp_agent.Prelude.{
  sym, inr, inl, Bool-cases, ◌∙◌, ap, ltb, ◌||◌, ◌+◌, arith, ◌-◌, length, ◌≡◌, ◌≤◌, Bool, ℕ, List,
  [], ◌∷◌, ◌++◌, length-append, refl, true, zero, suc,
}

unfoldable pub drop {ℓ} : {A : Type ℓ} → ℕ → List A → List A
drop zero xs = xs
drop (suc n) [] = []
drop (suc n) (x ∷ xs) = drop n xs

drop-nil {ℓ} : {A : Type ℓ} (n : ℕ) → drop {A = A} n [] ≡ []
unfolding drop
drop-nil zero = refl
drop-nil (suc n) = refl

length-drop {ℓ} : {A : Type ℓ} (n : ℕ) (xs : List A) → length (drop n xs) ≡ length xs - n
unfolding drop
length-drop zero xs = omega arith
length-drop (suc n) [] = omega arith
length-drop (suc n) (x ∷ xs) = omega (arith, length-drop n xs)

drop-drop {ℓ} : {A : Type ℓ} (m n k : ℕ) (xs : List A) → k ≡ n + m → drop m (drop n xs) ≡ drop k xs
unfolding drop
drop-drop m zero k xs e = ap (λ i. drop i xs) (omega arith)
drop-drop zero (suc n) zero [] e = refl
drop-drop (suc m) (suc n) zero [] e = refl
drop-drop zero (suc n) (suc k) [] e = refl
drop-drop (suc m) (suc n) (suc k) [] e = refl
drop-drop m (suc n) zero (x ∷ xs) e = absurd (omega arith)
drop-drop m (suc n) (suc k) (x ∷ xs) e = drop-drop m n k xs (omega arith)

drop-append {ℓ} :
    {A : Type ℓ} (n : ℕ) (xs ys : List A) → n ≤ length xs → drop n (xs ++ ys) ≡ drop n xs ++ ys
unfolding drop
drop-append zero xs ys h = refl
drop-append (suc n) [] ys h = absurd (omega arith)
drop-append (suc n) (x ∷ xs) ys h = drop-append n xs ys (omega arith)

pub pop_excess-drop :
    (limit : ℕ) (xs : List ℕ) (tr : Bool)
    → pop_excess limit xs tr ≡ (drop (length xs - limit) xs, tr || ltb limit (length xs))
unfolding pop_excess drop
pop_excess-drop limit [] tr = rw (drop-nil (0 - limit)) (ground arith)
pop_excess-drop limit (x ∷ xs) tr = elim (Bool-cases (ltb limit (suc (length xs)))) [
  | inl more ↦
      let later : suc (length xs) - limit ≡ suc (length xs - limit) = ground (arith, more) in
      rw (more, later, pop_excess-drop limit xs true) (ground arith)
  | inr fits ↦
      let none : suc (length xs) - limit ≡ 0 = ground (arith, fits) in
      rw (fits, none) (ground arith)
]

unfoldable pub push_all : Output → List (List ℕ) → Output
push_all o [] = o
push_all o (c ∷ cs) = push_all (push o c) cs

abbrev pub sent : List (List ℕ) → List ℕ
sent [] = []
sent (c ∷ cs) = c ++ sent cs

-- `o` holds the newest bytes of all the bytes `xs`.
pub record Shows (limit : ℕ) (xs : List ℕ) (o : Output) : Type 0 where
  pub budget : o.limit ≡ limit
  pub newest : o.buffer ≡ drop (length xs - limit) xs
  pub lost : o.truncated ≡ ltb limit (length xs)

push-Shows :
    (limit : ℕ) (xs c : List ℕ) (o : Output) → Shows limit xs o → Shows limit (xs ++ c) (push o c)
unfolding push
push-Shows limit xs c o v =
    let kept : length (drop (length xs - limit) xs ++ c)
        ≡ length xs - (length xs - limit) + length c =
      length-append (drop (length xs - limit) xs) c
      ∙ ap (λ n. n + length c) (length-drop (length xs - limit) xs) in
    let all = length-append xs c in
    rw
      (
        v.budget,
        v.newest,
        v.lost,
        pop_excess-drop limit (drop (length xs - limit) xs ++ c) (ltb limit (length xs)),
      )
      (record {
        budget = refl;
        newest =
            ap (λ ys. drop (length (drop (length xs - limit) xs ++ c) - limit) ys)
              (sym (drop-append (length xs - limit) xs c (omega arith)))
            ∙ drop-drop _ (length xs - limit) (length (xs ++ c) - limit) (xs ++ c)
                (omega (arith, kept, all));
        lost = ground (arith, kept, all);
      })

push_all-Shows :
    (limit : ℕ) (xs : List ℕ) (cs : List (List ℕ)) (o : Output)
    → Shows limit xs o
    → Shows limit (xs ++ sent cs) (push_all o cs)
unfolding push_all
push_all-Shows limit xs [] o v = rw (append-nil xs) v
push_all-Shows limit xs (c ∷ cs) o v =
    rw (sym (append_assoc xs c (sent cs)))
      (push_all-Shows limit (xs ++ c) cs (push o c) (push-Shows limit xs c o v))

-- However the output of a terminal is cut into reads, what it retains is the newest `limit` bytes of all
-- that it was sent, and it is marked as truncated if and only if there were more than that.
pub terminal_window :
    (limit : ℕ) (cs : List (List ℕ))
    → let o = push_all (new limit) cs in
      (o.buffer ≡ drop (length (sent cs) - limit) (sent cs))
      × (length o.buffer ≤ limit)
      × (o.truncated ≡ ltb limit (length (sent cs)))
terminal_window limit cs =
    let v =
      push_all-Shows limit [] cs (new limit)
        (record { budget = refl; newest = sym (drop-nil (0 - limit)); lost = ground arith }) in
    (
      v.newest,
      rw v.newest (omega (arith, length-drop (length (sent cs) - limit) (sent cs))),
      v.lost,
    )
