-- ===== src/Workspace/Terminals/Cells.antt =====
-- terminal.rs: what each operation does to a terminal that is numbered already.
use mjx_acp_agent.Prelude.{
  ℕ, ◌+◌, ◌<◌, String, Option, none, some, List, [], ◌∷◌, ◌≡◌, ◌≢◌, ◌⊎◌, inl, inr, refl, Bool, true,
  false, arith, Bool-cases, Option-cases, Result-cases, ==-ne, ==→≡, ◌==◌, string_eq, ap, ◌∙◌,
  if◌then◌else◌,
}
use mathlib.Core.Path.{subst}
use Prim.Native.Nat.{◌^◌}
use mjx_acp_agent.Prelude.Map.{Map, lookup, insert, lookup-remove, lookup-insert}
use mjx_acp_agent.Prelude.Decimal.Injective.{display_injective_behind}
use mjx_acp_agent.Workspace.Output.{push}
use mjx_acp_agent.Workspace.Terminals.{
  ExitStatus, Cell, Terminals, Launch, PtyOutcome, terminal_name, counted, started, list_terminal,
  create, terminal_reads, terminal_exits, kill, release, release_each, release_all,
}

pub data TerminalOp : Type 0 where
  creates : Launch → Option ℕ → PtyOutcome → TerminalOp
  reads : String → List ℕ → TerminalOp
  exits : String → ExitStatus → TerminalOp
  kills_one : String → TerminalOp
  releases : String → TerminalOp
  releases_all : TerminalOp

unfoldable pub terminal_step : Terminals → TerminalOp → Terminals
terminal_step ts (creates launch limit pty) = (create ts launch limit pty).0
terminal_step ts (reads id chunk) = (terminal_reads ts id chunk).0
terminal_step ts (exits id status) = (terminal_exits ts id status).0
terminal_step ts (kills_one id) = (kill ts id).0
terminal_step ts (releases id) = (release ts id).0
terminal_step ts releases_all = (release_all ts).0

unfoldable pub terminal_run : Terminals → List TerminalOp → Terminals
terminal_run ts [] = ts
terminal_run ts (op ∷ ops) = terminal_run (terminal_step ts op) ops

-- Whether an operation releases a terminal.
abbrev pub frees : String → TerminalOp → Bool
frees id (releases other) = other == id
frees id releases_all = true
frees id _ = false

-- What an operation adds to a terminal's cell.
abbrev pub cell_after : String → TerminalOp → Cell → Cell
cell_after id (reads other chunk) cell =
    if other == id then record cell { output = push cell.output chunk } else cell
cell_after id (exits other status) cell =
    if other == id then record cell { exit = some status } else cell
cell_after id _ cell = cell

abbrev pub is_some {ℓ} : {A : Type ℓ} → Option A → Bool
is_some none = false
is_some (some a) = true

abbrev pub is_listed : String → Terminals → Bool
is_listed id ts = is_some (lookup id ts.listed)

terminal_names_differ : (m n : ℕ) → m ≢ n → terminal_name m ≢ terminal_name n
terminal_names_differ m n other e = other (display_injective_behind "term-" m n e)

create-cases :
    (ts : Terminals) (launch : Launch) (limit : Option ℕ) (pty : PtyOutcome)
    → ((create ts launch limit pty).0 ≡ counted ts)
      ⊎ ((create ts launch limit pty).0 ≡ list_terminal ts limit)
unfolding create
create-cases ts launch limit pty = elim (Result-cases (started launch.command pty)) [
  | inr (e, failed) ↦ inl (rw (failed, create))
  | inl (done, ran) ↦ inr (rw (ran, create))
]

-- A value under a key that is there already.
insert_listed :
    (id j : String) (armed : Bool) (m : Map String Bool)
    → lookup id m ≡ some armed
    → is_some (lookup j (insert id false m)) ≡ is_some (lookup j m)
insert_listed id j armed m found = elim (Bool-cases (id == j)) [
  | inl same ↦
      let there : lookup j m ≡ some armed =
        subst (λ k. lookup k m ≡ some armed) (==→≡ id j same) found in
      ground (arith, lookup-insert id j false m, same, there)
  | inr other ↦ ground (arith, lookup-insert id j false m, other)
]

kill-listed :
    (ts : Terminals) (id j : String)
    → (is_listed j (kill ts id).0 ≡ is_listed j ts)
      × ((kill ts id).0.cells ≡ ts.cells)
      × ((kill ts id).0.next_id ≡ ts.next_id)
unfolding kill
kill-listed ts id j = elim (Option-cases (lookup id ts.listed)) [
  | inl unknown ↦ rw (unknown, kill) (refl, refl, refl)
  | inr (armed, found) ↦ rw (found, kill) (insert_listed id j armed ts.listed found, refl, refl)
]

release-listed :
    (ts : Terminals) (id j : String)
    → (is_listed j (release ts id).0 ≡ (if id == j then false else is_listed j ts))
      × ((release ts id).0.cells ≡ ts.cells)
      × ((release ts id).0.next_id ≡ ts.next_id)
unfolding release
release-listed ts id j =
    let (listed, cells, next) = kill-listed ts id j in
    (ground (arith, lookup-remove id j (kill ts id).0.listed, listed), cells, next)

has_key : String → Map String Bool → Bool
has_key j [] = false
has_key j ((id, armed) ∷ m) = if id == j then true else has_key j m

has_key-lookup : (j : String) (m : Map String Bool) → has_key j m ≡ is_some (lookup j m)
unfolding has_key lookup
has_key-lookup j [] = refl
has_key-lookup j ((id, armed) ∷ m) = ground (arith, has_key-lookup j m)

release_each-listed :
    (ts : Terminals) (m : Map String Bool) (j : String)
    → (is_listed j (release_each ts m).0 ≡ (if has_key j m then false else is_listed j ts))
      × ((release_each ts m).0.cells ≡ ts.cells)
      × ((release_each ts m).0.next_id ≡ ts.next_id)
unfolding release_each has_key
release_each-listed ts [] j = (refl, refl, refl)
release_each-listed ts ((id, armed) ∷ m) j =
    let (one, cells, next) = release-listed ts id j in
    let (rest, cells', next') = release_each-listed (release ts id).0 m j in
    (ground (arith, one, rest), cells' ∙ cells, next' ∙ next)

release_all-listed :
    (ts : Terminals) (j : String)
    → (is_listed j (release_all ts).0 ≡ false)
      × ((release_all ts).0.cells ≡ ts.cells)
      × ((release_all ts).0.next_id ≡ ts.next_id)
unfolding release_all
release_all-listed ts j =
    let (listed, cells, next) = release_each-listed ts ts.listed j in
    (listed ∙ ground (arith, has_key-lookup j ts.listed), cells, next)

-- A cell that is changed in its place.
updated :
    (f : Cell → Cell) (id j : String) (cells : Map String Cell) (c cell : Cell)
    → lookup id cells ≡ some c
    → lookup j cells ≡ some cell
    → lookup j (insert id (f c) cells) ≡ some (if id == j then f cell else cell)
updated f id j cells c cell found here = elim (Bool-cases (id == j)) [
  | inl same ↦
      let there : lookup j cells ≡ some c =
        subst (λ k. lookup k cells ≡ some c) (==→≡ id j same) found in
      let one : c ≡ cell = ground (arith, there, here) in
      lookup-insert id j (f c) cells ∙ rw (same, one) refl
  | inr other ↦ lookup-insert id j (f c) cells ∙ rw other here
]

unchanged :
    (f : Cell → Cell) (id j : String) (cells : Map String Cell) (cell : Cell)
    → lookup id cells ≡ none
    → lookup j cells ≡ some cell
    → lookup j cells ≡ some (if id == j then f cell else cell)
unchanged f id j cells cell unknown here = elim (Bool-cases (id == j)) [
  | inl same ↦
      let there : lookup j cells ≡ none =
        subst (λ k. lookup k cells ≡ none) (==→≡ id j same) unknown in
      cc
  | inr other ↦ rw other here
]

reads-unknown :
    (ts : Terminals) (id : String) (chunk : List ℕ)
    → lookup id ts.cells ≡ none
    → (terminal_reads ts id chunk).0 ≡ ts
unfolding terminal_reads
reads-unknown ts id chunk h = rw (h, terminal_reads)

reads-known :
    (ts : Terminals) (id : String) (chunk : List ℕ) (c : Cell)
    → lookup id ts.cells ≡ some c
    → (terminal_reads ts id chunk).0
      ≡ record ts { cells = insert id (record c { output = push c.output chunk }) ts.cells }
unfolding terminal_reads
reads-known ts id chunk c h = rw (h, terminal_reads)

exits-unknown :
    (ts : Terminals) (id : String) (status : ExitStatus)
    → lookup id ts.cells ≡ none
    → (terminal_exits ts id status).0 ≡ ts
unfolding terminal_exits
exits-unknown ts id status h = rw (h, terminal_exits)

exits-known :
    (ts : Terminals) (id : String) (status : ExitStatus) (c : Cell)
    → lookup id ts.cells ≡ some c
    → (terminal_exits ts id status).0
      ≡ record ts { cells = insert id (record c { exit = some status }) ts.cells }
unfolding terminal_exits
exits-known ts id status c h = rw (h, terminal_exits)

-- Below `terminal_step`, for a terminal `k` that is numbered already.
pub listed_kept :
    (k : ℕ) (ts : Terminals) (op : TerminalOp)
    → k < ts.next_id
    → is_listed (terminal_name k) (terminal_step ts op)
      ≡ (if frees (terminal_name k) op then false else is_listed (terminal_name k) ts)
unfolding terminal_step terminal_reads terminal_exits list_terminal
listed_kept k ts (creates launch limit pty) past = elim (create-cases ts launch limit pty) [
  | inl same ↦ ap (is_listed (terminal_name k)) same
  | inr added ↦
      ap (is_listed (terminal_name k)) added
      ∙ ap is_some (lookup-insert (terminal_name ts.next_id) (terminal_name k) true ts.listed)
      ∙ rw
          (==-ne (terminal_name ts.next_id) (terminal_name k)
            (terminal_names_differ ts.next_id k (omega arith)))
          refl
]
listed_kept k ts (reads id chunk) past = ground arith
listed_kept k ts (exits id status) past = ground arith
listed_kept k ts (kills_one id) past = (kill-listed ts id (terminal_name k)).0
listed_kept k ts (releases id) past = (release-listed ts id (terminal_name k)).0
listed_kept k ts releases_all past = (release_all-listed ts (terminal_name k)).0

pub cell_kept :
    (k : ℕ) (ts : Terminals) (op : TerminalOp) (cell : Cell)
    → k < ts.next_id
    → lookup (terminal_name k) ts.cells ≡ some cell
    → lookup (terminal_name k) (terminal_step ts op).cells
      ≡ some (cell_after (terminal_name k) op cell)
unfolding terminal_step terminal_reads terminal_exits list_terminal
cell_kept k ts (creates launch limit pty) cell past here = elim (create-cases ts launch limit pty) [
  | inl same ↦ ap (λ t. lookup (terminal_name k) t.cells) same ∙ here
  | inr added ↦
      ap (λ t. lookup (terminal_name k) t.cells) added
      ∙ lookup-insert (terminal_name ts.next_id) (terminal_name k) _ ts.cells
      ∙ rw
          (==-ne (terminal_name ts.next_id) (terminal_name k)
            (terminal_names_differ ts.next_id k (omega arith)))
          here
]
cell_kept k ts (reads id chunk) cell past here = elim (Option-cases (lookup id ts.cells)) [
  | inl unknown ↦
      ap (λ t. lookup (terminal_name k) t.cells) (reads-unknown ts id chunk unknown)
      ∙ unchanged (λ c. record c { output = push c.output chunk }) id (terminal_name k) ts.cells
          cell unknown here
  | inr (c, found) ↦
      ap (λ t. lookup (terminal_name k) t.cells) (reads-known ts id chunk c found)
      ∙ updated (λ c. record c { output = push c.output chunk }) id (terminal_name k) ts.cells c
          cell found here
]
cell_kept k ts (exits id status) cell past here = elim (Option-cases (lookup id ts.cells)) [
  | inl unknown ↦
      ap (λ t. lookup (terminal_name k) t.cells) (exits-unknown ts id status unknown)
      ∙ unchanged (λ c. record c { exit = some status }) id (terminal_name k) ts.cells cell unknown
          here
  | inr (c, found) ↦
      ap (λ t. lookup (terminal_name k) t.cells) (exits-known ts id status c found)
      ∙ updated (λ c. record c { exit = some status }) id (terminal_name k) ts.cells c cell found
          here
]
cell_kept k ts (kills_one id) cell past here =
    ap (lookup (terminal_name k)) (kill-listed ts id (terminal_name k)).1 ∙ here
cell_kept k ts (releases id) cell past here =
    ap (lookup (terminal_name k)) (release-listed ts id (terminal_name k)).1 ∙ here
cell_kept k ts releases_all cell past here =
    ap (lookup (terminal_name k)) (release_all-listed ts (terminal_name k)).1 ∙ here

pub next_kept :
    (ts : Terminals) (op : TerminalOp)
    → ts.next_id + 1 < 2 ^ 64
    → ((terminal_step ts op).next_id ≡ ts.next_id)
      ⊎ ((terminal_step ts op).next_id ≡ ts.next_id + 1)
unfolding terminal_step terminal_reads terminal_exits list_terminal
next_kept ts (creates launch limit pty) room = elim (create-cases ts launch limit pty) [
  | inl same ↦ inr (ap (λ t. t.next_id) same ∙ omega arith)
  | inr added ↦ inr (ap (λ t. t.next_id) added ∙ omega arith)
]
next_kept ts (reads id chunk) room = inl (ground arith)
next_kept ts (exits id status) room = inl (ground arith)
next_kept ts (kills_one id) room = inl (kill-listed ts id "").2
next_kept ts (releases id) room = inl (release-listed ts id "").2
next_kept ts releases_all room = inl (release_all-listed ts "").2
