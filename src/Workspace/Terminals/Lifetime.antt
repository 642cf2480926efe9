-- ===== src/Workspace/Terminals/Lifetime.antt =====
-- A terminal from its creation to its release, whatever happens to the others.
use mjx_acp_agent.Prelude.{
  ℕ, suc, ◌+◌, ◌-◌, ◌<◌, ◌≤◌, String, Option, none, some, List, [], ◌∷◌, ◌≡◌, inl, inr, refl, Bool,
  true, false, ltb, Result, ok, err, arith, Bool-cases, Result-cases, ==-refl, ◌==◌, string_eq, ap,
  ◌∙◌, sym, length, if◌then◌else◌, any, ◌||◌,
}
use mathlib.Core.Path.{subst}
use Prim.Native.Nat.{◌^◌}
use mjx_acp_agent.Prelude.Map.{lookup, lookup-insert}
use mjx_acp_agent.Workspace.Disk.{WorkspaceError, no_such_terminal}
use mjx_acp_agent.Workspace.Output
use mjx_acp_agent.Workspace.Output.{push}
use mjx_acp_agent.Workspace.Output.Window.{push_all, sent, drop, terminal_window}
use mjx_acp_agent.Workspace.Terminals.{
  ExitStatus, Cell, Terminals, Launch, PtyOutcome, terminal_name, started, list_terminal, create,
  budget, no_terminals, get, output,
}
use mjx_acp_agent.Workspace.Terminals.Cells.{
  TerminalOp, creates, reads, exits, kills_one, releases, releases_all, terminal_step, terminal_run,
  frees, cell_after, is_listed, is_some, listed_kept, cell_kept, next_kept,
}

-- What was read of a terminal, in order, and how it ended, if it did.
unfoldable pub chunks_of : String → List TerminalOp → List (List ℕ)
chunks_of id [] = []
chunks_of id (reads other chunk ∷ ops) =
    if other == id then chunk ∷ chunks_of id ops else chunks_of id ops
chunks_of id (op ∷ ops) = chunks_of id ops

unfoldable pub exit_of : String → Option ExitStatus → List TerminalOp → Option ExitStatus
exit_of id now [] = now
exit_of id now (exits other status ∷ ops) =
    exit_of id (if other == id then some status else now) ops
exit_of id now (op ∷ ops) = exit_of id now ops

abbrev cell_run : String → List TerminalOp → Cell → Cell
cell_run id [] cell = cell
cell_run id (op ∷ ops) cell = cell_run id ops (cell_after id op cell)

cell_run_lem :
    (id : String) (ops : List TerminalOp) (cell : Cell)
    → cell_run id ops cell
      ≡ record { output = push_all cell.output (chunks_of id ops); exit = exit_of id cell.exit ops }
unfolding chunks_of exit_of push_all
cell_run_lem id [] cell = refl
cell_run_lem id (reads other chunk ∷ ops) cell = elim (Bool-cases (other == id)) [
  | inl own ↦ rw own (cell_run_lem id ops (record cell { output = push cell.output chunk }))
  | inr foreign ↦ rw foreign (cell_run_lem id ops cell)
]
cell_run_lem id (exits other status ∷ ops) cell = elim (Bool-cases (other == id)) [
  | inl own ↦ rw own (cell_run_lem id ops (record cell { exit = some status }))
  | inr foreign ↦ rw foreign (cell_run_lem id ops cell)
]
cell_run_lem id (creates a b c ∷ ops) cell = cell_run_lem id ops cell
cell_run_lem id (kills_one a ∷ ops) cell = cell_run_lem id ops cell
cell_run_lem id (releases a ∷ ops) cell = cell_run_lem id ops cell
cell_run_lem id (releases_all ∷ ops) cell = cell_run_lem id ops cell

-- `room` more terminals can be numbered.
HasRoom : ℕ → Terminals → Type 0
HasRoom room ts = ts.next_id + room < 2 ^ 64

step-HasRoom :
    (room : ℕ) (ts : Terminals) (op : TerminalOp)
    → HasRoom (suc room) ts
    → HasRoom room (terminal_step ts op) × (ts.next_id ≤ (terminal_step ts op).next_id)
unfolding HasRoom
step-HasRoom room ts op h = elim (next_kept ts op (omega (arith, h))) [
  | inl same ↦ (omega (arith, h, same), omega (arith, same))
  | inr one ↦ (omega (arith, h, one), omega (arith, one))
]

run-HasRoom :
    (ops : List TerminalOp) (room : ℕ) (ts : Terminals)
    → HasRoom (length ops + room) ts
    → HasRoom room (terminal_run ts ops)
unfolding HasRoom terminal_run
run-HasRoom [] room ts h = omega (arith, h)
run-HasRoom (op ∷ ops) room ts h =
    run-HasRoom ops room (terminal_step ts op)
      (step-HasRoom (length ops + room) ts op (omega (arith, h))).0

either_frees :
    (a b c : Bool) → (if b then false else (if a then false else c)) ≡ (if a || b then false else c)
either_frees true true c = refl
either_frees true false c = refl
either_frees false true c = refl
either_frees false false c = refl

-- A listed terminal with its cell, after any operations.
record Holds (id : String) (ops : List TerminalOp) (cell : Cell) (listed : Bool) (ts : Terminals)
    : Type 0 where
  cell_now : lookup id ts.cells ≡ some (cell_run id ops cell)
  listed_now : is_listed id ts ≡ (if any (frees id) ops then false else listed)

run-Holds :
    (k : ℕ) (ts : Terminals) (ops : List TerminalOp) (cell : Cell)
    → HasRoom (length ops) ts
    → k < ts.next_id
    → lookup (terminal_name k) ts.cells ≡ some cell
    → Holds (terminal_name k) ops cell (is_listed (terminal_name k) ts) (terminal_run ts ops)
unfolding terminal_run
run-Holds k ts [] cell room past here = record { cell_now = here; listed_now = refl }
run-Holds k ts (op ∷ ops) cell room past here =
    let (room', later) = step-HasRoom (length ops) ts op room in
    let rest =
      run-Holds k (terminal_step ts op) ops (cell_after (terminal_name k) op cell) room'
        (omega (arith, past, later)) (cell_kept k ts op cell past here) in
    record {
      cell_now = rest.cell_now;
      listed_now =
          rest.listed_now
          ∙ ap (λ b. if any (frees (terminal_name k)) ops then false else b)
              (listed_kept k ts op past)
          ∙ either_frees (frees (terminal_name k) op) (any (frees (terminal_name k)) ops)
              (is_listed (terminal_name k) ts);
    }

create-listed :
    (ts : Terminals) (launch : Launch) (limit : Option ℕ) (pty : PtyOutcome) (id : String)
    → (create ts launch limit pty).1 ≡ ok id
    → ((create ts launch limit pty).0 ≡ list_terminal ts limit) × (id ≡ terminal_name ts.next_id)
unfolding create
create-listed ts launch limit pty id c = elim (Result-cases (started launch.command pty)) [
  | inr (e, failed) ↦ ground (arith, failed, c)
  | inl (done, ran) ↦ ground (arith, ran, c)
]

is_some-cases {ℓ} : {A : Type ℓ} (o : Option A) → is_some o ≡ true → (a : A) × (o ≡ some a)
is_some-cases none h = cc
is_some-cases (some a) h = (a, refl)

is_some-none {ℓ} : {A : Type ℓ} (o : Option A) → is_some o ≡ false → o ≡ none
is_some-none none h = refl
is_some-none (some a) h = cc

-- An answer, unless the terminal was released.
abbrev pub unless_freed :
    Bool
    → String
    → String × Bool × Option ExitStatus
    → Result (String × Bool × Option ExitStatus) WorkspaceError
unless_freed freed id shown = if freed then err (no_such_terminal id) else ok shown

-- What `output` says of a terminal, by its cell and whether it is listed.
output_of :
    (from_utf8_lossy : List ℕ → String) (ts : Terminals) (id : String) (cell : Cell) (freed : Bool)
    → lookup id ts.cells ≡ some cell
    → is_listed id ts ≡ (if freed then false else true)
    → output from_utf8_lossy ts id
      ≡ unless_freed freed id (from_utf8_lossy cell.output.buffer, cell.output.truncated, cell.exit)
unfolding output get
output_of from_utf8_lossy ts id cell true here listed =
    let unknown = is_some-none (lookup id ts.listed) listed in ground (arith, unknown)
output_of from_utf8_lossy ts id cell false here listed =
    let (armed, known) = is_some-cases (lookup id ts.listed) listed in ground (arith, known, here)

new_cell : Option ℕ → Cell
new_cell limit = record { output = Output.new (budget limit); exit = none }

listed_new :
    (ts : Terminals) (limit : Option ℕ)
    → (lookup (terminal_name ts.next_id) (list_terminal ts limit).cells ≡ some (new_cell limit))
      × (is_listed (terminal_name ts.next_id) (list_terminal ts limit) ≡ true)
unfolding list_terminal new_cell
listed_new ts limit = (
  lookup-insert (terminal_name ts.next_id) (terminal_name ts.next_id) _ ts.cells
      ∙ rw (==-refl (terminal_name ts.next_id)) refl,
  ap is_some (lookup-insert (terminal_name ts.next_id) (terminal_name ts.next_id) true ts.listed)
      ∙ rw (==-refl (terminal_name ts.next_id)) refl,
)

numbered_new :
    (ts : Terminals) (limit : Option ℕ) (room : ℕ)
    → HasRoom (suc room) ts
    → HasRoom room (list_terminal ts limit) × (ts.next_id < (list_terminal ts limit).next_id)
unfolding list_terminal HasRoom
numbered_new ts limit room h = (omega (arith, h), omega (arith, h))

-- The newest bytes of what was read, within the budget.
window :
    (from_utf8_lossy : List ℕ → String) (id : String) (limit : Option ℕ) (after : List TerminalOp)
    (freed : Bool)
    → let cell = cell_run id after (new_cell limit) in
      let bytes = sent (chunks_of id after) in
      unless_freed freed id (from_utf8_lossy cell.output.buffer, cell.output.truncated, cell.exit)
      ≡ unless_freed freed id (
        from_utf8_lossy (drop (length bytes - budget limit) bytes),
        ltb (budget limit) (length bytes),
        exit_of id none after,
      )
unfolding new_cell
window from_utf8_lossy id limit after true = refl
window from_utf8_lossy id limit after false =
    let (buffer, _, truncated) = terminal_window (budget limit) (chunks_of id after) in
    let held = cell_run_lem id after (new_cell limit) in ground (arith, held, buffer, truncated)

-- The output of a terminal that was created, at any time until it or all are released, is the newest bytes of what was
-- read of it since, within its budget, said to be truncated exactly if more was read, with the exit that was last
-- reported; from its release on there is no such terminal. This holds whatever happens to other terminals before and
-- after, below 2 ^ 64 terminals.
pub terminal_lifetime :
    (from_utf8_lossy : List ℕ → String) (before after : List TerminalOp) (launch : Launch)
    (limit : Option ℕ) (pty : PtyOutcome) (id : String)
    → length before + length after + 2 < 2 ^ 64
    → (create (terminal_run no_terminals before) launch limit pty).1 ≡ ok id
    → let bytes = sent (chunks_of id after) in
      output from_utf8_lossy
        (terminal_run (create (terminal_run no_terminals before) launch limit pty).0 after)
        id
      ≡ unless_freed (any (frees id) after) id (
        from_utf8_lossy (drop (length bytes - budget limit) bytes),
        ltb (budget limit) (length bytes),
        exit_of id none after,
      )
unfolding HasRoom
terminal_lifetime from_utf8_lossy before after launch limit pty id room c =
    let ts = terminal_run no_terminals before in
    let enough : HasRoom (suc (length after)) ts =
      run-HasRoom before (suc (length after)) no_terminals (omega (arith, room)) in
    let (made, named) = create-listed ts launch limit pty id c in
    let (room', past) = numbered_new ts limit (length after) enough in
    let (here, listed) = listed_new ts limit in
    let holds =
      run-Holds ts.next_id (list_terminal ts limit) after (new_cell limit) room' past here in
    let holds_id : Holds id after (new_cell limit) true
        (terminal_run (list_terminal ts limit) after) =
      subst (λ i. Holds i after (new_cell limit) true (terminal_run (list_terminal ts limit) after))
        (sym named)
        (subst
          (λ b.
            Holds (terminal_name ts.next_id) after (new_cell limit) b
              (terminal_run (list_terminal ts limit) after))
          listed holds) in
    ap (λ t. output from_utf8_lossy (terminal_run t after) id) made
    ∙ output_of from_utf8_lossy (terminal_run (list_terminal ts limit) after) id _
        (any (frees id) after) holds_id.cell_now holds_id.listed_now
    ∙ window from_utf8_lossy id limit after (any (frees id) after)
