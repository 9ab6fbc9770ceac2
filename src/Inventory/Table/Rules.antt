-- ===== src/Inventory/Table/Rules.antt =====
-- From a statement of src/inventory.rs and its answer to a step of the table.
use homelab_mcp.Prelude.{
  ℕ, suc, Bool, true, false, ◌≡◌, ◌≢◌, ◌≤◌, refl, ap, ◌∙◌, Option, none, some, List, [], ◌∷◌,
  Result, ok, err, arith, ◌==◌, if◌then◌else◌, All, length, ◌⊎◌, inl, inr,
}
use homelab_mcp.Text.{Str}
use homelab_mcp.Inventory.{
  Machine, ValidationError, RepositoryError, validation, not_found, database,
}
use homelab_mcp.Inventory.Database.{MachineRow, SqlxError, Database, SetsRow, KeepsRows}
use homelab_mcp.Inventory.Repository.{
  Reply, returned, machine_of, machine_from_row, machine_reply, map_database_error,
  machines_from_rows, when_valid, reply_one, reply_optional, reply_page,
}
use homelab_mcp.Inventory.Repository.Keeps.{RowValid, IsSound, Call, list_call}
use homelab_mcp.Inventory.Table.{
  Machines, Outcome, machine, page, failure, machine_outcome, page_outcome, Same, Sets, Missing,
  Step, failing, unanswered, listing, given,
}
use homelab_mcp.Deploys.HostPin.Machines.{machine_from_row_valid}

abbrev pub machine_at : Option MachineRow → Option Machine
machine_at none = none
machine_at (some row) = some (machine_of row)

-- the table that a client sees in a state of the database
abbrev pub table : (db : Database) → db.State → Machines
table db s id = machine_at (db.row s id)

map_database_error-ne-not_found : (e : SqlxError) → map_database_error e ≢ not_found
unfolding map_database_error
map_database_error-ne-not_found SqlxError.other h = cc
map_database_error-ne-not_found (SqlxError.database none) h = cc
map_database_error-ne-not_found (SqlxError.database (some code)) h = ground arith

map_database_error-other : map_database_error SqlxError.other ≡ database
unfolding map_database_error
map_database_error-other = refl

-- a refused input sends nothing, and an accepted one its statement
pub when_valid-holds :
    {A S : Type 0} (P : Reply A × S → Type 0) (v : Result ValidationError (Unit {0})) (s : S)
    (run : Reply A × S)
    → ((e : ValidationError) → P (returned (err (validation e)), s))
    → (v ≡ ok tt → P run)
    → P (when_valid v s run)
when_valid-holds P (ok u) s run refused sent = sent refl
when_valid-holds P (err e) s run refused sent = refused e

module _ (db : Database) where
  pub Same-table :
      (s t : db.State) → KeepsRows (db.row s) (db.row t) → Same (table db s) (table db t)
  Same-table s t same id = ap machine_at (same id)

  pub Sets-table :
      (s t : db.State) (id : ℕ) (r : Option MachineRow)
      → SetsRow (db.row s) (db.row t) id r
      → Sets (table db s) id (machine_at r) (table db t)
  Sets-table s t id r set j = ap machine_at (set j) ∙ chosen (j == id)
    where
      chosen :
          (b : Bool)
          → machine_at (if b then r else db.row s j)
            ≡ (if b then machine_at r else machine_at (db.row s j))
      chosen true = refl
      chosen false = refl

  -- what a call gave back, and where it ends, is allowed by the table
  pub record Refines (c : Call) (s : db.State) (given : Option Outcome) (t : db.State)
      : Type 0 where
    pub outcome : Outcome
    pub gives : given ≡ some outcome
    pub step : Step (table db s) c outcome (table db t)

  -- a call that fails on the way
  pub failed_call :
      (c : Call) (s t : db.State) (e : RepositoryError)
      → (e ≡ not_found → Missing c (table db s))
      → KeepsRows (db.row s) (db.row t)
      → Refines c s (some (failure e)) t
  failed_call c s t e missing same = record {
    outcome = failure e;
    gives = refl;
    step = failing c e (table db t) missing (Same-table s t same);
  }

  pub refused_call :
      (c : Call) (s : db.State) (e : ValidationError)
      → Refines c s (some (failure (validation e))) s
  refused_call c s e = failed_call c s s (validation e) (λ h. cc) (λ j. refl)

  pub broken_call :
      (c : Call) (s t : db.State) (e : SqlxError)
      → KeepsRows (db.row s) (db.row t)
      → Refines c s (some (failure (map_database_error e))) t
  broken_call c s t e =
      failed_call c s t (map_database_error e) (λ h. absurd (map_database_error-ne-not_found e h))

  -- what a statement that failed has done: nothing, or unheard what the call would have done
  abbrev pub Lost : Call → db.State → db.State → SqlxError → Type 0
  Lost c s t e =
      KeepsRows (db.row s) (db.row t)
      ⊎ ((e ≡ SqlxError.other) × ((o : Outcome) × Step (table db s) c o (table db t)))

  pub lost_call :
      (c : Call) (s t : db.State) (e : SqlxError)
      → Lost c s t e
      → Refines c s (some (failure (map_database_error e))) t
  lost_call c s t e (inl same) = broken_call c s t e same
  lost_call c s t e (inr (unheard, (o, step))) = record {
    outcome = failure database;
    gives = ap (λ x. some (failure x)) (ap map_database_error unheard ∙ map_database_error-other);
    step = unanswered c o (table db t) step;
  }

module _ (is_ip : Str → Bool) (decode : Str → Option (List ℕ)) (db : Database) where
  -- a machine is given back for a valid row
  pub shown_machine :
      (r : MachineRow)
      → RowValid is_ip decode db r
      → machine_outcome (machine_reply (machine_from_row r)) ≡ some (machine (machine_of r))
  shown_machine r v =
      ap (λ o. machine_outcome (machine_reply o)) (machine_from_row_valid is_ip decode db r v)

  -- the row that a statement has just set
  pub set_row-RowValid :
      (s t : db.State) (id : ℕ) (r : MachineRow)
      → IsSound is_ip decode db t
      → SetsRow (db.row s) (db.row t) id (some r)
      → RowValid is_ip decode db r
  set_row-RowValid s t id r sound set = sound.all_valid id r (ground (arith, set id))

  -- a statement that gives one row or none
  pub optional_call :
      (c : Call) (s t : db.State) (answer : Result SqlxError (Option MachineRow))
      → ((r : MachineRow)
          → answer ≡ ok (some r)
          → RowValid is_ip decode db r × Step (table db s) c (machine (machine_of r)) (table db t))
      → (answer ≡ ok none → Missing c (table db s) × KeepsRows (db.row s) (db.row t))
      → ((e : SqlxError) → answer ≡ err e → Lost db c s t e)
      → Refines db c s (machine_outcome (reply_optional answer)) t
  optional_call c s t (ok (some r)) found absent broken =
      let (v, step) = found r refl in
      record { outcome = machine (machine_of r); gives = shown_machine r v; step = step }
  optional_call c s t (ok none) found absent broken =
      let (missing, same) = absent refl in failed_call db c s t not_found (λ _. missing) same
  optional_call c s t (err e) found absent broken = lost_call db c s t e (broken e refl)

  -- the insertion, which gives a row
  pub insert_call :
      (c : Call) (s t : db.State) (answer : Result SqlxError MachineRow)
      → ((r : MachineRow)
          → answer ≡ ok r
          → RowValid is_ip decode db r × Step (table db s) c (machine (machine_of r)) (table db t))
      → ((e : SqlxError) → answer ≡ err e → Lost db c s t e)
      → Refines db c s (machine_outcome (reply_one answer)) t
  insert_call c s t (ok r) made broken =
      let (v, step) = made r refl in
      record { outcome = machine (machine_of r); gives = shown_machine r v; step = step }
  insert_call c s t (err e) made broken = lost_call db c s t e (broken e refl)

  -- the rows of a page are all given back, in their order
  shown_page :
      (s : db.State) (rows : List MachineRow)
      → IsSound is_ip decode db s
      → All (λ r. db.row s r.id ≡ some r) rows
      → (ms : List Machine) × (machines_from_rows rows ≡ returned (ok ms))
        × (length ms ≡ length rows)
        × All (λ m. table db s m.id ≡ some m) ms
  unfolding machines_from_rows
  shown_page s [] sound held = ([], refl, refl, tt)
  shown_page s (r ∷ rows) sound held =
      let (ms, given, long, all_held) = shown_page s rows sound held.1 in
      (
        machine_of r ∷ ms,
        rw (machine_from_row_valid is_ip decode db r (sound.all_valid r.id r held.0), given),
        ap suc long,
        (ap machine_at held.0, all_held),
      )

  pub page_call :
      (s t : db.State) (limit : ℕ) (answer : Result SqlxError (List MachineRow))
      → IsSound is_ip decode db s
      → ((rows : List MachineRow)
          → answer ≡ ok rows
          → (length rows ≤ limit) × All (λ r. db.row s r.id ≡ some r) rows)
      → KeepsRows (db.row s) (db.row t)
      → Refines db (list_call limit) s (page_outcome (reply_page answer)) t
  page_call s t limit (ok rows) sound found same =
      let (few, held) = found rows refl in
      let (ms, given, long, all_held) = shown_page s rows sound held in
      record {
        outcome = page ms;
        gives = ap page_outcome given;
        step =
            listing limit ms (table db t) (omega (arith, few, long)) all_held
              (Same-table db s t same);
      }
  page_call s t limit (err e) sound found same = broken_call db (list_call limit) s t e same
