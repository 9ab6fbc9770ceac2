-- ===== src/Inventory/Table.antt =====
-- A table of machines by their ids, as the clients of `MachineRepository` (src/inventory.rs) see it,
-- with the steps that a call may take.
pub mod Rules
pub mod Writes
pub mod Calls
pub mod Refinement
use homelab_mcp.Prelude.{
  ℕ, Bool, ◌≡◌, ◌≤◌, Option, none, some, List, [], ◌∷◌, All, length, ◌==◌, if◌then◌else◌, Result,
  ok, err,
}
use homelab_mcp.Text.{Str}
use homelab_mcp.Inventory.{
  Machine, CreateMachine, UpdateMachine, RepositoryError, not_found, database,
}
use homelab_mcp.Inventory.Database.{Database}
use homelab_mcp.Inventory.Repository.{
  Reply, returned, panicked, create, get, list, update, replace_host_key, clear_host_key, delete,
}
use homelab_mcp.Inventory.Repository.Keeps.{
  Call, create_call, get_call, list_call, update_call, replace_call, clear_call, delete_call, after,
}

abbrev pub Machines : Type 0
Machines = ℕ → Option Machine

-- what a call gives back
pub data Outcome : Type 0 where
  machine : Machine → Outcome
  page : List Machine → Outcome
  removed : Outcome
  failure : RepositoryError → Outcome

abbrev pub machine_outcome : Reply Machine → Option Outcome
machine_outcome (returned (ok m)) = some (machine m)
machine_outcome (returned (err e)) = some (failure e)
machine_outcome panicked = none

abbrev pub page_outcome : Reply (List Machine) → Option Outcome
page_outcome (returned (ok ms)) = some (page ms)
page_outcome (returned (err e)) = some (failure e)
page_outcome panicked = none

abbrev pub delete_outcome : Reply (Unit {0}) → Option Outcome
delete_outcome (returned (ok u)) = some removed
delete_outcome (returned (err e)) = some (failure e)
delete_outcome panicked = none

abbrev pub Same : Machines → Machines → Type 0
Same before after = (id : ℕ) → after id ≡ before id

-- One id gets a machine or loses it.
abbrev pub Sets : Machines → ℕ → Option Machine → Machines → Type 0
Sets before id m after = (j : ℕ) → after j ≡ (if j == id then m else before j)

pub record Describes (id : ℕ) (input : CreateMachine) (m : Machine) : Type 0 where
  pub is_id : m.id ≡ id
  pub display_name : m.display_name ≡ input.display_name
  pub ssh_host : m.ssh_host ≡ input.ssh_host
  pub ssh_port : m.ssh_port ≡ input.ssh_port
  pub ssh_username : m.ssh_username ≡ input.ssh_username
  pub pinned_host_public_key : m.pinned_host_public_key ≡ input.pinned_host_public_key

pub record Updates (input : UpdateMachine) (old m : Machine) : Type 0 where
  pub is_id : m.id ≡ old.id
  pub display_name : m.display_name ≡ input.display_name
  pub ssh_host : m.ssh_host ≡ input.ssh_host
  pub ssh_port : m.ssh_port ≡ input.ssh_port
  pub ssh_username : m.ssh_username ≡ input.ssh_username
  pub pinned_host_public_key : m.pinned_host_public_key ≡ old.pinned_host_public_key

pub record Rekeys (key : Option Str) (old m : Machine) : Type 0 where
  pub is_id : m.id ≡ old.id
  pub display_name : m.display_name ≡ old.display_name
  pub ssh_host : m.ssh_host ≡ old.ssh_host
  pub ssh_port : m.ssh_port ≡ old.ssh_port
  pub ssh_username : m.ssh_username ≡ old.ssh_username
  pub pinned_host_public_key : m.pinned_host_public_key ≡ key

-- the machine of the call is not in the table
abbrev pub Missing : Call → Machines → Type 0
Missing (create_call id input) before = ⊥
Missing (list_call limit) before = ⊥
Missing (get_call id) before = before id ≡ none
Missing (update_call id input) before = before id ≡ none
Missing (replace_call id key) before = before id ≡ none
Missing (clear_call id) before = before id ≡ none
Missing (delete_call id) before = before id ≡ none

-- What a call may do to the table. A failure changes nothing, and says that a machine is not there
-- only if it is not; but a call that fails at the database may have done what it would have done.
pub data Step (before : Machines) : Call → Outcome → Machines → Type 0 where
  failing :
      (c : Call) (e : RepositoryError) (after : Machines)
      → (e ≡ not_found → Missing c before)
      → Same before after
      → Step before c (failure e) after
  unanswered :
      (c : Call) (o : Outcome) (after : Machines)
      → Step before c o after
      → Step before c (failure database) after
  creating :
      (id : ℕ) (input : CreateMachine) (m : Machine) (after : Machines)
      → Describes id input m
      → Sets before id (some m) after
      → Step before (create_call id input) (machine m) after
  getting :
      (id : ℕ) (m : Machine) (after : Machines)
      → before id ≡ some m
      → Same before after
      → Step before (get_call id) (machine m) after
  listing :
      (limit : ℕ) (ms : List Machine) (after : Machines)
      → length ms ≤ limit
      → All (λ m. before m.id ≡ some m) ms
      → Same before after
      → Step before (list_call limit) (page ms) after
  updating :
      (id : ℕ) (input : UpdateMachine) (old m : Machine) (after : Machines)
      → before id ≡ some old
      → Updates input old m
      → Sets before id (some m) after
      → Step before (update_call id input) (machine m) after
  replacing :
      (id : ℕ) (key : Str) (old m : Machine) (after : Machines)
      → before id ≡ some old
      → Rekeys (some key) old m
      → Sets before id (some m) after
      → Step before (replace_call id key) (machine m) after
  clearing :
      (id : ℕ) (old m : Machine) (after : Machines)
      → before id ≡ some old
      → Rekeys none old m
      → Sets before id (some m) after
      → Step before (clear_call id) (machine m) after
  deleting :
      (id : ℕ) (old : Machine) (after : Machines)
      → before id ≡ some old
      → Sets before id none after
      → Step before (delete_call id) removed after

-- the calls of a client in turn
pub data Run : Machines → List Call → List Outcome → Machines → Type 0 where
  ended : (t : Machines) → Run t [] [] t
  called :
      (before between after : Machines) (c : Call) (cs : List Call) (o : Outcome)
      (os : List Outcome)
      → Step before c o between
      → Run between cs os after
      → Run before (c ∷ cs) (o ∷ os) after

module _ (is_ip : Str → Bool) (decode : Str → Option (List ℕ)) (db : Database) where
  -- what the repository gives back for a call, `none` for a panic
  unfoldable pub given : Call → db.State → Option Outcome
  given (create_call id input) s = machine_outcome (create is_ip decode db id input s).0
  given (get_call id) s = machine_outcome (get db id s).0
  given (list_call limit) s = page_outcome (list db limit s).0
  given (update_call id input) s = machine_outcome (update is_ip db id input s).0
  given (replace_call id key) s = machine_outcome (replace_host_key decode db id key s).0
  given (clear_call id) s = machine_outcome (clear_host_key db id s).0
  given (delete_call id) s = delete_outcome (delete db id s).0

  abbrev pub cons_outcome : Option Outcome → Option (List Outcome) → Option (List Outcome)
  cons_outcome (some o) (some os) = some (o ∷ os)
  cons_outcome none os = none
  cons_outcome (some o) none = none

  -- for calls in turn
  unfoldable pub given_all : List Call → db.State → Option (List Outcome)
  given_all [] s = some []
  given_all (c ∷ cs) s = cons_outcome (given c s) (given_all cs (after is_ip decode db c s))
