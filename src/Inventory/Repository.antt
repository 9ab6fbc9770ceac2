-- ===== src/Inventory/Repository.antt =====
-- `MachineRepository` of src/inventory.rs: each method validates, sends one statement, and turns
-- the answer into a machine or an error. A method returns its reply beside the new state of the
-- database. The fresh id of `Uuid::new_v4` is an argument of `create`.
pub mod Laws
pub mod Keeps
use homelab_mcp.Prelude.{
  ℕ, Bool, zero, ◌^◌, Option, none, some, List, [], ◌∷◌, Result, ok, err, ltb, if◌then◌else◌,
}
use homelab_mcp.Text.{Str, lit, str_eq}
use homelab_mcp.Inventory.{
  Machine, CreateMachine, UpdateMachine, ValidationError, RepositoryError, validation, not_found,
  conflict,
}
use homelab_mcp.Inventory.Fields.{validate_machine_fields, validate_list_limit}
use homelab_mcp.Inventory.HostKey.{validate_host_public_key}
use homelab_mcp.Inventory.Database.{MachineRow, SqlxError, Database}

-- A method returns, or panics on a port column that is no `u16`.
pub data Reply (A : Type 0) : Type 0 where
  returned : Result RepositoryError A → Reply A
  panicked : Reply A

abbrev pub machine_of : MachineRow → Machine
machine_of row = record {
  id = row.id;
  display_name = row.display_name;
  ssh_host = row.ssh_host;
  ssh_port = row.ssh_port;
  ssh_username = row.ssh_username;
  pinned_host_public_key = row.pinned_host_public_key;
  created_at = row.created_at;
  updated_at = row.updated_at;
}

-- `none` is the panic of `u16::try_from(row.3).expect(…)`.
unfoldable pub machine_from_row : MachineRow → Option Machine
machine_from_row row = if ltb row.ssh_port (2 ^ 16) then some (machine_of row) else none

-- 23505 is the SQLSTATE of a unique violation.
unfoldable pub map_database_error : SqlxError → RepositoryError
map_database_error (SqlxError.database (some code)) =
    if str_eq code (lit "23505") then conflict else RepositoryError.database
map_database_error (SqlxError.database none) = RepositoryError.database
map_database_error SqlxError.other = RepositoryError.database

abbrev pub machine_reply : Option Machine → Reply Machine
machine_reply none = panicked
machine_reply (some m) = returned (ok m)

-- `.fetch_one(…).map(machine_from_row).map_err(map_database_error)`
abbrev pub reply_one : Result SqlxError MachineRow → Reply Machine
reply_one (ok row) = machine_reply (machine_from_row row)
reply_one (err e) = returned (err (map_database_error e))

-- `.fetch_optional(…).map_err(map_database_error)?.map(machine_from_row).ok_or(NotFound)`
abbrev pub reply_optional : Result SqlxError (Option MachineRow) → Reply Machine
reply_optional (ok none) = returned (err not_found)
reply_optional (ok (some row)) = machine_reply (machine_from_row row)
reply_optional (err e) = returned (err (map_database_error e))

abbrev pub push_machine : Option Machine → Reply (List Machine) → Reply (List Machine)
push_machine (some m) (returned (ok ms)) = returned (ok (m ∷ ms))
push_machine none rest = panicked
push_machine (some m) rest = rest

unfoldable pub machines_from_rows : List MachineRow → Reply (List Machine)
machines_from_rows [] = returned (ok [])
machines_from_rows (row ∷ rows) = push_machine (machine_from_row row) (machines_from_rows rows)

abbrev pub reply_page : Result SqlxError (List MachineRow) → Reply (List Machine)
reply_page (ok rows) = machines_from_rows rows
reply_page (err e) = returned (err (map_database_error e))

abbrev pub reply_delete : Result SqlxError ℕ → Reply (Unit {0})
reply_delete (ok zero) = returned (err not_found)
reply_delete (ok n) = returned (ok tt)
reply_delete (err e) = returned (err (map_database_error e))

-- `validate(…)?` in front of a statement: a refused input sends nothing
abbrev pub when_valid :
    {A S : Type 0} → Result ValidationError (Unit {0}) → S → Reply A × S → Reply A × S
when_valid (ok u) s run = run
when_valid (err e) s run = (returned (err (validation e)), s)

module _ (db : Database) where
  unfoldable pub get : ℕ → db.State → Reply Machine × db.State
  get id s = let (r, s') = db.select_one id s in (reply_optional r, s')

  unfoldable pub list : ℕ → db.State → Reply (List Machine) × db.State
  list limit s =
      when_valid (validate_list_limit limit) s
        (let (r, s') = db.select_page limit s in (reply_page r, s'))

  unfoldable pub set_host_key : ℕ → Option Str → db.State → Reply Machine × db.State
  set_host_key id key s = let (r, s') = db.update_key id key s in (reply_optional r, s')

  unfoldable pub clear_host_key : ℕ → db.State → Reply Machine × db.State
  clear_host_key id s = set_host_key id none s

  unfoldable pub delete : ℕ → db.State → Reply (Unit {0}) × db.State
  delete id s = let (r, s') = db.delete id s in (reply_delete r, s')

module _ (decode : Str → Option (List ℕ)) (db : Database) where
  unfoldable pub replace_host_key : ℕ → Str → db.State → Reply Machine × db.State
  replace_host_key id key s =
      when_valid (validate_host_public_key decode key) s (set_host_key db id (some key) s)

module _ (is_ip : Str → Bool) (db : Database) where
  abbrev pub update_valid : UpdateMachine → Result ValidationError (Unit {0})
  update_valid input =
      validate_machine_fields is_ip input.display_name input.ssh_host input.ssh_port
        input.ssh_username

  abbrev pub send_update : ℕ → UpdateMachine → db.State → Reply Machine × db.State
  send_update id input s =
      let (r, s') =
        db.update_fields id input.display_name input.ssh_host input.ssh_port input.ssh_username s in
      (reply_optional r, s')

  unfoldable pub update : ℕ → UpdateMachine → db.State → Reply Machine × db.State
  update id input s = when_valid (update_valid input) s (send_update id input s)

module _ (is_ip : Str → Bool) (decode : Str → Option (List ℕ)) (db : Database) where
  abbrev pub create_valid : CreateMachine → Result ValidationError (Unit {0})
  create_valid input =
      validate_machine_fields is_ip input.display_name input.ssh_host input.ssh_port
        input.ssh_username

  -- the key is checked only if there is one
  abbrev pub optional_key_valid : Option Str → Result ValidationError (Unit {0})
  optional_key_valid none = ok tt
  optional_key_valid (some key) = validate_host_public_key decode key

  abbrev pub send_insert : ℕ → CreateMachine → db.State → Reply Machine × db.State
  send_insert id input s =
      let (r, s') =
        db.insert id input.display_name input.ssh_host input.ssh_port input.ssh_username
          input.pinned_host_public_key s in
      (reply_one r, s')

  unfoldable pub create : ℕ → CreateMachine → db.State → Reply Machine × db.State
  create id input s =
      when_valid (create_valid input) s
        (when_valid (optional_key_valid input.pinned_host_public_key) s (send_insert id input s))
