-- ===== src/Inventory/Database.antt =====
-- The SQL pool behind `MachineRepository` (src/inventory.rs) as an interface: one operation for
-- each statement that the repository sends, and what PostgreSQL documents of those statements.
-- The pool and the server are not code of this repository.
use homelab_mcp.Prelude.{
  ℕ, ◌≡◌, Option, none, some, List, Result, ok, err, ◌==◌, if◌then◌else◌, is_some, ◌≤◌, length, All,
  ◌⊎◌,
}
use homelab_mcp.Text.{Str}

-- the columns that every statement returns
pub record MachineRow : Type 0 where
  pub id : ℕ
  pub display_name : Str
  pub ssh_host : Str
  pub ssh_port : ℕ
  pub ssh_username : Str
  pub pinned_host_public_key : Option Str
  pub created_at : ℕ
  pub updated_at : ℕ

-- an error of the server, with its SQLSTATE if it has one, or any other error
pub data SqlxError : Type 0 where
  database : Option Str → SqlxError
  other : SqlxError

pub record Database : Type 1 where
  pub State : Type 0
  -- the row with an id, as the table holds it
  pub row : State → ℕ → Option MachineRow
  -- INSERT … VALUES (id, name, host, port, username, key) RETURNING …
  pub insert : ℕ → Str → Str → ℕ → Str → Option Str → State → Result SqlxError MachineRow × State
  -- SELECT … WHERE id = $1
  pub select_one : ℕ → State → Result SqlxError (Option MachineRow) × State
  -- SELECT … ORDER BY display_name ASC, id ASC LIMIT $1
  pub select_page : ℕ → State → Result SqlxError (List MachineRow) × State
  -- UPDATE … SET display_name, ssh_host, ssh_port, ssh_username WHERE id = $1 RETURNING …
  pub update_fields : ℕ → Str → Str → ℕ → Str → State → Result SqlxError (Option MachineRow) × State
  -- UPDATE … SET pinned_host_public_key = $2 WHERE id = $1 RETURNING …
  pub update_key : ℕ → Option Str → State → Result SqlxError (Option MachineRow) × State
  -- DELETE … WHERE id = $1, with the count of rows
  pub delete : ℕ → State → Result SqlxError ℕ × State

-- One row of a new state is set, and the others are as they were.
abbrev pub SetsRow :
    (ℕ → Option MachineRow) → (ℕ → Option MachineRow) → ℕ → Option MachineRow → Type 0
SetsRow before after id r = (j : ℕ) → after j ≡ (if j == id then r else before j)

-- a row with the columns that UPDATE gives, and the others as they were
pub record FieldsUpdated (old : MachineRow) (name host : Str) (port : ℕ) (username : Str)
    (new : MachineRow) : Type 0 where
  pub id : new.id ≡ old.id
  pub display_name : new.display_name ≡ name
  pub ssh_host : new.ssh_host ≡ host
  pub ssh_port : new.ssh_port ≡ port
  pub ssh_username : new.ssh_username ≡ username
  pub pinned_host_public_key : new.pinned_host_public_key ≡ old.pinned_host_public_key
  pub created_at : new.created_at ≡ old.created_at

pub record KeyUpdated (old : MachineRow) (key : Option Str) (new : MachineRow) : Type 0 where
  pub id : new.id ≡ old.id
  pub display_name : new.display_name ≡ old.display_name
  pub ssh_host : new.ssh_host ≡ old.ssh_host
  pub ssh_port : new.ssh_port ≡ old.ssh_port
  pub ssh_username : new.ssh_username ≡ old.ssh_username
  pub pinned_host_public_key : new.pinned_host_public_key ≡ key
  pub created_at : new.created_at ≡ old.created_at

pub record Inserted (id : ℕ) (name host : Str) (port : ℕ) (username : Str) (key : Option Str)
    (new : MachineRow) : Type 0 where
  pub is_id : new.id ≡ id
  pub display_name : new.display_name ≡ name
  pub ssh_host : new.ssh_host ≡ host
  pub ssh_port : new.ssh_port ≡ port
  pub ssh_username : new.ssh_username ≡ username
  pub pinned_host_public_key : new.pinned_host_public_key ≡ key

abbrev pub KeepsRows : (ℕ → Option MachineRow) → (ℕ → Option MachineRow) → Type 0
KeepsRows before after = (j : ℕ) → after j ≡ before j

-- What the statements do. A statement that the server refuses with an error of its own is rolled
-- back as a whole. After any other error, such as a connection that is lost before the answer or an
-- answer that cannot be read, the statement has had its effect or none.
pub record IsDatabase (db : Database) : Type 0 where
  pub insert_ok :
      (s : db.State) (id : ℕ) (name host : Str) (port : ℕ) (username : Str) (key : Option Str)
      (r : MachineRow)
      → (db.insert id name host port username key s).0 ≡ ok r
      → Inserted id name host port username key r
        × SetsRow (db.row s) (db.row (db.insert id name host port username key s).1) id (some r)
  pub insert_err :
      (s : db.State) (id : ℕ) (name host : Str) (port : ℕ) (username : Str) (key : Option Str)
      (e : SqlxError)
      → (db.insert id name host port username key s).0 ≡ err e
      → KeepsRows (db.row s) (db.row (db.insert id name host port username key s).1)
        ⊎ ((e ≡ other)
            × ((r : MachineRow) × Inserted id name host port username key r
                × SetsRow
                    (db.row s)
                    (db.row (db.insert id name host port username key s).1)
                    id
                    (some r)))
  pub select_one_ok :
      (s : db.State) (id : ℕ) (o : Option MachineRow)
      → (db.select_one id s).0 ≡ ok o
      → o ≡ db.row s id
  pub select_one_keeps :
      (s : db.State) (id : ℕ) → KeepsRows (db.row s) (db.row (db.select_one id s).1)
  pub select_page_ok :
      (s : db.State) (limit : ℕ) (rows : List MachineRow)
      → (db.select_page limit s).0 ≡ ok rows
      → (length rows ≤ limit) × All (λ r. db.row s r.id ≡ some r) rows
  pub select_page_keeps :
      (s : db.State) (limit : ℕ) → KeepsRows (db.row s) (db.row (db.select_page limit s).1)
  pub update_fields_some :
      (s : db.State) (id : ℕ) (name host : Str) (port : ℕ) (username : Str) (r : MachineRow)
      → (db.update_fields id name host port username s).0 ≡ ok (some r)
      → ((old : MachineRow) × (db.row s id ≡ some old)
          × FieldsUpdated old name host port username r)
        × SetsRow (db.row s) (db.row (db.update_fields id name host port username s).1) id (some r)
  pub update_fields_none :
      (s : db.State) (id : ℕ) (name host : Str) (port : ℕ) (username : Str)
      → (db.update_fields id name host port username s).0 ≡ ok none
      → (db.row s id ≡ none)
        × KeepsRows (db.row s) (db.row (db.update_fields id name host port username s).1)
  pub update_fields_err :
      (s : db.State) (id : ℕ) (name host : Str) (port : ℕ) (username : Str) (e : SqlxError)
      → (db.update_fields id name host port username s).0 ≡ err e
      → KeepsRows (db.row s) (db.row (db.update_fields id name host port username s).1)
        ⊎ ((e ≡ other)
            × ((old r : MachineRow) × (db.row s id ≡ some old)
                × FieldsUpdated old name host port username r
                × SetsRow
                    (db.row s)
                    (db.row (db.update_fields id name host port username s).1)
                    id
                    (some r)))
  pub update_key_some :
      (s : db.State) (id : ℕ) (key : Option Str) (r : MachineRow)
      → (db.update_key id key s).0 ≡ ok (some r)
      → ((old : MachineRow) × (db.row s id ≡ some old) × KeyUpdated old key r)
        × SetsRow (db.row s) (db.row (db.update_key id key s).1) id (some r)
  pub update_key_none :
      (s : db.State) (id : ℕ) (key : Option Str)
      → (db.update_key id key s).0 ≡ ok none
      → (db.row s id ≡ none) × KeepsRows (db.row s) (db.row (db.update_key id key s).1)
  pub update_key_err :
      (s : db.State) (id : ℕ) (key : Option Str) (e : SqlxError)
      → (db.update_key id key s).0 ≡ err e
      → KeepsRows (db.row s) (db.row (db.update_key id key s).1)
        ⊎ ((e ≡ other)
            × ((old r : MachineRow) × (db.row s id ≡ some old)
                × KeyUpdated old key r
                × SetsRow (db.row s) (db.row (db.update_key id key s).1) id (some r)))
  pub delete_ok :
      (s : db.State) (id : ℕ) (n : ℕ)
      → (db.delete id s).0 ≡ ok n
      → (n ≡ (if is_some (db.row s id) then 1 else 0))
        × SetsRow (db.row s) (db.row (db.delete id s).1) id none
  pub delete_err :
      (s : db.State) (id : ℕ) (e : SqlxError)
      → (db.delete id s).0 ≡ err e
      → KeepsRows (db.row s) (db.row (db.delete id s).1)
        ⊎ ((e ≡ other) × SetsRow (db.row s) (db.row (db.delete id s).1) id none)
