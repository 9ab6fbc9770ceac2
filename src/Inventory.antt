-- ===== src/Inventory.antt =====
-- src/inventory.rs: the machine inventory. The types and errors are here, the validators in Fields
-- and HostKey, the interface of the SQL pool in Database, the queries in Repository. A `Uuid` and
-- a timestamp are numbers.
pub mod Fields
pub mod HostKey
pub mod Database
pub mod Repository
pub mod Table
use homelab_mcp.Prelude.{ℕ, Option, none}
use homelab_mcp.Text.{Str, lit}

abbrev pub default_ssh_port : ℕ
default_ssh_port = 22

abbrev pub default_ssh_username : Str
default_ssh_username = lit "homelab"

abbrev pub max_list_limit : ℕ
max_list_limit = 100

pub record Machine : Type 0 where
  pub id : ℕ
  pub display_name : Str
  pub ssh_host : Str
  pub ssh_port : ℕ
  pub ssh_username : Str
  pub pinned_host_public_key : Option Str
  pub created_at : ℕ
  pub updated_at : ℕ

pub record CreateMachine : Type 0 where
  pub display_name : Str
  pub ssh_host : Str
  pub ssh_port : ℕ
  pub ssh_username : Str
  pub pinned_host_public_key : Option Str

-- `CreateMachine::new`
abbrev pub create_machine : Str → Str → CreateMachine
create_machine name host = record {
  display_name = name;
  ssh_host = host;
  ssh_port = default_ssh_port;
  ssh_username = default_ssh_username;
  pinned_host_public_key = none;
}

pub record UpdateMachine : Type 0 where
  pub display_name : Str
  pub ssh_host : Str
  pub ssh_port : ℕ
  pub ssh_username : Str

pub data ValidationError : Type 0 where
  display_name ssh_host ssh_port ssh_username host_public_key list_limit : ValidationError

pub data RepositoryError : Type 0 where
  validation : ValidationError → RepositoryError
  not_found conflict database : RepositoryError
