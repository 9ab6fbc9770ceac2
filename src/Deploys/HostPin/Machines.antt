-- ===== src/Deploys/HostPin/Machines.antt =====
-- The machines that the inventory (src/inventory.rs) hands to the deploy runner
-- (src/integrations/deploys/runner.rs).
use homelab_mcp.Prelude.{
  ℕ, Bool, ◌≡◌, sym, ap, subst, ◌∙◌, Option, some, some-injective, List, ok, arith,
}
use homelab_mcp.Text.{Str}
use homelab_mcp.Inventory.{Machine}
use homelab_mcp.Inventory.Fields.Laws.{IsFields, validate_machine_fields_iff}
use homelab_mcp.Inventory.Database.{MachineRow, Database, IsDatabase}
use homelab_mcp.Inventory.Repository.{
  returned, machine_from_row, machine_of, optional_key_valid, get,
}
use homelab_mcp.Inventory.Repository.Laws.{reply_optional-machine}
use homelab_mcp.Inventory.Repository.Keeps.{RowValid, IsSound, Call, after_all, after_all-IsSound}
use homelab_mcp.Deploys.HostPin.{validate_host_pin}
use homelab_mcp.Deploys.HostPin.Agreement.{validate_host_public_key_iff}

-- what the deploy runner relies on in a machine
pub record IsDeployable (is_ip : Str → Bool) (decode : Str → Option (List ℕ)) (m : Machine)
    : Type 0 where
  pub fields : IsFields is_ip m.display_name m.ssh_host m.ssh_port m.ssh_username
  pub pin : (key : Str) → m.pinned_host_public_key ≡ some key → validate_host_pin decode key ≡ ok tt

module _ (is_ip : Str → Bool) (decode : Str → Option (List ℕ)) (db : Database) where
  pin_of_key :
      (key : Option Str) (k : Str)
      → optional_key_valid is_ip decode db key ≡ ok tt
      → key ≡ some k
      → validate_host_pin decode k ≡ ok tt
  pin_of_key key k v e =
      ((validate_host_public_key_iff decode k).0
        (ap (optional_key_valid is_ip decode db) (sym e) ∙ v)).1

  machine_of-IsDeployable :
      (r : MachineRow) → RowValid is_ip decode db r → IsDeployable is_ip decode (machine_of r)
  machine_of-IsDeployable r v = record {
    fields =
        (validate_machine_fields_iff is_ip r.display_name r.ssh_host r.ssh_port r.ssh_username).0
          v.fields;
    pin = λ key e. pin_of_key r.pinned_host_public_key key v.key e;
  }

  pub machine_from_row_valid :
      (r : MachineRow) → RowValid is_ip decode db r → machine_from_row r ≡ some (machine_of r)
  unfolding machine_from_row
  machine_from_row_valid r v =
      let port : r.ssh_port ≡ 22 = (machine_of-IsDeployable r v).fields.port_fixed in ground arith

  held_valid :
      (t : db.State) (id : ℕ) (row : MachineRow)
      → IsDatabase db
      → IsSound is_ip decode db t
      → (db.select_one id t).0 ≡ ok (some row)
      → RowValid is_ip decode db row
  held_valid t id row laws sound answered =
      sound.all_valid id row (sym (laws.select_one_ok t id (some row) answered))

  -- From a table of valid rows, whatever calls were made, a machine that a read returns has valid
  -- fields and, if it is pinned, a key that the deploy runner accepts as its host pin.
  pub get-IsDeployable :
      (laws : IsDatabase db) (s : db.State) (calls : List Call) (id : ℕ) (m : Machine)
      → IsSound is_ip decode db s
      → (get db id (after_all is_ip decode db calls s)).0 ≡ returned (ok m)
      → IsDeployable is_ip decode m
  unfolding get
  get-IsDeployable laws s calls id m h e =
      let t = after_all is_ip decode db calls s in
      let sound = after_all-IsSound is_ip decode db laws calls s h in
      let (row, answered, read) = reply_optional-machine (db.select_one id t).0 m e in
      let v = held_valid t id row laws sound answered in
      subst (IsDeployable is_ip decode)
        (some-injective (machine_of row) m (sym (machine_from_row_valid row v) ∙ read))
        (machine_of-IsDeployable row v)
