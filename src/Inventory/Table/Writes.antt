-- ===== src/Inventory/Table/Writes.antt =====
-- `create` and `update` of src/inventory.rs as steps of the table.
use homelab_mcp.Prelude.{ℕ, Bool, ◌≡◌, ap, Option, some, List, Result, inl, inr}
use homelab_mcp.Text.{Str}
use homelab_mcp.Inventory.{Machine, CreateMachine, UpdateMachine}
use homelab_mcp.Inventory.Database.{
  MachineRow, SqlxError, Database, IsDatabase, SetsRow, Inserted, FieldsUpdated,
}
use homelab_mcp.Inventory.Repository.{
  Reply, machine_of, create, update, update_valid, create_valid, optional_key_valid,
}
use homelab_mcp.Inventory.Repository.Keeps.{
  IsSound, create_call, update_call, insert-IsSound, update_fields-IsSound,
}
use homelab_mcp.Inventory.Table.{Step, machine, machine_outcome, creating, updating}
use homelab_mcp.Inventory.Table.Rules.{
  machine_at, table, when_valid-holds, Sets-table, Refines, refused_call, set_row-RowValid,
  optional_call, insert_call,
}

module _ (is_ip : Str → Bool) (decode : Str → Option (List ℕ)) (db : Database) where
  module _ (laws : IsDatabase db) (s : db.State) (h : IsSound is_ip decode db s) (id : ℕ) where
    pub create-Refines :
        (input : CreateMachine)
        → Refines db
            (create_call id input)
            s
            (machine_outcome (create is_ip decode db id input s).0)
            (create is_ip decode db id input s).1
    unfolding create
    create-Refines input =
        when_valid-holds Allowed (create_valid is_ip decode db input) s _
          (λ e. refused_call db (create_call id input) s e)
          (λ fields_ok.
            when_valid-holds Allowed
              (optional_key_valid is_ip decode db input.pinned_host_public_key) s _
              (λ e. refused_call db (create_call id input) s e)
              (λ key_ok.
                insert_call is_ip decode db (create_call id input) s (sent input).1 (sent input).0
                  (λ r answered.
                    let (c, rows) =
                      laws.insert_ok s id input.display_name input.ssh_host input.ssh_port
                        input.ssh_username input.pinned_host_public_key r answered in
                    (
                      set_row-RowValid is_ip decode db s (sent input).1 id r
                          (insert-IsSound is_ip decode db laws s h id input fields_ok key_ok) rows,
                      created input r c rows,
                    ))
                  (λ e refused.
                    elim (laws.insert_err s id input.display_name input.ssh_host input.ssh_port
                      input.ssh_username input.pinned_host_public_key e refused) [
                        | inl same ↦ inl same
                        | inr (lost, (r, c, rows)) ↦
                            inr (lost, (machine (machine_of r), created input r c rows))
                      ])))
      where
        Allowed : Reply Machine × db.State → Type 0
        Allowed p = Refines db (create_call id input) s (machine_outcome p.0) p.1

        sent : CreateMachine → Result SqlxError MachineRow × db.State
        sent i =
            db.insert id i.display_name i.ssh_host i.ssh_port i.ssh_username
              i.pinned_host_public_key s

        created :
            (i : CreateMachine) (r : MachineRow)
            → Inserted id i.display_name i.ssh_host i.ssh_port i.ssh_username
                i.pinned_host_public_key r
            → SetsRow (db.row s) (db.row (sent i).1) id (some r)
            → Step (table db s) (create_call id i) (machine (machine_of r)) (table db (sent i).1)
        created i r c rows =
            creating id i (machine_of r) (table db (sent i).1)
              (record {
                is_id = c.is_id;
                display_name = c.display_name;
                ssh_host = c.ssh_host;
                ssh_port = c.ssh_port;
                ssh_username = c.ssh_username;
                pinned_host_public_key = c.pinned_host_public_key;
              })
              (Sets-table db s (sent i).1 id (some r) rows)

    pub update-Refines :
        (input : UpdateMachine)
        → Refines db
            (update_call id input)
            s
            (machine_outcome (update is_ip db id input s).0)
            (update is_ip db id input s).1
    unfolding update
    update-Refines input =
        when_valid-holds Allowed (update_valid is_ip db input) s _
          (λ e. refused_call db (update_call id input) s e)
          (λ fields_ok.
            optional_call is_ip decode db (update_call id input) s (sent input).1 (sent input).0
              (λ r answered.
                let ((old, held, c), rows) =
                  laws.update_fields_some s id input.display_name input.ssh_host input.ssh_port
                    input.ssh_username r answered in
                (
                  set_row-RowValid is_ip decode db s (sent input).1 id r
                      (update_fields-IsSound is_ip decode db laws s h id input fields_ok) rows,
                  updated input old r held c rows,
                ))
              (λ answered.
                let (missing, same) =
                  laws.update_fields_none s id input.display_name input.ssh_host input.ssh_port
                    input.ssh_username answered in
                (ap machine_at missing, same))
              (λ e broken.
                elim (laws.update_fields_err s id input.display_name input.ssh_host input.ssh_port
                  input.ssh_username e broken) [
                    | inl same ↦ inl same
                    | inr (lost, (old, r, held, c, rows)) ↦
                        inr (lost, (machine (machine_of r), updated input old r held c rows))
                  ]))
      where
        Allowed : Reply Machine × db.State → Type 0
        Allowed p = Refines db (update_call id input) s (machine_outcome p.0) p.1

        sent : UpdateMachine → Result SqlxError (Option MachineRow) × db.State
        sent i = db.update_fields id i.display_name i.ssh_host i.ssh_port i.ssh_username s

        updated :
            (i : UpdateMachine) (old r : MachineRow)
            → db.row s id ≡ some old
            → FieldsUpdated old i.display_name i.ssh_host i.ssh_port i.ssh_username r
            → SetsRow (db.row s) (db.row (sent i).1) id (some r)
            → Step (table db s) (update_call id i) (machine (machine_of r)) (table db (sent i).1)
        updated i old r held c rows =
            updating id i (machine_of old) (machine_of r) (table db (sent i).1) (ap machine_at held)
              (record {
                is_id = c.id;
                display_name = c.display_name;
                ssh_host = c.ssh_host;
                ssh_port = c.ssh_port;
                ssh_username = c.ssh_username;
                pinned_host_public_key = c.pinned_host_public_key;
              })
              (Sets-table db s (sent i).1 id (some r) rows)
