-- ===== src/Inventory/Table/Calls.antt =====
-- The other methods of src/inventory.rs as steps of the table.
use homelab_mcp.Prelude.{
  ℕ, Bool, ◌≡◌, refl, sym, ap, subst, ◌∙◌, Option, none, some, List, Result, ok, err, ◌==◌, ==_iff,
  Bool-cases, Option-cases, inl, inr,
}
use homelab_mcp.Text.{Str}
use homelab_mcp.Inventory.{Machine, not_found}
use homelab_mcp.Inventory.Fields.{validate_list_limit}
use homelab_mcp.Inventory.HostKey.{validate_host_public_key}
use homelab_mcp.Inventory.Database.{
  MachineRow, SqlxError, Database, IsDatabase, SetsRow, KeepsRows, KeyUpdated,
}
use homelab_mcp.Inventory.Repository.{
  machine_of, reply_delete, get, list, set_host_key, replace_host_key, clear_host_key, delete,
  optional_key_valid,
}
use homelab_mcp.Inventory.Repository.Keeps.{
  IsSound, Call, get_call, list_call, replace_call, clear_call, delete_call, update_key-IsSound,
}
use homelab_mcp.Inventory.Table.{
  Machines, machine, removed, machine_outcome, page_outcome, delete_outcome, Sets, Rekeys, Missing,
  Step, getting, replacing, clearing, deleting,
}
use homelab_mcp.Inventory.Table.Rules.{
  machine_at, table, when_valid-holds, Same-table, Sets-table, Refines, refused_call, failed_call,
  lost_call, set_row-RowValid, optional_call, page_call,
}

module _ (is_ip : Str → Bool) (decode : Str → Option (List ℕ)) (db : Database) where
  module _ (laws : IsDatabase db) (s : db.State) (h : IsSound is_ip decode db s) (id : ℕ) where
    pub get-Refines : Refines db (get_call id) s (machine_outcome (get db id s).0) (get db id s).1
    unfolding get
    get-Refines =
        optional_call is_ip decode db (get_call id) s (db.select_one id s).1 (db.select_one id s).0
          (λ r answered.
            let held = laws.select_one_ok s id (some r) answered in
            (
              h.all_valid id r (sym held),
              getting id (machine_of r) (table db (db.select_one id s).1) (ap machine_at (sym held))
                  (Same-table db s (db.select_one id s).1 (laws.select_one_keeps s id)),
            ))
          (λ answered. (
            ap machine_at (sym (laws.select_one_ok s id none answered)),
            laws.select_one_keeps s id,
          ))
          (λ e _. inl (laws.select_one_keeps s id))

    -- a call that changes the key only
    key-Refines :
        (c : Call) (key : Option Str)
        → Missing c (table db s) ≡ (table db s id ≡ none)
        → ((old m : Machine) (t : Machines)
            → table db s id ≡ some old
            → Rekeys key old m
            → Sets (table db s) id (some m) t
            → Step (table db s) c (machine m) t)
        → optional_key_valid is_ip decode db key ≡ ok tt
        → Refines db c s (machine_outcome (set_host_key db id key s).0) (set_host_key db id key s).1
    unfolding set_host_key
    key-Refines c key names step key_ok =
        optional_call is_ip decode db c s (db.update_key id key s).1 (db.update_key id key s).0
          (λ r answered.
            let ((old, held, k), rows) = laws.update_key_some s id key r answered in
            (
              set_row-RowValid is_ip decode db s (db.update_key id key s).1 id r
                  (update_key-IsSound is_ip decode db laws s h id key key_ok) rows,
              rekeyed old r held k rows,
            ))
          (λ answered.
            let (missing, same) = laws.update_key_none s id key answered in
            (subst (λ (A : Type 0). A) (sym names) (ap machine_at missing), same))
          (λ e broken. elim (laws.update_key_err s id key e broken) [
            | inl same ↦ inl same
            | inr (lost, (old, r, held, k, rows)) ↦
                inr (lost, (machine (machine_of r), rekeyed old r held k rows))
          ])
      where
        rekeyed :
            (old r : MachineRow)
            → db.row s id ≡ some old
            → KeyUpdated old key r
            → SetsRow (db.row s) (db.row (db.update_key id key s).1) id (some r)
            → Step (table db s) c (machine (machine_of r)) (table db (db.update_key id key s).1)
        rekeyed old r held k rows =
            step (machine_of old) (machine_of r) (table db (db.update_key id key s).1)
              (ap machine_at held)
              (record {
                is_id = k.id;
                display_name = k.display_name;
                ssh_host = k.ssh_host;
                ssh_port = k.ssh_port;
                ssh_username = k.ssh_username;
                pinned_host_public_key = k.pinned_host_public_key;
              })
              (Sets-table db s (db.update_key id key s).1 id (some r) rows)

    pub replace-Refines :
        (key : Str)
        → Refines db
            (replace_call id key)
            s
            (machine_outcome (replace_host_key decode db id key s).0)
            (replace_host_key decode db id key s).1
    unfolding replace_host_key
    replace-Refines key =
        when_valid-holds (λ p. Refines db (replace_call id key) s (machine_outcome p.0) p.1)
          (validate_host_public_key decode key) s _ (λ e. refused_call db (replace_call id key) s e)
          (λ key_ok.
            key-Refines (replace_call id key) (some key) refl (λ old m t. replacing id key old m t)
              key_ok)

    pub clear-Refines :
        Refines db
          (clear_call id)
          s
          (machine_outcome (clear_host_key db id s).0)
          (clear_host_key db id s).1
    unfolding clear_host_key
    clear-Refines = key-Refines (clear_call id) none refl (λ old m t. clearing id old m t) refl

    nothing_deleted :
        (rows : ℕ → Option MachineRow)
        → db.row s id ≡ none
        → SetsRow (db.row s) rows id none
        → KeepsRows (db.row s) rows
    nothing_deleted rows missing set j = elim (Bool-cases (j == id)) [
      | inl here ↦
          let same = (==_iff j id).0 here in set j ∙ rw here (sym (ap (db.row s) same ∙ missing))
      | inr there ↦ rw there at (set j)
    ]

    deleted_row :
        (old : MachineRow)
        → db.row s id ≡ some old
        → SetsRow (db.row s) (db.row (db.delete id s).1) id none
        → Step (table db s) (delete_call id) removed (table db (db.delete id s).1)
    deleted_row old held rows =
        deleting id (machine_of old) (table db (db.delete id s).1) (ap machine_at held)
          (Sets-table db s (db.delete id s).1 id none rows)

    deleted_call :
        (answer : Result SqlxError ℕ)
        → (db.delete id s).0 ≡ answer
        → Refines db (delete_call id) s (delete_outcome (reply_delete answer)) (db.delete id s).1
    deleted_call (err e) broken =
        lost_call db (delete_call id) s (db.delete id s).1 e (elim (laws.delete_err s id e broken) [
          | inl same ↦ inl same
          | inr (lost, rows) ↦ elim (Option-cases (db.row s id)) [
            | inl missing ↦ inl (nothing_deleted (db.row (db.delete id s).1) missing rows)
            | inr (old, held) ↦ inr (lost, (removed, deleted_row old held rows))
          ]
        ])
    deleted_call (ok n) answered =
        let (count, rows) = laws.delete_ok s id n answered in
        elim (Option-cases (db.row s id)) [
          | inl missing ↦
              subst
                (λ k.
                  Refines db (delete_call id) s (delete_outcome (reply_delete (ok k)))
                    (db.delete id s).1)
                (sym (rw missing at count))
                (failed_call db (delete_call id) s (db.delete id s).1 not_found
                  (λ _. ap machine_at missing)
                  (nothing_deleted (db.row (db.delete id s).1) missing rows))
          | inr (old, held) ↦
              subst
                (λ k.
                  Refines db (delete_call id) s (delete_outcome (reply_delete (ok k)))
                    (db.delete id s).1)
                (sym (rw held at count))
                (record { outcome = removed; gives = refl; step = deleted_row old held rows })
        ]

    pub delete-Refines :
        Refines db (delete_call id) s (delete_outcome (delete db id s).0) (delete db id s).1
    unfolding delete
    delete-Refines = deleted_call (db.delete id s).0 refl

  pub list-Refines :
      (laws : IsDatabase db) (s : db.State) (limit : ℕ)
      → IsSound is_ip decode db s
      → Refines db (list_call limit) s (page_outcome (list db limit s).0) (list db limit s).1
  unfolding list
  list-Refines laws s limit h =
      when_valid-holds (λ p. Refines db (list_call limit) s (page_outcome p.0) p.1)
        (validate_list_limit limit) s _ (λ e. refused_call db (list_call limit) s e)
        (λ _.
          page_call is_ip decode db s (db.select_page limit s).1 limit (db.select_page limit s).0 h
            (λ rows answered. laws.select_page_ok s limit rows answered)
            (laws.select_page_keeps s limit))
