-- ===== src/Inventory/Table/Refinement.antt =====
-- The repository of src/inventory.rs against the table of machines, for calls in turn.
use homelab_mcp.Prelude.{ℕ, Bool, ◌≡◌, refl, Option, some, List, [], ◌∷◌}
use homelab_mcp.Text.{Str}
use homelab_mcp.Inventory.Database.{Database, IsDatabase}
use homelab_mcp.Inventory.Repository.Keeps.{
  IsSound, Call, create_call, get_call, list_call, update_call, replace_call, clear_call,
  delete_call, after, after_all, after-IsSound,
}
use homelab_mcp.Inventory.Table.{Outcome, Run, ended, called, given, given_all}
use homelab_mcp.Inventory.Table.Rules.{table, Refines}
use homelab_mcp.Inventory.Table.Writes.{create-Refines, update-Refines}
use homelab_mcp.Inventory.Table.Calls.{
  get-Refines, replace-Refines, clear-Refines, delete-Refines, list-Refines,
}

module _ (is_ip : Str → Bool) (decode : Str → Option (List ℕ)) (db : Database) where
  call-Refines :
      (laws : IsDatabase db) (c : Call) (s : db.State)
      → IsSound is_ip decode db s
      → Refines db c s (given is_ip decode db c s) (after is_ip decode db c s)
  unfolding given after
  call-Refines laws (create_call id input) s h = create-Refines is_ip decode db laws s h id input
  call-Refines laws (get_call id) s h = get-Refines is_ip decode db laws s h id
  call-Refines laws (list_call limit) s h = list-Refines is_ip decode db laws s limit h
  call-Refines laws (update_call id input) s h = update-Refines is_ip decode db laws s h id input
  call-Refines laws (replace_call id key) s h = replace-Refines is_ip decode db laws s h id key
  call-Refines laws (clear_call id) s h = clear-Refines is_ip decode db laws s h id
  call-Refines laws (delete_call id) s h = delete-Refines is_ip decode db laws s h id

  -- On a lawful database with valid rows, any calls in turn are answered without a panic, and what they
  -- give back and where they lead is a run of the table: each success has its own effect on its own id
  -- alone, a machine is said to be missing only if it is, and a failure changes nothing, unless it is
  -- `database`, after which the call may have had the effect of a success.
  pub given_all-IsRun :
      (laws : IsDatabase db) (cs : List Call) (s : db.State)
      → IsSound is_ip decode db s
      → (os : List Outcome) × (given_all is_ip decode db cs s ≡ some os)
        × Run (table db s) cs os (table db (after_all is_ip decode db cs s))
  unfolding given_all after_all
  given_all-IsRun laws [] s h = ([], refl, ended (table db s))
  given_all-IsRun laws (c ∷ cs) s h =
      let first = call-Refines laws c s h in
      let (os, later, run) =
        given_all-IsRun laws cs (after is_ip decode db c s)
          (after-IsSound is_ip decode db laws c s h) in
      (
        first.outcome ∷ os,
        rw (first.gives, later),
        called (table db s) (table db (after is_ip decode db c s)) _ c cs first.outcome os
            first.step run,
      )
