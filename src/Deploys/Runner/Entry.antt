-- ===== src/Deploys/Runner/Entry.antt =====
-- `run_cancelled` of src/integrations/deploys/runner.rs: the permit, the catalog and the pin in front
-- of the worker, which both branches of `select!` wait for. The cancellation reaches the worker
-- through its world.
pub mod Laws
use homelab_mcp.Prelude.{
  ℕ, zero, suc, Bool, true, false, not, Option, none, some, List, [], ◌∷◌, ◌++◌, any, if◌then◌else◌,
  Result, ok, err, is_some, take,
}
use homelab_mcp.Text.{Str}
use homelab_mcp.Inventory.{Machine}
use homelab_mcp.Deploys.{DeployError, busy, missing_host_pin, execution_outcome_unknown}
use homelab_mcp.Deploys.Catalog.{DeployCatalog, resolve}
use homelab_mcp.Deploys.Normalize.{Section}
use homelab_mcp.Deploys.Runner.{World, worker}
use homelab_mcp.Deploys.Runner.Steps.{
  Action, made_dir, removed_dir, Work, returns, lift, fail_if, ◌>>=◌, ◌>>◌,
}

abbrev is_removal : Action → Bool
is_removal (removed_dir dir) = true
is_removal _ = false

-- A panic unwinds, which drops `Cleanup` if the directory has been made and not removed.
abbrev pub unwound : List Action → List Action
unwound (made_dir dir ∷ actions) =
    if any is_removal actions
    then made_dir dir ∷ actions
    else made_dir dir ∷ actions ++ removed_dir dir ∷ []
unwound actions = actions

-- A worker that panics after some actions drops its end of the channel.
abbrev pub delivered : {A : Type 0} → Option ℕ → Work A → Work A
delivered none m = m
delivered (some n) m = record {
  step = returns (err execution_outcome_unknown);
  trace = unwound (take n m.trace);
}

module _ (decode : Str → Option (List ℕ)) (from_utf8 : List ℕ → Option Str) where
  -- with the permits that are left, and after how many actions the worker panics, if it does
  unfoldable pub run_cancelled :
      ℕ → DeployCatalog → World → Option ℕ → Str → Str → Machine → Work (List Section)
  run_cancelled zero catalog w panics temp_root deploy_id machine = lift (err busy)
  run_cancelled (suc permits) catalog w panics temp_root deploy_id machine = do
    deploy ← lift (resolve catalog deploy_id)
    fail_if (not (is_some machine.pinned_host_public_key)) missing_host_pin
    delivered panics (worker decode from_utf8 w temp_root machine)
