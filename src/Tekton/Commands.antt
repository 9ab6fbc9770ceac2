-- ===== src/Tekton/Commands.antt =====
-- The calls of src/integrations/tekton/client.rs that change something: `dispatch`, `rerun` and
-- `cancel`.
pub mod Posts
pub mod Laws
pub mod Rerun
use homelab_mcp.Prelude.{
  Bool, true, false, not, ◌&&◌, Option, none, some, List, [], ◌∷◌, ◌++◌, Result, ok, err, ok_or,
  reject_if, find_item,
}
use homelab_mcp.Text.{Str, lit, str_eq, strip_prefix}
use homelab_mcp.Json.{str_at}
use homelab_mcp.Tasks.{lift, ◌>>=◌, ◌>>◌}
use homelab_mcp.Tekton.{TektonError, not_found, mutation_rejected}
use homelab_mcp.Tekton.Texts.{bounded_text}
use homelab_mcp.Tekton.Env.{Env, Value, Task, Incoming, send_pac, patch_cancelled}
use homelab_mcp.Tekton.Objects.{
  Repository, repository_label, label, metadata, run_status, is_running, workflow_name, branch_of,
  namespaced_id, unwrap_or,
}
use homelab_mcp.Tekton.Repositories.{repository, owned_run, run_path}
use homelab_mcp.Tekton.Workflows.{Workflow, repository_workflows, triggerable_workflow}

pub record Dispatch : Type 0 where
  pub repository : Str
  pub workflow : Str
  pub reference : Str
  pub params : List (Str × Str)

-- the two ids of an accepted request
pub record Accepted : Type 0 where
  pub repository : Str
  pub workflow : Str

abbrev pub incoming_of : Repository → Workflow → Str → List (Str × Str) → Incoming
incoming_of owner workflow reference params = record {
  repository = owner.cr_name;
  branch = reference;
  pipelinerun = workflow.definition;
  params = params;
}

abbrev pub accepted : Repository → Workflow → Accepted
accepted owner workflow = record { repository = owner.id; workflow = workflow.id }

-- `reference.strip_prefix("refs/heads/").unwrap_or(reference)`
abbrev pub short_reference : Str → Str
short_reference reference = unwrap_or reference (strip_prefix (lit "refs/heads/") reference)

module _ (env : Env) where
  unfoldable pub dispatch : Dispatch → Task Accepted
  dispatch command = do
    owner ← repository env command.repository
    workflow ← triggerable_workflow env owner command.workflow
    send_pac env (incoming_of owner workflow command.reference command.params)
    lift (ok (accepted owner workflow))

  unfoldable pub rerun : Str → Task Accepted
  rerun run_id = do
    owned ← owned_run env run_id
    name ← lift (ok_or not_found (label env.json owned.0 repository_label))
    lift (reject_if (not (str_eq owned.1.cr_name name)) not_found)
    definition ← lift (ok_or mutation_rejected (workflow_name env.json owned.0))
    workflows ← repository_workflows env owned.1
    workflow ← lift (
        ok_or mutation_rejected
          (find_item (λ w. str_eq w.definition definition && w.triggerable) workflows))
    reference ← lift (ok_or mutation_rejected (branch_of env.json owned.0))
    lift (reject_if (not (bounded_text (short_reference reference) 512)) mutation_rejected)
    send_pac env (incoming_of owned.1 workflow (short_reference reference) [])
    lift (ok (accepted owned.1 workflow))

  unfoldable pub cancel : Str → Task (Unit {0})
  cancel run_id = do
    owned ← owned_run env run_id
    lift (reject_if (not (is_running (run_status env.json owned.0))) mutation_rejected)
    version ← lift (
        ok_or mutation_rejected
          (str_at env.json (metadata env.json owned.0) (lit "resourceVersion")))
    name ← lift (namespaced_id run_id env.namespace)
    patch_cancelled env (run_path env name) version
