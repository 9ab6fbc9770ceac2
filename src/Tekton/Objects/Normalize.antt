-- ===== src/Tekton/Objects/Normalize.antt =====
-- `normalize_run` and `normalize_task` of src/integrations/tekton/client.rs.
use homelab_mcp.Prelude.{Option, none, some, ◌∷◌, ◌++◌, if◌then◌else◌, take, is_some}
use homelab_mcp.Text.{Str, lit}
use homelab_mcp.Json.{Json, at_key, str_at}
use homelab_mcp.Tekton.Objects.{
  Repository, repository_label, Run, TaskRun, TaskStep, StepStatus, step_terminated, step_running,
  step_waiting, or_else, unwrap_or, filter_map, items_of, metadata, object_name, label, has_label,
  condition, run_status, reason_of, workflow_name, branch_of,
}

module _ (json : Json) where
  abbrev pub status_at : json.Value → Str → Option Str
  status_at item key = str_at json (at_key json item (lit "status")) key

  abbrev pub run_record : json.Value → Str → Repository → Str → Run
  run_record item namespace repository name = record {
    id = namespace ++ b'/' ∷ name;
    repository = repository.id;
    workflow = unwrap_or name (workflow_name json item);
    branch = branch_of json item;
    revision = label json item (lit "pipelinesascode.tekton.dev/sha");
    status = run_status json item;
    reason = reason_of json (condition json item);
    created_at = str_at json (metadata json item) (lit "creationTimestamp");
    started_at = status_at item (lit "startTime");
    completed_at = status_at item (lit "completionTime");
    parameter_names = take 32 (
        filter_map (λ param. str_at json param (lit "name"))
          (items_of json (at_key json (at_key json item (lit "spec")) (lit "params"))));
  }

  abbrev pub named_run : Option Str → json.Value → Str → Repository → Option Run
  named_run none item namespace repository = none
  named_run (some name) item namespace repository = some (run_record item namespace repository name)

  -- only a run with the label of the repository
  unfoldable pub normalize_run : json.Value → Str → Repository → Option Run
  normalize_run item namespace repository =
      if has_label json item repository_label repository.cr_name
      then named_run (object_name json item) item namespace repository
      else none

  abbrev pub step_status : json.Value → StepStatus
  step_status step =
      if is_some (json.get step (lit "terminated"))
      then step_terminated
      else if is_some (json.get step (lit "running"))
      then step_running
      else step_waiting

  abbrev pub task_step : json.Value → Option TaskStep
  task_step step = elim (str_at json step (lit "name")) [
    | none ↦ none
    | some name ↦ some (record {
      name = name;
      status = step_status step;
      reason =
          or_else (str_at json (at_key json step (lit "terminated")) (lit "reason"))
            (str_at json (at_key json step (lit "waiting")) (lit "reason"));
    })
  ]

  abbrev pub task_record : json.Value → Str → Str → Str → TaskRun
  task_record item namespace run_name name = record {
    id = namespace ++ b'/' ∷ name;
    run_id = namespace ++ b'/' ∷ run_name;
    pipeline_task = label json item (lit "tekton.dev/pipelineTask");
    status = run_status json item;
    reason = reason_of json (condition json item);
    created_at = str_at json (metadata json item) (lit "creationTimestamp");
    started_at = status_at item (lit "startTime");
    completed_at = status_at item (lit "completionTime");
    steps = take 32 (
        filter_map task_step
          (items_of json (at_key json (at_key json item (lit "status")) (lit "steps"))));
  }

  unfoldable pub normalize_task : json.Value → Str → Str → Option TaskRun
  normalize_task item namespace run_name = elim (object_name json item) [
    | none ↦ none
    | some name ↦ some (task_record item namespace run_name name)
  ]
