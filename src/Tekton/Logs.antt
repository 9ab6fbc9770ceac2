-- ===== src/Tekton/Logs.antt =====
-- `logs` of src/integrations/tekton/client.rs: the end of the logs of a task's steps, redacted and
-- within a budget of bytes.
pub mod Laws
use homelab_mcp.Prelude.{
  ℕ, zero, ◌-◌, Bool, true, false, not, ◌&&◌, ◌||◌, Option, none, some, List, [], ◌∷◌, ◌++◌, Result,
  ok, err, ok_or, reject_if, leb, ltb, ◌==◌, if◌then◌else◌, any, take, length,
}
use homelab_mcp.Text.{Str, lit, len, str_eq, lines, decimal_from}
use homelab_mcp.Json.{array_of, at_key, str_at, has_str}
use homelab_mcp.Tasks.{lift, ◌>>=◌, ◌>>◌}
use homelab_mcp.Tekton.{TektonError, not_found, invalid_response}
use homelab_mcp.Tekton.Texts.{redact, redact_one, truncate_utf8, truncated_or_nothing}
use homelab_mcp.Tekton.Env.{Env, Value, Task, get_json, get_text}
use homelab_mcp.Tekton.Objects.{
  repository_label, pipeline_run_label, filter, filter_map, object_name, object_uid, label,
  has_label, owned_by, namespaced_id,
}
use homelab_mcp.Tekton.Repositories.{owned_run}

abbrev pub max_log_steps : ℕ
max_log_steps = 8

pub record TaskLogsQuery : Type 0 where
  pub run_id : Str
  pub task_id : Str
  pub step : Option Str
  pub tail_lines : ℕ
  pub max_bytes : ℕ

pub record StepLog : Type 0 where
  pub step : Str
  pub text : Str
  pub tail_truncated : Bool
  pub byte_truncated : Bool

pub record TaskLogs : Type 0 where
  pub result : List StepLog
  pub truncated : Bool
  pub steps_omitted : Bool

module _ (env : Env) where
  abbrev pub task_path : Str → Str
  task_path name =
      lit "/apis/tekton.dev/v1/namespaces/" ++ env.namespace ++ lit "/taskruns/" ++ name

  abbrev pub pod_path : Str → Str
  pod_path pod = lit "/api/v1/namespaces/" ++ env.namespace ++ lit "/pods/" ++ pod

  unfoldable pub task_object : Str → Task (Value env)
  task_object id = do name ← lift (namespaced_id id env.namespace); get_json env (task_path name) []

  -- the pod is owned by this very task
  unfoldable pub verify_task_pod : Value env → Str → Task (Unit {0})
  verify_task_pod task pod_name = do
    task_uid ← lift (ok_or not_found (object_uid env.json task))
    task_name ← lift (ok_or not_found (object_name env.json task))
    pod ← get_json env (pod_path pod_name) []
    lift (reject_if (not (owned_by env.json pod (lit "TaskRun") task_name task_uid)) not_found)

  abbrev pub named_step : Value env → Option (Str × Str)
  named_step step = elim (str_at env.json step (lit "name")) [
    | none ↦ none
    | some name ↦ elim (str_at env.json step (lit "container")) [
      | none ↦ none
      | some container ↦ some (name, container)
    ]
  ]

  abbrev pub is_selected : Option Str → Str × Str → Bool
  is_selected none step = true
  is_selected (some selected) (name, container) = str_eq selected name

  -- what is shown of the bytes of a log: redacted, then cut to what was asked for
  unfoldable pub shown_text : List ℕ → Str → ℕ → Str × Bool
  shown_text bytes kube_token requested = truncated_or_nothing (
      truncate_utf8 (redact_one kube_token (redact env.redactions (env.from_utf8_lossy bytes)))
        requested)

  abbrev pub step_log : TaskLogsQuery → Str → List ℕ → ℕ → Str × Bool → StepLog
  step_log query name bytes requested (text, cut) = record {
    step = name;
    text = text;
    tail_truncated = leb query.tail_lines (lines text);
    byte_truncated = leb requested (length bytes) || cut;
  }

  abbrev pub log_query : TaskLogsQuery → Str → ℕ → List (Str × Str)
  log_query query container requested =
      (lit "container", container)
      ∷ (lit "tailLines", decimal_from 5 query.tail_lines [])
      ∷ (lit "limitBytes", decimal_from 10 requested [])
      ∷ []

  -- the loop over the steps, with the bytes that are left, and what is left at its end
  unfoldable pub read_logs : TaskLogsQuery → Str → List (Str × Str) → ℕ → Task (List StepLog × ℕ)
  read_logs query pod [] remaining = lift (ok ([], remaining))
  read_logs query pod ((name, container) ∷ steps) remaining =
      if remaining == 0 then lift (ok ([], remaining)) else (do
        answer ←
            get_text env (pod_path pod ++ lit "/log") (log_query query container remaining)
              remaining
        let shown = shown_text answer.0 answer.1 remaining
        rest ← read_logs query pod steps (remaining - len shown.0)
        lift (ok (step_log query name answer.0 remaining shown ∷ rest.0, rest.1)))

  abbrev pub is_cut : StepLog → Bool
  is_cut log = log.tail_truncated || log.byte_truncated

  abbrev pub logs_of : Bool → List StepLog × ℕ → TaskLogs
  logs_of omitted (result, remaining) = record {
    result = result;
    truncated = omitted || remaining == 0 || any is_cut result;
    steps_omitted = omitted;
  }

  abbrev pub task_status : Value env → Value env
  task_status task = at_key env.json task (lit "status")

  abbrev pub no_steps : List (Str × Str) → Bool
  no_steps [] = true
  no_steps _ = false

  -- the checks in front of the loop: the pod of the task, and the steps that were asked for
  unfoldable pub find_steps : TaskLogsQuery → Task (Str × List (Str × Str))
  find_steps query = do
    owned ← owned_run env query.run_id
    run_name ← lift (ok_or invalid_response (object_name env.json owned.0))
    run_uid ← lift (ok_or invalid_response (object_uid env.json owned.0))
    repository_name ← lift (ok_or not_found (label env.json owned.0 repository_label))
    task ← task_object query.task_id
    lift (
        reject_if
          (not (has_label env.json task pipeline_run_label run_name)
            || not (has_label env.json task repository_label repository_name)
            || not (owned_by env.json task (lit "PipelineRun") run_name run_uid))
          not_found)
    pod ← lift (ok_or not_found (str_at env.json (task_status task) (lit "podName")))
    verify_task_pod task pod
    available ← lift (
        ok_or invalid_response
          (array_of (env.json.view (at_key env.json (task_status task) (lit "steps")))))
    let selected = filter (is_selected query.step) (filter_map named_step available)
    lift (reject_if (no_steps (take max_log_steps selected)) not_found)
    lift (ok (pod, selected))

  unfoldable pub logs : TaskLogsQuery → Task TaskLogs
  logs query = do
    found ← find_steps query
    read ← read_logs query found.0 (take max_log_steps found.1) query.max_bytes
    lift (ok (logs_of (ltb max_log_steps (length found.1)) read))
