-- ===== src/Tekton/Queries.antt =====
-- The calls of src/integrations/tekton/client.rs that only read: lists of repositories, workflows,
-- runs and tasks, and the status of a run.
use homelab_mcp.Prelude.{
  ℕ, Bool, true, false, not, ◌&&◌, ◌||◌, Option, none, some, List, [], ◌∷◌, ◌++◌, Result, ok, err,
  ok_or, ltb, take, length, sort_by, reject_if,
}
use homelab_mcp.Text.{Str, lit, str_eq, str_le}
use homelab_mcp.Json.{str_at, at_key}
use homelab_mcp.Tasks.{lift, ◌>>=◌, ◌>>◌}
use homelab_mcp.Tekton.{TektonError, timeout, not_found, invalid_response}
use homelab_mcp.Tekton.Texts.{redact, truncate_utf8, truncated_or_nothing}
use homelab_mcp.Tekton.Env.{Env, Value, State, Task}
use homelab_mcp.Tekton.Objects.{
  Repository, Run, TaskRun, status_text, is_failed, repository_label, pipeline_run_label, filter,
  filter_map, condition, object_name, object_uid, label, has_label, owned_by, run_status,
  branch_matches, items_of,
}
use homelab_mcp.Tekton.Objects.Normalize.{normalize_run, normalize_task}
use homelab_mcp.Tekton.Listing.{kube_list}
use homelab_mcp.Tekton.Repositories.{repository_catalog, repository, owned_run}
use homelab_mcp.Tekton.Workflows.{Workflow, repository_workflows}

abbrev pub max_workflow_repositories : ℕ
max_workflow_repositories = 50

abbrev pub max_failed_tasks : ℕ
max_failed_tasks = 20

abbrev pub max_condition_message_bytes : ℕ
max_condition_message_bytes = 4096

pub record Page (A : Type 0) : Type 0 where
  pub result : List A
  pub source_truncated : Bool
  pub result_truncated : Bool

-- `truncated` of a page
abbrev pub is_truncated : {A : Type 0} → Page A → Bool
is_truncated page = page.source_truncated || page.result_truncated

-- the items up to the limit
abbrev pub page_of : {A : Type 0} → ℕ → Bool → List A → Page A
page_of limit source_truncated items = record {
  result = take limit items;
  source_truncated = source_truncated;
  result_truncated = ltb limit (length items);
}

-- `None` stands before every text
abbrev pub time_le : Option Str → Option Str → Bool
time_le none other = true
time_le (some a) none = false
time_le (some a) (some b) = str_le a b

-- the order of `sort_newest`: the later time first, then by the id
abbrev pub newest : Option Str → Str → Option Str → Str → Bool
newest time id time' id' = not (time_le time time') || (time_le time' time && str_le id id')

unfoldable pub sort_newest_runs : List Run → List Run
sort_newest_runs = sort_by (λ a b. newest a.created_at a.id b.created_at b.id)

unfoldable pub sort_newest_tasks : List TaskRun → List TaskRun
sort_newest_tasks = sort_by (λ a b. newest a.created_at a.id b.created_at b.id)

pub record RunListQuery : Type 0 where
  pub repository : Str
  pub workflow : Option Str
  pub branch : Option Str
  pub revision : Option Str
  pub status : Option Str
  pub limit : ℕ

-- `query.field.is_none_or(|value| actual == value)`
abbrev pub is_none_or : Option Str → Str → Bool
is_none_or none actual = true
is_none_or (some value) actual = str_eq actual value

abbrev pub is_none_or_some : Option Str → Option Str → Bool
is_none_or_some none actual = true
is_none_or_some (some value) none = false
is_none_or_some (some value) (some actual) = str_eq actual value

abbrev pub is_none_or_branch : Option Str → Option Str → Bool
is_none_or_branch none actual = true
is_none_or_branch (some value) actual = branch_matches actual value

-- the four filters in a row
unfoldable pub run_matches : RunListQuery → Run → Bool
run_matches query run =
    is_none_or query.workflow run.workflow
    && is_none_or_branch query.branch run.branch
    && is_none_or_some query.revision run.revision
    && is_none_or query.status (status_text run.status)

-- a repository whose workflows could not be found, or what was found
pub record WorkflowList : Type 0 where
  pub result : List Workflow
  pub partial_failures : List Str
  pub truncated : Bool

pub record FailedTask : Type 0 where
  pub task : TaskRun
  pub condition_message : Option Str
  pub condition_message_truncated : Bool
  pub steps_truncated : Bool

pub record StatusReport : Type 0 where
  pub result : Run
  pub condition_message : Option Str
  pub condition_message_truncated : Bool
  pub failed_tasks : Page FailedTask

module _ (env : Env) where
  unfoldable pub repositories : ℕ → Task (Page Repository)
  repositories limit = do catalog ← repository_catalog env; lift (ok (page_of limit false catalog))

  abbrev pub chosen : Option Str → List Repository → List Repository
  chosen none catalog = catalog
  chosen (some id) catalog = filter (λ r. str_eq r.id id) catalog

  abbrev pub none_chosen : Option Str → List Repository → Bool
  none_chosen (some id) [] = true
  none_chosen _ _ = false

  -- the outcome of one repository in front of those of the others
  abbrev pub with_outcome :
      Str → Result TektonError (List Workflow) → List Workflow × List Str → List Workflow × List Str
  with_outcome id (ok found) (workflows, failures) = (found ++ workflows, failures)
  with_outcome id (err e) (workflows, failures) = (workflows, id ∷ failures)

  -- the loop over the repositories, in which no error ends the loop
  unfoldable pub discover : List Repository → State → (List Workflow × List Str) × State
  discover [] s = (([], []), s)
  discover (r ∷ rs) s =
      let (found, s1) = repository_workflows env r s in
      let (others, s2) = discover rs s1 in (with_outcome r.id found others, s2)

  abbrev pub workflow_list : ℕ → Bool → List Workflow × List Str → WorkflowList
  workflow_list limit more (workflows, failures) = record {
    result = take limit (sort_by (λ a b. str_le a.id b.id) workflows);
    partial_failures = failures;
    truncated = more || ltb limit (length workflows);
  }

  unfoldable pub workflows_inner : Option Str → ℕ → Task WorkflowList
  workflows_inner id limit = do
    catalog ← repository_catalog env
    lift (reject_if (none_chosen id (chosen id catalog)) not_found)
    (λ s.
        let (found, s') = discover (take max_workflow_repositories (chosen id catalog)) s in
        (
          ok (
              workflow_list limit (ltb max_workflow_repositories (length (chosen id catalog)))
                found),
          s',
        ))

  -- `workflows`, with whether the whole is in time
  unfoldable pub workflows : Bool → Option Str → ℕ → Task WorkflowList
  workflows true id limit = workflows_inner id limit
  workflows false id limit = lift (err timeout)

  abbrev pub listing_path : Str → Str
  listing_path kind = lit "/apis/tekton.dev/v1/namespaces/" ++ env.namespace ++ b'/' ∷ kind

  unfoldable pub runs : RunListQuery → Task (Page Run)
  runs query = do
    owner ← repository env query.repository
    listed ←
        kube_list env (listing_path (lit "pipelineruns"))
          (some (repository_label ++ b'=' ∷ owner.cr_name))
    let found = filter_map (λ item. normalize_run env.json item env.namespace owner) listed.0
    lift (ok (page_of query.limit listed.1 (sort_newest_runs (filter (run_matches query) found))))

  unfoldable pub run : Str → Task Run
  run run_id = do
    owned ← owned_run env run_id
    lift (ok_or invalid_response (normalize_run env.json owned.0 env.namespace owned.1))

  abbrev pub redacted_message : Option Str → Option Str × Bool
  redacted_message none = (none, false)
  redacted_message (some message) =
      let (text, truncated) =
        truncated_or_nothing
          (truncate_utf8 (redact env.redactions message) max_condition_message_bytes) in
      (some text, truncated)

  abbrev pub message_of : Option (Value env) → Option Str
  message_of none = none
  message_of (some c) = str_at env.json c (lit "message")

  unfoldable pub condition_message : Value env → Option Str × Bool
  condition_message item = redacted_message (message_of (condition env.json item))

  -- the tasks of a run: by the labels and the owner
  abbrev pub is_task_of : Str → Str → Str → Value env → Bool
  is_task_of repository_name run_name run_uid item =
      has_label env.json item repository_label repository_name
      && owned_by env.json item (lit "PipelineRun") run_name run_uid

  abbrev pub failed_task : Str → Value env → Option FailedTask
  failed_task run_name item = elim (normalize_task env.json item env.namespace run_name) [
    | none ↦ none
    | some found ↦ some (record {
      task = found;
      condition_message = (condition_message item).0;
      condition_message_truncated = (condition_message item).1;
      steps_truncated = ltb 32 (
          length (
            items_of env.json
              (at_key env.json (at_key env.json item (lit "status")) (lit "steps"))));
    })
  ]

  unfoldable pub sort_newest_failed : List FailedTask → List FailedTask
  sort_newest_failed =
      sort_by (λ a b. newest a.task.created_at a.task.id b.task.created_at b.task.id)

  unfoldable pub status : Str → Task StatusReport
  status run_id = do
    owned ← owned_run env run_id
    found ← lift (ok_or invalid_response (normalize_run env.json owned.0 env.namespace owned.1))
    run_name ← lift (ok_or invalid_response (object_name env.json owned.0))
    run_uid ← lift (ok_or invalid_response (object_uid env.json owned.0))
    repository_name ← lift (ok_or not_found (label env.json owned.0 repository_label))
    listed ←
        kube_list env (listing_path (lit "taskruns")) (some (pipeline_run_label ++ b'=' ∷ run_name))
    let failed =
        filter (λ item. is_failed (run_status env.json item))
          (filter (is_task_of repository_name run_name run_uid) listed.0)
    lift (
        ok (record {
          result = found;
          condition_message = (condition_message owned.0).0;
          condition_message_truncated = (condition_message owned.0).1;
          failed_tasks =
              page_of max_failed_tasks listed.1
                (sort_newest_failed (filter_map (failed_task run_name) failed));
        }))

  unfoldable pub tasks : Str → ℕ → Task (Page TaskRun)
  tasks run_id limit = do
    owned ← owned_run env run_id
    run_name ← lift (ok_or invalid_response (object_name env.json owned.0))
    run_uid ← lift (ok_or invalid_response (object_uid env.json owned.0))
    repository_name ← lift (ok_or not_found (label env.json owned.0 repository_label))
    listed ←
        kube_list env (listing_path (lit "taskruns")) (some (pipeline_run_label ++ b'=' ∷ run_name))
    let found =
        filter_map (λ item. normalize_task env.json item env.namespace run_name)
          (filter (is_task_of repository_name run_name run_uid) listed.0)
    lift (ok (page_of limit listed.1 (sort_newest_tasks found)))
