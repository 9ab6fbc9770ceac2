-- ===== src/Tekton/Actions.antt =====
-- src/integrations/tekton/actions.rs: the arguments of the tools and what becomes of them. An input
-- that is refused gives no reason, and a command that is only a run id is that text.
pub mod Laws
use homelab_mcp.Prelude.{
  ℕ, ◌*◌, Bool, true, false, not, ◌&&◌, ◌||◌, Option, none, some, List, [], ◌∷◌, Result, ok, err,
  reject_if, ◌>>=◌, ◌>>◌, leb, ltb, if◌then◌else◌, any, all, length,
}
use homelab_mcp.Text.{
  Str, lit, len, str_eq, split, is_empty, trim, contains_char, is_control, is_ascii_lowercase,
  is_ascii_digit,
}
use homelab_mcp.Tekton.Objects.{unwrap_or}
use homelab_mcp.Tekton.Texts.{bounded_text}
use homelab_mcp.Tekton.Repositories.{valid_repository_component}
use homelab_mcp.Tekton.Queries.{RunListQuery}
use homelab_mcp.Tekton.Logs.{TaskLogsQuery}
use homelab_mcp.Tekton.Commands.{Dispatch}

abbrev pub Checked : Type 0 → Type 0
Checked A = Result (Unit {0}) A

abbrev pub max_identifier_bytes : ℕ
max_identifier_bytes = 512

abbrev pub max_ref_bytes : ℕ
max_ref_bytes = 512

abbrev pub max_params : ℕ
max_params = 20

abbrev pub max_param_key_bytes : ℕ
max_param_key_bytes = 128

abbrev pub max_param_value_bytes : ℕ
max_param_value_bytes = 4096

unfoldable pub bounded_limit : Option ℕ → ℕ → ℕ → Checked ℕ
bounded_limit value default maximum =
    if ltb 0 (unwrap_or default value) && leb (unwrap_or default value) maximum
    then ok (unwrap_or default value)
    else err tt

unfoldable pub valid_dns : Str → Bool
valid_dns value =
    not (is_empty value)
    && leb (len value) 253
    && all (λ c. is_ascii_lowercase c || is_ascii_digit c || contains_char (lit "-.") c) value

unfoldable pub valid_text : Str → ℕ → Bool
valid_text value maximum =
    not (is_empty (trim value)) && leb (len value) maximum && not (any is_control value)

-- exactly two parts, each of which passes
abbrev pub valid_pair : (Str → Bool) → List Str → Bool
valid_pair valid (a ∷ b ∷ []) = valid a && valid b
valid_pair valid _ = false

unfoldable pub valid_repository_key : Str → Bool
valid_repository_key value = valid_pair valid_repository_component (split b'/' value)

unfoldable pub valid_namespaced_id : Str → Bool
valid_namespaced_id value = valid_pair valid_dns (split b'/' value)

unfoldable pub valid_params : List (Str × Str) → Bool
valid_params params =
    leb (length params) max_params
    && all
        (λ p.
          valid_text p.0 max_param_key_bytes
          && leb (len p.1) max_param_value_bytes
          && not (any is_control p.0)
          && not (any is_control p.1))
        params

-- `is_some_and(|value| !valid(value))`
abbrev pub refuses : (Str → Bool) → Option Str → Bool
refuses valid none = false
refuses valid (some value) = not (valid value)

abbrev pub is_status : Str → Bool
is_status value =
    str_eq value (lit "running")
    || str_eq value (lit "succeeded")
    || str_eq value (lit "failed")
    || str_eq value (lit "cancelled")

-- `RepositoryListInput::validate`
unfoldable pub repository_list : Option ℕ → Checked ℕ
repository_list limit = bounded_limit limit 50 100

-- `WorkflowListInput::validate`
unfoldable pub workflow_list_query : Option Str → Option ℕ → Checked (Option Str × ℕ)
workflow_list_query repository limit = do
  reject_if (refuses valid_repository_key repository) tt
  limit ← bounded_limit limit 100 200
  ok (repository, limit)

pub record RunListInput : Type 0 where
  pub repository : Str
  pub workflow : Option Str
  pub branch : Option Str
  pub revision : Option Str
  pub status : Option Str
  pub limit : Option ℕ

-- `RunListInput::validate`
unfoldable pub run_list_query : RunListInput → Checked RunListQuery
run_list_query input = do
  reject_if
      (not (valid_repository_key input.repository)
        || refuses (λ value. valid_text value 253) input.workflow
        || refuses (λ value. valid_text value max_ref_bytes) input.branch
        || refuses (λ value. valid_text value max_ref_bytes) input.revision
        || refuses is_status input.status)
      tt
  limit ← bounded_limit input.limit 50 100
  ok (record {
    repository = input.repository;
    workflow = input.workflow;
    branch = input.branch;
    revision = input.revision;
    status = input.status;
    limit = limit;
  })

-- `validate` of `RunGetInput`, `RunStatusInput`, `RunRerunInput` and `RunCancelInput`
unfoldable pub run_id_only : Str → Checked Str
run_id_only run_id = if not (valid_namespaced_id run_id) then err tt else ok run_id

-- `RunWaitInput::validate`: the run and the seconds
unfoldable pub run_wait_query : Str → Option ℕ → Checked (Str × ℕ)
run_wait_query run_id timeout_seconds = do
  reject_if (not (valid_namespaced_id run_id)) tt
  seconds ← bounded_limit timeout_seconds 60 300
  ok (run_id, seconds)

-- `TaskListInput::validate`
unfoldable pub task_list_query : Str → Option ℕ → Checked (Str × ℕ)
task_list_query run_id limit = do
  reject_if (not (valid_namespaced_id run_id)) tt
  limit ← bounded_limit limit 50 100
  ok (run_id, limit)

pub record TaskLogsInput : Type 0 where
  pub run_id : Str
  pub task_id : Str
  pub step : Option Str
  pub tail_lines : Option ℕ
  pub max_bytes : Option ℕ

-- `(low..=high).contains(&value)`
abbrev pub is_between : ℕ → ℕ → ℕ → Bool
is_between low high value = leb low value && leb value high

-- `TaskLogsInput::validate`
unfoldable pub task_logs_query : TaskLogsInput → Checked TaskLogsQuery
task_logs_query input = do
  reject_if
      (not (valid_namespaced_id input.run_id)
        || not (valid_namespaced_id input.task_id)
        || refuses (λ value. valid_text value 128) input.step)
      tt
  let tail_lines = unwrap_or 200 input.tail_lines
  let max_bytes = unwrap_or 65536 input.max_bytes
  reject_if (not (is_between 1 1000 tail_lines) || not (is_between 1 262144 max_bytes)) tt
  ok (record {
    run_id = input.run_id;
    task_id = input.task_id;
    step = input.step;
    tail_lines = tail_lines;
    max_bytes = max_bytes;
  })

-- `WorkflowDispatchInput::validate`
unfoldable pub dispatch_command : Dispatch → Checked Dispatch
dispatch_command input =
    if not (valid_repository_key input.repository)
      || not (valid_text input.workflow max_identifier_bytes)
      || not (valid_text input.reference max_ref_bytes)
      || not (valid_params input.params)
    then err tt
    else ok input
