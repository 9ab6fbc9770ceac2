-- ===== src/Tests/Tekton/Shown.antt =====
-- Texts without their secrets, and the log of a task.
use homelab_mcp.Prelude.{
  ◌≤◌, ◌≡◌, refl, true, false, none, some, List, [], ◌∷◌, ok, find_item, sort_by, All, length, ltb,
}
use homelab_mcp.Text
use homelab_mcp.Text.{Str, lit, str_eq, len}
use homelab_mcp.Tekton.Texts
use homelab_mcp.Tekton.Texts.{redact, truncate_utf8}
use homelab_mcp.Tekton.Texts.Redaction.{IsSecret, Absent, redact-Absent}
use homelab_mcp.Tekton.Texts.Truncation.{IsLongest, truncate_utf8-IsLongest}
use homelab_mcp.Tekton.Env
use homelab_mcp.Tekton.Env.{Env, Url, State, Exchange}
use homelab_mcp.Tekton.Objects
use homelab_mcp.Tekton.Objects.{namespaced_id, Repository, Run}
use homelab_mcp.Tekton.Listing.{kube_list}
use homelab_mcp.Tekton.Listing
use homelab_mcp.Tekton.Repositories
use homelab_mcp.Tekton.Repositories.{owned_run}
use homelab_mcp.Tekton.Logs
use homelab_mcp.Tekton.Logs.{TaskLogsQuery, TaskLogs, logs}
use homelab_mcp.Tekton.Logs.Laws.{IsRedacted, text_bytes, logs-IsRedacted}
use homelab_mcp.Tests.Tekton.{cluster, reading}

abbrev one_secret : List Str
one_secret = lit "ab" ∷ []

one_secret-All : All IsSecret one_secret
unfolding Text.contains_char Text.strip_prefix
one_secret-All = (
  record {
    no_open = refl;
    no_close = refl;
    apart = (refl, (refl, (refl, (refl, (refl, (refl, (refl, (refl, refl))))))));
  },
  tt,
)

redact-Absent_example : All (λ secret. Absent secret (redact one_secret (lit "xaabb"))) one_secret
redact-Absent_example = redact-Absent (lit "xaabb") one_secret one_secret-All

truncate_utf8-IsLongest_example :
    (kept : Str) × (truncate_utf8 (97 ∷ 228 ∷ []) 2 ≡ some (kept, ltb 2 (len (97 ∷ 228 ∷ []))))
    × IsLongest (97 ∷ 228 ∷ []) 2 kept
truncate_utf8-IsLongest_example = truncate_utf8-IsLongest (97 ∷ 228 ∷ []) 2

abbrev asked_for : TaskLogsQuery
asked_for = record {
  run_id = lit "n/r";
  task_id = lit "n/t";
  step = none;
  tail_lines = 10;
  max_bytes = 5;
}

abbrev shown_log : TaskLogs
shown_log = record {
  result =
      record { step = lit "s"; text = lit "x[RED"; tail_truncated = false; byte_truncated = true }
      ∷ [];
  truncated = true;
  steps_omitted = false;
}

shown : logs cluster asked_for reading ≡ (ok shown_log, (logs cluster asked_for reading).1)
unfolding logs Logs.find_steps Logs.read_logs Logs.shown_text Logs.task_object Logs.verify_task_pod
    Env.get_text Objects.object_uid Objects.owned_by Texts.redact Texts.redact_one
    Texts.replace_from Texts.truncate_utf8 Texts.truncate Texts.boundary_below
    Texts.is_char_boundary Texts.cut Text.lines Text.decimal_from Repositories.owned_run_matching
    Objects.workflow_name Objects.annotation owned_run Env.patch_cancelled Env.kube_bytes
    Env.kube_token Env.http_bytes Env.status_error Env.read_chunks Env.get_json Env.parse_body
    Objects.namespaced_id Objects.split_once Objects.label Objects.run_status Objects.condition
    Objects.filter_map Objects.filter Objects.object_name Repositories.repository_catalog
    Repositories.parse_repository Repositories.foreign_url Repositories.without_git
    Repositories.trim_start_slashes Repositories.all_distinct
    Repositories.valid_repository_component Listing.kube_list Listing.list_pages Listing.next_token
    Listing.page_query Texts.bounded_text Text.str_eq Text.is_empty Text.len Text.is_control
    Text.strip_prefix Text.trim Text.contains_char Text.is_ascii_alphanumeric find_item sort_by
shown = refl

logs-IsRedacted_example :
    All (IsRedacted cluster) shown_log.result
    × (text_bytes shown_log.result ≤ 5)
    × (length shown_log.result ≤ 8)
logs-IsRedacted_example =
    logs-IsRedacted cluster one_secret-All asked_for reading (logs cluster asked_for reading).1
      shown_log shown
