-- ===== src/Tests/Tekton/Changes.antt =====
-- A run is cancelled, started and started again.
use homelab_mcp.Prelude.{◌≡◌, ◌⊎◌, refl, find_item, sort_by}
use homelab_mcp.Text
use homelab_mcp.Text.{Str, lit, str_eq, len}
use homelab_mcp.Tekton.Texts
use homelab_mcp.Tekton.Texts.{redact, truncate_utf8}
use homelab_mcp.Tekton.Env
use homelab_mcp.Tekton.Env.{Env, Url, State, Exchange}
use homelab_mcp.Tekton.Objects
use homelab_mcp.Tekton.Objects.{namespaced_id, Repository, Run}
use homelab_mcp.Tekton.Workflows
use homelab_mcp.Tekton.Listing.{kube_list}
use homelab_mcp.Tekton.Listing
use homelab_mcp.Tekton.Repositories
use homelab_mcp.Tekton.Repositories.{owned_run}
use homelab_mcp.Tekton.Commands.{dispatch, rerun, cancel}
use homelab_mcp.Tekton.Commands.Posts.{mutations}
use homelab_mcp.Tekton.Commands.Laws.{
  IsCancelled, cancel-IsCancelled, IsDispatched, dispatch-IsDispatched,
}
use homelab_mcp.Tekton.Commands.Rerun.{IsRerun, rerun-IsRerun}
use homelab_mcp.Tests.Tekton.{cluster, fresh, dispatching, rerunning, started}

cancelled : mutations (cancel cluster (lit "n/r") fresh).1 ≡ 1
unfolding cancel owned_run Env.patch_cancelled Env.kube_bytes Env.kube_token Env.http_bytes
    Env.status_error Env.read_chunks Env.get_json Env.parse_body Objects.namespaced_id
    Objects.split_once Objects.label Objects.run_status Objects.condition Objects.filter_map
    Objects.filter Objects.object_name Repositories.repository_catalog Repositories.parse_repository
    Repositories.foreign_url Repositories.without_git Repositories.trim_start_slashes
    Repositories.all_distinct Repositories.valid_repository_component Listing.kube_list
    Listing.list_pages Listing.next_token Listing.page_query Texts.bounded_text Text.str_eq
    Text.is_empty Text.len Text.is_control Text.strip_prefix Text.trim Text.contains_char
    Text.is_ascii_alphanumeric find_item sort_by
cancelled = refl

cancel-IsCancelled_example :
    (mutations (cancel cluster (lit "n/r") fresh).1 ≡ mutations fresh)
    ⊎ IsCancelled cluster (lit "n/r") fresh (cancel cluster (lit "n/r") fresh).1
cancel-IsCancelled_example = cancel-IsCancelled cluster (lit "n/r") fresh

dispatched : mutations (dispatch cluster started dispatching).1 ≡ 1
unfolding dispatch Env.send_pac Repositories.repository Workflows.triggerable_workflow
    Workflows.repository_workflows Workflows.read_files Workflows.parse_workflows
    Workflows.parse_documents Workflows.parse_workflow Workflows.definition_name
    Workflows.event_annotation Workflows.parse_events Workflows.is_workflow_path
    Workflows.trim_start_of Workflows.dedup Env.forgejo_json Text.split Env.patch_cancelled
    Env.kube_bytes Env.kube_token Env.http_bytes Env.status_error Env.read_chunks Env.get_json
    Env.parse_body Objects.namespaced_id Objects.split_once Objects.label Objects.run_status
    Objects.condition Objects.filter_map Objects.filter Objects.object_name
    Repositories.repository_catalog Repositories.parse_repository Repositories.foreign_url
    Repositories.without_git Repositories.trim_start_slashes Repositories.all_distinct
    Repositories.valid_repository_component Listing.kube_list Listing.list_pages Listing.next_token
    Listing.page_query Texts.bounded_text Text.str_eq Text.is_empty Text.len Text.is_control
    Text.strip_prefix Text.trim Text.contains_char Text.is_ascii_alphanumeric find_item sort_by
dispatched = refl

dispatch-IsDispatched_example :
    (mutations (dispatch cluster started dispatching).1 ≡ mutations dispatching)
    ⊎ IsDispatched cluster started dispatching (dispatch cluster started dispatching).1
dispatch-IsDispatched_example = dispatch-IsDispatched cluster started dispatching

rerun-IsRerun_example :
    (mutations (rerun cluster (lit "n/r") rerunning).1 ≡ mutations rerunning)
    ⊎ IsRerun cluster (lit "n/r") rerunning (rerun cluster (lit "n/r") rerunning).1
rerun-IsRerun_example = rerun-IsRerun cluster (lit "n/r") rerunning
