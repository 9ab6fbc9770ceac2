-- ===== src/Tests/Tekton/Reads.antt =====
-- A list is read, a run is waited for, and ids are checked.
use homelab_mcp.Prelude.{
  ◌+◌, ◌*◌, ◌≤◌, ◌≡◌, refl, true, some, [], ◌∷◌, ◌++◌, ok, err, if◌then◌else◌, length,
}
use homelab_mcp.Text
use homelab_mcp.Text.{Str, lit, str_eq, len}
use homelab_mcp.Tekton.Texts
use homelab_mcp.Tekton.Texts.{redact, truncate_utf8}
use homelab_mcp.Tekton.Actions
use homelab_mcp.Tekton.Actions.{valid_dns, valid_namespaced_id, run_wait_query}
use homelab_mcp.Tekton.Actions.Laws.{valid_namespaced_id-namespaced_id}
use homelab_mcp.Tekton.{invalid_arguments}
use homelab_mcp.Tekton.Env
use homelab_mcp.Tekton.Env.{Env, Url, State, Exchange}
use homelab_mcp.Tekton.Objects
use homelab_mcp.Tekton.Objects.Normalize
use homelab_mcp.Tekton.Objects.{namespaced_id, Run}
use homelab_mcp.Tekton.Listing
use homelab_mcp.Tekton.Repositories
use homelab_mcp.Tekton.Wait
use homelab_mcp.Tekton.Wait.{polled, interrupted, in_time, late, wait, Waited}
use homelab_mcp.Tekton.Wait.Bounds.{wait-bound}
use homelab_mcp.Tests.Tekton.{the_repository, run_object, toy, cluster, waiting}

abbrev waited_run : Run
waited_run = Normalize.run_record toy run_object (lit "n") the_repository (lit "r")

-- a poll and the last look are given up after two requests
wait-bound_example :
    length
      (wait cluster (lit "n/r") 1 in_time (polled ∷ interrupted 2 ∷ []) (late 2) waiting).1.sent
    ≤ length waiting.sent + 11 * (length (polled ∷ interrupted 2 ∷ []) + 2)
wait-bound_example =
    wait-bound cluster (lit "n/r") 1 in_time (polled ∷ interrupted 2 ∷ []) (late 2) waiting

id-passes : valid_namespaced_id (lit "n/r") ≡ true
unfolding valid_namespaced_id Actions.valid_dns Text.split Text.is_empty Text.len Text.contains_char
id-passes = refl

valid_namespaced_id-namespaced_id_example :
    (namespace : Str) × (name : Str) × (lit "n/r" ≡ namespace ++ b'/' ∷ name)
    × (valid_dns namespace ≡ true)
    × (valid_dns name ≡ true)
    × (namespaced_id (lit "n/r") (lit "n")
        ≡ (if str_eq namespace (lit "n") then ok name else err invalid_arguments))
valid_namespaced_id-namespaced_id_example =
    valid_namespaced_id-namespaced_id (lit "n/r") (lit "n") id-passes

too_long_wait : run_wait_query (lit "n/r") (some 301) ≡ err tt
unfolding run_wait_query Actions.bounded_limit valid_namespaced_id Actions.valid_dns Text.split
    Text.is_empty Text.len Text.contains_char
too_long_wait = refl
