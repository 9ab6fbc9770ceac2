-- ===== src/Tests/Kubernetes.antt =====
-- A `kubectl` whose child runs to its end, one that is past its deadline, and one without a child.
use homelab_mcp.Prelude.{
  ℕ, ◌≡◌, refl, true, false, some, List, [], ◌∷◌, ok, err, if◌then◌else◌, ◌≤◌, ◌+◌, ◌⊎◌, ◌++◌,
}
use homelab_mcp.Text
use homelab_mcp.Text.{Str, lit, decimal}
use homelab_mcp.Process.{
  run, select, success, on_wait, on_stdout, on_stderr, poll_wait, poll_stdout, poll_stderr,
}
use homelab_mcp.Process.Answers.{Answers, ExitsWith, WritesOut, WritesErr}
use homelab_mcp.Deploys.Paths.{is_absolute}
use homelab_mcp.Kubernetes.{capacity_exhausted, mutation_rejected, mutation_outcome_unknown}
use homelab_mcp.Kubernetes.Runner.{
  Runner, query, mutation, Launch, Ended, result_first, new, valid_context, request_millis, millis,
  worker, run_cancelled, end_result, operation_failure,
}
use homelab_mcp.Kubernetes.Runner.Laws.{
  new-request_timeout, worker-mutation, run_cancelled-mutation, worker-ok,
}
use homelab_mcp.Tests.Process.{quiet_run, slow_run}

abbrev as_text : List ℕ → Str
as_text bytes = bytes

abbrev started_child : Launch
started_child = record { cancelled = false; spawned = true; has_pipes = true }

abbrev no_child : Launch
no_child = record started_child { spawned = false }

abbrev home_runner : Runner
home_runner = record {
  executable = lit "/kubectl";
  kubeconfig = lit "/config";
  cache_dir = lit "/cache";
  context = lit "home";
  request_timeout = lit "25000ms";
  permits = 2;
  deadline = 30000000000;
}

home_runner-made :
    new (lit "/kubectl") (lit "/config") (lit "/cache") (lit "home") 30000000000 ≡ ok home_runner
unfolding new valid_context request_millis is_absolute Text.is_empty Text.len Text.starts_with_char
    Text.is_control Text.is_whitespace Text.is_ascii_alphanumeric Text.contains_char Text.decimal
    Text.decimal_from
home_runner-made = refl

new-request_timeout_example :
    (home_runner.deadline ≡ 30000000000)
    × ((ms : ℕ) × (home_runner.request_timeout ≡ decimal ms ++ lit "ms")
        × (1 ≤ ms)
        × (ms + 1 ≤ millis 30000000000)
        × (millis 30000000000 ≤ ms + 5000))
new-request_timeout_example =
    new-request_timeout (lit "/kubectl") (lit "/config") (lit "/cache") (lit "home") 30000000000
      home_runner home_runner-made

abbrev slow_end : Ended
slow_end = record { result = err mutation_outcome_unknown; started = true }

slow_run-unknown : worker as_text mutation started_child slow_run ≡ some slow_end
unfolding worker end_result run select poll_wait poll_stdout poll_stderr
slow_run-unknown = refl

worker-mutation_example :
    mutation_outcome_unknown
    ≡ (if slow_end.started then mutation_outcome_unknown else mutation_rejected)
worker-mutation_example =
    worker-mutation as_text started_child slow_run slow_end mutation_outcome_unknown
      slow_run-unknown refl

abbrev idle_end : Ended
idle_end = record { result = err mutation_rejected; started = false }

no_child-rejected : run_cancelled as_text 1 mutation result_first no_child slow_run ≡ some idle_end
unfolding run_cancelled worker operation_failure
no_child-rejected = refl

run_cancelled-mutation_example :
    (mutation_rejected ≡ mutation_outcome_unknown)
    ⊎ (idle_end.started ≡ false)
      × ((mutation_rejected ≡ mutation_rejected) ⊎ (mutation_rejected ≡ capacity_exhausted))
run_cancelled-mutation_example =
    run_cancelled-mutation as_text 1 result_first no_child slow_run idle_end mutation_rejected
      no_child-rejected refl

abbrev quiet_end : Ended
quiet_end = record { result = ok (b'h' ∷ b'i' ∷ []); started = true }

quiet_run-output : worker as_text query started_child quiet_run ≡ some quiet_end
unfolding worker end_result run select on_wait on_stdout on_stderr poll_wait poll_stdout poll_stderr
    success
quiet_run-output = refl

worker-ok_example :
    (quiet_end.started ≡ true)
    × Answers (ExitsWith (record { code = some 0 })) quiet_run
    × Answers (WritesOut (b'h' ∷ b'i' ∷ [])) quiet_run
    × ((errors : List ℕ) × Answers (WritesErr errors) quiet_run)
worker-ok_example =
    worker-ok as_text query started_child quiet_run quiet_end (b'h' ∷ b'i' ∷ []) quiet_run-output
      refl
