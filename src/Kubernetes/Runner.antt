-- ===== src/Kubernetes/Runner.antt =====
-- src/integrations/kubernetes/runner.rs: one run of `kubectl`, and the pool of two permits in front
-- of it. The child's loop is Process; `String::from_utf8_lossy` is the argument `lossy`.
pub mod Laws
use homelab_mcp.Prelude.{
  ℕ, zero, suc, ◌+◌, ◌*◌, ◌/◌, ◌-◌, ◌^◌, Bool, true, false, not, ◌&&◌, ◌||◌, Option, none, some,
  List, [], ◌∷◌, ◌++◌, Result, ok, err, ltb, leb, ◌==◌, if◌then◌else◌, min, max, all, any, map,
}
use homelab_mcp.Text.{
  Str, lit, len, is_empty, starts_with_char, is_ascii_alphanumeric, to_ascii_lowercase, is_control,
  is_whitespace, contains, contains_char, decimal,
}
use homelab_mcp.Process.{
  ExitStatus, success, Ready, Child, End, finished, was_cancelled, timed_out, lost_wait,
  lost_stream, spawned, run,
}
use homelab_mcp.Deploys.Paths.{is_absolute}
use homelab_mcp.Kubernetes.{
  KubeError, invalid_arguments, capacity_exhausted, timeout, unauthorized, not_found,
  unsupported_api, query_rejected, mutation_rejected, mutation_outcome_unknown,
  upstream_unavailable, response_too_large, request_cancelled,
}

pub data Operation : Type 0 where
  query mutation : Operation

unfoldable pub valid_context : Str → Bool
valid_context value =
    not (is_empty value)
    && leb (len value) 253
    && not (starts_with_char value b'-')
    && not (any (λ c. is_control c || is_whitespace c) value)
    && all (λ c. is_ascii_alphanumeric c || contains_char (lit "-._:/") c) value

pub record Runner : Type 0 where
  pub executable : Str
  pub kubeconfig : Str
  pub cache_dir : Str
  pub context : Str
  pub request_timeout : Str
  pub permits : ℕ
  pub deadline : ℕ

abbrev nanos_of_millis : ℕ → ℕ
nanos_of_millis n = n * 1000000

-- `as_millis` of a duration in nanoseconds
abbrev pub millis : ℕ → ℕ
millis nanos = nanos / 1000000

-- `(outer_millis / 6).clamp(1, 5_000)`, and what is left of the deadline
abbrev pub margin : ℕ → ℕ
margin outer_millis = min (max (outer_millis / 6) 1) 5000

unfoldable pub request_millis : ℕ → ℕ
request_millis deadline = millis deadline - margin (millis deadline)

abbrev bad_runner : Str → Str → Str → Str → ℕ → Bool
bad_runner executable kubeconfig cache_dir context deadline =
    not (is_absolute executable)
    || not (is_absolute kubeconfig)
    || not (is_absolute cache_dir)
    || not (valid_context context)
    || ltb deadline (nanos_of_millis 2)
    || ltb (nanos_of_millis 30000) deadline

-- `Runner::new`; the deadline is in nanoseconds
unfoldable pub new : Str → Str → Str → Str → ℕ → Result (Unit {0}) Runner
new executable kubeconfig cache_dir context deadline =
    if bad_runner executable kubeconfig cache_dir context deadline
    then err tt
    else ok (record {
      executable = executable;
      kubeconfig = kubeconfig;
      cache_dir = cache_dir;
      context = context;
      request_timeout = decimal (request_millis deadline) ++ lit "ms";
      permits = 2;
      deadline = deadline;
    })

unfoldable pub operation_failure : Operation → Bool → KubeError
operation_failure mutation true = mutation_outcome_unknown
operation_failure mutation false = mutation_rejected
operation_failure query _ = upstream_unavailable

unfoldable pub stream_failure : Operation → KubeError
stream_failure mutation = mutation_outcome_unknown
stream_failure query = response_too_large

abbrev pub exit_code_error : Option ℕ → KubeError
exit_code_error none = upstream_unavailable
exit_code_error (some code) =
    if code == 1
    then query_rejected
    else if code == 2
    then invalid_arguments
    else upstream_unavailable

-- what `match` on the operation gives for a run past its deadline and for a cancelled one
abbrev pub expired : Operation → KubeError
expired mutation = mutation_outcome_unknown
expired query = timeout

abbrev pub request_dropped : Operation → KubeError
request_dropped query = request_cancelled
request_dropped mutation = mutation_outcome_unknown

-- what stands between the worker and its child: the first look at the cancellation, the spawn,
-- and whether the child has its pipes
pub record Launch : Type 0 where
  pub cancelled : Bool
  pub spawned : Bool
  pub has_pipes : Bool

-- what the worker returns, and whether a child was started
pub record Ended : Type 0 where
  pub result : Result KubeError (List ℕ)
  pub started : Bool

-- the first branch of `select!` that is ready in `run_cancelled`
pub data Race : Type 0 where
  result_first worker_gone cancellation_first : Race

module _ (lossy : List ℕ → Str) where
  unfoldable pub classify_exit : Option ℕ → List ℕ → KubeError
  classify_exit code stderr =
      let message = to_ascii_lowercase (lossy stderr) in
      if contains (lit "forbidden") message || contains (lit "unauthorized") message
      then unauthorized
      else if contains (lit "the server could not find the requested resource") message
          || contains (lit "doesn't have a resource type") message
      then unsupported_api
      else if contains (lit "notfound") message || contains (lit "not found") message
      then not_found
      else exit_code_error code

  unfoldable pub exit_failure : Operation → Option ℕ → List ℕ → KubeError
  exit_failure mutation code stderr = mutation_outcome_unknown
  exit_failure query code stderr = classify_exit code stderr

  -- what the worker makes of the end of its loop
  unfoldable pub end_result : Operation → End → Result KubeError (List ℕ)
  end_result operation (finished status stdout stderr) =
      if success status then ok stdout else err (exit_failure operation status.code stderr)
  end_result operation was_cancelled = err (operation_failure operation true)
  end_result operation timed_out = err (expired operation)
  end_result operation lost_wait = err (operation_failure operation true)
  end_result operation lost_stream = err (stream_failure operation)

  -- the worker; `none` while its child is still running
  unfoldable pub worker : Operation → Launch → List Ready → Option Ended
  worker operation launch polls =
      if launch.cancelled || not launch.spawned
      then some (record { result = err (operation_failure operation false); started = false })
      else if not launch.has_pipes
      then some (record { result = err (operation_failure operation true); started = true })
      else elim (run polls spawned) [
        | none ↦ none
        | some (end, child) ↦ some (record { result = end_result operation end; started = true })
      ]

  abbrev pub race_result : Operation → Race → Result KubeError (List ℕ) → Result KubeError (List ℕ)
  race_result operation result_first result = result
  race_result operation worker_gone result = err (operation_failure operation true)
  race_result operation cancellation_first result = err (request_dropped operation)

  abbrev pub raced : Operation → Race → Option Ended → Option Ended
  raced operation race none = none
  raced operation race (some ended) =
      some (record { result = race_result operation race ended.result; started = ended.started })

  -- `run_cancelled` with the permits that are left; the worker ends before any answer is given
  unfoldable pub run_cancelled : ℕ → Operation → Race → Launch → List Ready → Option Ended
  run_cancelled zero operation race launch polls =
      some (record { result = err capacity_exhausted; started = false })
  run_cancelled (suc permits) operation race launch polls =
      raced operation race (worker operation launch polls)
