-- ===== src/Deploys/Runner/Uv.antt =====
-- `run_uv` of src/integrations/deploys/runner.rs: the watched `uv` child and what its end means.
use homelab_mcp.Prelude.{
  String, [], ◌∷◌, ◌++◌, ℕ, ◌*◌, Bool, not, ◌&&◌, ◌||◌, Option, none, some, List, Result, ok, err,
  if◌then◌else◌,
}
use homelab_mcp.Text.{lit, contains}
use homelab_mcp.Process.{
  success, Ready, End, finished, was_cancelled, timed_out, lost_wait, lost_stream, spawned, run,
}
use homelab_mcp.Deploys.{
  DeployError, execution_outcome_unknown, timeout_outcome_unknown, cancelled_outcome_unknown,
  output_too_large_outcome_unknown,
}

abbrev pub max_stdout_bytes : ℕ
max_stdout_bytes = 512 * 1024

abbrev pub max_stderr_bytes : ℕ
max_stderr_bytes = 32 * 1024

pub data FailureClassification : Type 0 where
  not_found permission_denied already_exists timeout nonzero_exit wait_failed invalid_data
        ssh_host_key_verification ssh_authentication connection_unavailable connection_timeout
        name_resolution runtime_setup remote_command other :
      FailureClassification

-- Some window of the bytes is the pattern.
abbrev pub contains_bytes : List ℕ → String → Bool
contains_bytes value pattern = contains (lit pattern) value

unfoldable pub classify_uv_stderr : List ℕ → FailureClassification
classify_uv_stderr stderr =
    if contains_bytes stderr "An exception occurred in:"
    then runtime_setup
    else if (contains_bytes stderr "SSH host key error (Host key for "
          && contains_bytes stderr " does not match.)")
        || contains_bytes stderr " not found in known_hosts"
        || (contains_bytes stderr "Host key for server '"
            && contains_bytes stderr "' does not match: got '")
    then ssh_host_key_verification
    else if contains_bytes stderr "Authentication failed."
        || contains_bytes stderr "Authentication failed:"
    then ssh_authentication
    else if contains_bytes stderr "Could not resolve hostname ("
    then name_resolution
    else if contains_bytes stderr "Could not connect (timed out)"
        || contains_bytes stderr "Key-exchange timed out waiting for key negotiation"
    then connection_timeout
    else if contains_bytes stderr "Could not connect (Unable to connect to port "
    then connection_unavailable
    else other

abbrev pub report_opened : List ℕ → Bool
report_opened stderr =
    contains (lit "HOMELAB_SYSTEM_INFO_V1_BEGIN" ++ 10 ∷ []) stderr
    && not (contains (lit "HOMELAB_SYSTEM_INFO_V1_END" ++ 10 ∷ []) stderr)

-- the classification that `emit_uv_exit_failure` logs
unfoldable pub uv_exit_failure : Option (List ℕ) → FailureClassification
unfolding classify_uv_stderr
uv_exit_failure none = wait_failed
uv_exit_failure (some stderr) =
    if report_opened stderr then remote_command else classify_uv_stderr stderr

-- what the end of the loop returns
unfoldable pub uv_result : End → Result DeployError (List ℕ)
uv_result (finished status output stderr) =
    if success status then ok output else err execution_outcome_unknown
uv_result was_cancelled = err cancelled_outcome_unknown
uv_result timed_out = err timeout_outcome_unknown
uv_result lost_wait = err execution_outcome_unknown
uv_result lost_stream = err output_too_large_outcome_unknown

-- `none` while the child is still running
unfoldable pub run_uv : List Ready → Option (Result DeployError (List ℕ))
unfolding uv_result
run_uv polls = elim (run polls spawned) [ none ↦ none | some (end, c) ↦ some (uv_result end) ]
