-- ===== src/Deploys/Runner.antt =====
-- src/integrations/deploys/runner.rs: one run of a reviewed deploy. What the file system, the
-- processes and the signer answer is the record `World`; the trace lists what the worker does to
-- them. Log lines are left out but for the classification of a failed `uv` run.
pub mod Uv
pub mod RunDir
pub mod Steps
pub mod Honest
pub mod Traces
pub mod Laws
pub mod Entry
use homelab_mcp.Prelude.{
  ℕ, Bool, true, false, not, ◌||◌, ◌==◌, Option, none, some, List, [], ◌∷◌, ◌++◌, Result, ok, err,
  ok_or, ltb, if◌then◌else◌,
}
use homelab_mcp.Text.{Str, lit, trim_end}
use homelab_mcp.Inventory.{Machine}
use homelab_mcp.Process.{ExitStatus, success, Ready}
use homelab_mcp.Deploys.{
  DeployError, missing_host_pin, credential_invalid, execution_rejected, cancelled,
  execution_outcome_unknown,
}
use homelab_mcp.Deploys.Paths.{join}
use homelab_mcp.Deploys.HostPin.{validate_host_pin, known_hosts_host}
use homelab_mcp.Deploys.Catalog.{FileMetadata}
use homelab_mcp.Deploys.Normalize.{Section, system_info}
use homelab_mcp.Deploys.Runner.Uv.{run_uv}
use homelab_mcp.Deploys.Runner.RunDir.{CreateDir, create_run_dir}
use homelab_mcp.Deploys.Runner.Steps.{
  Action, made_dir, ran_keygen, killed_keygen, wrote_certificate, removed_public_key,
  wrote_known_hosts, spawned_uv, Step, returns, still_running, Work, ◌>>=◌, ◌>>◌, lift, act,
  fail_if, attempt, with_cleanup,
}

-- the branch of `select!` that ends `run_keygen`
pub data Keygen : Type 0 where
  not_spawned : Keygen
  exits : ExitStatus → Keygen
  wait_fails keygen_cancelled keygen_timed_out : Keygen

pub record World : Type 0 where
  pub cancelled_at_start : Bool
  pub run_dirs : List CreateDir
  pub keygen : Keygen
  pub chmod_key : Bool
  pub chmod_public_key : Bool
  pub public_key_metadata : Option FileMetadata
  pub public_key_text : Option Str
  pub cancelled_before_sign : Bool
  -- the signer's answer to a public key; `none` where the cancellation comes first
  pub sign : Str → Option (Result DeployError Str)
  pub certificate_written : Bool
  pub public_key_removed : Bool
  pub known_hosts_written : Bool
  pub inventory_serialized : Bool
  pub uv_spawned : Bool
  pub uv_has_pipes : Bool
  pub polls : List Ready

abbrev pub keygen_end : Keygen → Str → Work (Unit {0})
keygen_end not_spawned key = lift (err execution_rejected)
keygen_end (exits status) key = do
  act (ran_keygen key)
  fail_if (not (success status)) execution_rejected
keygen_end wait_fails key = do act (ran_keygen key); lift (err execution_rejected)
keygen_end keygen_cancelled key = do act (ran_keygen key); act killed_keygen; lift (err cancelled)
keygen_end keygen_timed_out key = do
  act (ran_keygen key)
  act killed_keygen
  lift (err execution_rejected)

unfoldable pub run_keygen : World → Str → Work (Unit {0})
run_keygen w key = do
  keygen_end w.keygen key
  fail_if (not w.chmod_key || not w.chmod_public_key) execution_rejected

abbrev pub good_key_file : FileMetadata → ℕ → Bool
good_key_file metadata limit =
    not (not metadata.is_file || metadata.size == 0 || ltb limit metadata.size)

unfoldable pub read_bounded : Option FileMetadata → Option Str → ℕ → Result DeployError Str
read_bounded none text limit = err execution_rejected
read_bounded (some metadata) text limit =
    if good_key_file metadata limit then ok_or credential_invalid text else err credential_invalid

abbrev pub signed : Option (Result DeployError Str) → Result DeployError Str
signed none = err cancelled
signed (some answer) = answer

-- the end of `run_uv`, from its spawn on
abbrev pub uv_step : Option (Result DeployError (List ℕ)) → Step (List ℕ)
uv_step none = still_running
uv_step (some r) = returns r

unfoldable pub start_uv : World → Work (List ℕ)
start_uv w = do
  attempt w.uv_spawned spawned_uv execution_rejected
  fail_if (not w.uv_has_pipes) execution_outcome_unknown
  record { step = uv_step (run_uv w.polls); trace = [] }

abbrev pub known_hosts_line : Machine → Str → Str
known_hosts_line machine pin =
    known_hosts_host machine.ssh_host machine.ssh_port ++ b' ' ∷ pin ++ 10 ∷ []

-- the directory of the run, made
abbrev pub make_run_dir : Str → List CreateDir → Work Str
make_run_dir temp_root tries = do
  run_dir ← lift (create_run_dir temp_root tries)
  act (made_dir run_dir)
  lift (ok run_dir)

module _ (decode : Str → Option (List ℕ)) (from_utf8 : List ℕ → Option Str) where
  -- the worker from the moment it has its directory
  unfoldable pub deploy_in : World → Machine → Str → Str → Work (List Section)
  deploy_in w machine pin run_dir = do
    run_keygen w (join run_dir (lit "identity"))
    public_key ← lift (read_bounded w.public_key_metadata w.public_key_text 1024)
    fail_if w.cancelled_before_sign cancelled
    certificate ← lift (signed (w.sign (trim_end public_key)))
    attempt w.certificate_written
        (wrote_certificate (join run_dir (lit "identity-cert.pub")) certificate) execution_rejected
    attempt w.public_key_removed (removed_public_key (join run_dir (lit "identity.pub")))
        execution_rejected
    attempt w.known_hosts_written
        (wrote_known_hosts (join run_dir (lit "known_hosts")) (known_hosts_line machine pin))
        execution_rejected
    fail_if (not w.inventory_serialized) execution_rejected
    output ← start_uv w
    lift (system_info from_utf8 output)

  unfoldable pub worker : World → Str → Machine → Work (List Section)
  worker w temp_root machine = do
    fail_if w.cancelled_at_start cancelled
    pin ← lift (ok_or missing_host_pin machine.pinned_host_public_key)
    lift (validate_host_pin decode pin)
    run_dir ← make_run_dir temp_root w.run_dirs
    with_cleanup run_dir (deploy_in w machine pin run_dir)
