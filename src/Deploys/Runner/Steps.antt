-- ===== src/Deploys/Runner/Steps.antt =====
-- The worker's steps: an answer, or a `uv` that is still running, beside the trace of what was done
-- so far. What was done before an error stays done.
use homelab_mcp.Prelude.{Bool, true, false, List, [], ◌∷◌, ◌++◌, Result, ok, err}
use homelab_mcp.Text.{Str}
use homelab_mcp.Deploys.{DeployError}

pub data Action : Type 0 where
  made_dir : Str → Action
  ran_keygen : Str → Action
  killed_keygen : Action
  wrote_certificate : Str → Str → Action
  removed_public_key : Str → Action
  wrote_known_hosts : Str → Str → Action
  spawned_uv : Action
  removed_dir : Str → Action

pub data Step (A : Type 0) : Type 0 where
  returns : Result DeployError A → Step A
  still_running : Step A

pub record Work (A : Type 0) : Type 0 where
  pub step : Step A
  pub trace : List Action

abbrev pub continue : {A B : Type 0} → Step A → List Action → (A → Work B) → Work B
continue (returns (ok a)) t f = record { step = (f a).step; trace = t ++ (f a).trace }
continue (returns (err e)) t f = record { step = returns (err e); trace = t }
continue still_running t f = record { step = still_running; trace = t }

infixl 5 ◌>>=◌ ◌>>◌
abbrev pub ◌>>=◌ : {A B : Type 0} → Work A → (A → Work B) → Work B
m >>= f = continue m.step m.trace f

abbrev pub ◌>>◌ : {B : Type 0} → Work (Unit {0}) → Work B → Work B
m >> k = m >>= λ _. k

abbrev pub lift : {A : Type 0} → Result DeployError A → Work A
lift r = record { step = returns r; trace = [] }

abbrev pub act : Action → Work (Unit {0})
act a = record { step = returns (ok tt); trace = a ∷ [] }

abbrev pub fail_if : Bool → DeployError → Work (Unit {0})
fail_if true e = lift (err e)
fail_if false e = lift (ok tt)

-- the action if the system call worked, the error if not
abbrev pub attempt : Bool → Action → DeployError → Work (Unit {0})
attempt true a e = act a
attempt false a e = lift (err e)

-- `Cleanup` is dropped when the worker returns. Its call of `remove_dir_all` is the action: what the
-- call returns is discarded.
abbrev pub on_return : {A : Type 0} → Step A → List Action → List Action
on_return (returns r) actions = actions
on_return still_running actions = []

abbrev pub with_cleanup : {A : Type 0} → Str → Work A → Work A
with_cleanup dir m = record {
  step = m.step;
  trace = m.trace ++ on_return m.step (removed_dir dir ∷ []);
}
