-- ===== src/Deploys/Runner/Traces.antt =====
-- The directory of a run in the trace of the worker (src/integrations/deploys/runner.rs).
use homelab_mcp.Prelude.{
  ℕ, ◌≡◌, refl, ◌⊎◌, inl, inr, Bool, true, false, Option, List, [], ◌∷◌, ◌++◌, Result, ok, err,
  ok_or,
}
use homelab_mcp.Text.{Str}
use homelab_mcp.Inventory.{Machine}
use homelab_mcp.Deploys.{DeployError, missing_host_pin, cancelled}
use homelab_mcp.Deploys.HostPin.{validate_host_pin}
use homelab_mcp.Deploys.Runner.RunDir.{create_run_dir}
use homelab_mcp.Deploys.Runner.Steps.{
  Action, Step, Work, ◌>>=◌, ◌>>◌, lift, act, with_cleanup, fail_if, made_dir, removed_dir,
  on_return,
}
use homelab_mcp.Deploys.Runner.{World, deploy_in, worker}

-- Nothing was done, or a directory was made first and, unless `uv` is still running, removed last.
abbrev pub IsCleaned : {A : Type 0} → Step A → List Action → Type 0
IsCleaned s t =
    (t ≡ [])
    ⊎ ((dir : Str) × (inner : List Action) × (t
          ≡ made_dir dir ∷ inner ++ on_return s (removed_dir dir ∷ [])))

record Cleaned {A : Type 0} (m : Work A) : Type 0 where
  at : IsCleaned m.step m.trace

Cleaned-bind_lift :
    {A B : Type 0} (r : Result DeployError A) (f : A → Work B)
    → ((a : A) → Cleaned (f a))
    → Cleaned (lift r >>= f)
Cleaned-bind_lift (ok a) f k = k a
Cleaned-bind_lift (err e) f k = record { at = inl refl }

Cleaned-bind_fail_if :
    {B : Type 0} (b : Bool) (e : DeployError) (f : Unit {0} → Work B)
    → ((u : Unit {0}) → Cleaned (f u))
    → Cleaned (fail_if b e >>= f)
Cleaned-bind_fail_if true e f k = record { at = inl refl }
Cleaned-bind_fail_if false e f k = k tt

-- the directory that was made is the one that the guard removes
Cleaned-made :
    {B : Type 0} (r : Result DeployError Str) (f : Str → Work B)
    → Cleaned (
        (lift r >>= λ dir. act (made_dir dir) >> lift (ok dir)) >>= λ dir. with_cleanup dir (f dir))
Cleaned-made (ok dir) f = record { at = inr (dir, (f dir).trace, refl) }
Cleaned-made (err e) f = record { at = inl refl }

-- The worker touches nothing, or it makes a directory first and, unless `uv` is still running, the
-- removal of that same directory is the last thing it calls for, whatever it returns.
pub worker-IsCleaned :
    (decode : Str → Option (List ℕ)) (from_utf8 : List ℕ → Option Str) (w : World) (temp_root : Str)
    (machine : Machine)
    → IsCleaned
        (worker decode from_utf8 w temp_root machine).step
        (worker decode from_utf8 w temp_root machine).trace
unfolding worker
worker-IsCleaned decode from_utf8 w temp_root machine =
    (Cleaned-bind_fail_if w.cancelled_at_start cancelled _ (λ _.
      Cleaned-bind_lift (ok_or missing_host_pin machine.pinned_host_public_key) _ (λ pin.
        Cleaned-bind_lift (validate_host_pin decode pin) _ (λ _.
          Cleaned-made (create_run_dir temp_root w.run_dirs)
            (λ dir. deploy_in decode from_utf8 w machine pin dir))))).at
