-- ===== src/Deploys/Runner/Entry/Laws.antt =====
-- What is known when a deploy of src/integrations/deploys/runner.rs touches anything.
use homelab_mcp.Prelude.{
  ℕ, zero, suc, ◌≡◌, ◌⊎◌, inl, inr, refl, ap, ◌∙◌, Bool, true, false, not, Option, none, some, List,
  [], Result, ok, err, ok_or, ok_or-eq-ok, is_some, take, take-nil,
}
use homelab_mcp.Text.{Str}
use homelab_mcp.Inventory.{Machine}
use homelab_mcp.Deploys.{DeployError, missing_host_pin, cancelled}
use homelab_mcp.Deploys.Catalog.{DeployCatalog, ResolvedDeploy, resolve}
use homelab_mcp.Deploys.HostPin.{validate_host_pin}
use homelab_mcp.Deploys.Runner.{World, worker}
use homelab_mcp.Deploys.Runner.Steps.{Work, lift, fail_if, ◌>>=◌, ◌>>◌}
use homelab_mcp.Deploys.Runner.Entry.{run_cancelled, delivered, unwound}

-- The work does nothing, or the property holds.
record DoesOnlyIf {A : Type 0} (P : Type 0) (m : Work A) : Type 0 where
  at : (m.trace ≡ []) ⊎ P

module _ (P : Type 0) where
  lift-DoesOnlyIf :
      {A B : Type 0} (r : Result DeployError A) (f : A → Work B)
      → ((a : A) → r ≡ ok a → DoesOnlyIf P (f a))
      → DoesOnlyIf P (lift r >>= f)
  lift-DoesOnlyIf (ok a) f k = record { at = (k a refl).at }
  lift-DoesOnlyIf (err e) f k = record { at = inl refl }

  fail_if-DoesOnlyIf :
      {B : Type 0} (b : Bool) (e : DeployError) (m : Work B)
      → DoesOnlyIf P m
      → DoesOnlyIf P (fail_if b e >> m)
  fail_if-DoesOnlyIf true e m k = record { at = inl refl }
  fail_if-DoesOnlyIf false e m k = record { at = k.at }

  holds-DoesOnlyIf : {B : Type 0} (m : Work B) → P → DoesOnlyIf P m
  holds-DoesOnlyIf m p = record { at = inr p }

  delivered-DoesOnlyIf :
      {B : Type 0} (panics : Option ℕ) (m : Work B)
      → DoesOnlyIf P m
      → DoesOnlyIf P (delivered panics m)
  delivered-DoesOnlyIf none m k = k
  delivered-DoesOnlyIf (some n) m k = record {
    at = elim k.at [
      | inl quiet ↦ inl (ap (λ t. unwound (take n t)) quiet ∙ ap unwound (take-nil n))
      | inr p ↦ inr p
    ];
  }

-- what was checked before anything is touched
pub record IsAdmitted (decode : Str → Option (List ℕ)) (permits : ℕ) (catalog : DeployCatalog)
    (deploy_id : Str) (machine : Machine) : Type 0 where
  pub left : ℕ
  pub permitted : permits ≡ suc left
  pub deploy : ResolvedDeploy
  pub found : resolve catalog deploy_id ≡ ok deploy
  pub pin : Str
  pub pinned : machine.pinned_host_public_key ≡ some pin
  pub valid : validate_host_pin decode pin ≡ ok tt

module _ (decode : Str → Option (List ℕ)) (from_utf8 : List ℕ → Option Str) where
  worker-DoesOnlyIf :
      (P : Type 0) (w : World) (temp_root : Str) (machine : Machine)
      → ((pin : Str)
          → machine.pinned_host_public_key ≡ some pin
          → validate_host_pin decode pin ≡ ok tt
          → P)
      → DoesOnlyIf P (worker decode from_utf8 w temp_root machine)
  unfolding worker
  worker-DoesOnlyIf P w temp_root machine k =
      fail_if-DoesOnlyIf P w.cancelled_at_start cancelled _ (
        lift-DoesOnlyIf P (ok_or missing_host_pin machine.pinned_host_public_key) _ λ pin pinned.
          lift-DoesOnlyIf P (validate_host_pin decode pin) _
            λ _ valid. holds-DoesOnlyIf P _ (k pin (ok_or-eq-ok missing_host_pin _ pinned) valid))

  -- A deploy touches nothing, even if its worker panics, unless it had a permit, its id is one that the
  -- catalog resolves, and the machine has a pinned host key that passes the check.
  pub run_cancelled-IsAdmitted :
      (permits : ℕ) (catalog : DeployCatalog) (w : World) (panics : Option ℕ)
      (temp_root deploy_id : Str) (machine : Machine)
      → ((run_cancelled decode from_utf8 permits catalog w panics temp_root deploy_id machine).trace
          ≡ [])
        ⊎ IsAdmitted decode permits catalog deploy_id machine
  unfolding run_cancelled
  run_cancelled-IsAdmitted zero catalog w panics temp_root deploy_id machine = inl refl
  run_cancelled-IsAdmitted (suc permits) catalog w panics temp_root deploy_id machine =
      (lift-DoesOnlyIf Admitted (resolve catalog deploy_id) _ λ deploy found.
        fail_if-DoesOnlyIf Admitted (not (is_some machine.pinned_host_public_key)) missing_host_pin
          _
          (delivered-DoesOnlyIf Admitted panics (worker decode from_utf8 w temp_root machine) (
            worker-DoesOnlyIf Admitted w temp_root machine λ pin pinned valid. record {
              left = permits;
              permitted = refl;
              deploy = deploy;
              found = found;
              pin = pin;
              pinned = pinned;
              valid = valid;
            }))).at
    where
      Admitted : Type 0
      Admitted = IsAdmitted decode (suc permits) catalog deploy_id machine
