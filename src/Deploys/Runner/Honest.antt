-- ===== src/Deploys/Runner/Honest.antt =====
-- When an answer of the worker (src/integrations/deploys/runner.rs) is honest about whether `uv`
-- was started, with a rule for each way to build a step.
use homelab_mcp.Prelude.{
  ◌≡◌, refl, sym, ◌∙◌, Bool, true, false, ◌||◌, Option, none, some, List, [], ◌∷◌, ◌++◌, arith, any,
  append-nil, Result, ok, err, ok_or, reject_if, ◌>>=◌ as result_bind,
}
use homelab_mcp.Text.{Str}
use homelab_mcp.Deploys
use homelab_mcp.Deploys.{DeployError}
use homelab_mcp.Deploys.Runner.Steps.{
  Action, spawned_uv, Step, returns, still_running, Work, continue, ◌>>=◌, lift, act, attempt,
  fail_if, removed_dir, on_return, with_cleanup,
}

abbrev pub is_spawn : Action → Bool
is_spawn spawned_uv = true
is_spawn _ = false

-- whether the trace has a start of `uv`
abbrev pub spawned : List Action → Bool
spawned = any is_spawn

-- the errors after which the machine may have been changed, and that of an unreadable report
abbrev pub is_late : DeployError → Bool
is_late Deploys.execution_outcome_unknown = true
is_late Deploys.timeout_outcome_unknown = true
is_late Deploys.cancelled_outcome_unknown = true
is_late Deploys.output_too_large_outcome_unknown = true
is_late Deploys.invalid_output = true
is_late _ = false

-- No `uv` was started, and an error says so.
abbrev pub IsQuiet : {A : Type 0} → Step A → List Action → Type 0
IsQuiet (returns (ok a)) t = spawned t ≡ false
IsQuiet (returns (err e)) t = (spawned t ≡ false) × (is_late e ≡ false)
IsQuiet still_running t = ⊥

-- `uv` was started exactly if the answer is a result or a late error.
abbrev pub IsHonest : {A : Type 0} → Step A → List Action → Type 0
IsHonest (returns (ok a)) t = spawned t ≡ true
IsHonest (returns (err e)) t = spawned t ≡ is_late e
IsHonest still_running t = spawned t ≡ true

pub spawned-append : (s t : List Action) → spawned (s ++ t) ≡ (spawned s || spawned t)
spawned-append [] t = refl
spawned-append (a ∷ s) t = ground (arith, spawned-append s t)

pub record Quiet {A : Type 0} (m : Work A) : Type 0 where
  pub at : IsQuiet m.step m.trace

pub record Honest {A : Type 0} (m : Work A) : Type 0 where
  pub at : IsHonest m.step m.trace

module _ {A : Type 0} where
  IsQuiet-after :
      (s : Step A) (t t' : List Action) → spawned t ≡ false → IsQuiet s t' → IsQuiet s (t ++ t')
  IsQuiet-after (returns (ok a)) t t' h q = ground (arith, spawned-append t t')
  IsQuiet-after (returns (err e)) t t' h q = (ground (arith, spawned-append t t', q.0), q.1)
  IsQuiet-after still_running t t' h q = q

  IsHonest-after :
      (s : Step A) (t t' : List Action) → spawned t ≡ false → IsHonest s t' → IsHonest s (t ++ t')
  IsHonest-after (returns (ok a)) t t' h q = ground (arith, spawned-append t t')
  IsHonest-after (returns (err e)) t t' h q = ground (arith, spawned-append t t')
  IsHonest-after still_running t t' h q = ground (arith, spawned-append t t')

module _ {A B : Type 0} where
  continue-IsQuiet :
      (s : Step A) (t : List Action) (f : A → Work B)
      → IsQuiet s t
      → ((a : A) → Quiet (f a))
      → Quiet (continue s t f)
  continue-IsQuiet (returns (ok a)) t f q k = record {
    at = IsQuiet-after (f a).step t (f a).trace q (k a).at;
  }
  continue-IsQuiet (returns (err e)) t f q k = record { at = q }
  continue-IsQuiet still_running t f q k = absurd q

  pub Quiet-bind :
      (m : Work A) (f : A → Work B) → Quiet m → ((a : A) → Quiet (f a)) → Quiet (m >>= f)
  Quiet-bind m f q k = continue-IsQuiet m.step m.trace f q.at k

  continue-IsHonest :
      (s : Step A) (t : List Action) (f : A → Work B)
      → IsQuiet s t
      → ((a : A) → Honest (f a))
      → Honest (continue s t f)
  continue-IsHonest (returns (ok a)) t f q k = record {
    at = IsHonest-after (f a).step t (f a).trace q (k a).at;
  }
  continue-IsHonest (returns (err e)) t f q k = record { at = ground (arith, q.0, q.1) }
  continue-IsHonest still_running t f q k = absurd q

  pub Honest-bind :
      (m : Work A) (f : A → Work B) → Quiet m → ((a : A) → Honest (f a)) → Honest (m >>= f)
  Honest-bind m f q k = continue-IsHonest m.step m.trace f q.at k

-- Every error of a pure step is late, or none is.
abbrev pub ErrIs : {A : Type 0} → Bool → Result DeployError A → Type 0
ErrIs b (ok a) = Unit {0}
ErrIs b (err e) = is_late e ≡ b

module _ {A : Type 0} (b : Bool) (e : DeployError) (h : is_late e ≡ b) where
  pub ErrIs-ok_or : (o : Option A) → ErrIs b (ok_or e o)
  ErrIs-ok_or none = h
  ErrIs-ok_or (some a) = tt

module _ (b : Bool) (e : DeployError) (h : is_late e ≡ b) where
  pub ErrIs-reject_if : (c : Bool) → ErrIs b (reject_if c e)
  ErrIs-reject_if true = h
  ErrIs-reject_if false = tt

pub ErrIs-bind :
    {A B : Type 0} (b : Bool) (m : Result DeployError A) (f : A → Result DeployError B)
    → ErrIs b m
    → ((a : A) → ErrIs b (f a))
    → ErrIs b (result_bind m f)
ErrIs-bind b (ok a) f h k = k a
ErrIs-bind b (err e) f h k = h

pub Quiet-lift : {A : Type 0} (r : Result DeployError A) → ErrIs false r → Quiet (lift r)
Quiet-lift (ok a) h = record { at = refl }
Quiet-lift (err e) h = record { at = (refl, h) }

-- behind a start of `uv`, a pure step keeps the answer honest if all its errors are late
pub Honest-lift :
    {A B : Type 0} (m : Work A) (f : A → Result DeployError B)
    → Honest m
    → ((a : A) → ErrIs true (f a))
    → Honest (m >>= λ a. lift (f a))
Honest-lift {A} {B} m f h k = record { at = go m.step m.trace h.at }
  where
    late :
        (r : Result DeployError B) (t : List Action)
        → ErrIs true r
        → spawned t ≡ true
        → IsHonest (returns r) (t ++ [])
    late (ok b) t e p = rw append-nil p
    late (err x) t e p = rw append-nil (p ∙ sym e)

    go :
        (s : Step A) (t : List Action)
        → IsHonest s t
        → IsHonest (continue s t (λ a. lift (f a))).step (continue s t (λ a. lift (f a))).trace
    go (returns (ok a)) t p = late (f a) t (k a) p
    go (returns (err e)) t p = p
    go still_running t p = p

pub Quiet-fail_if : (b : Bool) (e : DeployError) → is_late e ≡ false → Quiet (fail_if b e)
Quiet-fail_if true e h = record { at = (refl, h) }
Quiet-fail_if false e h = record { at = refl }

pub Quiet-act : (a : Action) → is_spawn a ≡ false → Quiet (act a)
Quiet-act a h = record { at = ground (arith, h) }

pub Quiet-attempt :
    (b : Bool) (a : Action) (e : DeployError)
    → is_spawn a ≡ false
    → is_late e ≡ false
    → Quiet (attempt b a e)
Quiet-attempt true a e p q = record { at = ground (arith, p) }
Quiet-attempt false a e p q = record { at = (refl, q) }

cleanup_keeps :
    {A : Type 0} (dir : Str) (s : Step A) (t : List Action)
    → IsHonest s t
    → IsHonest s (t ++ on_return s (removed_dir dir ∷ []))
cleanup_keeps dir (returns (ok a)) t h = ground (arith, spawned-append t (removed_dir dir ∷ []))
cleanup_keeps dir (returns (err e)) t h = ground (arith, spawned-append t (removed_dir dir ∷ []))
cleanup_keeps dir still_running t h = rw append-nil h

pub cleanup-Honest : {A : Type 0} (dir : Str) (m : Work A) → Honest m → Honest (with_cleanup dir m)
cleanup-Honest dir m h = record { at = cleanup_keeps dir m.step m.trace h.at }
