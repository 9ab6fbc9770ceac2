-- ===== src/Tekton/Wait/Bounds.antt =====
-- How many requests a wait sends (src/integrations/tekton/client.rs).
use homelab_mcp.Prelude.{
  ℕ, zero, suc, ◌+◌, ◌*◌, ◌≤◌, ◌≡◌, refl, true, false, List, [], ◌∷◌, ok, err, length, take, arith,
}
use homelab_mcp.Text.{Str}
use homelab_mcp.Tasks.{Costs, Costs-bind, Costs-last, Costs-lift, Costs-pure, Costs-mono, Costs-if}
use homelab_mcp.Tekton.{timeout, capacity_exhausted}
use homelab_mcp.Tekton.Env.{Env, State, Sent, Task}
use homelab_mcp.Tekton.Objects.{Repository, terminal_status}
use homelab_mcp.Tekton.Repositories.{owned_run, owned_run_matching}
use homelab_mcp.Tekton.Wait.{
  Turn, expired, interrupted, polled, Look, in_time, late, abandoned, normalized, poll, last_poll,
  wait_turns, wait,
}
use homelab_mcp.Tekton.Costs.{total, spent}
use homelab_mcp.Tekton.Costs.Reads.{owned_run-Costs, owned_run_matching-Costs}

abbrev one_each : Sent → ℕ
one_each what = 1

total-one_each : (sent : List Sent) → total one_each sent ≡ length sent
total-one_each [] = refl
total-one_each (what ∷ sent) = omega (arith, total-one_each sent)

module _ (env : Env) (run_id : Str) where
  poll-Costs : (repository : Repository) → Costs (spent one_each) 11 (poll env run_id repository)
  poll-Costs repository =
      Costs-last (spent one_each) 11 (owned_run_matching env run_id repository) _
        (owned_run_matching-Costs one_each 1 (λ path query. omega arith) env run_id repository)
        λ run. Costs-pure (spent one_each) (normalized env run_id run repository)

  -- a call that is given up has sent no more than it may
  abandoned-Costs :
      {A : Type 0} (k n : ℕ) (call : Task A)
      → Costs (spent one_each) k call
      → Costs (spent one_each) k (abandoned n call)
  abandoned-Costs k n call c = record {
    at = λ s. c.at (record s { exchanges = take n s.exchanges });
  }

  matching-Costs :
      (repository : Repository)
      → Costs (spent one_each) 11 (owned_run_matching env run_id repository)
  matching-Costs repository =
      owned_run_matching-Costs one_each 1 (λ path query. omega arith) env run_id repository

  last_poll-Costs :
      (last : Look) (repository : Repository)
      → Costs (spent one_each) 11 (last_poll env run_id last repository)
  unfolding last_poll
  last_poll-Costs (late n) repository =
      Costs-last (spent one_each) 11 (abandoned n (owned_run_matching env run_id repository)) _
        (abandoned-Costs 11 n (owned_run_matching env run_id repository)
          (matching-Costs repository))
        λ _. Costs-pure (spent one_each) (err timeout)
  last_poll-Costs in_time repository =
      Costs-last (spent one_each) 11 (poll env run_id repository) _ (poll-Costs repository)
        λ run. Costs-pure (spent one_each) (ok (record { result = run; timed_out = true }))

  at_once-Costs :
      (turns : List Turn) (last : Look) (repository : Repository)
      → Costs (spent one_each) (11 * (length turns + 1)) (last_poll env run_id last repository)
  at_once-Costs turns last repository =
      Costs-mono (spent one_each) 11 (11 * (length turns + 1)) _ (omega arith)
        (last_poll-Costs last repository)

  wait_turns-Costs :
      (turns : List Turn) (last : Look) (repository : Repository)
      → Costs
          (spent one_each)
          (11 * (length turns + 1))
          (wait_turns env run_id turns last repository)
  unfolding wait_turns
  wait_turns-Costs [] last repository = at_once-Costs [] last repository
  wait_turns-Costs (expired ∷ turns) last repository =
      at_once-Costs (expired ∷ turns) last repository
  wait_turns-Costs (interrupted n ∷ turns) last repository =
      Costs-mono (spent one_each) (11 + 11) (11 * (suc (length turns) + 1)) _ (omega arith) (
        Costs-bind (spent one_each) 11 11 (abandoned n (owned_run_matching env run_id repository)) _
          (abandoned-Costs 11 n (owned_run_matching env run_id repository)
            (matching-Costs repository))
          λ _. last_poll-Costs last repository)
  wait_turns-Costs (polled ∷ turns) last repository =
      Costs-mono (spent one_each) (11 + 11 * (length turns + 1)) (11 * (suc (length turns) + 1)) _
        (omega arith)
        (Costs-bind (spent one_each) 11 (11 * (length turns + 1)) (poll env run_id repository) _
          (poll-Costs repository)
          λ run.
            Costs-if (spent one_each) (11 * (length turns + 1)) (terminal_status run.status) _ _
              (Costs-mono (spent one_each) 0 (11 * (length turns + 1)) _ (omega arith)
                (Costs-pure (spent one_each) (ok (record { result = run; timed_out = false }))))
              (wait_turns-Costs turns last repository))

  wait-Costs :
      (waiters : ℕ) (first : Look) (turns : List Turn) (last : Look)
      → Costs (spent one_each) (11 * (length turns + 2)) (wait env run_id waiters first turns last)
  unfolding wait
  wait-Costs zero first turns last =
      Costs-mono (spent one_each) 0 (11 * (length turns + 2)) _ (omega arith)
        (Costs-pure (spent one_each) (err capacity_exhausted))
  wait-Costs (suc waiters) (late n) turns last =
      Costs-mono (spent one_each) 11 (11 * (length turns + 2)) _ (omega arith) (
        Costs-last (spent one_each) 11 (abandoned n (owned_run env run_id)) _
          (abandoned-Costs 11 n (owned_run env run_id)
            (owned_run-Costs one_each 1 (λ path query. omega arith) env run_id))
          λ _. Costs-pure (spent one_each) (err timeout))
  wait-Costs (suc waiters) in_time turns last =
      Costs-mono (spent one_each) (11 + 11 * (length turns + 1)) (11 * (length turns + 2)) _
        (omega arith)
        (Costs-bind (spent one_each) 11 (11 * (length turns + 1)) (owned_run env run_id) _
          (owned_run-Costs one_each 1 (λ path query. omega arith) env run_id)
          λ owned.
            Costs-lift (spent one_each) (11 * (length turns + 1))
              (normalized env run_id owned.0 owned.1) _
              λ run _.
                Costs-if (spent one_each) (11 * (length turns + 1)) (terminal_status run.status) _ _
                  (Costs-mono (spent one_each) 0 (11 * (length turns + 1)) _ (omega arith)
                    (Costs-pure (spent one_each) (ok (record { result = run; timed_out = false }))))
                  (wait_turns-Costs turns last owned.1))

  -- A wait sends at most eleven requests for its first look, for each turn of the loop and for the
  -- last look, those of the looks that are given up on the way included.
  pub wait-bound :
      (waiters : ℕ) (first : Look) (turns : List Turn) (last : Look) (s : State)
      → length (wait env run_id waiters first turns last s).1.sent
        ≤ length s.sent + 11 * (length turns + 2)
  wait-bound waiters first turns last s = omega (
    arith,
    ((wait-Costs waiters first turns last).at s).1,
    total-one_each s.sent,
    total-one_each (wait env run_id waiters first turns last s).1.sent,
  )
