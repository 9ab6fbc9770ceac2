-- ===== src/Tekton/Wait.antt =====
-- `wait` of src/integrations/tekton/client.rs: polls of a run until it ends or the deadline is there.
-- Time is the list of what each turn of the loop meets; at its end the deadline is there.
pub mod Bounds
pub mod Laws
use homelab_mcp.Prelude.{
  ℕ, zero, suc, Bool, true, false, Option, none, some, List, [], ◌∷◌, ◌++◌, take, drop, Result, ok,
  err, ok_or, if◌then◌else◌,
}
use homelab_mcp.Text.{Str}
use homelab_mcp.Tasks.{lift, ◌>>=◌, ◌>>◌}
use homelab_mcp.Tekton.{TektonError, capacity_exhausted, timeout, invalid_response}
use homelab_mcp.Tekton.Env.{Env, Value, Task}
use homelab_mcp.Tekton.Objects.{Repository, Run, terminal_status}
use homelab_mcp.Tekton.Objects.Normalize.{normalize_run}
use homelab_mcp.Tekton.Repositories.{owned_run, owned_run_matching}

-- one turn: the deadline comes first, or it comes when the poll has had so many exchanges, or the
-- poll is answered
pub data Turn : Type 0 where
  expired : Turn
  interrupted : ℕ → Turn
  polled : Turn

-- a look at the run ends in time, or is given up when it has had so many exchanges
pub data Look : Type 0 where
  in_time : Look
  late : ℕ → Look

-- A call that is given up after so many exchanges, and its result with it; what it has sent by then
-- is sent, and the exchanges behind are left for what follows.
abbrev pub abandoned : {A : Type 0} → ℕ → Task A → Task (Unit {0})
abandoned n call s =
    let s' = (call (record s { exchanges = take n s.exchanges })).1 in
    (ok tt, record { exchanges = s'.exchanges ++ drop n s.exchanges; sent = s'.sent })

pub record Waited : Type 0 where
  pub result : Run
  pub timed_out : Bool

module _ (env : Env) (run_id : Str) where
  abbrev pub normalized : Value env → Repository → Result TektonError Run
  normalized run repository =
      ok_or invalid_response (normalize_run env.json run env.namespace repository)

  abbrev pub poll : Repository → Task Run
  poll repository = do
    run ← owned_run_matching env run_id repository
    lift (normalized run repository)

  -- the poll behind the loop
  unfoldable pub last_poll : Look → Repository → Task Waited
  last_poll (late n) repository = do
    abandoned n (owned_run_matching env run_id repository)
    lift (err timeout)
  last_poll in_time repository = do
    run ← poll repository
    lift (ok (record { result = run; timed_out = true }))

  -- the loop
  unfoldable pub wait_turns : List Turn → Look → Repository → Task Waited
  unfolding last_poll
  wait_turns [] last repository = last_poll last repository
  wait_turns (expired ∷ turns) last repository = last_poll last repository
  wait_turns (interrupted n ∷ turns) last repository = do
    abandoned n (owned_run_matching env run_id repository)
    last_poll last repository
  wait_turns (polled ∷ turns) last repository = do
    run ← poll repository
    (if terminal_status run.status
        then lift (ok (record { result = run; timed_out = false }))
        else wait_turns turns last repository)

  -- with the waiters that may still be admitted
  unfoldable pub wait : ℕ → Look → List Turn → Look → Task Waited
  wait zero first turns last = lift (err capacity_exhausted)
  wait (suc waiters) (late n) turns last = do abandoned n (owned_run env run_id); lift (err timeout)
  wait (suc waiters) in_time turns last = do
    owned ← owned_run env run_id
    run ← lift (normalized owned.0 owned.1)
    (if terminal_status run.status
        then lift (ok (record { result = run; timed_out = false }))
        else wait_turns turns last owned.1)
