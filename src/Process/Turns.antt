-- ===== src/Process/Turns.antt =====
-- What one turn of the watching loop does to the child's bookkeeping.
use homelab_mcp.Prelude.{
  ◌≡◌, refl, ◌⊎◌, inl, inr, Bool, true, false, not, ◌||◌, Option, none, some, arith, is_some,
  Bool-cases,
}
use homelab_mcp.Process.{
  ExitStatus, Ready, Task, running, joined, aborted, abort, terminate, Wait, exited, wait_failed,
  Drained, drained, overrun, on_wait, on_stdout, on_stderr, poll_wait, poll_stdout, poll_stderr,
  Child, End, finished, Turn, again, ends, select, is_running,
}

-- What holds of a child between two polls.
pub record IsWatched (c : Child) : Type 0 where
  pub reaped_once : c.reaped ≡ is_some c.status
  pub not_killed : c.kill_sent ≡ false
  pub stdout_read : is_some c.output ≡ not (is_running c.stdout_task)
  pub stderr_read : is_some c.stderr_output ≡ not (is_running c.stderr_task)

-- No reader is left running, and the child had exited, or a kill has been sent and it has been
-- waited for again.
pub record IsStopped (c : Child) : Type 0 where
  pub stdout_stopped : is_running c.stdout_task ≡ false
  pub stderr_stopped : is_running c.stderr_task ≡ false
  pub gone : (is_some c.status ≡ true) ⊎ ((c.kill_sent ≡ true) × (c.waited_again ≡ true))

-- an end other than the child's own exit with both streams read
abbrev pub IsCut : End → Type 0
IsCut (finished status out err) = ⊥
IsCut _ = Unit {0}

abbrev pub TurnOk : Turn → Type 0
TurnOk (again c) = IsWatched c
TurnOk (ends end c) = IsStopped c × IsCut end

terminate-IsStopped : (c : Child) → c.reaped ≡ is_some c.status → IsStopped (terminate c)
unfolding terminate
terminate-IsStopped c h = record {
  stdout_stopped = abort-stops c.stdout_task;
  stderr_stopped = abort-stops c.stderr_task;
  gone = killed_or_exited c.status c.reaped c.kill_sent h;
}
  where
    abort-stops : (t : Task) → is_running (abort t) ≡ false
    abort-stops running = refl
    abort-stops joined = refl
    abort-stops aborted = refl

    killed_or_exited :
        (o : Option ExitStatus) (r k : Bool)
        → r ≡ is_some o
        → (is_some o ≡ true) ⊎ (((k || not r) ≡ true) × (true ≡ true))
    killed_or_exited (some e) r k p = inl refl
    killed_or_exited none r k p = inr (ground arith, refl)

module _ (c : Child) (w : IsWatched c) where
  on_wait-TurnOk : (wait : Wait) → TurnOk (on_wait wait c)
  unfolding on_wait
  on_wait-TurnOk (exited status) = record {
    reaped_once = refl;
    not_killed = w.not_killed;
    stdout_read = w.stdout_read;
    stderr_read = w.stderr_read;
  }
  on_wait-TurnOk wait_failed = (terminate-IsStopped c w.reaped_once, tt)

  on_stdout-TurnOk : (out : Drained) → TurnOk (on_stdout out c)
  unfolding on_stdout
  on_stdout-TurnOk (drained bytes) = record {
    reaped_once = w.reaped_once;
    not_killed = w.not_killed;
    stdout_read = refl;
    stderr_read = w.stderr_read;
  }
  on_stdout-TurnOk overrun =
      (terminate-IsStopped (record c { stdout_task = joined }) w.reaped_once, tt)

  on_stderr-TurnOk : (err : Drained) → TurnOk (on_stderr err c)
  unfolding on_stderr
  on_stderr-TurnOk (drained bytes) = record {
    reaped_once = w.reaped_once;
    not_killed = w.not_killed;
    stdout_read = w.stdout_read;
    stderr_read = refl;
  }
  on_stderr-TurnOk overrun =
      (terminate-IsStopped (record c { stderr_task = joined }) w.reaped_once, tt)

  poll_stdout-TurnOk : (out err : Option Drained) → TurnOk (poll_stdout out err c)
  unfolding poll_stdout poll_stderr
  poll_stdout-TurnOk (some out) err = on_stdout-TurnOk out
  poll_stdout-TurnOk none (some err) = on_stderr-TurnOk err
  poll_stdout-TurnOk none none = w

  poll_wait-TurnOk :
      (wait : Option Wait) (out err : Option Drained) → TurnOk (poll_wait wait out err c)
  unfolding poll_wait
  poll_wait-TurnOk (some wait) out err = on_wait-TurnOk wait
  poll_wait-TurnOk none out err = poll_stdout-TurnOk out err

  -- each turn of the loop keeps the bookkeeping, or ends with everything stopped
  pub select-TurnOk : (ready : Ready) → TurnOk (select ready c)
  unfolding select
  select-TurnOk ready = elim (Bool-cases ready.cancelled) [
    | inl yes_now ↦ rw yes_now (terminate-IsStopped c w.reaped_once, tt)
    | inr not_yet ↦ elim (Bool-cases ready.expired) [
      | inl late ↦ rw (not_yet, late) (terminate-IsStopped c w.reaped_once, tt)
      | inr early ↦ rw (not_yet, early) (poll_wait-TurnOk _ _ _)
    ]
  ]
