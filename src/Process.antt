-- ===== src/Process.antt =====
-- The child process that both runners watch (`run_uv` of src/integrations/deploys/runner.rs and
-- `worker` of src/integrations/kubernetes/runner.rs): two reader tasks, the exit, a deadline and a
-- cancellation. The environment is a list of polls: what is ready each time `select!` looks.
pub mod Drain
pub mod Turns
pub mod Answers
pub mod Laws
use mathlib.Core.Option
use homelab_mcp.Prelude.{
  ℕ, Bool, true, false, not, ◌&&◌, ◌||◌, Option, none, some, List, [], ◌∷◌, if◌then◌else◌, is_some,
  ◌==◌,
}

-- `code()` is `none` after a signal; success is code 0.
pub record ExitStatus : Type 0 where
  pub code : Option ℕ

unfoldable pub success : ExitStatus → Bool
success status = elim status.code [ none ↦ false | some code ↦ code == 0 ]

pub data Wait : Type 0 where
  exited : ExitStatus → Wait
  wait_failed : Wait

-- `Ok(Ok(bytes))`, or a reader that passed its limit, failed or panicked
pub data Drained : Type 0 where
  drained : List ℕ → Drained
  overrun : Drained

-- which branches of `select!` are ready
pub record Ready : Type 0 where
  pub cancelled : Bool
  pub expired : Bool
  pub waited : Option Wait
  pub stdout : Option Drained
  pub stderr : Option Drained

pub data Task : Type 0 where
  running joined aborted : Task

-- `reaped` is the flag `waited`: a wait in the loop has returned a status.
pub record Child : Type 0 where
  pub status : Option ExitStatus
  pub output : Option (List ℕ)
  pub stderr_output : Option (List ℕ)
  pub stdout_task : Task
  pub stderr_task : Task
  pub kill_sent : Bool
  pub waited_again : Bool
  pub reaped : Bool

-- how the loop ends
pub data End : Type 0 where
  finished : ExitStatus → List ℕ → List ℕ → End
  was_cancelled timed_out lost_wait lost_stream : End

-- just spawned, with both readers started
abbrev pub spawned : Child
spawned = record {
  status = none;
  output = none;
  stderr_output = none;
  stdout_task = running;
  stderr_task = running;
  kill_sent = false;
  waited_again = false;
  reaped = false;
}

abbrev pub is_running : Task → Bool
is_running running = true
is_running _ = false

-- `if let Some(task) = … { task.abort(); task.await }`
abbrev pub abort : Task → Task
abort running = aborted
abort task = task

-- Kill unless the child has been waited for, wait again, and abort the readers that are left. What
-- `kill` and `wait` return is discarded, so that neither is known to have worked.
unfoldable pub terminate : Child → Child
terminate c = record c {
  kill_sent = c.kill_sent || not c.reaped;
  waited_again = true;
  stdout_task = abort c.stdout_task;
  stderr_task = abort c.stderr_task;
}

pub data Turn : Type 0 where
  again : Child → Turn
  ends : End → Child → Turn

unfoldable pub on_wait : Wait → Child → Turn
on_wait (exited status) c = again (record c { status = some status; reaped = true })
on_wait wait_failed c = ends lost_wait (terminate c)

unfoldable pub on_stdout : Drained → Child → Turn
on_stdout (drained bytes) c = again (record c { stdout_task = joined; output = some bytes })
on_stdout overrun c = ends lost_stream (terminate (record c { stdout_task = joined }))

unfoldable pub on_stderr : Drained → Child → Turn
on_stderr (drained bytes) c = again (record c { stderr_task = joined; stderr_output = some bytes })
on_stderr overrun c = ends lost_stream (terminate (record c { stderr_task = joined }))

-- an answer counts only while the branch's guard holds
abbrev pub guarded {ℓ} : {A : Type ℓ} → Bool → Option A → Option A
guarded true o = o
guarded false o = none

-- the last branches of `select!`, in order; where none is ready the loop waits
unfoldable pub poll_stderr : Option Drained → Child → Turn
poll_stderr (some err) c = on_stderr err c
poll_stderr none c = again c

unfoldable pub poll_stdout : Option Drained → Option Drained → Child → Turn
poll_stdout (some out) err c = on_stdout out c
poll_stdout none err c = poll_stderr err c

unfoldable pub poll_wait : Option Wait → Option Drained → Option Drained → Child → Turn
poll_wait (some wait) out err c = on_wait wait c
poll_wait none out err c = poll_stdout out err c

-- The `biased` select: the first ready branch in the order of the source is taken.
unfoldable pub select : Ready → Child → Turn
select ready c =
    if ready.cancelled
    then ends was_cancelled (terminate c)
    else if ready.expired
    then ends timed_out (terminate c)
    else poll_wait (guarded (not (is_some c.status)) ready.waited)
        (guarded (is_running c.stdout_task) ready.stdout)
        (guarded (is_running c.stderr_task) ready.stderr) c

-- the test at the head of the loop
abbrev pub complete : Option ExitStatus → Option (List ℕ) → Option (List ℕ) → Option End
complete (some status) (some out) (some err) = some (finished status out err)
complete _ _ _ = none

abbrev pub checked : Child → Option End
checked c = complete c.status c.output c.stderr_output

-- The loop over the polls; `none` while the child is still running.
unfoldable pub run : List Ready → Child → Option (End × Child)
run [] c = Option.map (λ end. (end, c)) (checked c)
run (ready ∷ rest) c = elim (checked c) [
  | some end ↦ some (end, c)
  | none ↦ elim (select ready c) [ again c' ↦ run rest c' | ends end c' ↦ some (end, c') ]
]
