-- ===== src/Tests/Process.antt =====
-- A child that exits after its streams are read, and streams within and beyond the limit.
use homelab_mcp.Prelude.{
  ◌≡◌, refl, true, false, not, ◌&&◌, none, some, List, [], ◌∷◌, ok, err, leb, if◌then◌else◌,
  is_some, length,
}
use homelab_mcp.Process.{
  ExitStatus, exited, drained, Ready, Child, finished, joined, aborted, timed_out, terminate,
  spawned, run, select, on_wait, on_stdout, on_stderr, poll_wait, poll_stdout, poll_stderr,
}
use homelab_mcp.Process.Drain.{Read, chunk, drain, drain_from, drain-eq, content, fails}
use homelab_mcp.Process.Laws.{IsClean, IsFinished, run-IsClean, run-IsFinished, run-ends}

abbrev nothing : Ready
nothing = record { cancelled = false; expired = false; waited = none; stdout = none; stderr = none }

abbrev pub zero_exit : ExitStatus
zero_exit = record { code = some 0 }

abbrev pub quiet_run : List Ready
quiet_run =
    nothing
    ∷ record nothing { stdout = some (drained (b'h' ∷ b'i' ∷ [])) }
    ∷ record nothing { waited = some (exited zero_exit) }
    ∷ record nothing { stderr = some (drained []); waited = some (exited zero_exit) }
    ∷ []

abbrev quiet_child : Child
quiet_child = record spawned {
  status = some zero_exit;
  output = some (b'h' ∷ b'i' ∷ []);
  stderr_output = some [];
  stdout_task = joined;
  stderr_task = joined;
  reaped = true;
}

quiet_run-ends :
    run quiet_run spawned ≡ some (finished zero_exit (b'h' ∷ b'i' ∷ []) [], quiet_child)
unfolding run select on_wait on_stdout on_stderr poll_wait poll_stdout poll_stderr
quiet_run-ends = refl

abbrev pub slow_run : List Ready
slow_run = nothing ∷ nothing ∷ record nothing { expired = true } ∷ []

abbrev slow_child : Child
slow_child = record spawned {
  stdout_task = aborted;
  stderr_task = aborted;
  kill_sent = true;
  waited_again = true;
}

slow_run-ends : run slow_run spawned ≡ some (timed_out, slow_child)
unfolding run select terminate poll_wait poll_stdout poll_stderr
slow_run-ends = refl

run-IsClean_example : IsClean slow_run slow_child
run-IsClean_example = run-IsClean slow_run timed_out slow_child slow_run-ends

run-IsFinished_example : IsFinished quiet_run zero_exit (b'h' ∷ b'i' ∷ []) [] quiet_child
run-IsFinished_example =
    run-IsFinished quiet_run zero_exit (b'h' ∷ b'i' ∷ []) [] quiet_child quiet_run-ends

run-ends_example : is_some (run slow_run spawned) ≡ true
run-ends_example = run-ends slow_run spawned refl

abbrev hello : List Read
hello = chunk (b'h' ∷ b'i' ∷ []) ∷ chunk (b'!' ∷ []) ∷ chunk [] ∷ []

drain-eq_example :
    drain hello 2
    ≡ (if not (fails hello) && leb (length (content hello)) 2 then ok (content hello) else err tt)
drain-eq_example = drain-eq hello 2

hello-too_long : drain hello 2 ≡ err tt
unfolding drain drain_from
hello-too_long = refl

hello-fits : drain hello 3 ≡ ok (b'h' ∷ b'i' ∷ b'!' ∷ [])
unfolding drain drain_from
hello-fits = refl
