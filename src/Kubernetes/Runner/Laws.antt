-- ===== src/Kubernetes/Runner/Laws.antt =====
-- What a caller learns of a run, by its operation.
use homelab_mcp.Prelude.{
  ℕ, zero, suc, ◌+◌, ◌≤◌, ◌≡◌, true, false, Option, none, some, List, Result, ok, err,
  if◌then◌else◌, arith, Option-cases, Bool-cases, sym, ap, ◌∙◌, some-injective, ◌⊎◌, inl, inr, ◌++◌,
  ==_iff, subst,
}
use homelab_mcp.Text.{Str, lit, decimal}
use homelab_mcp.Process.{
  ExitStatus, success, Ready, End, finished, was_cancelled, timed_out, lost_wait, lost_stream,
  spawned, run,
}
use homelab_mcp.Process.Answers.{Answers, ExitsWith, WritesOut, WritesErr}
use homelab_mcp.Process.Laws.{run-IsFinished}
use homelab_mcp.Kubernetes.{
  KubeError, capacity_exhausted, mutation_rejected, mutation_outcome_unknown,
}
use homelab_mcp.Kubernetes.Runner.{
  Operation, mutation, Runner, new, request_millis, millis, Launch, Ended, Race, result_first,
  worker_gone, cancellation_first, operation_failure, stream_failure, exit_failure, end_result,
  worker, run_cancelled, raced, race_result,
}

-- The time that a new runner gives `kubectl` for a request is written in whole milliseconds, is at
-- least 1 ms, and leaves a margin of 1 ms to 5 s before the deadline, for every deadline that a
-- runner is made with; the runner keeps that deadline.
pub new-request_timeout :
    (executable kubeconfig cache_dir context : Str) (deadline : ℕ) (runner : Runner)
    → new executable kubeconfig cache_dir context deadline ≡ ok runner
    → (runner.deadline ≡ deadline)
      × ((ms : ℕ) × (runner.request_timeout ≡ decimal ms ++ lit "ms")
          × (1 ≤ ms)
          × (ms + 1 ≤ millis deadline)
          × (millis deadline ≤ ms + 5000))
unfolding new request_millis
new-request_timeout executable kubeconfig cache_dir context deadline runner h = (
  ground arith,
  (request_millis deadline, ground arith, ground arith, ground arith, ground arith),
)

module _ (lossy : List ℕ → Str) where
  end_result-mutation :
      (end : End) (e : KubeError)
      → end_result lossy mutation end ≡ err e
      → e ≡ mutation_outcome_unknown
  unfolding end_result operation_failure stream_failure exit_failure
  end_result-mutation (finished status out errors) e h = ground arith
  end_result-mutation was_cancelled e h = cc
  end_result-mutation timed_out e h = cc
  end_result-mutation lost_wait e h = cc
  end_result-mutation lost_stream e h = cc

  -- A mutation that fails is reported as of unknown outcome if a child was started, and as
  -- rejected if none was.
  pub worker-mutation :
      (launch : Launch) (polls : List Ready) (ended : Ended) (e : KubeError)
      → worker lossy mutation launch polls ≡ some ended
      → ended.result ≡ err e
      → e ≡ (if ended.started then mutation_outcome_unknown else mutation_rejected)
  unfolding worker operation_failure
  worker-mutation launch polls ended e h failed = elim (Option-cases (run polls spawned)) [
    | inl running ↦ ground arith
    | inr ((end, child), ran) ↦ ground (arith, end_result-mutation end e)
  ]

  -- the two reports of a failed mutation, apart from the lack of a permit
  worker_cases :
      (launch : Launch) (polls : List Ready) (w : Ended) (e : KubeError)
      → worker lossy mutation launch polls ≡ some w
      → w.result ≡ err e
      → (e ≡ mutation_outcome_unknown) ⊎ (w.started ≡ false) × (e ≡ mutation_rejected)
  worker_cases launch polls w e h failed = ground (arith, worker-mutation launch polls w e h failed)

  race_result-mutation :
      (race : Race) (r : Result KubeError (List ℕ)) (e : KubeError)
      → race_result lossy mutation race r ≡ err e
      → (e ≡ mutation_outcome_unknown) ⊎ (r ≡ err e)
  unfolding operation_failure
  race_result-mutation result_first r e h = inr h
  race_result-mutation worker_gone r e h = inl cc
  race_result-mutation cancellation_first r e h = inl cc

  zero_code :
      (code : Option ℕ)
      → success (record { code = code }) ≡ true
      → ◌≡◌ {A = ExitStatus} (record { code = code }) (record { code = some 0 })
  unfolding success
  zero_code none h = cc
  zero_code (some code) h = ap (λ n. record { code = some n }) ((==_iff code 0).0 h)

  success-code : (status : ExitStatus) → success status ≡ true → status ≡ record { code = some 0 }
  success-code status h = zero_code status.code h

  end_result-ok :
      (operation : Operation) (end : End) (out : List ℕ)
      → end_result lossy operation end ≡ ok out
      → (status : ExitStatus) × (errors : List ℕ) × (end ≡ finished status out errors)
        × (success status ≡ true)
  unfolding end_result
  end_result-ok operation (finished status stdout errors) out h =
      elim (Bool-cases (success status)) [
        | inl good ↦ (status, errors, ground arith, good)
        | inr bad ↦ absurd (ground arith)
      ]
  end_result-ok operation was_cancelled out h = cc
  end_result-ok operation timed_out out h = cc
  end_result-ok operation lost_wait out h = cc
  end_result-ok operation lost_stream out h = cc

  -- Whatever comes first, a mutation that is reported as rejected or as refused for lack of a
  -- permit has started no child, and no other error but an unknown outcome is reported for one.
  pub run_cancelled-mutation :
      (permits : ℕ) (race : Race) (launch : Launch) (polls : List Ready) (ended : Ended)
      (e : KubeError)
      → run_cancelled lossy permits mutation race launch polls ≡ some ended
      → ended.result ≡ err e
      → (e ≡ mutation_outcome_unknown)
        ⊎ (ended.started ≡ false) × ((e ≡ mutation_rejected) ⊎ (e ≡ capacity_exhausted))
  unfolding run_cancelled operation_failure
  run_cancelled-mutation zero race launch polls ended e h failed =
      inr (ground arith, inr (ground arith))
  run_cancelled-mutation (suc n) race launch polls ended e h failed =
      elim (Option-cases (worker lossy mutation launch polls)) [
        | inl running ↦ absurd (cc (h, ap (raced lossy mutation race) running))
        | inr (w, done) ↦
            let same : raced lossy mutation race (some w) ≡ some ended =
              sym (ap (raced lossy mutation race) done) ∙ h in
            let fields = some-injective _ _ same in
            let started : w.started ≡ ended.started = ap (λ (x : Ended). x.started) fields in
            let reported : race_result lossy mutation race w.result ≡ err e =
              ap (λ (x : Ended). x.result) fields ∙ failed in
            elim (race_result-mutation race w.result e reported) [
              | inl unknown ↦ inl unknown
              | inr by_worker ↦ elim (worker_cases launch polls w e done by_worker) [
                | inl unknown ↦ inl unknown
                | inr (idle, rejected) ↦ inr (sym started ∙ idle, inl rejected)
              ]
            ]
      ]

  -- A run gives output only if its child was started, a poll of the child gave an exit with code 0,
  -- a poll of its stdout gave exactly this output, and a poll of its stderr gave its end too.
  pub worker-ok :
      (operation : Operation) (launch : Launch) (polls : List Ready) (ended : Ended) (out : List ℕ)
      → worker lossy operation launch polls ≡ some ended
      → ended.result ≡ ok out
      → (ended.started ≡ true)
        × Answers (ExitsWith (record { code = some 0 })) polls
        × Answers (WritesOut out) polls
        × ((errors : List ℕ) × Answers (WritesErr errors) polls)
  unfolding worker
  worker-ok operation launch polls ended out h succeeded = elim (Option-cases (run polls spawned)) [
    | inl running ↦ absurd (ground arith)
    | inr ((end, child), ran) ↦
        let (status, errors, same, good) = end_result-ok operation end out (ground arith) in
        let done =
          run-IsFinished polls status out errors child (ran ∙ ap (λ x. some (x, child)) same) in
        (
          ground arith,
          subst (λ x. Answers (ExitsWith x) polls) (success-code status good) done.exit,
          done.stdout,
          (errors, done.stderr),
        )
  ]
