-- ===== src/Tekton/Logs/Laws.antt =====
-- The bytes and the secrets of the logs of a task (`logs` of src/integrations/tekton/client.rs).
use homelab_mcp.Prelude.{
  ℕ, ◌+◌, ◌-◌, ◌≤◌, ◌≡◌, ap, sym, subst, Bool, ◌==◌, List, [], ◌∷◌, ◌++◌, arith, ok, ok-injective,
  All, length, ltb, take, length-take_bound, Bool-cases, inl, inr,
}
use homelab_mcp.Text.{Str, lit, len}
use homelab_mcp.Tasks.{Yields, Yields-bind, Yields-bind_known, Yields-ok, lift, >>=-eq-ok}
use homelab_mcp.Tekton.{TektonError}
use homelab_mcp.Tekton.Texts.{redact, redact_one, truncated_or_nothing}
use homelab_mcp.Tekton.Texts.Redaction.{IsSecret, Absent, Absent-prefix, redact_one-Absent}
use homelab_mcp.Tekton.Texts.Truncation.{truncate_utf8-IsLongest}
use homelab_mcp.Tekton.Env.{Env, State, get_text}
use homelab_mcp.Tekton.Logs.{
  TaskLogsQuery, StepLog, TaskLogs, shown_text, step_log, log_query, pod_path, read_logs, logs,
  logs_of, max_log_steps, find_steps,
}

abbrev pub text_bytes : List StepLog → ℕ
text_bytes [] = 0
text_bytes (log ∷ rest) = len log.text + text_bytes rest

-- No configured secret stands in the text.
abbrev pub IsRedacted : Env → StepLog → Type 0
IsRedacted env log = All (λ secret. Absent secret log.text) env.redactions

All-Absent-prefix :
    (s t : Str) (secrets : List Str)
    → All (λ secret. Absent secret (s ++ t)) secrets
    → All (λ secret. Absent secret s) secrets
All-Absent-prefix s t [] a = tt
All-Absent-prefix s t (secret ∷ secrets) a =
    (Absent-prefix secret s t a.0, All-Absent-prefix s t secrets a.1)

module _ (env : Env) (secret : All IsSecret env.redactions) where
  -- what is shown of a log
  record IsShown (requested : ℕ) (shown : Str × Bool) : Type 0 where
    clean : All (λ s. Absent s shown.0) env.redactions
    fits : len shown.0 ≤ requested

  shown_text-IsShown :
      (bytes : List ℕ) (token : Str) (requested : ℕ)
      → IsShown requested (shown_text env bytes token requested)
  unfolding shown_text
  shown_text-IsShown bytes token requested =
      let whole = redact_one token (redact env.redactions (env.from_utf8_lossy bytes)) in
      let (kept, shown, l) = truncate_utf8-IsLongest whole requested in
      subst (λ o. IsShown requested (truncated_or_nothing o)) (sym shown)
        (record {
          clean = All-Absent-prefix kept l.rest env.redactions (
              subst (λ t. All (λ s. Absent s t) env.redactions) l.spells
                (redact_one-Absent (env.from_utf8_lossy bytes) token env.redactions secret));
          fits = l.fits;
        })

  record IsBudgeted (steps : List (Str × Str)) (remaining : ℕ) (result : List StepLog) (left : ℕ)
      : Type 0 where
    clean : All (IsRedacted env) result
    spent : text_bytes result + left ≡ remaining
    few : length result ≤ length steps

  no_logs :
      (steps : List (Str × Str)) (remaining : ℕ) (s s' : State) (result : List StepLog) (left : ℕ)
      → lift {E = TektonError} {S = State} {A = List StepLog × ℕ} (ok ([], remaining)) s
        ≡ (ok (result, left), s')
      → IsBudgeted steps remaining result left
  no_logs steps remaining s s' result left e =
      let same = ok-injective _ _ (ap (λ p. p.0) e) in
      subst (λ (p : List StepLog × ℕ). IsBudgeted steps remaining p.0 p.1) same
        (record { clean = tt; spent = omega arith; few = omega arith })

  one_log :
      (query : TaskLogsQuery) (name container : Str) (steps : List (Str × Str)) (bytes : List ℕ)
      (shown : Str × Bool) (remaining : ℕ) (rest : List StepLog × ℕ)
      → IsShown remaining shown
      → IsBudgeted steps (remaining - len shown.0) rest.0 rest.1
      → IsBudgeted
          ((name, container) ∷ steps)
          remaining
          (step_log env query name bytes remaining shown ∷ rest.0)
          rest.1
  one_log query name container steps bytes (text, cut) remaining rest k b = record {
    clean = (k.clean, b.clean);
    spent = omega (arith, b.spent, k.fits);
    few = omega (arith, b.few);
  }

  read_logs-IsBudgeted :
      (query : TaskLogsQuery) (pod : Str) (steps : List (Str × Str)) (remaining : ℕ) (s s' : State)
      (result : List StepLog) (left : ℕ)
      → read_logs env query pod steps remaining s ≡ (ok (result, left), s')
      → IsBudgeted steps remaining result left
  unfolding read_logs
  read_logs-IsBudgeted query pod [] remaining s s' result left e =
      no_logs [] remaining s s' result left e
  read_logs-IsBudgeted query pod ((name, container) ∷ steps) remaining s s' result left e =
      elim (Bool-cases (remaining == 0)) [
        | inl spent ↦ no_logs ((name, container) ∷ steps) remaining s s' result left (rw spent at e)
        | inr some_left ↦
            let call =
              get_text env (pod_path env pod ++ lit "/log")
                (log_query env query container remaining) remaining in
            let (answer, answered, e1) = >>=-eq-ok call _ s s' (rw some_left at e) in
            let shown = shown_text env answer.0 answer.1 remaining in
            let (rest, later, e2) =
              >>=-eq-ok (read_logs env query pod steps (remaining - len shown.0)) _ (call s).1 s'
                e1 in
            let whole = read_logs env query pod steps (remaining - len shown.0) (call s).1 in
            let b =
              read_logs-IsBudgeted query pod steps (remaining - len shown.0) (call s).1 whole.1
                rest.0 rest.1 (ap (λ r. (r, whole.1)) later) in
            let same = ok-injective _ _ (ap (λ p. p.0) e2) in
            subst
              (λ (p : List StepLog × ℕ). IsBudgeted ((name, container) ∷ steps) remaining p.0 p.1)
              same
              (one_log query name container steps answer.0 shown remaining rest
                (shown_text-IsShown answer.0 answer.1 remaining) b)
      ]

  abbrev Budgeted : TaskLogsQuery → TaskLogs → Type 0
  Budgeted query out =
      All (IsRedacted env) out.result
      × (text_bytes out.result ≤ query.max_bytes)
      × (length out.result ≤ 8)

  logs_of-Budgeted :
      (query : TaskLogsQuery) (omitted : Bool) (steps : List (Str × Str)) (read : List StepLog × ℕ)
      → IsBudgeted (take max_log_steps steps) query.max_bytes read.0 read.1
      → Budgeted query (logs_of env omitted read)
  logs_of-Budgeted query omitted steps (result, left) b =
      (b.clean, omega (arith, b.spent), omega (arith, b.few, length-take_bound max_log_steps steps))

  read_logs-Yields :
      (query : TaskLogsQuery) (pod : Str) (steps : List (Str × Str)) (remaining : ℕ)
      → Yields
          (λ (p : List StepLog × ℕ). IsBudgeted steps remaining p.0 p.1)
          (read_logs env query pod steps remaining)
  read_logs-Yields query pod steps remaining = record {
    at = λ s s' p h. read_logs-IsBudgeted query pod steps remaining s s' p.0 p.1 h;
  }

  -- The logs of a task have at most eight texts, which take together at most the bytes that were
  -- asked for, and no configured secret stands in any of them, if no secret has a bracket or is part
  -- of the word in the mark.
  pub logs-IsRedacted :
      (query : TaskLogsQuery) (s s' : State) (out : TaskLogs)
      → logs env query s ≡ (ok out, s')
      → All (IsRedacted env) out.result
        × (text_bytes out.result ≤ query.max_bytes)
        × (length out.result ≤ 8)
  unfolding logs
  logs-IsRedacted query =
      (Yields-bind (Budgeted query) (find_steps env query) _ λ found.
        Yields-bind_known _ (Budgeted query)
          (read_logs env query found.0 (take max_log_steps found.1) query.max_bytes) _
          (read_logs-Yields query found.0 (take max_log_steps found.1) query.max_bytes)
          λ read b.
            Yields-ok (Budgeted query) _
              (logs_of-Budgeted query (ltb max_log_steps (length found.1)) found.1 read b)).at
