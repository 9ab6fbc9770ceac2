-- ===== src/Process/Laws.antt =====
-- How a watched child ends, whatever the environment does.
use homelab_mcp.Prelude.{
  ℕ, ◌≡◌, refl, ap, ◌∙◌, ◌⊎◌, inl, inr, Bool, true, false, ◌||◌, Option, none, some, some-injective,
  sym, subst, subst₂, List, [], ◌∷◌, arith, any, is_some, Option-cases, Bool-cases,
}
use homelab_mcp.Process.{
  ExitStatus, Ready, terminate, complete, Child, End, finished, was_cancelled, timed_out, spawned,
  Turn, again, ends, select, checked, run, is_running,
}
use homelab_mcp.Process.Turns.{IsWatched, IsStopped, IsCut, TurnOk, select-TurnOk}
use homelab_mcp.Process.Answers.{
  Answers, ExitsWith, WritesOut, WritesErr, From, From-none, Told, Told-none, Told-turn, left,
  select-Told,
}

-- The child at the head of the loop when all three parts are there.
complete-parts :
    (status : Option ExitStatus) (out err : Option (List ℕ)) (end : End)
    → complete status out err ≡ some end
    → (is_some status ≡ true) × (is_some out ≡ true) × (is_some err ≡ true)
complete-parts (some status) (some out) (some err) end e = (refl, refl, refl)
complete-parts (some status) (some out) none end e = cc
complete-parts (some status) none err end e = cc
complete-parts none out err end e = cc

checked-IsStopped : (c : Child) (end : End) → IsWatched c → checked c ≡ some end → IsStopped c
checked-IsStopped c end w e =
    let (exit, out, err) = complete-parts c.status c.output c.stderr_output end e in
    record { stdout_stopped = ground arith; stderr_stopped = ground arith; gone = inl exit }

-- The loop as a relation.
pub data Ends : List Ready → Child → End → Child → Type 0 where
  here : {polls : List Ready} {c : Child} {end : End} → checked c ≡ some end → Ends polls c end c
  stops :
      {ready : Ready} {rest : List Ready} {c c' : Child} {end : End}
      → checked c ≡ none
      → select ready c ≡ ends end c'
      → Ends (ready ∷ rest) c end c'
  turns :
      {ready : Ready} {rest : List Ready} {c c' c'' : Child} {end : End}
      → checked c ≡ none
      → select ready c ≡ again c'
      → Ends rest c' end c''
      → Ends (ready ∷ rest) c end c''

Turn-cases : (t : Turn) → ((c : Child) × (t ≡ again c)) ⊎ ((e : End) × (c : Child) × (t ≡ ends e c))
Turn-cases (again c) = inl (c, refl)
Turn-cases (ends e c) = inr (e, c, refl)

here_of :
    {polls : List Ready} {c c' : Child} {end end' : End}
    → checked c ≡ some end
    → ◌≡◌ {A = Option (End × Child)} (some (end, c)) (some (end', c'))
    → Ends polls c end' c'
here_of {polls} {c} checked_now e =
    let same = some-injective _ _ e in
    subst₂ (λ d k. Ends polls c d k) (ap (λ (p : End × Child). p.0) same)
      (ap (λ (p : End × Child). p.1) same) (here checked_now)

stops_of :
    {ready : Ready} {rest : List Ready} {c c' c'' : Child} {end end' : End}
    → checked c ≡ none
    → select ready c ≡ ends end c'
    → ◌≡◌ {A = Option (End × Child)} (some (end, c')) (some (end', c''))
    → Ends (ready ∷ rest) c end' c''
stops_of {ready} {rest} {c} not_yet stop e =
    let same = some-injective _ _ e in
    subst₂ (λ d k. Ends (ready ∷ rest) c d k) (ap (λ (p : End × Child). p.0) same)
      (ap (λ (p : End × Child). p.1) same) (stops not_yet stop)

pub run-Ends :
    (polls : List Ready) (c : Child) (end : End) (c' : Child)
    → run polls c ≡ some (end, c')
    → Ends polls c end c'
unfolding run
run-Ends [] c end c' e = elim (Option-cases (checked c)) [
  | inl not_yet ↦ absurd (ground arith)
  | inr (now, at_head) ↦ here_of at_head (rw at_head at e)
]
run-Ends (ready ∷ rest) c end c' e = elim (Option-cases (checked c)) [
  | inr (now, at_head) ↦ here_of at_head (rw (at_head, run) at e)
  | inl not_yet ↦ elim (Turn-cases (select ready c)) [
    | inl (c1, turn) ↦ turns not_yet turn (run-Ends rest c1 end c' (rw (not_yet, turn, run) at e))
    | inr (now, c1, stop) ↦ stops_of not_yet stop (rw (not_yet, stop, run) at e)
  ]
]

Ends-IsStopped :
    {polls : List Ready} {c c' : Child} {end : End}
    → Ends polls c end c'
    → IsWatched c
    → IsStopped c'
Ends-IsStopped {c} {end} (here e) w = checked-IsStopped c end w e
Ends-IsStopped (stops {ready} {c} not_yet stop) w = (subst TurnOk stop (select-TurnOk c w ready)).0
Ends-IsStopped (turns {ready} {c} not_yet turn later) w =
    Ends-IsStopped later (subst TurnOk turn (select-TurnOk c w ready))

-- What is recorded at the end is what one of the polls answered.
Ends-Told : {polls : List Ready} {c c' : Child} {end : End} → Ends polls c end c' → Told polls c c'
Ends-Told {polls} {c} (here e) = Told-none polls c
Ends-Told (stops {ready} {rest} {c} {c'} not_yet stop) =
    Told-turn ready rest c c' c'
      (subst (λ (t : Turn). Told (ready ∷ []) c (left t)) stop (select-Told ready c))
      (Told-none rest c')
Ends-Told (turns {ready} {rest} {c} {c'} {c''} not_yet turn later) =
    Told-turn ready rest c c' c''
      (subst (λ (t : Turn). Told (ready ∷ []) c (left t)) turn (select-Told ready c))
      (Ends-Told later)

spawned-IsWatched : IsWatched spawned
spawned-IsWatched = record {
  reaped_once = refl;
  not_killed = refl;
  stdout_read = refl;
  stderr_read = refl;
}

-- No reader is left running, and one of the polls gave the child's exit, or a kill has been sent and
-- the child has been waited for again.
pub record IsClean (polls : List Ready) (c : Child) : Type 0 where
  pub stdout_stopped : is_running c.stdout_task ≡ false
  pub stderr_stopped : is_running c.stderr_task ≡ false
  pub gone :
      ((status : ExitStatus) × Answers (ExitsWith status) polls)
      ⊎ ((c.kill_sent ≡ true) × (c.waited_again ≡ true))

-- Whatever the environment does, when the loop ends both readers have been joined or aborted, and
-- a wait has given the child's exit, or a kill has been sent and the child has been waited for
-- again, whatever those two calls returned.
pub run-IsClean :
    (polls : List Ready) (end : End) (c : Child)
    → run polls spawned ≡ some (end, c)
    → IsClean polls c
run-IsClean polls end c e =
    let ending = run-Ends polls spawned end c e in
    let stopped = Ends-IsStopped ending spawned-IsWatched in
    record {
      stdout_stopped = stopped.stdout_stopped;
      stderr_stopped = stopped.stderr_stopped;
      gone = elim stopped.gone [
        | inr killed ↦ inr killed
        | inl any_exit ↦ elim (Option-cases c.status) [
          | inl missing ↦ absurd (ground arith)
          | inr (status, exit) ↦
              let (by, _, answer) =
                From-none ExitsWith polls c.status status (Ends-Told ending).status exit in
              inl (by, answer)
        ]
      ];
    }

-- What a run that ends with the child's exit says of it: each part was the answer of a poll.
pub record IsFinished (polls : List Ready) (status : ExitStatus) (out err : List ℕ) (c : Child)
    : Type 0 where
  pub exit : Answers (ExitsWith status) polls
  pub stdout : Answers (WritesOut out) polls
  pub stderr : Answers (WritesErr err) polls
  pub not_killed : c.kill_sent ≡ false

complete-finished :
    (s : Option ExitStatus) (o e : Option (List ℕ)) (status : ExitStatus) (out err : List ℕ)
    → complete s o e ≡ some (finished status out err)
    → (s ≡ some status) × (o ≡ some out) × (e ≡ some err)
complete-finished (some s) (some o) (some e) status out err h =
    (ground arith, ground arith, ground arith)
complete-finished (some s) (some o) none status out err h = cc
complete-finished (some s) none e status out err h = cc
complete-finished none o e status out err h = cc

-- the fields of the child, apart from where they come from
record IsDone (status : ExitStatus) (out err : List ℕ) (c : Child) : Type 0 where
  exit : c.status ≡ some status
  stdout : c.output ≡ some out
  stderr : c.stderr_output ≡ some err
  not_killed : c.kill_sent ≡ false

Ends-IsDone :
    {polls : List Ready} {c c' : Child} {end : End} (status : ExitStatus) (out err : List ℕ)
    → Ends polls c end c'
    → IsWatched c
    → end ≡ finished status out err
    → IsDone status out err c'
Ends-IsDone status out err (here {c} e) w same =
    let (s, o, r) =
      complete-finished c.status c.output c.stderr_output status out err (e ∙ ap some same) in
    record { exit = s; stdout = o; stderr = r; not_killed = w.not_killed }
Ends-IsDone status out err (stops {ready} {c} not_yet stop) w same =
    absurd (subst IsCut same (subst TurnOk stop (select-TurnOk c w ready)).1)
Ends-IsDone status out err (turns {ready} {c} not_yet turn later) w same =
    Ends-IsDone status out err later (subst TurnOk turn (select-TurnOk c w ready)) same

-- a field that was recorded is the answer of a poll
From-Answers :
    {A : Type 0} (told : A → Ready → Type 0) (polls : List Ready) (field : Option A) (a : A)
    → From told polls none field
    → field ≡ some a
    → Answers (told a) polls
From-Answers told polls field a given e =
    let (b, same, answer) = From-none told polls field a given e in
    subst (λ x. Answers (told x) polls) (some-injective _ _ (sym same ∙ e)) answer

-- The loop reports an exit only if a poll of the child gave that status, a poll of each stream
-- gave the bytes that are reported for it, and the child was not killed.
pub run-IsFinished :
    (polls : List Ready) (status : ExitStatus) (out err : List ℕ) (c : Child)
    → run polls spawned ≡ some (finished status out err, c)
    → IsFinished polls status out err c
run-IsFinished polls status out err c e =
    let ending = run-Ends polls spawned (finished status out err) c e in
    let done = Ends-IsDone status out err ending spawned-IsWatched refl in
    let told = Ends-Told ending in
    record {
      exit = From-Answers ExitsWith polls c.status status told.status done.exit;
      stdout = From-Answers WritesOut polls c.output out told.output done.stdout;
      stderr = From-Answers WritesErr polls c.stderr_output err told.stderr_output done.stderr;
      not_killed = done.not_killed;
    }

-- a poll at which the deadline or the cancellation is ready
abbrev pub cuts : Ready → Bool
cuts ready = ready.cancelled || ready.expired

select-cuts :
    (ready : Ready) (c : Child)
    → cuts ready ≡ true
    → (e : End) × (c' : Child) × (select ready c ≡ ends e c')
unfolding select
select-cuts ready c h = elim (Bool-cases ready.cancelled) [
  | inl yes_now ↦ (was_cancelled, terminate c, rw yes_now)
  | inr not_yet ↦
      let late : ready.expired ≡ true = ground arith in (timed_out, terminate c, rw (not_yet, late))
]

again-not_cuts : (ready : Ready) (c c' : Child) → select ready c ≡ again c' → cuts ready ≡ false
again-not_cuts ready c c' h = elim (Bool-cases (cuts ready)) [
  | inr uncut ↦ uncut
  | inl cut ↦ let (e, k, stop) = select-cuts ready c cut in absurd (cc (h, stop))
]

-- The loop ends at the latest at the deadline or when it is cancelled.
pub run-ends :
    (polls : List Ready) (c : Child) → any cuts polls ≡ true → is_some (run polls c) ≡ true
unfolding run
run-ends [] c h = cc
run-ends (ready ∷ rest) c h = elim (Option-cases (checked c)) [
  | inr (now, at_head) ↦ rw (at_head, run)
  | inl not_yet ↦ elim (Turn-cases (select ready c)) [
    | inr (now, c1, stop) ↦ rw (not_yet, run, stop)
    | inl (c1, turn) ↦
        let uncut : cuts ready ≡ false = again-not_cuts ready c c1 turn in
        rw (not_yet, run, turn) (run-ends rest c1 (ground arith))
  ]
]
