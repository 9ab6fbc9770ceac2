-- ===== src/Process/Answers.antt =====
-- What the watching loop has recorded of a child, and the polls that answered it.
use homelab_mcp.Prelude.{
  ℕ, ◌≡◌, refl, ◌∙◌, ◌⊎◌, inl, inr, Bool, true, false, Option, none, some, List, [], ◌∷◌,
  if◌then◌else◌,
}
use homelab_mcp.Process.{
  ExitStatus, Ready, terminate, Wait, exited, wait_failed, Drained, drained, overrun, guarded,
  on_wait, on_stdout, on_stderr, poll_wait, poll_stdout, poll_stderr, was_cancelled, timed_out,
  Child, Turn, again, ends, select,
}

-- one of the polls is such
abbrev pub Answers : (Ready → Type 0) → List Ready → Type 0
Answers P [] = ⊥
Answers P (ready ∷ rest) = P ready ⊎ Answers P rest

-- the answers of a poll that the loop may record
abbrev pub ExitsWith : ExitStatus → Ready → Type 0
ExitsWith status ready = ready.waited ≡ some (exited status)

abbrev pub WritesOut : List ℕ → Ready → Type 0
WritesOut bytes ready = ready.stdout ≡ some (drained bytes)

abbrev pub WritesErr : List ℕ → Ready → Type 0
WritesErr bytes ready = ready.stderr ≡ some (drained bytes)

-- a field of the child that is as before, or as one of the polls answered
abbrev pub From : {A : Type 0} → (A → Ready → Type 0) → List Ready → Option A → Option A → Type 0
From {A} told polls before after =
    (after ≡ before) ⊎ ((a : A) × (after ≡ some a) × Answers (told a) polls)

From-turn :
    {A : Type 0} (told : A → Ready → Type 0) (ready : Ready) (rest : List Ready)
    (before between after : Option A)
    → From told (ready ∷ []) before between
    → From told rest between after
    → From told (ready ∷ rest) before after
From-turn told ready rest before between after now (inr (a, e, later)) = inr (a, e, inr later)
From-turn told ready rest before between after (inl same) (inl kept) = inl (kept ∙ same)
From-turn told ready rest before between after (inr (a, e, inl answer)) (inl kept) =
    inr (a, kept ∙ e, inl answer)
From-turn told ready rest before between after (inr (a, e, inr never)) (inl kept) = absurd never

pub From-none :
    {A : Type 0} (told : A → Ready → Type 0) (polls : List Ready) (after : Option A) (a : A)
    → From told polls none after
    → after ≡ some a
    → (b : A) × (after ≡ some b) × Answers (told b) polls
From-none told polls after a (inl same) e = absurd (cc (same, e))
From-none told polls after a (inr given) e = given

-- all three fields
pub record Told (polls : List Ready) (before after : Child) : Type 0 where
  pub status : From ExitsWith polls before.status after.status
  pub output : From WritesOut polls before.output after.output
  pub stderr_output : From WritesErr polls before.stderr_output after.stderr_output

pub Told-none : (polls : List Ready) (c : Child) → Told polls c c
Told-none polls c = record { status = inl refl; output = inl refl; stderr_output = inl refl }

pub Told-turn :
    (ready : Ready) (rest : List Ready) (c c' c'' : Child)
    → Told (ready ∷ []) c c'
    → Told rest c' c''
    → Told (ready ∷ rest) c c''
Told-turn ready rest c c' c'' now later = record {
  status = From-turn ExitsWith ready rest _ _ _ now.status later.status;
  output = From-turn WritesOut ready rest _ _ _ now.output later.output;
  stderr_output = From-turn WritesErr ready rest _ _ _ now.stderr_output later.stderr_output;
}

abbrev pub left : Turn → Child
left (again c) = c
left (ends end c) = c

guarded-some : {A : Type 0} (b : Bool) (o : Option A) (a : A) → guarded b o ≡ some a → o ≡ some a
guarded-some true o a e = e
guarded-some false o a e = cc

module _ (ready : Ready) (c : Child) where
  terminate-Told : (polls : List Ready) → Told polls c (terminate c)
  unfolding terminate
  terminate-Told polls = record { status = inl refl; output = inl refl; stderr_output = inl refl }

  on_wait-Told :
      (wait : Wait) → ready.waited ≡ some wait → Told (ready ∷ []) c (left (on_wait wait c))
  unfolding on_wait terminate
  on_wait-Told (exited status) e = record {
    status = inr (status, refl, inl e);
    output = inl refl;
    stderr_output = inl refl;
  }
  on_wait-Told wait_failed e = terminate-Told (ready ∷ [])

  on_stdout-Told :
      (out : Drained) → ready.stdout ≡ some out → Told (ready ∷ []) c (left (on_stdout out c))
  unfolding on_stdout terminate
  on_stdout-Told (drained bytes) e = record {
    status = inl refl;
    output = inr (bytes, refl, inl e);
    stderr_output = inl refl;
  }
  on_stdout-Told overrun e = record {
    status = inl refl;
    output = inl refl;
    stderr_output = inl refl;
  }

  on_stderr-Told :
      (err : Drained) → ready.stderr ≡ some err → Told (ready ∷ []) c (left (on_stderr err c))
  unfolding on_stderr terminate
  on_stderr-Told (drained bytes) e = record {
    status = inl refl;
    output = inl refl;
    stderr_output = inr (bytes, refl, inl e);
  }
  on_stderr-Told overrun e = record {
    status = inl refl;
    output = inl refl;
    stderr_output = inl refl;
  }

  poll_stdout-Told :
      (out err : Option Drained)
      → ((d : Drained) → out ≡ some d → ready.stdout ≡ some d)
      → ((d : Drained) → err ≡ some d → ready.stderr ≡ some d)
      → Told (ready ∷ []) c (left (poll_stdout out err c))
  unfolding poll_stdout poll_stderr
  poll_stdout-Told (some out) err outs errs = on_stdout-Told out (outs out refl)
  poll_stdout-Told none (some err) outs errs = on_stderr-Told err (errs err refl)
  poll_stdout-Told none none outs errs = Told-none (ready ∷ []) c

  poll_wait-Told :
      (wait : Option Wait) (out err : Option Drained)
      → ((w : Wait) → wait ≡ some w → ready.waited ≡ some w)
      → ((d : Drained) → out ≡ some d → ready.stdout ≡ some d)
      → ((d : Drained) → err ≡ some d → ready.stderr ≡ some d)
      → Told (ready ∷ []) c (left (poll_wait wait out err c))
  unfolding poll_wait
  poll_wait-Told (some wait) out err waits outs errs = on_wait-Told wait (waits wait refl)
  poll_wait-Told none out err waits outs errs = poll_stdout-Told out err outs errs

  cut-Told :
      (cancelled expired : Bool) (turn : Turn)
      → Told (ready ∷ []) c (left turn)
      → Told (ready ∷ []) c (
          left (
            if cancelled
            then ends was_cancelled (terminate c)
            else if expired
            then ends timed_out (terminate c)
            else turn))
  cut-Told true expired turn h = terminate-Told (ready ∷ [])
  cut-Told false true turn h = terminate-Told (ready ∷ [])
  cut-Told false false turn h = h

  -- a turn records what its poll answered, and nothing else
  pub select-Told : Told (ready ∷ []) c (left (select ready c))
  unfolding select
  select-Told =
      cut-Told ready.cancelled ready.expired _
        (poll_wait-Told _ _ _ (guarded-some _ _) (guarded-some _ _) (guarded-some _ _))
