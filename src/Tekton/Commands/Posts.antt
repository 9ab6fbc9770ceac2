-- ===== src/Tekton/Commands/Posts.antt =====
-- The requests of src/integrations/tekton/client.rs that may change something.
use homelab_mcp.Prelude.{
  ℕ, ◌≡◌, ◌⊎◌, inl, inr, refl, sym, Bool, true, false, not, Option, none, some, List, [], ◌∷◌, ◌++◌,
  ok, err, if◌then◌else◌, subst, Result,
}
use homelab_mcp.Text.{Str}
use homelab_mcp.Http.{Answer, no_permit, too_slow, broken, responded}
use homelab_mcp.Tasks.{continue, lift, ◌>>=◌}
use homelab_mcp.Tekton.{TektonError, OperationKind, operation_failure, mutation, mutation_rejected}
use homelab_mcp.Tekton.Env.{
  Env, State, Sent, kube_get, kube_cancel, forgejo_get, pac_incoming, Incoming, ask, note,
  token_sent, kube_token, head_exchange, kube_bytes, patch_cancelled, send_pac, max_response_bytes,
  Task,
}
use homelab_mcp.Tekton.Costs.{spent}

abbrev pub changes : Sent → ℕ
changes (kube_get path query) = 0
changes (kube_cancel path version) = 1
changes (forgejo_get segments query) = 0
changes (pac_incoming incoming) = 1

-- the requests that may have changed something
abbrev pub mutations : State → ℕ
mutations s = spent changes s

-- The task sends the request, or nothing.
pub record Posts {A : Type 0} (what : Sent) (m : Task A) : Type 0 where
  pub at : (s : State) → ((m s).1.sent ≡ s.sent) ⊎ ((m s).1.sent ≡ s.sent ++ what ∷ [])

note-Posts :
    (answer : Answer) (what : Sent) (sent : List Sent)
    → (note answer what sent ≡ sent) ⊎ (note answer what sent ≡ sent ++ what ∷ [])
note-Posts no_permit what sent = inl refl
note-Posts too_slow what sent = inr refl
note-Posts broken what sent = inr refl
note-Posts (responded response) what sent = inr refl

pub Posts-if :
    {A : Type 0} (what : Sent) (b : Bool) (m k : Task A)
    → Posts what m
    → Posts what k
    → Posts what (if b then m else k)
Posts-if what true m k c d = c
Posts-if what false m k c d = d

pub Posts-lift : {A : Type 0} (what : Sent) (r : Result TektonError A) → Posts what (lift r)
Posts-lift what r = record { at = λ s. inl refl }

continue-lift :
    {A B : Type 0} (r : Result TektonError A) (s : State) (f : A → Result TektonError B)
    → (continue r s (λ a. lift (f a))).1 ≡ s
continue-lift (ok a) s f = refl
continue-lift (err e) s f = refl

pub Posts-last :
    {A B : Type 0} (what : Sent) (m : Task A) (f : A → Result TektonError B)
    → Posts what m
    → Posts what (m >>= λ a. lift (f a))
Posts-last what m f c = record {
  at = λ s.
      subst (λ t. (t.sent ≡ s.sent) ⊎ (t.sent ≡ s.sent ++ what ∷ []))
        (sym (continue-lift (m s).0 (m s).1 f)) (c.at s);
}

module _ (env : Env) where
  ask-Posts : (what : Sent) (kind : OperationKind) (limit : ℕ) → Posts what (ask what kind limit)
  ask-Posts what kind limit = record {
    at = λ s. note-Posts (head_exchange s.exchanges).answer what s.sent;
  }

  token_sent-Posts :
      (token : Option Str) (what : Sent) (kind : OperationKind) (limit : ℕ)
      → Posts what (token_sent env token what kind limit)
  token_sent-Posts none what kind limit = record { at = λ s. inl refl }
  token_sent-Posts (some token) what kind limit = record { at = (ask-Posts what kind limit).at }

  pub patch_cancelled-Posts :
      (path version : Str) → Posts (kube_cancel path version) (patch_cancelled env path version)
  unfolding patch_cancelled kube_bytes
  patch_cancelled-Posts path version =
      Posts-last (kube_cancel path version)
        (kube_bytes env (kube_cancel path version) path mutation max_response_bytes) (λ _. ok tt)
        (Posts-if (kube_cancel path version) (not (env.kube_joins path)) _ _
          (Posts-lift (kube_cancel path version) (err (operation_failure mutation)))
          (record {
            at = λ s.
                (token_sent-Posts (kube_token (head_exchange s.exchanges).token_file)
                    (kube_cancel path version) mutation max_response_bytes).at
                  s;
          }))

  pub send_pac-Posts : (incoming : Incoming) → Posts (pac_incoming incoming) (send_pac env incoming)
  unfolding send_pac
  send_pac-Posts incoming =
      Posts-if (pac_incoming incoming) (not env.pac_joins) _ _
        (Posts-lift (pac_incoming incoming) (err mutation_rejected))
        (Posts-last (pac_incoming incoming)
          (ask (pac_incoming incoming) mutation max_response_bytes) (λ _. ok tt)
          (ask-Posts (pac_incoming incoming) mutation max_response_bytes))
