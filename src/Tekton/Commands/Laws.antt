-- ===== src/Tekton/Commands/Laws.antt =====
-- What `cancel` and `dispatch` of src/integrations/tekton/client.rs have read before they change
-- anything.
use homelab_mcp.Prelude.{
  ◌≡◌, ◌⊎◌, inl, inr, ap, true, not, ◌&&◌, some, [], ◌∷◌, ◌++◌, ok, ok_or, ok_or-eq-ok, reject_if,
  reject_if-eq-ok, arith, find_item_sound, find_item, Option-cases, List,
}
use homelab_mcp.Text.{Str, str_eq, lit}
use homelab_mcp.Json.{str_at}
use homelab_mcp.Tasks.{Costs-guard, Costs-check, >>=-eq-ok}
use homelab_mcp.Tekton.{mutation_rejected}
use homelab_mcp.Tekton.Env.{Env, State, kube_cancel, pac_incoming, Value, send_pac}
use homelab_mcp.Tekton.Objects.{Repository, metadata, run_status, is_running, namespaced_id}
use homelab_mcp.Tekton.Repositories.{
  repository_catalog, repository_result, repository, owned_run, run_path,
}
use homelab_mcp.Tekton.Workflows.{Workflow, repository_workflows, triggerable_workflow}
use homelab_mcp.Tekton.Commands.{Dispatch, incoming_of, accepted, dispatch, cancel}
use homelab_mcp.Tekton.Costs.{total}
use homelab_mcp.Tekton.Costs.Reads.{repository-Costs, owned_run-Costs}
use homelab_mcp.Tekton.Costs.Discovery.{triggerable_workflow-Costs}
use homelab_mcp.Tekton.Commands.Posts.{
  changes, mutations, Posts-last, patch_cancelled-Posts, send_pac-Posts,
}

module _ (env : Env) where
  -- what is known when a cancellation has been sent
  pub record IsCancelled (run_id : Str) (s t : State) : Type 0 where
    pub owned : Value env × Repository
    pub found : (owned_run env run_id s).0 ≡ ok owned
    pub running : is_running (run_status env.json owned.0) ≡ true
    pub version : Str
    pub versioned :
        str_at env.json (metadata env.json owned.0) (lit "resourceVersion") ≡ some version
    pub name : Str
    pub named : namespaced_id run_id env.namespace ≡ ok name
    pub posted :
        t.sent ≡ (owned_run env run_id s).1.sent ++ kube_cancel (run_path env name) version ∷ []

  -- `cancel` changes nothing, or the last request that it has sent cancels the run of that name, whose
  -- status it had just read as running, at the version that it had read.
  pub cancel-IsCancelled :
      (run_id : Str) (s : State)
      → (mutations (cancel env run_id s).1 ≡ mutations s)
        ⊎ IsCancelled run_id s (cancel env run_id s).1
  unfolding cancel
  cancel-IsCancelled run_id s =
      Costs-guard mutations (IsCancelled run_id s) (owned_run env run_id) _ s
        (owned_run-Costs changes 0 (λ path query. omega arith) env run_id)
        λ owned found.
          Costs-check mutations (IsCancelled run_id s)
            (reject_if (not (is_running (run_status env.json owned.0))) mutation_rejected) _
            (owned_run env run_id s).1
            λ _ going.
              Costs-check mutations (IsCancelled run_id s)
                (ok_or mutation_rejected
                  (str_at env.json (metadata env.json owned.0) (lit "resourceVersion")))
                _ (owned_run env run_id s).1
                λ version versioned.
                  Costs-check mutations (IsCancelled run_id s) (namespaced_id run_id env.namespace)
                    _ (owned_run env run_id s).1
                    λ name named.
                      elim ((patch_cancelled-Posts env (run_path env name) version).at
                        (owned_run env run_id s).1) [
                          | inl quiet ↦ inl (ap (total changes) quiet)
                          | inr posted ↦ inr (record {
                            owned = owned;
                            found = found;
                            running =
                                let e = reject_if-eq-ok _ mutation_rejected going in ground arith;
                            version = version;
                            versioned = ok_or-eq-ok mutation_rejected _ versioned;
                            name = name;
                            named = named;
                            posted = posted;
                          })
                        ]

  triggerable_workflow-asked_for :
      (owner : Repository) (id : Str) (s : State) (workflow : Workflow)
      → (triggerable_workflow env owner id s).0 ≡ ok workflow
      → str_eq workflow.id id && workflow.triggerable ≡ true
  unfolding triggerable_workflow
  triggerable_workflow-asked_for owner id s workflow h =
      let (workflows, _, e) =
        >>=-eq-ok (repository_workflows env owner) _ s (triggerable_workflow env owner id s).1
          (ap (λ r. (r, (triggerable_workflow env owner id s).1)) h) in
      find_item_sound (λ w. str_eq w.id id && w.triggerable) workflows workflow
        (ok_or-eq-ok mutation_rejected _ (ap (λ p. p.0) e))

  repository_result-asked :
      (id : Str) (catalog : List Repository) (owner : Repository)
      → repository_result env id catalog ≡ ok owner
      → str_eq owner.id id ≡ true
  repository_result-asked id catalog owner e =
      elim (Option-cases (find_item (λ (r : Repository). str_eq r.id id) catalog)) [
        | inl missing ↦ absurd (ground arith)
        | inr (r, found) ↦
            find_item_sound (λ (x : Repository). str_eq x.id id) catalog owner (ground arith)
      ]

  repository-asked :
      (id : Str) (s : State) (owner : Repository)
      → (repository env id s).0 ≡ ok owner
      → str_eq owner.id id ≡ true
  unfolding repository
  repository-asked id s owner h =
      let (catalog, _, e) =
        >>=-eq-ok (repository_catalog env) _ s (repository env id s).1
          (ap (λ r. (r, (repository env id s).1)) h) in
      repository_result-asked id catalog owner (ap (λ p. p.0) e)

  -- what is known when a run has been asked for at Pipelines-as-Code
  pub record IsDispatched (command : Dispatch) (s t : State) : Type 0 where
    pub owner : Repository
    pub found : (repository env command.repository s).0 ≡ ok owner
    pub asked : str_eq owner.id command.repository ≡ true
    pub workflow : Workflow
    pub defined :
        (triggerable_workflow env owner command.workflow (repository env command.repository s).1).0
        ≡ ok workflow
    pub asked_for : str_eq workflow.id command.workflow && workflow.triggerable ≡ true
    pub posted :
        t.sent
        ≡ (triggerable_workflow env owner command.workflow
            (repository env command.repository s).1).1.sent
          ++ pac_incoming (incoming_of owner workflow command.reference command.params) ∷ []

  -- `dispatch` changes nothing, or the last request that it has sent asks Pipelines-as-Code for a run of
  -- the workflow that was asked for, which it had just found, and found to be triggerable, in the
  -- repository that was asked for.
  pub dispatch-IsDispatched :
      (command : Dispatch) (s : State)
      → (mutations (dispatch env command s).1 ≡ mutations s)
        ⊎ IsDispatched command s (dispatch env command s).1
  unfolding dispatch
  dispatch-IsDispatched command s =
      Costs-guard mutations (IsDispatched command s) (repository env command.repository) _ s
        (repository-Costs changes 0 (λ path query. omega arith) env command.repository)
        λ owner found.
          Costs-guard mutations (IsDispatched command s)
            (triggerable_workflow env owner command.workflow) _
            (repository env command.repository s).1
            (triggerable_workflow-Costs changes 0 (λ segments query. omega arith) env owner
              command.workflow)
            λ workflow defined.
              elim ((Posts-last
                  (pac_incoming (incoming_of owner workflow command.reference command.params))
                  (send_pac env (incoming_of owner workflow command.reference command.params))
                  (λ _. ok (accepted owner workflow))
                  (send_pac-Posts env
                    (incoming_of owner workflow command.reference command.params))).at
                (triggerable_workflow env owner command.workflow
                  (repository env command.repository s).1).1) [
                    | inl quiet ↦ inl (ap (total changes) quiet)
                    | inr posted ↦ inr (record {
                      owner = owner;
                      found = found;
                      asked = repository-asked command.repository s owner found;
                      workflow = workflow;
                      defined = defined;
                      asked_for =
                          triggerable_workflow-asked_for owner command.workflow
                            (repository env command.repository s).1 workflow defined;
                      posted = posted;
                    })
                  ]
