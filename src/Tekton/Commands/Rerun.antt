-- ===== src/Tekton/Commands/Rerun.antt =====
-- What `rerun` of src/integrations/tekton/client.rs has read before it asks for a run.
use homelab_mcp.Prelude.{
  ◌≡◌, ◌⊎◌, inl, inr, ap, not, ◌&&◌, some, List, [], ◌∷◌, ◌++◌, ok, ok_or, ok_or-eq-ok, reject_if,
  arith, find_item,
}
use homelab_mcp.Text.{Str, str_eq}
use homelab_mcp.Tasks.{Costs-guard, Costs-check}
use homelab_mcp.Tekton.{mutation_rejected, not_found}
use homelab_mcp.Tekton.Texts.{bounded_text}
use homelab_mcp.Tekton.Env.{Env, State, pac_incoming, Value, send_pac}
use homelab_mcp.Tekton.Objects.{Repository, repository_label, label, workflow_name, branch_of}
use homelab_mcp.Tekton.Repositories.{owned_run}
use homelab_mcp.Tekton.Workflows.{Workflow, repository_workflows}
use homelab_mcp.Tekton.Commands.{incoming_of, accepted, short_reference, rerun}
use homelab_mcp.Tekton.Costs.{total}
use homelab_mcp.Tekton.Costs.Reads.{owned_run-Costs}
use homelab_mcp.Tekton.Costs.Discovery.{repository_workflows-Costs}
use homelab_mcp.Tekton.Commands.Posts.{changes, mutations, Posts-last, send_pac-Posts}

module _ (env : Env) where
  -- what is known when a run has been asked for again
  pub record IsRerun (run_id : Str) (s t : State) : Type 0 where
    pub owned : Value env × Repository
    pub found : (owned_run env run_id s).0 ≡ ok owned
    pub definition : Str
    pub original : workflow_name env.json owned.0 ≡ some definition
    pub workflows : List Workflow
    pub listed : (repository_workflows env owned.1 (owned_run env run_id s).1).0 ≡ ok workflows
    pub workflow : Workflow
    pub defined :
        find_item (λ w. str_eq w.definition definition && w.triggerable) workflows ≡ some workflow
    pub reference : Str
    pub branched : branch_of env.json owned.0 ≡ some reference
    pub posted :
        t.sent
        ≡ (repository_workflows env owned.1 (owned_run env run_id s).1).1.sent
          ++ pac_incoming (incoming_of owned.1 workflow (short_reference reference) []) ∷ []

  -- `rerun` changes nothing, or the last request that it has sent asks Pipelines-as-Code for a run on the
  -- branch of the run that it had read, of a workflow that may be triggered, which has the name of the
  -- run's and which it had just found in the repository of the run.
  pub rerun-IsRerun :
      (run_id : Str) (s : State)
      → (mutations (rerun env run_id s).1 ≡ mutations s) ⊎ IsRerun run_id s (rerun env run_id s).1
  unfolding rerun
  rerun-IsRerun run_id s =
      Costs-guard mutations (IsRerun run_id s) (owned_run env run_id) _ s
        (owned_run-Costs changes 0 (λ path query. omega arith) env run_id)
        λ owned found.
          Costs-check mutations (IsRerun run_id s)
            (ok_or not_found (label env.json owned.0 repository_label)) _ (owned_run env run_id s).1
            λ name _.
              Costs-check mutations (IsRerun run_id s)
                (reject_if (not (str_eq owned.1.cr_name name)) not_found) _
                (owned_run env run_id s).1
                λ _ _.
                  Costs-check mutations (IsRerun run_id s)
                    (ok_or mutation_rejected (workflow_name env.json owned.0)) _
                    (owned_run env run_id s).1
                    λ definition original.
                      Costs-guard mutations (IsRerun run_id s) (repository_workflows env owned.1) _
                        (owned_run env run_id s).1
                        (repository_workflows-Costs changes 0 (λ segments query. omega arith) env
                          owned.1)
                        λ workflows listed.
                          Costs-check mutations (IsRerun run_id s)
                            (ok_or mutation_rejected (
                              find_item (λ w. str_eq w.definition definition && w.triggerable)
                                workflows))
                            _ (repository_workflows env owned.1 (owned_run env run_id s).1).1
                            λ workflow defined.
                              Costs-check mutations (IsRerun run_id s)
                                (ok_or mutation_rejected (branch_of env.json owned.0)) _
                                (repository_workflows env owned.1 (owned_run env run_id s).1).1
                                λ reference branched.
                                  Costs-check mutations (IsRerun run_id s)
                                    (reject_if (not (bounded_text (short_reference reference) 512))
                                      mutation_rejected)
                                    _
                                    (repository_workflows env owned.1 (owned_run env run_id s).1).1
                                    λ _ _.
                                      elim ((Posts-last
                                          (pac_incoming (
                                            incoming_of owned.1 workflow (short_reference reference)
                                              []))
                                          (send_pac env (
                                            incoming_of owned.1 workflow (short_reference reference)
                                              []))
                                          (λ _. ok (accepted owned.1 workflow))
                                          (send_pac-Posts env (
                                            incoming_of owned.1 workflow (short_reference reference)
                                              []))).at
                                        (repository_workflows env owned.1
                                          (owned_run env run_id s).1).1) [
                                            | inl quiet ↦ inl (ap (total changes) quiet)
                                            | inr posted ↦ inr (record {
                                              owned = owned;
                                              found = found;
                                              definition = definition;
                                              original = ok_or-eq-ok mutation_rejected _ original;
                                              workflows = workflows;
                                              listed = listed;
                                              workflow = workflow;
                                              defined = ok_or-eq-ok mutation_rejected _ defined;
                                              reference = reference;
                                              branched = ok_or-eq-ok mutation_rejected _ branched;
                                              posted = posted;
                                            })
                                          ]
