-- ===== src/Tekton/Wait/Laws.antt =====
-- The answer of a wait (`wait` of src/integrations/tekton/client.rs).
use homelab_mcp.Prelude.{◌≡◌, ◌⊎◌, true, some, ok}
use homelab_mcp.Text.{Str, str_eq}
use homelab_mcp.Tekton.Env.{Env, State, Value}
use homelab_mcp.Tekton.Objects.{
  Repository, Run, terminal_status, has_label, object_name, repository_label,
}
use homelab_mcp.Tekton.Objects.Normalize.{run_record}
use homelab_mcp.Tekton.Repositories.{owned_run}
use homelab_mcp.Tekton.Wait.{Waited}

module _ (env : Env) (run_id : Str) where
  -- what a run that is shown is made of
  record IsShown (item : Value env) (repository : Repository) (run : Run) : Type 0 where
    labelled : has_label env.json item repository_label repository.cr_name ≡ true
    name : Str
    named : object_name env.json item ≡ some name
    shown : run_record env.json item env.namespace repository name ≡ run

  -- A look at the run of this id: it was read with an owner that is the repository, it carries the
  -- label of the repository, and the record is made of what was read.
  pub record IsSeen (repository : Repository) (run : Run) : Type 0 where
    pub moment : State
    pub item : Value env
    pub owner : Repository
    pub read : (owned_run env run_id moment).0 ≡ ok (item, owner)
    pub same_name : str_eq owner.cr_name repository.cr_name ≡ true
    pub same_id : str_eq owner.id repository.id ≡ true
    pub labelled : has_label env.json item repository_label repository.cr_name ≡ true
    pub name : Str
    pub named : object_name env.json item ≡ some name
    pub shown : run_record env.json item env.namespace repository name ≡ run

  -- the answer is a run of the repository, and it has ended or the wait has timed out
  pub record IsAnswer (repository : Repository) (w : Waited) : Type 0 where
    pub seen : IsSeen repository w.result
    pub done : (w.timed_out ≡ true) ⊎ (terminal_status w.result.status ≡ true)

  -- the run that is given back was read with this owner
  record IsOwned (repository : Repository) (s : State) (item : Value env) : Type 0 where
    owner : Repository
    read : (owned_run env run_id s).0 ≡ ok (item, owner)
    same_name : str_eq owner.cr_name repository.cr_name ≡ true
    same_id : str_eq owner.id repository.id ≡ true
