-- ===== src/Tekton.antt =====
-- src/integrations/tekton: pipeline runs of Tekton, started through Pipelines-as-Code and defined in
-- the repositories of a Forgejo server. The errors are here (error.rs); Actions is actions.rs, and the
-- other modules are client.rs.
pub mod Actions
pub mod Texts
pub mod Env
pub mod Costs
pub mod Objects
pub mod Listing
pub mod Repositories
pub mod Wait
pub mod Workflows
pub mod Commands
pub mod Queries
pub mod Logs

pub data TektonError : Type 0 where
  invalid_arguments capacity_exhausted timeout unauthorized not_found query_rejected
        mutation_rejected mutation_outcome_unknown upstream_unavailable invalid_response :
      TektonError

pub data OperationKind : Type 0 where
  read mutation : OperationKind

unfoldable pub operation_failure : OperationKind → TektonError
operation_failure read = upstream_unavailable
operation_failure mutation = mutation_outcome_unknown
