-- ===== src/Kubernetes.antt =====
-- src/integrations/kubernetes: `kubectl` behind a runner with a deadline. The errors are here
-- (error.rs), the runner in Runner.
pub mod Runner

pub data KubeError : Type 0 where
  invalid_arguments capacity_exhausted timeout unauthorized not_found unsupported_api query_rejected
        mutation_rejected mutation_outcome_unknown upstream_unavailable invalid_response
        response_too_large request_cancelled :
      KubeError
