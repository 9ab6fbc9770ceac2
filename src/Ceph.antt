-- ===== src/Ceph.antt =====
-- src/integrations/ceph: the client of the Ceph Dashboard. The errors are here (error.rs), the
-- client in Client.
pub mod Client
pub mod Normalize
pub mod Tasks

pub data CephError : Type 0 where
  invalid_arguments capacity_exhausted timeout unauthorized not_found unsupported_action
        query_rejected mutation_rejected mutation_outcome_unknown unsafe_to_destroy
        upstream_unavailable invalid_response response_too_large :
      CephError
