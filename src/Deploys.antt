-- ===== src/Deploys.antt =====
-- src/integrations/deploys: reviewed pyinfra deploys that run on an inventory machine. The errors
-- are here (error.rs), the catalog in Catalog, the host-pin check in HostPin, the output parser in
-- Normalize, the runner in Runner.
pub mod Catalog
pub mod Paths
pub mod Normalize
pub mod OpenBao
pub mod Runner
pub mod HostPin

pub data DeployError : Type 0 where
  invalid_configuration invalid_catalog deploy_not_found deploy_unavailable missing_host_pin busy
        credential_unavailable credential_invalid execution_rejected cancelled
        execution_outcome_unknown timeout_outcome_unknown cancelled_outcome_unknown
        output_too_large_outcome_unknown invalid_output :
      DeployError
