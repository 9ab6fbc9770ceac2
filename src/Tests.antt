-- ===== src/Tests.antt =====
-- Runs of the model at concrete inputs, and instances of the theorems.
mod Memory
mod Inventory
mod Deploys
mod Process
mod Kubernetes
mod Ceph
mod Tekton
