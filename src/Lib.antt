-- ===== src/Lib.antt =====
-- homelab-mcp: machines, deploys, Kubernetes, Ceph and Tekton
--
-- The server gives tools over a home network. An inventory of machines (src/inventory.rs) holds for
-- each machine an address and a pinned host key. A deploy (src/integrations/deploys) runs a reviewed
-- pyinfra program on such a machine, with a host key pin from the inventory and a certificate from
-- OpenBao. The Kubernetes integration runs `kubectl` as a child process, and the Ceph integration
-- calls the HTTP API of the Ceph Dashboard. The Tekton integration reads pipeline runs and their logs
-- from Kubernetes and starts them through Pipelines-as-Code.
--
-- - Prelude: shared names, Rust's `Result` with `?` as a bind, Boolean tests, lists.
-- - Text: `&str` as the list of its code points, with the methods the program calls; `len` counts
--   the bytes of UTF-8, and an offset into a text counts code points.
-- - Inventory: the types of src/inventory.rs; Fields and HostKey are its validators
--   (`validate_machine_fields`, `valid_ssh_host`, `validate_list_limit`, `validate_host_public_key`,
--   `ssh_string`); Database is the interface of the SQL pool, one operation for each statement, with
--   what PostgreSQL documents of it: a statement that the server refuses is rolled back, and one whose
--   answer is lost has had its effect or none; Repository has one function for each method of
--   `MachineRepository`; Table is what its clients may rely on, a map from ids to machines with the
--   steps that a call may take.
-- - Process: the child that src/integrations/deploys/runner.rs (`run_uv`) and
--   src/integrations/kubernetes/runner.rs (`worker`) watch. The environment is a list of polls, each
--   with what `select!` finds ready; the loop is structural on that list and needs no fuel. What
--   `terminate` calls is recorded, and what these calls return is discarded, as in the source.
--   Answers is what the loop has recorded and from which poll. Drain is the reader of a stream.
-- - Deploys: Catalog is catalog.rs, Normalize is normalize.rs, OpenBao is openbao.rs, HostPin and
--   Runner are runner.rs. The worker is a step with a trace of what it did; what the file system,
--   the processes and the signer answer is the record World. The removal of the run directory is a
--   call whose result is discarded. Runner.Entry is `run_cancelled`, with a worker that may panic.
-- - Kubernetes: Runner is src/integrations/kubernetes/runner.rs (`new`, `run_cancelled`, `worker`,
--   `classify_exit`).
-- - Ceph: Client is src/integrations/ceph/client.rs, where a call takes the client's state (the
--   cached token, the answers still to come, the requests sent so far) and gives the new one;
--   Normalize and Tasks are the parts of normalize.rs that its mutations read.
-- - Json and Http are what the Ceph and Tekton clients read of `serde_json` and of a response; Tasks is
--   a call on a state that may fail, with `?` as a bind, and rules for what it yields and costs.
-- - Tekton: src/integrations/tekton/client.rs with the errors of error.rs. Env is the client's
--   configuration, its state (the answers still to come, the requests sent so far) and the requests
--   from `kube_json` to `http_bytes`; Texts is `bounded_text`, `truncate_utf8` and the redaction;
--   Objects is `normalize_run` to `branch_matches`; Listing is `kube_list`; Repositories, Workflows,
--   Queries, Wait, Logs and Commands are the methods of `TektonClient`; Actions is actions.rs. Costs
--   holds the rules for the requests that the reads send.
-- - Tests: an in-memory table that refuses some statements, loses some answers and meets the laws of
--   Database, runs of the model, and instances of
--   the theorems.
--
-- Parameters, since they are not code of the repository: the base64 decoder, the parsers of IP
-- addresses, JSON and UTF-8, `Url::join`, the HTTP clients, the SQL pool, the file system and the
-- child processes; for Tekton also `Url`, percent-decoding, YAML and SHA-256, and the time of a wait,
-- which is the list of what each turn of its loop meets; a look that is given up has had as many
-- exchanges as the list says, and what it sent in them stays sent. A numeral of `decimal` has five rounds,
-- enough for a `u16`; an OSD id has ten, enough for a `u32`; a run directory has the eight attempts of
-- the source and a list its ten pages. Lists of answers that end early stand for a refusal: no random
-- bytes, or no permit.
--
-- Not modelled: log lines but for the classification of a failed `uv`, file modes, command lines and
-- environments of the children, the read operations of the Ceph client, the keys of the JSON answers
-- of the Tekton tools, and the components that these files do not name (Grafana, the MCP server, OAuth,
-- configuration), which are glue over libraries or are still to be done.
pub mod Prelude
pub mod Text
pub mod Json
pub mod Http
pub mod Tasks
pub mod Inventory
pub mod Process
pub mod Deploys
pub mod Kubernetes
pub mod Ceph
pub mod Tekton
pub mod Tests
