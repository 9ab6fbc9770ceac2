-- ===== src/Tests/Deploys.antt =====
-- A catalog with one entry, a worker that reaches `uv` and one that does not, and a report.
use homelab_mcp.Prelude.{
  ℕ, ◌≡◌, ◌⊎◌, ◌↔◌, refl, true, false, Option, none, some, List, [], ◌∷◌, ◌++◌, ok, err, ◌<◌,
  length, all, arith, map,
}
use homelab_mcp.Text
use homelab_mcp.Text.{Str, lit}
use homelab_mcp.Inventory.{Machine}
use homelab_mcp.Inventory.HostKey
use homelab_mcp.Process.{run, select, poll_wait, poll_stdout, poll_stderr, success}
use homelab_mcp.Deploys
use homelab_mcp.Deploys.{DeployError}
use homelab_mcp.Deploys.Paths
use homelab_mcp.Deploys.Catalog.{
  low, DeployEntry, DeployCatalog, Source, FileMetadata, load, resolve, resolved, check_entries,
  confine_file, valid_id, bad_entry,
}
use homelab_mcp.Deploys.Catalog.Laws.{IsCatalog, IsResolved, load-IsCatalog, resolve_iff}
use homelab_mcp.Deploys.HostPin
use homelab_mcp.Deploys.Normalize
use homelab_mcp.Deploys.Normalize.{Section, parse_sections, parse_report, section_names}
use homelab_mcp.Deploys.Normalize.Laws.{
  IsReport, IsClean, names, print_sections, parse_sections-print, parse_report-IsReport,
}
use homelab_mcp.Deploys.OpenBao
use homelab_mcp.Deploys.OpenBao.{OpenBaoConfig, Response, Upstream, request_certificate}
use homelab_mcp.Deploys.OpenBao.Laws.{with_openbao, openbao_worker-spawned}
use homelab_mcp.Deploys.Runner
use homelab_mcp.Deploys.Runner.Entry.{run_cancelled}
use homelab_mcp.Deploys.Runner.Entry.Laws.{IsAdmitted, run_cancelled-IsAdmitted}
use homelab_mcp.Deploys.Runner.{World, Keygen, exits, worker}
use homelab_mcp.Deploys.Runner.Honest.{is_late, spawned as has_spawn}
use homelab_mcp.Deploys.Runner.Laws.{SignerIsEarly, worker_error-spawned}
use homelab_mcp.Deploys.Runner.RunDir.{
  CreateDir, created, already_exists, create_run_dir, run_dir_path, attempts, hex, is_taken,
  create_run_dir-created, run_dir_path-injective,
}
use homelab_mcp.Deploys.Runner.Steps.{returns}
use homelab_mcp.Deploys.Runner.Traces.{IsCleaned, worker-IsCleaned}
use homelab_mcp.Tests.Process.{slow_run, zero_exit}
use homelab_mcp.Tests.Inventory.{decode_key, host_key}

abbrev info : DeployEntry
info = record {
  id = lit "info";
  description = lit "facts";
  entrypoint = lit "i.py";
  inventory = lit "v.py";
  risk = low;
  local_available = true;
  mcp_available = true;
  supported_distributions = lit "d" ∷ [];
  timeout_seconds = 60;
  requires_sudo = false;
  mutating = false;
}

-- every path is a file of 9 bytes and is its own canonical form
abbrev flat : Source
flat = record {
  canonicalize = λ path. some path;
  metadata = λ path. some (record { is_file = true; size = 9 });
  read = λ path. some [];
  is_file = λ path. true;
  parse = λ bytes. some (record { version = 1; deploys = info ∷ [] });
}

abbrev one_deploy : DeployCatalog
one_deploy = record { root = lit "/d"; entries = info ∷ [] }

one_deploy-loaded : load flat (lit "/d") (lit "/c") ≡ ok one_deploy
unfolding load check_entries confine_file valid_id bad_entry Paths.is_absolute Paths.has_parent_dir
    Paths.normal_parts Paths.components Paths.is_prefix Paths.path_starts_with Paths.join
    Text.is_empty Text.len Text.str_eq Text.split Text.starts_with_char Text.ends_with_char
one_deploy-loaded = refl

load-IsCatalog_example : IsCatalog flat one_deploy
load-IsCatalog_example = load-IsCatalog flat (lit "/d") (lit "/c") one_deploy one_deploy-loaded

resolve_iff_example :
    (resolve one_deploy (lit "info") ≡ ok (resolved (lit "/d") info))
    ↔ IsResolved one_deploy (lit "info") (resolved (lit "/d") info)
resolve_iff_example =
    resolve_iff flat one_deploy (lit "info") (resolved (lit "/d") info)
      (load-IsCatalog flat (lit "/d") (lit "/c") one_deploy one_deploy-loaded)

abbrev key_file : FileMetadata
key_file = record { is_file = true; size = 80 }

-- every call works, and `uv` runs past its deadline
abbrev willing : World
willing = record {
  cancelled_at_start = false;
  run_dirs = already_exists (255 ∷ []) ∷ created (10 ∷ 171 ∷ []) ∷ [];
  keygen = exits zero_exit;
  chmod_key = true;
  chmod_public_key = true;
  public_key_metadata = some key_file;
  public_key_text = some (lit "key");
  cancelled_before_sign = false;
  sign = λ key. some (ok (lit "cert"));
  certificate_written = true;
  public_key_removed = true;
  known_hosts_written = true;
  inventory_serialized = true;
  uv_spawned = true;
  uv_has_pipes = true;
  polls = slow_run;
}

abbrev nas : Machine
nas = record {
  id = 7;
  display_name = lit "nas";
  ssh_host = lit "nas.lan";
  ssh_port = 22;
  ssh_username = lit "homelab";
  pinned_host_public_key = some host_key;
  created_at = 0;
  updated_at = 0;
}

abbrev as_text : List ℕ → Option Str
as_text bytes = some bytes

willing-SignerIsEarly : SignerIsEarly willing
willing-SignerIsEarly key e h = cc

uv-late :
    (worker decode_key as_text willing (lit "/tmp") nas).step
    ≡ returns (err Deploys.timeout_outcome_unknown)
unfolding worker Runner.deploy_in Runner.run_keygen Runner.read_bounded Runner.start_uv
    Runner.Uv.run_uv Runner.Uv.uv_result run select poll_wait poll_stdout poll_stderr success
    create_run_dir attempts hex HostPin.validate_host_pin HostPin.is_pin_blob HostKey.key_field
    Text.is_empty Text.len Text.str_eq Text.split
uv-late = refl

worker_error-spawned_example :
    has_spawn (worker decode_key as_text willing (lit "/tmp") nas).trace
    ≡ is_late Deploys.timeout_outcome_unknown
worker_error-spawned_example =
    worker_error-spawned decode_key as_text willing (lit "/tmp") nas Deploys.timeout_outcome_unknown
      willing-SignerIsEarly uv-late

worker-IsCleaned_example :
    IsCleaned
      (worker decode_key as_text willing (lit "/tmp") nas).step
      (worker decode_key as_text willing (lit "/tmp") nas).trace
worker-IsCleaned_example = worker-IsCleaned decode_key as_text willing (lit "/tmp") nas

second_dir : create_run_dir (lit "/tmp") willing.run_dirs ≡ ok (lit "/tmp/homelab-deploy-0aab")
unfolding create_run_dir attempts hex Paths.join Paths.is_absolute Text.is_empty
    Text.starts_with_char Text.ends_with_char
second_dir = refl

create_run_dir-created_example :
    (taken : List CreateDir) × (random : List ℕ) × (rest : List CreateDir) × (willing.run_dirs
      ≡ taken ++ created random ∷ rest)
    × (all is_taken taken ≡ true)
    × (length taken < 8)
    × (lit "/tmp/homelab-deploy-0aab" ≡ run_dir_path (lit "/tmp") random)
create_run_dir-created_example =
    create_run_dir-created (lit "/tmp") willing.run_dirs (lit "/tmp/homelab-deploy-0aab") second_dir

abbrev drawn : List ℕ
drawn = 10 ∷ 171 ∷ []

run_dir_path-injective_example : drawn ≡ drawn
run_dir_path-injective_example =
    run_dir_path-injective (lit "/tmp") drawn drawn (omega arith, (omega arith, tt))
      (omega arith, (omega arith, tt)) refl

abbrev two_sections : List Section
two_sections = (lit "cpu", lit "arm") ∷ (lit "memory", lit "8G") ∷ []

cpu-IsClean : IsClean (lit "cpu", lit "arm")
unfolding Normalize.section_finish Text.find Text.strip_prefix Text.len Text.contains_char
cpu-IsClean = record { closes_first = refl; bounded = refl }

memory-IsClean : IsClean (lit "memory", lit "8G")
unfolding Normalize.section_finish Text.find Text.strip_prefix Text.len Text.contains_char
memory-IsClean = record { closes_first = refl; bounded = refl }

parse_sections-print_example :
    parse_sections (names two_sections) (print_sections two_sections ++ lit "rest")
    ≡ ok (two_sections, lit "rest")
parse_sections-print_example =
    parse_sections-print two_sections (lit "rest") (cpu-IsClean, (memory-IsClean, tt))

abbrev blank_sections : List Section
blank_sections = map (λ name. (name, lit "x")) section_names

abbrev blank_report : Str
blank_report = Normalize.report_begin ++ print_sections blank_sections ++ Normalize.report_end

blank_report-read : parse_report blank_report ≡ ok blank_sections
unfolding parse_report parse_sections print_sections Normalize.section_begin
    Normalize.section_finish Text.find Text.strip_prefix Text.len Text.contains_char Text.contains
    Text.is_empty
blank_report-read = refl

parse_report-IsReport_example : IsReport blank_report blank_sections
parse_report-IsReport_example = parse_report-IsReport blank_report blank_sections blank_report-read

abbrev bao_config : OpenBaoConfig
bao_config = record {
  kubernetes_auth_mount = lit "k";
  kubernetes_role = lit "r";
  ssh_mount = lit "s";
  ssh_role = lit "h";
  jwt_path = lit "/jwt";
  request_timeout = 1000;
}

abbrev bao_reply : Response
bao_reply = record { is_success = true; content_length = none; chunks = some [] ∷ [] }

abbrev certificate : Str
certificate = lit "ssh-ed25519-cert-v01@openssh.com A"

abbrev bao : Upstream
bao = record {
  jwt_metadata = some (record { is_file = true; size = 3 });
  jwt_text = some (lit "jwt");
  joins = λ path. true;
  login = λ url role jwt. some bao_reply;
  sign = λ url token key. some bao_reply;
  parse_login = λ body. some (lit "token");
  parse_signed = λ body. some certificate;
}

-- the key file is not one that OpenBao signs
abbrev refused_world : World
refused_world = with_openbao bao_config bao false willing

key-refused :
    (worker decode_key as_text refused_world (lit "/tmp") nas).step
    ≡ returns (err Deploys.credential_invalid)
unfolding worker Runner.deploy_in Runner.run_keygen Runner.read_bounded success create_run_dir
    attempts HostPin.validate_host_pin HostPin.is_pin_blob HostKey.key_field request_certificate
    OpenBao.validate_public_key Text.is_empty Text.len Text.str_eq Text.split Text.trim_end
    Text.trim_start Text.is_whitespace
key-refused = refl

openbao_worker-spawned_example :
    has_spawn (worker decode_key as_text refused_world (lit "/tmp") nas).trace
    ≡ is_late Deploys.credential_invalid
openbao_worker-spawned_example =
    openbao_worker-spawned bao_config bao false decode_key as_text willing (lit "/tmp") nas
      Deploys.credential_invalid key-refused

run_cancelled-IsAdmitted_example :
    ((run_cancelled decode_key as_text 1 one_deploy willing
        (some 3)
        (lit "/tmp")
        (lit "info")
        nas).trace
      ≡ [])
    ⊎ IsAdmitted decode_key 1 one_deploy (lit "info") nas
run_cancelled-IsAdmitted_example =
    run_cancelled-IsAdmitted decode_key as_text 1 one_deploy willing (some 3) (lit "/tmp")
      (lit "info") nas

busy_deploy :
    (run_cancelled decode_key as_text 0 one_deploy willing none (lit "/tmp") (lit "info") nas).step
    ≡ returns (err Deploys.busy)
unfolding run_cancelled
busy_deploy = refl
