-- ===== src/Deploys/Catalog.antt =====
-- src/integrations/deploys/catalog.rs: the reviewed catalog of deploys. The file system and the
-- JSON reader enter as the record `Source`.
pub mod Laws
use homelab_mcp.Prelude.{
  ℕ, ◌*◌, Bool, true, false, not, ◌&&◌, ◌||◌, Option, none, some, List, [], ◌∷◌, ◌++◌, map, Result,
  ok, err, ok_or, reject_if, ◌>>=◌, ◌>>◌, ltb, leb, ◌==◌, if◌then◌else◌, length, all, any,
  find_item,
}
use homelab_mcp.Text.{
  Str, len, is_empty, str_eq, starts_with_char, is_ascii_lowercase, is_ascii_digit,
}
use homelab_mcp.Deploys.{
  DeployError, invalid_configuration, invalid_catalog, deploy_not_found, deploy_unavailable,
}
use homelab_mcp.Deploys.Paths.{is_absolute, has_parent_dir, path_starts_with, join}

abbrev pub max_catalog_bytes : ℕ
max_catalog_bytes = 64 * 1024

pub data Risk : Type 0 where
  low medium high : Risk

pub record DeployEntry : Type 0 where
  pub id : Str
  pub description : Str
  pub entrypoint : Str
  pub inventory : Str
  pub risk : Risk
  pub local_available : Bool
  pub mcp_available : Bool
  pub supported_distributions : List Str
  pub timeout_seconds : ℕ
  pub requires_sudo : Bool
  pub mutating : Bool

pub record CatalogFile : Type 0 where
  pub version : ℕ
  pub deploys : List DeployEntry

pub record DeployMetadata : Type 0 where
  pub id : Str
  pub description : Str
  pub risk : Risk
  pub local_available : Bool
  pub mcp_available : Bool
  pub supported_distributions : List Str
  pub timeout_seconds : ℕ
  pub requires_sudo : Bool
  pub mutating : Bool

pub record DeployCatalog : Type 0 where
  pub root : Str
  pub entries : List DeployEntry

pub record ResolvedDeploy : Type 0 where
  pub root : Str
  pub entrypoint : Str
  pub inventory : Str
  pub timeout_seconds : ℕ

pub record FileMetadata : Type 0 where
  pub is_file : Bool
  pub size : ℕ

-- `fs` and `serde_json::from_slice`; `none` is their error
pub record Source : Type 0 where
  pub canonicalize : Str → Option Str
  pub metadata : Str → Option FileMetadata
  pub read : Str → Option (List ℕ)
  pub is_file : Str → Bool
  pub parse : List ℕ → Option CatalogFile

abbrev pub is_id_char : ℕ → Bool
is_id_char c = is_ascii_lowercase c || is_ascii_digit c || c == b'-'

unfoldable pub valid_id : Str → Bool
valid_id value =
    not (is_empty value)
    && leb (len value) 64
    && not (starts_with_char value b'-')
    && all is_id_char value

-- the condition of the loop's `if`, with the entries before this one
unfoldable pub bad_entry : List DeployEntry → DeployEntry → Bool
bad_entry before entry =
    not (valid_id entry.id)
    || is_empty entry.description
    || ltb 512 (len entry.description)
    || entry.timeout_seconds == 0
    || ltb 900 entry.timeout_seconds
    || length entry.supported_distributions == 0
    || any (λ other. str_eq other.id entry.id) before

abbrev pub bad_shape : CatalogFile → Bool
bad_shape parsed =
    not (parsed.version == 1) || length parsed.deploys == 0 || ltb 64 (length parsed.deploys)

module _ (src : Source) where
  unfoldable pub confine_file : Str → Str → Result DeployError (Unit {0})
  confine_file root relative = do
    reject_if (is_absolute relative || has_parent_dir relative) invalid_catalog
    canonical ← ok_or invalid_catalog (src.canonicalize (join root relative))
    reject_if (not (path_starts_with canonical root) || not (src.is_file canonical)) invalid_catalog

  -- the `for` loop
  unfoldable pub check_entries :
      Str → List DeployEntry → List DeployEntry → Result DeployError (Unit {0})
  check_entries root before [] = ok tt
  check_entries root before (entry ∷ rest) = do
    reject_if (bad_entry before entry) invalid_catalog
    confine_file root entry.entrypoint
    confine_file root entry.inventory
    check_entries root (before ++ entry ∷ []) rest

  unfoldable pub load : Str → Str → Result DeployError DeployCatalog
  load root_path catalog = do
    reject_if (not (is_absolute root_path) || not (is_absolute catalog)) invalid_configuration
    root ← ok_or invalid_catalog (src.canonicalize root_path)
    metadata ← ok_or invalid_catalog (src.metadata catalog)
    reject_if (not metadata.is_file || ltb max_catalog_bytes metadata.size) invalid_catalog
    bytes ← ok_or invalid_catalog (src.read catalog)
    parsed ← ok_or invalid_catalog (src.parse bytes)
    reject_if (bad_shape parsed) invalid_catalog
    check_entries root [] parsed.deploys
    ok (record { root = root; entries = parsed.deploys })

abbrev pub metadata_of : DeployEntry → DeployMetadata
metadata_of entry = record {
  id = entry.id;
  description = entry.description;
  risk = entry.risk;
  local_available = entry.local_available;
  mcp_available = entry.mcp_available;
  supported_distributions = entry.supported_distributions;
  timeout_seconds = entry.timeout_seconds;
  requires_sudo = entry.requires_sudo;
  mutating = entry.mutating;
}

unfoldable pub list : DeployCatalog → List DeployMetadata
list catalog = map metadata_of catalog.entries

abbrev pub resolved : Str → DeployEntry → ResolvedDeploy
resolved root entry = record {
  root = root;
  entrypoint = entry.entrypoint;
  inventory = entry.inventory;
  timeout_seconds = entry.timeout_seconds;
}

unfoldable pub resolve : DeployCatalog → Str → Result DeployError ResolvedDeploy
resolve catalog id = do
  reject_if (not (valid_id id)) deploy_not_found
  entry ← ok_or deploy_not_found (find_item (λ e. str_eq e.id id) catalog.entries)
  reject_if (not entry.mcp_available) deploy_unavailable
  ok (resolved catalog.root entry)
