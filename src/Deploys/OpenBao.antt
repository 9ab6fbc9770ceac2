-- ===== src/Deploys/OpenBao.antt =====
-- src/integrations/deploys/openbao.rs: the signer of host certificates behind two HTTP requests.
-- The token file, the HTTP client, `Url::join` and the JSON reader enter as the record `Upstream`.
pub mod Laws
use homelab_mcp.Prelude.{
  ℕ, ◌*◌, ◌-◌, ◌≤◌, ◌≡◌, Bool, true, false, not, ◌&&◌, ◌||◌, Option, none, some, List, [], ◌∷◌,
  ◌++◌, Result, ok, err, ok_or, reject_if, ◌>>=◌, ◌>>◌, ltb, leb, ◌==◌, if◌then◌else◌, length, all,
  any, reverse,
}
use homelab_mcp.Text.{
  Str, lit, len, is_empty, str_eq, trim, split, contains_char, is_whitespace, is_ascii_alphanumeric,
}
use homelab_mcp.Deploys.{
  DeployError, invalid_configuration, credential_unavailable, credential_invalid,
}
use homelab_mcp.Deploys.Catalog.{FileMetadata}
use homelab_mcp.Deploys.Paths.{is_absolute}

abbrev pub max_jwt_bytes : ℕ
max_jwt_bytes = 16 * 1024

abbrev pub max_response_bytes : ℕ
max_response_bytes = 64 * 1024

-- a response: what `chunk()` returns until its end, `none` for an error
pub record Response : Type 0 where
  pub is_success : Bool
  pub content_length : Option ℕ
  pub chunks : List (Option (List ℕ))

pub record OpenBaoConfig : Type 0 where
  pub kubernetes_auth_mount : Str
  pub kubernetes_role : Str
  pub ssh_mount : Str
  pub ssh_role : Str
  pub jwt_path : Str
  pub request_timeout : ℕ

-- what `new` reads of the origin
pub record Origin : Type 0 where
  pub scheme : Str
  pub cannot_be_a_base : Bool
  pub path : Str
  pub has_query : Bool
  pub has_fragment : Bool

pub record Upstream : Type 0 where
  pub jwt_metadata : Option FileMetadata
  pub jwt_text : Option Str
  -- whether `origin.join(path)` is a URL
  pub joins : Str → Bool
  -- the answers to a login with a role and a JWT, and to a signing request with a token and a key
  pub login : Str → Str → Str → Option Response
  pub sign : Str → Str → Str → Option Response
  -- `client_token` and `signed_key` of a body
  pub parse_login : List ℕ → Option Str
  pub parse_signed : List ℕ → Option Str

unfoldable pub valid_segment : Str → Bool
valid_segment value =
    not (is_empty value)
    && leb (len value) 128
    && all (λ c. is_ascii_alphanumeric c || contains_char (lit "-_") c) value

-- the durations are in milliseconds
unfoldable pub bad_config : Origin → OpenBaoConfig → Bool
bad_config origin config =
    not (str_eq origin.scheme (lit "https"))
    || origin.cannot_be_a_base
    || not (str_eq origin.path (lit "/"))
    || origin.has_query
    || origin.has_fragment
    || not (is_absolute config.jwt_path)
    || not (valid_segment config.kubernetes_auth_mount)
    || not (valid_segment config.kubernetes_role)
    || not (valid_segment config.ssh_mount)
    || not (valid_segment config.ssh_role)
    || not (leb 100 config.request_timeout && leb config.request_timeout 30000)

-- `OpenBaoClient::new`, with whether the HTTP client can be built
unfoldable pub new : Bool → Origin → OpenBaoConfig → Result DeployError OpenBaoConfig
new builds origin config = do
  reject_if (bad_config origin config) invalid_configuration
  reject_if (not builds) invalid_configuration
  ok config

-- exactly two fields, the first as given and the second not empty
abbrev pub two_fields : Str → List Str → Bool
two_fields kind (first ∷ second ∷ []) = str_eq first kind && not (is_empty second)
two_fields kind _ = false

unfoldable pub validate_public_key : Str → Result DeployError (Unit {0})
validate_public_key value =
    reject_if (not (two_fields (lit "ssh-ed25519") (split b' ' value)) || ltb 1024 (len value))
      credential_invalid

abbrev pub newline : ℕ
newline = 10

abbrev pub carriage_return : ℕ
carriage_return = 13

unfoldable pub trim_start_newlines : Str → Str
trim_start_newlines [] = []
trim_start_newlines (c ∷ s) =
    let rest = trim_start_newlines s in if c == newline then rest else c ∷ s

-- `trim_end_matches('\n')`
unfoldable pub trim_end_newlines : Str → Str
unfolding trim_start_newlines
trim_end_newlines s = reverse (trim_start_newlines (reverse s))

unfoldable pub bad_certificate : Str → Bool
bad_certificate value =
    not (two_fields (lit "ssh-ed25519-cert-v01@openssh.com") (split b' ' (trim_end_newlines value)))
    || ltb (16 * 1024) (len value)
    || contains_char value carriage_return
    || contains_char (trim_end_newlines value) newline

unfoldable pub validate_certificate : Str → Result DeployError (Unit {0})
validate_certificate value = reject_if (bad_certificate value) credential_invalid

-- the `while` loop, with the body so far
unfoldable pub read_body : List (Option (List ℕ)) → List ℕ → Result DeployError (List ℕ)
read_body [] body = ok body
read_body (none ∷ chunks) body = err credential_unavailable
read_body (some bytes ∷ chunks) body =
    let rest = read_body chunks (body ++ bytes) in
    if ltb (max_response_bytes - length body) (length bytes) then err credential_invalid else rest

abbrev pub too_long : Option ℕ → Bool
too_long none = false
too_long (some count) = ltb max_response_bytes count

unfoldable pub bounded_json : (List ℕ → Option Str) → Response → Result DeployError Str
bounded_json parse response = do
  reject_if (not response.is_success || too_long response.content_length) credential_unavailable
  body ← read_body response.chunks []
  ok_or credential_invalid (parse body)

module _ (config : OpenBaoConfig) (up : Upstream) where
  unfoldable pub endpoint : Str → Result DeployError Str
  endpoint path = if up.joins path then ok path else err invalid_configuration

  unfoldable pub read_jwt : Result DeployError Str
  read_jwt = do
    metadata ← ok_or credential_unavailable up.jwt_metadata
    reject_if (not metadata.is_file || metadata.size == 0 || ltb max_jwt_bytes metadata.size)
        credential_unavailable
    jwt ← ok_or credential_unavailable up.jwt_text
    reject_if (not (str_eq (trim jwt) jwt) || any is_whitespace jwt) credential_invalid
    ok jwt

  unfoldable pub log_in : Str → Result DeployError Str
  log_in jwt = do
    login_url ← endpoint (lit "v1/auth/" ++ config.kubernetes_auth_mount ++ lit "/login")
    response ← ok_or credential_unavailable (up.login login_url config.kubernetes_role jwt)
    token ← bounded_json up.parse_login response
    reject_if (is_empty token || ltb 4096 (len token) || any is_whitespace token) credential_invalid
    ok token

  unfoldable pub request_certificate : Str → Result DeployError Str
  request_certificate public_key = do
    validate_public_key public_key
    jwt ← read_jwt
    token ← log_in jwt
    sign_url ← endpoint (lit "v1/" ++ config.ssh_mount ++ lit "/sign/" ++ config.ssh_role)
    response ← ok_or credential_unavailable (up.sign sign_url token public_key)
    signed ← bounded_json up.parse_signed response
    validate_certificate signed
    ok signed
