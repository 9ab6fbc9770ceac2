-- ===== src/Ceph/Client.antt =====
-- src/integrations/ceph/client.rs: the token cache, one request, queries with one retry, and
-- mutations. The HTTP client, `Url::join`, the semaphore's answers and the JSON reader are the
-- parameters; a call takes the client's state and gives the new one, with what was sent so far.
pub mod Calls
pub mod Osd
pub mod Laws
pub mod Refused
use homelab_mcp.Prelude.{
  ℕ, ◌*◌, Bool, true, false, not, ◌&&◌, ◌||◌, Option, none, some, List, [], ◌∷◌, ◌++◌, Result, ok,
  err, ltb, leb, ◌==◌, if◌then◌else◌, any,
}
use homelab_mcp.Http.{is_success, is_client_error}
use homelab_mcp.Text.{Str, lit, len, is_empty, str_eq, is_control}
use homelab_mcp.Ceph.{
  CephError, invalid_arguments, capacity_exhausted, timeout, unauthorized, not_found,
  query_rejected, mutation_rejected, mutation_outcome_unknown, upstream_unavailable,
  invalid_response, response_too_large,
}

pub data Operation : Type 0 where
  query mutation : Operation

unfoldable pub failure : Operation → CephError
failure query = upstream_unavailable
failure mutation = mutation_outcome_unknown

unfoldable pub too_large : Operation → CephError
too_large query = response_too_large
too_large mutation = mutation_outcome_unknown

abbrev pub unreadable : Operation → CephError
unreadable query = invalid_response
unreadable mutation = mutation_outcome_unknown

abbrev pub expired : Operation → CephError
expired query = timeout
expired mutation = mutation_outcome_unknown

-- what the client asks of an origin
pub record Url : Type 0 where
  pub scheme : Str
  pub host : Option Str
  pub username : Str
  pub has_password : Bool
  pub has_query : Bool
  pub has_fragment : Bool
  pub path : Str

abbrev pub no_host : Option Str → Bool
no_host none = true
no_host (some host) = false

unfoldable pub validate_origin : Url → Bool → Result (Unit {0}) (Unit {0})
validate_origin origin allow_http =
    if (not allow_http && not (str_eq origin.scheme (lit "https")))
      || (allow_http
          && not (str_eq origin.scheme (lit "http") || str_eq origin.scheme (lit "https")))
      || no_host origin.host
      || not (is_empty origin.username)
      || origin.has_password
      || origin.has_query
      || origin.has_fragment
      || not (str_eq origin.path (lit "/"))
    then err tt
    else ok tt

abbrev pub forbidden : Operation → CephError
forbidden query = unauthorized
forbidden mutation = mutation_rejected

abbrev pub failed_status : Operation → ℕ → CephError
failed_status query status = if is_client_error status then query_rejected else upstream_unavailable
failed_status mutation status =
    if is_client_error status then mutation_rejected else mutation_outcome_unknown

-- the error of a status, `none` for a success
unfoldable pub status_error : Operation → ℕ → Option CephError
status_error operation status =
    if status == 401
    then some unauthorized
    else if status == 403
    then some (forbidden operation)
    else if status == 404
    then some not_found
    else if not (is_success status)
    then some (failed_status operation status)
    else none

-- the filter on the token of a login
unfoldable pub good_token : Str → Bool
good_token token = not (is_empty token) && leb (len token) (16 * 1024) && not (any is_control token)
