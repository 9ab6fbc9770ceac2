-- ===== src/Tekton/Env.antt =====
-- What the Tekton client is configured with and calls (src/integrations/tekton/client.rs), and the
-- requests it sends. The URL, base64, UTF-8, YAML and SHA-256 libraries are parameters. A call takes
-- the answers that are still to come and the requests sent so far.
use homelab_mcp.Prelude.{
  ℕ, ◌-◌, ◌*◌, Bool, false, not, ◌||◌, Option, none, some, List, [], ◌∷◌, ◌++◌, Result, ok, err,
  ok_or, ltb, ◌==◌, if◌then◌else◌, length,
}
use homelab_mcp.Text.{Str, is_empty, trim}
use homelab_mcp.Json.{Json}
use homelab_mcp.Http.{
  Response, Answer, no_permit, too_slow, broken, responded, is_success, is_client_error,
}
use homelab_mcp.Tasks.{Task as StateTask, lift, ◌>>=◌, ◌>>◌}
use homelab_mcp.Tekton.{
  TektonError, OperationKind, read, mutation, operation_failure, invalid_arguments,
  capacity_exhausted, timeout, unauthorized, not_found, query_rejected, mutation_rejected,
  mutation_outcome_unknown, upstream_unavailable, invalid_response,
}

abbrev pub max_response_bytes : ℕ
max_response_bytes = 4 * 1024 * 1024

-- what the client reads of a `Url`; a segment is not decoded
pub record Url : Type 0 where
  pub scheme : Str
  pub host : Option Str
  pub port_or_known_default : Option ℕ
  pub username : Str
  pub has_password : Bool
  pub has_query : Bool
  pub has_fragment : Bool
  pub path_segments : Option (List Str)
  pub text : Str

pub record Env : Type 1 where
  pub json : Json
  pub namespace : Str
  pub forgejo_origin : Url
  -- whether `path_segments_mut` of the Forgejo origin, `pac_origin.join("incoming")` and
  -- `kube_origin.join(path)` succeed
  pub forgejo_has_path : Bool
  pub pac_joins : Bool
  pub kube_joins : Str → Bool
  pub parse_url : Str → Option Url
  pub percent_decode : Str → Option Str
  pub decode_base64 : Str → Option (List ℕ)
  pub from_utf8 : List ℕ → Option Str
  pub from_utf8_lossy : List ℕ → Str
  -- the documents of a YAML text as JSON; `none` for one that cannot be read
  pub yaml_documents : Str → List (Option json.Value)
  -- the URL-safe base64 of the SHA-256 of a text
  pub digest : Str → Str
  pub redactions : List Str

-- the body of a request to Pipelines-as-Code, less the namespace and the secret
pub record Incoming : Type 0 where
  pub repository : Str
  pub branch : Str
  pub pipelinerun : Str
  pub params : List (Str × Str)

-- a request that was handed to the HTTP client, less its credentials
pub data Sent : Type 0 where
  kube_get : Str → List (Str × Str) → Sent
  kube_cancel : Str → Str → Sent
  forgejo_get : List Str → List (Str × Str) → Sent
  pac_incoming : Incoming → Sent

-- the token file as it is read for a request to Kubernetes, and what becomes of the request
pub record Exchange : Type 0 where
  pub token_file : Option Str
  pub answer : Answer

pub record State : Type 0 where
  pub exchanges : List Exchange
  pub sent : List Sent

abbrev pub Task : Type 0 → Type 0
Task A = StateTask TektonError State A

-- behind the end of the list no permit is left
abbrev pub head_exchange : List Exchange → Exchange
head_exchange [] = record { token_file = none; answer = no_permit }
head_exchange (x ∷ rest) = x

abbrev pub tail_exchanges : List Exchange → List Exchange
tail_exchanges [] = []
tail_exchanges (x ∷ rest) = rest

-- Without a permit nothing is sent.
abbrev pub note : Answer → Sent → List Sent → List Sent
note no_permit what sent = sent
note _ what sent = sent ++ what ∷ []

abbrev pub asked : Sent → State → State
asked what s = record {
  exchanges = tail_exchanges s.exchanges;
  sent = note (head_exchange s.exchanges).answer what s.sent;
}

-- the state behind a request that could not be built
abbrev pub not_asked : State → State
not_asked s = record s { exchanges = tail_exchanges s.exchanges }

abbrev pub too_large : OperationKind → TektonError
too_large read = invalid_response
too_large mutation = mutation_outcome_unknown

abbrev pub expired : OperationKind → TektonError
expired read = timeout
expired mutation = mutation_outcome_unknown

abbrev pub failed_status : OperationKind → ℕ → TektonError
failed_status read status = if is_client_error status then query_rejected else upstream_unavailable
failed_status mutation status =
    if is_client_error status then mutation_rejected else mutation_outcome_unknown

-- the error of a status, `none` for a success
unfoldable pub status_error : OperationKind → ℕ → Option TektonError
status_error kind status =
    if status == 401 || status == 403
    then some unauthorized
    else if status == 404
    then some not_found
    else if not (is_success status)
    then some (failed_status kind status)
    else none

-- the loop over the chunks, with the bytes so far
unfoldable pub read_chunks :
    OperationKind → ℕ → List (Option (List ℕ)) → List ℕ → Result TektonError (List ℕ)
read_chunks kind limit [] bytes = ok bytes
read_chunks kind limit (none ∷ chunks) bytes = err (operation_failure kind)
read_chunks kind limit (some chunk ∷ chunks) bytes =
    let rest = read_chunks kind limit chunks (bytes ++ chunk) in
    if ltb (limit - length bytes) (length chunk) then err (too_large kind) else rest

abbrev pub too_long : ℕ → Option ℕ → Bool
too_long limit none = false
too_long limit (some count) = ltb limit count

abbrev pub read_response :
    OperationKind → ℕ → Response → Option TektonError → Result TektonError (List ℕ)
read_response kind limit response (some e) = err e
read_response kind limit response none =
    if too_long limit response.content_length
    then err (too_large kind)
    else read_chunks kind limit response.chunks []

-- what `http_bytes` makes of an answer
unfoldable pub http_bytes : OperationKind → ℕ → Answer → Result TektonError (List ℕ)
http_bytes kind limit no_permit = err capacity_exhausted
http_bytes kind limit too_slow = err (expired kind)
http_bytes kind limit broken = err (operation_failure kind)
http_bytes kind limit (responded response) =
    read_response kind limit response (status_error kind response.status)

abbrev pub ask : Sent → OperationKind → ℕ → Task (List ℕ)
ask what kind limit s = (http_bytes kind limit (head_exchange s.exchanges).answer, asked what s)

-- `kube_token`
unfoldable pub kube_token : Option Str → Option Str
kube_token none = none
kube_token (some file) = if is_empty (trim file) then none else some (trim file)

module _ (env : Env) where
  abbrev pub Value : Type 0
  Value = env.json.Value

  -- with the token of the request
  abbrev pub with_token : Str → Result TektonError (List ℕ) → Result TektonError (List ℕ × Str)
  with_token token (ok bytes) = ok (bytes, token)
  with_token token (err e) = err e

  abbrev pub token_sent : Option Str → Sent → OperationKind → ℕ → Task (List ℕ × Str)
  token_sent none what kind limit s = (err upstream_unavailable, not_asked s)
  token_sent (some token) what kind limit s =
      let (r, s') = ask what kind limit s in (with_token token r, s')

  -- a request to Kubernetes: the URL, then the token file, then the request
  unfoldable pub kube_bytes : Sent → Str → OperationKind → ℕ → Task (List ℕ × Str)
  kube_bytes what path kind limit =
      if not (env.kube_joins path)
      then lift (err (operation_failure kind))
      else (λ s. token_sent (kube_token (head_exchange s.exchanges).token_file) what kind limit s)

  unfoldable pub parse_body : OperationKind → List ℕ → Result TektonError Value
  parse_body kind bytes = ok_or (too_large kind) (env.json.from_slice bytes)

  -- `kube_json` with GET
  unfoldable pub get_json : Str → List (Str × Str) → Task Value
  get_json path query = do
    answer ← kube_bytes (kube_get path query) path read max_response_bytes
    lift (parse_body read answer.0)

  -- `kube_json` with PATCH and the body of `cancel_patch`
  unfoldable pub patch_cancelled : Str → Str → Task (Unit {0})
  patch_cancelled path resource_version = do
    kube_bytes (kube_cancel path resource_version) path mutation max_response_bytes
    lift (ok tt)

  -- `kube_text`
  unfoldable pub get_text : Str → List (Str × Str) → ℕ → Task (List ℕ × Str)
  get_text path query limit = kube_bytes (kube_get path query) path read limit

  unfoldable pub forgejo_json : List Str → List (Str × Str) → Task Value
  forgejo_json segments query =
      if not env.forgejo_has_path then lift (err invalid_arguments) else (do
        bytes ← ask (forgejo_get segments query) read max_response_bytes
        lift (parse_body read bytes))

  unfoldable pub send_pac : Incoming → Task (Unit {0})
  send_pac incoming =
      if not env.pac_joins
      then lift (err mutation_rejected)
      else (do ask (pac_incoming incoming) mutation max_response_bytes; lift (ok tt))
