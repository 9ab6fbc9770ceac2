-- ===== src/Ceph/Client/Calls.antt =====
-- `authenticate`, `send`, `query` and `mutate` of src/integrations/ceph/client.rs.
use homelab_mcp.Prelude.{
  ℕ, ◌-◌, ◌*◌, Bool, true, false, not, ◌||◌, Option, none, some, List, [], ◌∷◌, ◌++◌, Result, ok,
  err, ok_or, ltb, ◌==◌, if◌then◌else◌, length,
}
use homelab_mcp.Tasks.{Task as StateTask, ◌>>=◌, ◌>>◌, lift}
use homelab_mcp.Text.{Str, lit, str_eq}
use homelab_mcp.Ceph.{
  CephError, invalid_arguments, capacity_exhausted, timeout, unauthorized, upstream_unavailable,
  invalid_response,
}
use homelab_mcp.Json.{Json, str_of}
use homelab_mcp.Ceph.Client.{
  Operation, query, mutation, failure, too_large, unreadable, expired, status_error, good_token,
}
use homelab_mcp.Http.{Response, Answer, no_permit, too_slow, broken, responded, is_success}

abbrev pub max_response_bytes : ℕ
max_response_bytes = 4 * 1024 * 1024

pub data Method : Type 0 where
  get put post : Method

-- the JSON of a request
pub data Body : Type 0 where
  no_body null_body : Body
  action_body weight_body : Str → Body

-- a request that was handed to the HTTP client; `mutation` is where the dispatch flag is raised
pub data Sent : Type 0 where
  login : Sent
  request : Operation → Method → Str → Body → Str → Sent

pub record State : Type 0 where
  pub token : Option Str
  pub answers : List Answer
  pub sent : List Sent

abbrev pub Task : Type 0 → Type 0
Task A = StateTask CephError State A

abbrev pub set_token : Option Str → Task (Unit {0})
set_token token s = (ok tt, record s { token = token })

-- The next answer; behind the end of the list the permits are used up.
abbrev pub head_answer : List Answer → Answer
head_answer [] = no_permit
head_answer (a ∷ rest) = a

abbrev pub tail_answers : List Answer → List Answer
tail_answers [] = []
tail_answers (a ∷ rest) = rest

-- Without a permit nothing is sent.
abbrev pub note : Answer → Sent → List Sent → List Sent
note no_permit what sent = sent
note _ what sent = sent ++ what ∷ []

abbrev pub ask : Sent → State → Answer × State
ask what s = (
  head_answer s.answers,
  record s { answers = tail_answers s.answers; sent = note (head_answer s.answers) what s.sent },
)

-- the `while` loop of `read_limited`, with the bytes so far
unfoldable pub read_chunks : Operation → List (Option (List ℕ)) → List ℕ → Result CephError (List ℕ)
read_chunks operation [] bytes = ok bytes
read_chunks operation (none ∷ chunks) bytes = err (failure operation)
read_chunks operation (some chunk ∷ chunks) bytes =
    let rest = read_chunks operation chunks (bytes ++ chunk) in
    if ltb (max_response_bytes - length bytes) (length chunk)
    then err (too_large operation)
    else rest

abbrev pub too_long : Option ℕ → Bool
too_long none = false
too_long (some count) = ltb max_response_bytes count

unfoldable pub read_limited : Response → Operation → Result CephError (List ℕ)
read_limited response operation =
    if too_long response.content_length
    then err (too_large operation)
    else read_chunks operation response.chunks []

module _ (json : Json) (joins : Str → Bool) where
  unfoldable pub parse_bytes : List ℕ → Operation → Result CephError json.Value
  parse_bytes [] operation = ok json.null
  parse_bytes (b ∷ bytes) operation = ok_or (unreadable operation) (json.from_slice (b ∷ bytes))

  abbrev pub parse_body : Result CephError (List ℕ) → Operation → Result CephError json.Value
  parse_body (ok bytes) operation = parse_bytes bytes operation
  parse_body (err e) operation = err e

  pub record UpstreamResponse : Type 0 where
    pub status : ℕ
    pub body : json.Value

  abbrev pub with_status : ℕ → Result CephError json.Value → Result CephError UpstreamResponse
  with_status status (ok body) = ok (record { status = status; body = body })
  with_status status (err e) = err e

  abbrev pub accepted : Operation → Response → Option CephError → Result CephError UpstreamResponse
  accepted operation response (some e) = err e
  accepted operation response none =
      with_status response.status (parse_body (read_limited response operation) operation)

  -- what `send` makes of an answer
  unfoldable pub sent_result : Operation → Answer → Result CephError UpstreamResponse
  sent_result operation no_permit = err capacity_exhausted
  sent_result operation too_slow = err (expired operation)
  sent_result operation broken = err (failure operation)
  sent_result operation (responded response) =
      accepted operation response (status_error operation response.status)

  unfoldable pub send : Method → Str → Body → Str → Operation → Task UpstreamResponse
  send method path body token operation s =
      if not (joins path)
      then (err (failure operation), s)
      else (let (answer, s') = ask (request operation method path body token) s in
          (sent_result operation answer, s'))

  abbrev pub token_field : Option json.Value → Option Str
  token_field none = none
  token_field (some value) = str_of (json.view value)

  abbrev pub filtered : Option Str → Option Str
  filtered none = none
  filtered (some token) = if good_token token then some token else none

  abbrev pub login_token : Result CephError json.Value → Result CephError Str
  login_token (err e) = err e
  login_token (ok value) =
      ok_or invalid_response (filtered (token_field (json.get value (lit "token"))))

  unfoldable pub login_result : Answer → Result CephError Str
  login_result no_permit = err capacity_exhausted
  login_result too_slow = err timeout
  login_result broken = err upstream_unavailable
  login_result (responded response) =
      if response.status == 401 || response.status == 403
      then err unauthorized
      else if not (is_success response.status)
      then err upstream_unavailable
      else login_token (parse_body (read_limited response query) query)

  unfoldable pub log_in : Task Str
  log_in s =
      if not (joins (lit "api/auth"))
      then (err invalid_arguments, s)
      else (let (answer, s') = ask login s in (login_result answer, s'))

  abbrev pub cached_or_login : Option Str → Task Str
  cached_or_login (some token) = lift (ok token)
  cached_or_login none = do token ← log_in; set_token (some token); lift (ok token)

  unfoldable pub authenticate : Task Str
  authenticate s = cached_or_login s.token s

  abbrev pub body_of : Result CephError UpstreamResponse → Result CephError json.Value
  body_of (ok response) = ok response.body
  body_of (err e) = err e

  -- The cached token is dropped if it is still the refused one. `meanwhile` is what other calls
  -- made of the cache while the first request was out.
  abbrev pub same_token : Option Str → Str → Bool
  same_token none token = false
  same_token (some cached) token = str_eq cached token

  unfoldable pub forget : (Option Str → Option Str) → Str → Task (Unit {0})
  forget meanwhile token s =
      let cached = meanwhile s.token in
      set_token (if same_token cached token then none else cached) s

  abbrev pub sent_again : Method → Str → Task json.Value
  sent_again method path = do
    token ← authenticate
    (λ s. let (r, s') = send method path no_body token query s in (body_of r, s'))

  abbrev pub is_unauthorized : Result CephError UpstreamResponse → Bool
  is_unauthorized (err unauthorized) = true
  is_unauthorized _ = false

  -- only `unauthorized` is tried again, with a new token
  abbrev pub retried :
      (Option Str → Option Str)
      → Method
      → Str
      → Str
      → Result CephError UpstreamResponse
      → Task json.Value
  retried meanwhile method path token first =
      if is_unauthorized first
      then (forget meanwhile token >> sent_again method path)
      else lift (body_of first)

  unfoldable pub query_call : (Option Str → Option Str) → Method → Str → Task json.Value
  query_call meanwhile method path = do
    token ← authenticate
    (λ s.
        let (first, s') = send method path no_body token query s in
        retried meanwhile method path token first s')

  unfoldable pub mutate : Method → Str → Body → Task UpstreamResponse
  mutate method path body = do token ← authenticate; send method path body token mutation
