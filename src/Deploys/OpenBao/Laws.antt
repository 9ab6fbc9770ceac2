-- ===== src/Deploys/OpenBao/Laws.antt =====
-- What the deploy runner may rely on in the signer of src/integrations/deploys/openbao.rs.
use homelab_mcp.Prelude.{
  ℕ, ◌≤◌, ◌≡◌, refl, Bool, true, false, Option, none, some, List, [], ◌∷◌, ◌++◌, arith, Result, ok,
  err, ok_or, reject_if, ◌>>=◌, length, if◌then◌else◌,
}
use homelab_mcp.Text.{Str, lit}
use homelab_mcp.Inventory.{Machine}
use homelab_mcp.Deploys.{DeployError, credential_unavailable, credential_invalid}
use homelab_mcp.Deploys.OpenBao.{
  OpenBaoConfig, Upstream, Response, endpoint, read_jwt, log_in, read_body, bounded_json,
  bad_certificate, max_response_bytes, too_long, validate_public_key, validate_certificate,
  request_certificate,
}
use homelab_mcp.Deploys.Runner.{World, worker}
use homelab_mcp.Deploys.Runner.Honest.{is_late, spawned}
use homelab_mcp.Deploys.Runner.Laws.{SignerIsEarly, worker_error-spawned}
use homelab_mcp.Deploys.Runner.Steps.{returns}

-- An error of the result is none of a started deploy.
record Early {A : Type 0} (r : Result DeployError A) : Type 0 where
  at : (e : DeployError) → r ≡ err e → is_late e ≡ false

Early-ok : {A : Type 0} (a : A) → Early (ok a)
Early-ok a = record { at = λ e h. cc }

Early-err : {A : Type 0} (e : DeployError) → is_late e ≡ false → Early {A = A} (err e)
Early-err e early = record { at = λ d h. ground arith }

Early-bind :
    {A B : Type 0} (r : Result DeployError A) (f : A → Result DeployError B)
    → Early r
    → ((a : A) → Early (f a))
    → Early (r >>= f)
Early-bind (ok a) f h k = k a
Early-bind (err e) f h k = record { at = λ d same. h.at d (ground arith) }

Early-reject_if : (b : Bool) (e : DeployError) → is_late e ≡ false → Early (reject_if b e)
Early-reject_if true e early = Early-err e early
Early-reject_if false e early = Early-ok tt

Early-ok_or : {A : Type 0} (e : DeployError) (o : Option A) → is_late e ≡ false → Early (ok_or e o)
Early-ok_or e none early = Early-err e early
Early-ok_or e (some a) early = Early-ok a

read_body-Early : (chunks : List (Option (List ℕ))) (body : List ℕ) → Early (read_body chunks body)
unfolding read_body
read_body-Early [] body = Early-ok body
read_body-Early (none ∷ chunks) body = Early-err credential_unavailable refl
read_body-Early (some bytes ∷ chunks) body = record {
  at = λ e h. ground (arith, (read_body-Early chunks (body ++ bytes)).at e);
}

bounded_json-Early : (parse : List ℕ → Option Str) (r : Response) → Early (bounded_json parse r)
unfolding bounded_json
bounded_json-Early parse r = Early-bind _ _ (Early-reject_if _ credential_unavailable refl) (λ _.
    Early-bind _ _ (read_body-Early r.chunks [])
      (λ body. Early-ok_or credential_invalid (parse body) refl))

module _ (config : OpenBaoConfig) (up : Upstream) where
  endpoint-Early : (path : Str) → Early (endpoint config up path)
  unfolding endpoint
  endpoint-Early path = record { at = λ e h. ground arith }

  read_jwt-Early : Early (read_jwt config up)
  unfolding read_jwt
  read_jwt-Early =
      Early-bind _ _ (Early-ok_or credential_unavailable up.jwt_metadata refl) (λ metadata.
        Early-bind _ _ (Early-reject_if _ credential_unavailable refl) (λ _.
          Early-bind _ _ (Early-ok_or credential_unavailable up.jwt_text refl) (λ jwt.
            Early-bind _ _ (Early-reject_if _ credential_invalid refl) (λ _. Early-ok jwt))))

  log_in-Early : (jwt : Str) → Early (log_in config up jwt)
  unfolding log_in
  log_in-Early jwt = Early-bind _ _ (endpoint-Early _) (λ url.
      Early-bind _ _
        (Early-ok_or credential_unavailable (up.login url config.kubernetes_role jwt) refl)
        (λ response. Early-bind _ _ (bounded_json-Early up.parse_login response) (λ token.
          Early-bind _ _ (Early-reject_if _ credential_invalid refl) (λ _. Early-ok token))))

  request_certificate-Early : (public_key : Str) → Early (request_certificate config up public_key)
  unfolding request_certificate validate_public_key validate_certificate
  request_certificate-Early public_key =
      Early-bind _ _ (Early-reject_if _ credential_invalid refl) (λ _.
        Early-bind _ _ read_jwt-Early (λ jwt. Early-bind _ _ (log_in-Early jwt) (λ token.
          Early-bind _ _ (endpoint-Early _) (λ url.
            Early-bind _ _ (Early-ok_or credential_unavailable (up.sign url token public_key) refl)
              (λ response. Early-bind _ _ (bounded_json-Early up.parse_signed response) (λ signed.
                Early-bind _ _ (Early-reject_if _ credential_invalid refl)
                  (λ _. Early-ok signed)))))))

  -- the signer of a world; the cancellation may come first
  abbrev pub with_openbao : Bool → World → World
  with_openbao dropped w = record w {
    sign = λ key. if dropped then none else some (request_certificate config up key);
  }

  with_openbao-SignerIsEarly : (dropped : Bool) (w : World) → SignerIsEarly (with_openbao dropped w)
  with_openbao-SignerIsEarly true w key e h = cc
  with_openbao-SignerIsEarly false w key e h = (request_certificate-Early key).at e (ground arith)

  -- A worker that signs with OpenBao and returns an error has started `uv` exactly if the error is
  -- one of the four unknown outcomes or an unreadable report, whatever OpenBao answers.
  pub openbao_worker-spawned :
      (dropped : Bool) (decode : Str → Option (List ℕ)) (from_utf8 : List ℕ → Option Str)
      (w : World) (temp_root : Str) (machine : Machine) (e : DeployError)
      → (worker decode from_utf8 (with_openbao dropped w) temp_root machine).step ≡ returns (err e)
      → spawned (worker decode from_utf8 (with_openbao dropped w) temp_root machine).trace
        ≡ is_late e
  openbao_worker-spawned dropped decode from_utf8 w temp_root machine e failed =
      worker_error-spawned decode from_utf8 (with_openbao dropped w) temp_root machine e
        (with_openbao-SignerIsEarly dropped w) failed

-- What was asked and answered for a certificate: every check of the key, the token, the login and
-- the certificate held, and the certificate is what the body of the response to the signing request
-- for this key says.
pub record IsIssued (config : OpenBaoConfig) (up : Upstream) (public_key cert : Str) : Type 0 where
  pub key_valid : validate_public_key public_key ≡ ok tt
  pub jwt : Str
  pub jwt_read : read_jwt config up ≡ ok jwt
  pub token : Str
  pub logged_in : log_in config up jwt ≡ ok token
  pub url : Str
  pub joined :
      endpoint config up (lit "v1/" ++ config.ssh_mount ++ lit "/sign/" ++ config.ssh_role) ≡ ok url
  pub response : Response
  pub answered : up.sign url token public_key ≡ some response
  pub accepted : response.is_success ≡ true
  pub announced : too_long response.content_length ≡ false
  pub body : List ℕ
  pub read : read_body response.chunks [] ≡ ok body
  pub body_bounded : length body ≤ max_response_bytes
  pub parsed : up.parse_signed body ≡ some cert
  pub checked : bad_certificate cert ≡ false
