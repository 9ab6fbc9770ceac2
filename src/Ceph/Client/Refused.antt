-- ===== src/Ceph/Client/Refused.antt =====
-- What the error of a mutation says of the request (src/integrations/ceph/client.rs).
use homelab_mcp.Prelude.{
  ℕ, ◌≡◌, ◌≢◌, refl, ◌∙◌, ◌⊎◌, inl, inr, Bool, true, Option, none, some, List, [], ◌∷◌, ◌++◌, arith,
  Result, ok, err, Bool-cases, Option-cases, Result-cases,
}
use homelab_mcp.Text.{Str}
use homelab_mcp.Ceph.{CephError, mutation_outcome_unknown}
use homelab_mcp.Json.{Json}
use homelab_mcp.Ceph.Client.{mutation, failure, too_large, status_error}
use homelab_mcp.Http.{Response, Answer, no_permit, too_slow, broken, responded, is_client_error}
use homelab_mcp.Ceph.Client.Laws.{mutations, authenticate-Keeps}
use homelab_mcp.Ceph.Client.Calls.{
  Method, Body, Sent, request, State, head_answer, note, read_chunks, read_limited, parse_bytes,
  parse_body, accepted, with_status, sent_result, send, authenticate, mutate,
}
use homelab_mcp.Tasks.{continue}

-- The first answer that is left is a response with a status of 400 to 499.
pub record IsRefused (answers : List Answer) : Type 0 where
  pub response : Response
  pub answered : head_answer answers ≡ responded response
  pub client_error : is_client_error response.status ≡ true

module _ (json : Json) (joins : Str → Bool) where
  read_chunks-unknown :
      (chunks : List (Option (List ℕ))) (bytes : List ℕ) (e : CephError)
      → read_chunks mutation chunks bytes ≡ err e
      → e ≡ mutation_outcome_unknown
  unfolding read_chunks failure too_large
  read_chunks-unknown [] bytes e h = cc
  read_chunks-unknown (none ∷ chunks) bytes e h = cc
  read_chunks-unknown (some chunk ∷ chunks) bytes e h =
      ground (arith, read_chunks-unknown chunks (bytes ++ chunk) e)

  read_limited-unknown :
      (response : Response) (e : CephError)
      → read_limited response mutation ≡ err e
      → e ≡ mutation_outcome_unknown
  unfolding read_limited too_large
  read_limited-unknown response e h = ground (arith, read_chunks-unknown response.chunks [] e)

  parse_bytes-unknown :
      (bytes : List ℕ) (e : CephError)
      → parse_bytes json joins bytes mutation ≡ err e
      → e ≡ mutation_outcome_unknown
  unfolding parse_bytes
  parse_bytes-unknown [] e h = cc
  parse_bytes-unknown (b ∷ bytes) e h = elim (Option-cases (json.from_slice (b ∷ bytes))) [
    | inl bad ↦ ground arith
    | inr (value, good) ↦ absurd (ground arith)
  ]

  parse_body-unknown :
      (r : Result CephError (List ℕ)) (status : ℕ) (e : CephError)
      → ((d : CephError) → r ≡ err d → d ≡ mutation_outcome_unknown)
      → with_status json joins status (parse_body json joins r mutation) ≡ err e
      → e ≡ mutation_outcome_unknown
  parse_body-unknown (err d) status e k h = k e (ground arith)
  parse_body-unknown (ok bytes) status e k h =
      elim (Result-cases (parse_bytes json joins bytes mutation)) [
        | inl (value, good) ↦ absurd (ground arith)
        | inr (d, bad) ↦ ground (arith, parse_bytes-unknown bytes d bad)
      ]

  -- the status of a refusal, or an unknown outcome
  status_error-refused :
      (status : ℕ) (e : CephError)
      → status_error mutation status ≡ some e
      → (e ≡ mutation_outcome_unknown) ⊎ (is_client_error status ≡ true)
  unfolding status_error
  status_error-refused status e h = ground arith

  accepted-refused :
      (response : Response) (o : Option CephError) (e : CephError)
      → status_error mutation response.status ≡ o
      → accepted json joins mutation response o ≡ err e
      → (e ≡ mutation_outcome_unknown) ⊎ (is_client_error response.status ≡ true)
  accepted-refused response (some d) e known h =
      status_error-refused response.status e (known ∙ ground arith)
  accepted-refused response none e known h = inl (
      parse_body-unknown (read_limited response mutation) response.status e
        (read_limited-unknown response) h)

  abbrev Told : CephError → List Answer → List Sent → List Sent → Type 0
  Told e answers before after =
      (e ≡ mutation_outcome_unknown) ⊎ (mutations after ≡ mutations before) ⊎ IsRefused answers

  answer-Told :
      (a : Answer) (answers : List Answer) (what : Sent) (sent : List Sent) (e : CephError)
      → head_answer answers ≡ a
      → sent_result json joins mutation a ≡ err e
      → Told e answers sent (note a what sent)
  unfolding sent_result failure
  answer-Told no_permit answers what sent e here h = inr (inl refl)
  answer-Told too_slow answers what sent e here h = inl cc
  answer-Told broken answers what sent e here h = inl cc
  answer-Told (responded response) answers what sent e here h =
      elim (accepted-refused response (status_error mutation response.status) e refl h) [
        | inl unknown ↦ inl unknown
        | inr refused ↦
            inr (inr (record { response = response; answered = here; client_error = refused }))
      ]

  send-Told :
      (method : Method) (path : Str) (body : Body) (token : Str) (s : State) (e : CephError)
      → (send json joins method path body token mutation s).0 ≡ err e
      → Told e s.answers s.sent (send json joins method path body token mutation s).1.sent
  unfolding send
  send-Told method path body token s e h = elim (Bool-cases (joins path)) [
    | inl good ↦ rw good (
        answer-Told (head_answer s.answers) s.answers (request mutation method path body token)
          s.sent e refl (rw good at h))
    | inr bad ↦ rw bad (inr (inl refl))
  ]

  continue-Told :
      (r : Result CephError Str) (s : State) (method : Method) (path : Str) (body : Body)
      (e : CephError)
      → (continue r s (λ token. send json joins method path body token mutation)).0 ≡ err e
      → Told e s.answers s.sent
          (continue r s (λ token. send json joins method path body token mutation)).1.sent
  continue-Told (ok token) s method path body e h = send-Told method path body token s e h
  continue-Told (err d) s method path body e h = inr (inl refl)

  -- A mutation that fails with another error than the unknown outcome was not handed to the HTTP
  -- client, or was answered with a status of 400 to 499.
  pub mutate-IsRefused :
      (method : Method) (path : Str) (body : Body) (s : State) (e : CephError)
      → (mutate json joins method path body s).0 ≡ err e
      → e ≢ mutation_outcome_unknown
      → (mutations (mutate json joins method path body s).1.sent ≡ mutations s.sent)
        ⊎ IsRefused (authenticate json joins s).1.answers
  unfolding mutate
  mutate-IsRefused method path body s e h other =
      let (r, s') = authenticate json joins s in
      elim (continue-Told r s' method path body e h) [
        | inl unknown ↦ absurd (other unknown)
        | inr (inl idle) ↦ inl (idle ∙ (authenticate-Keeps json joins).at s)
        | inr (inr refused) ↦ inr refused
      ]
