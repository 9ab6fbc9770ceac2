-- ===== src/Ceph/Client/Laws.antt =====
-- What the calls of the Ceph client send, and what an error of a mutation says.
use homelab_mcp.Prelude.{
  ℕ, ◌+◌, ◌≤◌, ◌≡◌, refl, ◌∙◌, inl, inr, Bool, Option, none, some, List, [], ◌∷◌, ◌++◌, arith,
  Result, ok, err, Bool-cases,
}
use homelab_mcp.Text.{Str, lit}
use homelab_mcp.Ceph.{CephError}
use homelab_mcp.Json.{Json}
use homelab_mcp.Ceph.Client.{query, mutation}
use homelab_mcp.Http.{Answer, no_permit, too_slow, broken, responded}
use homelab_mcp.Ceph.Client.Calls.{
  Method, Body, Sent, login, request, State, Task, set_token, head_answer, note, UpstreamResponse,
  send, log_in, cached_or_login, authenticate, body_of, forget, sent_again, retried,
  is_unauthorized, query_call, mutate,
}
use homelab_mcp.Tasks.{Keeps, Keeps-bind, Keeps-lift, continue}

-- how many mutations were handed to the HTTP client
unfoldable pub mutations : List Sent → ℕ
mutations [] = 0
mutations (request mutation method path body token ∷ sent) = 1 + mutations sent
mutations (request query method path body token ∷ sent) = mutations sent
mutations (login ∷ sent) = mutations sent

abbrev pub is_mutation : Sent → ℕ
is_mutation (request mutation method path body token) = 1
is_mutation _ = 0

mutations-append_one :
    (sent : List Sent) (what : Sent)
    → mutations (sent ++ what ∷ []) ≡ mutations sent + is_mutation what
unfolding mutations
mutations-append_one [] login = refl
mutations-append_one [] (request mutation method path body token) = refl
mutations-append_one [] (request query method path body token) = refl
mutations-append_one (login ∷ sent) what = mutations-append_one sent what
mutations-append_one (request query method path body token ∷ sent) what =
    mutations-append_one sent what
mutations-append_one (request mutation method path body token ∷ sent) what =
    omega (arith, mutations-append_one sent what)

note_keeps :
    (a : Answer) (what : Sent) (sent : List Sent)
    → is_mutation what ≡ 0
    → mutations (note a what sent) ≡ mutations sent
note_keeps no_permit what sent h = refl
note_keeps too_slow what sent h = omega (arith, mutations-append_one sent what)
note_keeps broken what sent h = omega (arith, mutations-append_one sent what)
note_keeps (responded r) what sent h = omega (arith, mutations-append_one sent what)

note_adds :
    (a : Answer) (what : Sent) (sent : List Sent)
    → mutations (note a what sent) ≤ mutations sent + is_mutation what
note_adds no_permit what sent = omega arith
note_adds too_slow what sent = omega (arith, mutations-append_one sent what)
note_adds broken what sent = omega (arith, mutations-append_one sent what)
note_adds (responded r) what sent = omega (arith, mutations-append_one sent what)

abbrev pub count : State → ℕ
count s = mutations s.sent

continue_adds :
    {A B : Type 0} (r : Result CephError A) (s : State) (f : A → Task B)
    → ((a : A) (t : State) → mutations (f a t).1.sent ≤ mutations t.sent + 1)
    → mutations (continue r s f).1.sent ≤ mutations s.sent + 1
continue_adds (ok a) s f k = k a s
continue_adds (err e) s f k = omega arith

Keeps-set_token : (token : Option Str) → Keeps count (set_token token)
Keeps-set_token token = record { at = λ s. refl }

module _ (json : Json) (joins : Str → Bool) where
  log_in-Keeps : Keeps count (log_in json joins)
  unfolding log_in
  log_in-Keeps = record {
    at = λ s. elim (Bool-cases (joins (lit "api/auth"))) [
      | inl good ↦ rw good (note_keeps (head_answer s.answers) login s.sent refl)
      | inr bad ↦ rw bad
    ];
  }

  cached_or_login-Keeps : (token : Option Str) → Keeps count (cached_or_login json joins token)
  cached_or_login-Keeps (some token) = record { at = λ s. refl }
  cached_or_login-Keeps none = Keeps-bind count (log_in json joins) _ log_in-Keeps (λ token.
      Keeps-bind count (set_token (some token)) _ (Keeps-set_token (some token))
        (λ _. Keeps-lift count (ok token)))

  pub authenticate-Keeps : Keeps count (authenticate json joins)
  unfolding authenticate
  authenticate-Keeps = record { at = λ s. (cached_or_login-Keeps s.token).at s }

  send_query-keeps :
      (method : Method) (path : Str) (body : Body) (token : Str) (s : State)
      → mutations (send json joins method path body token query s).1.sent ≡ mutations s.sent
  unfolding send
  send_query-keeps method path body token s = elim (Bool-cases (joins path)) [
    | inl good ↦
        rw good
          (note_keeps (head_answer s.answers) (request query method path body token) s.sent refl)
    | inr bad ↦ rw bad
  ]

  send-mutations :
      (method : Method) (path : Str) (body : Body) (token : Str) (s : State)
      → mutations (send json joins method path body token mutation s).1.sent ≤ mutations s.sent + 1
  unfolding send
  send-mutations method path body token s = elim (Bool-cases (joins path)) [
    | inl good ↦
        rw good (note_adds (head_answer s.answers) (request mutation method path body token) s.sent)
    | inr bad ↦ rw bad (omega arith)
  ]

  sent_again-Keeps :
      (method : Method) (path : Str) → Keeps count (sent_again json joins method path)
  sent_again-Keeps method path =
      Keeps-bind count (authenticate json joins) _ authenticate-Keeps
        (λ token. record { at = send_query-keeps method path Body.no_body token })

  forget-Keeps :
      (meanwhile : Option Str → Option Str) (token : Str)
      → Keeps count (forget json joins meanwhile token)
  unfolding forget
  forget-Keeps meanwhile token = record { at = λ s. refl }

  retried-Keeps :
      (meanwhile : Option Str → Option Str) (method : Method) (path token : Str)
      (first : Result CephError (UpstreamResponse json joins))
      → Keeps count (retried json joins meanwhile method path token first)
  retried-Keeps meanwhile method path token first =
      elim (Bool-cases (is_unauthorized json joins first)) [
        | inl again ↦ rw again (
            Keeps-bind count (forget json joins meanwhile token) _ (forget-Keeps meanwhile token)
              (λ _. sent_again-Keeps method path))
        | inr settled ↦ rw settled (Keeps-lift count (body_of json joins first))
      ]

  -- A query sends no mutation, whatever it is answered.
  pub query_call-Keeps :
      (meanwhile : Option Str → Option Str) (method : Method) (path : Str)
      → Keeps count (query_call json joins meanwhile method path)
  unfolding query_call
  query_call-Keeps meanwhile method path =
      Keeps-bind count (authenticate json joins) _ authenticate-Keeps (λ token. record {
        at = λ s.
            let (first, s') = send json joins method path Body.no_body token query s in
            (retried-Keeps meanwhile method path token first).at s'
            ∙ send_query-keeps method path Body.no_body token s;
      })

  -- A mutation is handed to the HTTP client at most once, whatever it is answered.
  pub mutate-mutations :
      (method : Method) (path : Str) (body : Body) (s : State)
      → mutations (mutate json joins method path body s).1.sent ≤ mutations s.sent + 1
  unfolding mutate
  mutate-mutations method path body s =
      let (token, s') = authenticate json joins s in
      omega (
        arith,
        authenticate-Keeps.at s,
        continue_adds token s' (λ t. send json joins method path body t mutation)
            (λ t. send-mutations method path body t),
      )
