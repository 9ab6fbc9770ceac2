-- ===== src/Ceph/Client/Osd/Laws.antt =====
-- The check in front of a destroy and a purge (src/integrations/ceph/client.rs).
use homelab_mcp.Prelude.{
  ℕ, ◌≡◌, refl, sym, ap, subst, ◌∙◌, ◌⊎◌, inl, inr, Bool, true, not, Option, List, [], ◌∷◌, ◌++◌,
  Result, ok, err, reject_if, Bool-cases,
}
use homelab_mcp.Text.{Str, lit}
use homelab_mcp.Ceph.{CephError, unsafe_to_destroy}
use homelab_mcp.Json.{Json}
use homelab_mcp.Ceph.Normalize.{SafeToDestroy, safe_to_destroy as normalize_safe_to_destroy}
use homelab_mcp.Http.{Answer, no_permit, too_slow, broken, responded}
use homelab_mcp.Ceph.Client.{mutation}
use homelab_mcp.Ceph.Client.Calls.{
  Method, get, post, Body, null_body, Sent, request, State, Task, head_answer, note, send,
  authenticate, query_call, mutate,
}
use homelab_mcp.Tasks.{continue, ◌>>◌, lift}
use homelab_mcp.Ceph.Client.Laws.{mutations, authenticate-Keeps, query_call-Keeps}
use homelab_mcp.Ceph.Client.Osd.{
  Report, osd_text, osd_path, mutation_result, mutate_osd, safe_to_destroy, require_safe, destroy,
  purge,
}

note-cases :
    (a : Answer) (what : Sent) (sent : List Sent)
    → (note a what sent ≡ sent) ⊎ (note a what sent ≡ sent ++ what ∷ [])
note-cases no_permit what sent = inl refl
note-cases too_slow what sent = inr refl
note-cases broken what sent = inr refl
note-cases (responded r) what sent = inr refl

module _ (json : Json) (joins : Str → Bool) where
  -- a mutation that was handed over, after the token that it carries
  pub record IsPosted (method : Method) (path : Str) (body : Body) (s t : State) : Type 0 where
    pub token : Str
    pub signed_in : (authenticate json joins s).0 ≡ ok token
    pub posted :
        t.sent ≡ (authenticate json joins s).1.sent ++ request mutation method path body token ∷ []

  abbrev Posts : Method → Str → Body → State → State → Type 0
  Posts method path body s t = (mutations t.sent ≡ mutations s.sent) ⊎ IsPosted method path body s t

  send-cases :
      (method : Method) (path : Str) (body : Body) (token : Str) (s : State)
      → ((send json joins method path body token mutation s).1.sent ≡ s.sent)
        ⊎ ((send json joins method path body token mutation s).1.sent
            ≡ s.sent ++ request mutation method path body token ∷ [])
  unfolding send
  send-cases method path body token s = elim (Bool-cases (joins path)) [
    | inl good ↦
        rw good
          (note-cases (head_answer s.answers) (request mutation method path body token) s.sent)
    | inr bad ↦ rw bad (inl refl)
  ]

  signed_in-Posts :
      (method : Method) (path : Str) (body : Body) (s : State) (r : Result CephError Str)
      → (authenticate json joins s).0 ≡ r
      → Posts method path body s
          (continue r
            (authenticate json joins s).1
            (λ token. send json joins method path body token mutation)).1
  signed_in-Posts method path body s (err e) now = inl ((authenticate-Keeps json joins).at s)
  signed_in-Posts method path body s (ok token) now =
      elim (send-cases method path body token (authenticate json joins s).1) [
        | inl idle ↦ inl (ap mutations idle ∙ (authenticate-Keeps json joins).at s)
        | inr posted ↦ inr (record { token = token; signed_in = now; posted = posted })
      ]

  mutate-Posts :
      (method : Method) (path : Str) (body : Body) (s : State)
      → Posts method path body s (mutate json joins method path body s).1
  unfolding mutate
  mutate-Posts method path body s = signed_in-Posts method path body s _ refl

  -- what is made of the response sends nothing
  continue-lift :
      {A B : Type 0} (r : Result CephError A) (s : State) (f : A → Result CephError B)
      → (continue r s (λ a. lift (f a))).1 ≡ s
  continue-lift (ok a) s f = refl
  continue-lift (err e) s f = refl

module _ (json : Json) (joins : Str → Bool) (meanwhile : Option Str → Option Str) (cluster : Str)
    (osd_id : ℕ) where
  -- where the API answers whether this OSD may be destroyed
  abbrev question : Str
  question = lit "api/osd/safe_to_destroy?ids=%5B" ++ osd_text osd_id ++ lit "%5D"

  -- The cluster was asked for this OSD and answered that it is safe to destroy, and the last
  -- request that was sent after that posts this action for this OSD.
  pub record IsSafe (action : Str) (s t : State) : Type 0 where
    pub value : json.Value
    pub answered :
        (query_call json joins meanwhile get
          (lit "api/osd/safe_to_destroy?ids=%5B" ++ osd_text osd_id ++ lit "%5D")
          s).0
        ≡ ok value
    pub report : SafeToDestroy json
    pub read : normalize_safe_to_destroy json cluster osd_id value ≡ ok report
    pub safe : report.safe_to_destroy ≡ true
    pub no_mutation :
        mutations (query_call json joins meanwhile get question s).1.sent ≡ mutations s.sent
    pub posted :
        IsPosted json joins post
          (osd_path osd_id action)
          null_body
          (query_call json joins meanwhile get question s).1
          t

  abbrev check : SafeToDestroy json → Task (Unit {0})
  check result = lift (reject_if (not result.safe_to_destroy) unsafe_to_destroy)

  -- the state after the check of a report, and after the mutation if it passes
  abbrev checked : Result CephError (SafeToDestroy json) → State → Task Report → State
  checked r q next = (continue (continue r q check).0 (continue r q check).1 (λ _. next)).1

  abbrev Passes : Result CephError (SafeToDestroy json) → State → Task Report → Type 0
  Passes r q next =
      (mutations (checked r q next).sent ≡ mutations q.sent)
      ⊎ ((report : SafeToDestroy json) × (r ≡ ok report)
          × (report.safe_to_destroy ≡ true)
          × (checked r q next ≡ (next q).1))

  check_stops :
      (r : Result CephError (SafeToDestroy json)) (q : State) (next : Task Report) → Passes r q next
  check_stops (err e) q next = inl refl
  check_stops (ok report) q next = elim (Bool-cases report.safe_to_destroy) [
    | inl safe ↦ inr (report, refl, safe, after_pass report.safe_to_destroy safe)
    | inr unsafe ↦ inl (rw unsafe)
  ]
    where
      after_pass :
          (b : Bool)
          → b ≡ true
          → (continue (reject_if (not b) unsafe_to_destroy) q (λ _. next)).1 ≡ (next q).1
      after_pass b h = rw h

  abbrev safe_answer : Result CephError json.Value → State → Result CephError (SafeToDestroy json)
  safe_answer r q =
      (continue r q (λ value. lift (normalize_safe_to_destroy json cluster osd_id value))).0

  safe_answer-ok :
      (r : Result CephError json.Value) (q : State) (report : SafeToDestroy json)
      → safe_answer r q ≡ ok report
      → (value : json.Value) × (r ≡ ok value)
        × (normalize_safe_to_destroy json cluster osd_id value ≡ ok report)
  safe_answer-ok (ok value) q report h = (value, refl, h)
  safe_answer-ok (err e) q report h = cc

  -- a mutation behind the check
  guarded_task :
      (action name : Str) (s : State)
      → (mutations
            ((require_safe json joins meanwhile cluster osd_id
                >> mutate_osd json joins meanwhile post
                    (osd_path osd_id action)
                    null_body
                    name
                    cluster
                    osd_id)
              s).1.sent
          ≡ mutations s.sent)
        ⊎ IsSafe action s
            ((require_safe json joins meanwhile cluster osd_id
                >> mutate_osd json joins meanwhile post
                    (osd_path osd_id action)
                    null_body
                    name
                    cluster
                    osd_id)
              s).1
  unfolding require_safe safe_to_destroy
  guarded_task action name s =
      let (r, q) = query_call json joins meanwhile get question s in
      let next =
        mutate_osd json joins meanwhile post (osd_path osd_id action) null_body name cluster
          osd_id in
      let asked = continue-lift json joins r q (normalize_safe_to_destroy json cluster osd_id) in
      let kept = (query_call-Keeps json joins meanwhile get question).at s in
      subst
        (λ u.
          (mutations (checked (safe_answer r q) u next).sent ≡ mutations s.sent)
          ⊎ IsSafe action s (checked (safe_answer r q) u next))
        (sym asked)
        (elim (check_stops (safe_answer r q) q next) [
          | inl idle ↦ inl (idle ∙ kept)
          | inr (report, passed, safe, same) ↦
              let (value, answered, read) = safe_answer-ok r q report passed in
              let sent =
                same
                ∙ continue-lift json joins
                    (mutate json joins post (osd_path osd_id action) null_body q).0
                    (mutate json joins post (osd_path osd_id action) null_body q).1
                    (mutation_result json joins meanwhile cluster name osd_id) in
              elim (mutate-Posts json joins post (osd_path osd_id action) null_body q) [
                | inl quiet ↦ inl (ap (λ (x : State). mutations x.sent) sent ∙ quiet ∙ kept)
                | inr posted ↦ inr (record {
                  value = value;
                  answered = answered;
                  report = report;
                  read = read;
                  safe = safe;
                  no_mutation = kept;
                  posted =
                      subst (λ x. IsPosted json joins post (osd_path osd_id action) null_body q x)
                        (sym sent) posted;
                })
              ]
        ])

  -- A destroy sends no mutation, or the cluster was asked for this very OSD and answered that it is
  -- safe to destroy, and then the one mutation sent, which is the last request, posts the destroy
  -- of this OSD.
  pub destroy-IsSafe :
      (s : State)
      → (mutations (destroy json joins meanwhile cluster osd_id s).1.sent ≡ mutations s.sent)
        ⊎ IsSafe (lit "destroy") s (destroy json joins meanwhile cluster osd_id s).1
  unfolding destroy
  destroy-IsSafe s = guarded_task (lit "destroy") (lit "osd.destroy") s

  -- A purge sends no mutation, or the cluster was asked for this very OSD and answered that it is
  -- safe to destroy, and then the one mutation sent, which is the last request, posts the purge of
  -- this OSD.
  pub purge-IsSafe :
      (s : State)
      → (mutations (purge json joins meanwhile cluster osd_id s).1.sent ≡ mutations s.sent)
        ⊎ IsSafe (lit "purge") s (purge json joins meanwhile cluster osd_id s).1
  unfolding purge
  purge-IsSafe s = guarded_task (lit "purge") (lit "osd.purge") s
