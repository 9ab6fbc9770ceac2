-- ===== src/Tekton/Costs.antt =====
-- A measure of the requests that the reads of src/integrations/tekton/client.rs send: each request
-- has a weight, and a call is charged for what it sends.
pub mod Reads
pub mod Discovery
use homelab_mcp.Prelude.{
  ℕ, zero, suc, ◌+◌, ◌*◌, ◌-◌, ◌≤◌, ◌≡◌, ◌⊎◌, inl, inr, refl, sym, ap, ◌∙◌, Bool, true, false, not,
  Option, none, some, List, [], ◌∷◌, ◌++◌, Result, ok, err, ok_or, ◌==◌, any, take, length, arith,
  Bool-cases,
}
use homelab_mcp.Text.{Str, str_eq}
use homelab_mcp.Http.{Answer, no_permit, too_slow, broken, responded}
use homelab_mcp.Tasks.{Costs, Costs-last, Costs-pure, Costs-mono, Costs-if, lift, ◌>>=◌, ◌>>◌}
use homelab_mcp.Tekton.{
  TektonError, OperationKind, read, operation_failure, invalid_arguments, invalid_response,
  not_found,
}
use homelab_mcp.Tekton.Env.{
  Env, State, Sent, kube_get, kube_cancel, forgejo_get, pac_incoming, Task, Value, note, asked,
  not_asked, ask, token_sent, kube_token, kube_bytes, head_exchange, get_json, forgejo_json,
  parse_body, max_response_bytes,
}

-- what the requests sent so far weigh
abbrev pub total : (Sent → ℕ) → List Sent → ℕ
total weight [] = 0
total weight (what ∷ sent) = weight what + total weight sent

abbrev pub spent : (Sent → ℕ) → State → ℕ
spent weight s = total weight s.sent

total-snoc :
    (weight : Sent → ℕ) (what : Sent) (sent : List Sent)
    → total weight (sent ++ what ∷ []) ≡ total weight sent + weight what
total-snoc weight what [] = omega arith
total-snoc weight what (x ∷ sent) = omega (arith, total-snoc weight what sent)

note-Costs :
    (weight : Sent → ℕ) (answer : Answer) (what : Sent) (sent : List Sent)
    → (total weight sent ≤ total weight (note answer what sent))
      × (total weight (note answer what sent) ≤ total weight sent + weight what)
note-Costs weight no_permit what sent = (omega arith, omega arith)
note-Costs weight too_slow what sent =
    let e = total-snoc weight what sent in (omega (arith, e), omega (arith, e))
note-Costs weight broken what sent =
    let e = total-snoc weight what sent in (omega (arith, e), omega (arith, e))
note-Costs weight (responded response) what sent =
    let e = total-snoc weight what sent in (omega (arith, e), omega (arith, e))

module _ (weight : Sent → ℕ) (env : Env) where
  pub ask-Costs :
      (what : Sent) (kind : OperationKind) (limit : ℕ)
      → Costs (spent weight) (weight what) (ask what kind limit)
  ask-Costs what kind limit = record {
    at = λ s. note-Costs weight (head_exchange s.exchanges).answer what s.sent;
  }

  token_sent-Costs :
      (token : Option Str) (what : Sent) (kind : OperationKind) (limit : ℕ)
      → Costs (spent weight) (weight what) (token_sent env token what kind limit)
  token_sent-Costs none what kind limit = record { at = λ s. (omega arith, omega arith) }
  token_sent-Costs (some token) what kind limit = record { at = (ask-Costs what kind limit).at }

  pub kube_bytes-Costs :
      (what : Sent) (path : Str) (kind : OperationKind) (limit : ℕ)
      → Costs (spent weight) (weight what) (kube_bytes env what path kind limit)
  unfolding kube_bytes
  kube_bytes-Costs what path kind limit =
      Costs-if (spent weight) (weight what) (not (env.kube_joins path)) _ _
        (Costs-mono (spent weight) 0 (weight what) _ (omega arith)
          (Costs-pure (spent weight) (err (operation_failure kind))))
        (record {
          at = λ s.
              (token_sent-Costs (kube_token (head_exchange s.exchanges).token_file) what kind
                  limit).at
                s;
        })

  pub get_json-Costs :
      (path : Str) (query : List (Str × Str))
      → Costs (spent weight) (weight (kube_get path query)) (get_json env path query)
  unfolding get_json
  get_json-Costs path query =
      Costs-last (spent weight) (weight (kube_get path query))
        (kube_bytes env (kube_get path query) path read max_response_bytes) _
        (kube_bytes-Costs (kube_get path query) path read max_response_bytes)
        λ answer. Costs-pure (spent weight) (parse_body env read answer.0)

  pub forgejo_json-Costs :
      (segments : List Str) (query : List (Str × Str))
      → Costs (spent weight) (weight (forgejo_get segments query)) (forgejo_json env segments query)
  unfolding forgejo_json
  forgejo_json-Costs segments query =
      Costs-if (spent weight) (weight (forgejo_get segments query)) (not env.forgejo_has_path) _ _
        (Costs-mono (spent weight) 0 (weight (forgejo_get segments query)) _ (omega arith)
          (Costs-pure (spent weight) (err invalid_arguments)))
        (Costs-last (spent weight) (weight (forgejo_get segments query))
          (ask (forgejo_get segments query) read max_response_bytes) _
          (ask-Costs (forgejo_get segments query) read max_response_bytes)
          λ bytes. Costs-pure (spent weight) (parse_body env read bytes))
