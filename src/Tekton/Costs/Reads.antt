-- ===== src/Tekton/Costs/Reads.antt =====
-- The weight of listing, of finding the repositories and of reading a run
-- (src/integrations/tekton/client.rs).
use homelab_mcp.Prelude.{
  ℕ, zero, suc, ◌+◌, ◌*◌, ◌-◌, ◌≤◌, Bool, true, false, not, ◌||◌, Option, none, some, List, [], ◌∷◌,
  ◌++◌, ok, err, ok_or, reject_if, ◌==◌, any, take, length, arith, is_some, find_item,
  if◌then◌else◌,
}
use homelab_mcp.Text.{Str, str_eq}
use homelab_mcp.Tasks.{
  Costs, Costs-bind, Costs-last, Costs-lift, Costs-pure, Costs-mono, Costs-if, lift,
}
use homelab_mcp.Tekton.{TektonError, invalid_response, not_found}
use homelab_mcp.Tekton.Env.{Env, State, Sent, kube_get, Value, get_json}
use homelab_mcp.Tekton.Objects.{Repository, namespaced_id, label, repository_label}
use homelab_mcp.Tekton.Listing.{
  list_pages, kube_list, max_kube_list_items, page_query, page_items, next_token,
}
use homelab_mcp.Tekton.Repositories.{
  repository_catalog, repositories_path, catalog_of, repository, repository_result, owned_run,
  owned_run_matching, run_path,
}
use homelab_mcp.Tekton.Costs.{spent, get_json-Costs}
use native.Mathlib.Nat.{suc-mul}

module _ (weight : Sent → ℕ) (g : ℕ)
    (light : (path : Str) (query : List (Str × Str)) → weight (kube_get path query) ≤ g)
    (env : Env) where
  pub get-Costs :
      (path : Str) (query : List (Str × Str)) → Costs (spent weight) g (get_json env path query)
  get-Costs path query =
      Costs-mono (spent weight) (weight (kube_get path query)) g _ (light path query)
        (get_json-Costs weight env path query)

  next_page-Costs :
      (n : ℕ) (path : Str) (selector : Option Str) (items : List (Value env)) (token : Option Str)
      (seen : List Str)
      → ((next : Str)
          → Costs
              (spent weight)
              (n * g)
              (list_pages env path selector n items (some next) (next ∷ seen)))
      → Costs {E = TektonError} {S = State} {A = List (Value env) × Bool}
          (spent weight)
          (n * g)
          (elim token [
            | none ↦ lift (ok (items, false))
            | some next ↦
                if any (str_eq next) seen
                then lift (err invalid_response)
                else list_pages env path selector n items (some next) (next ∷ seen)
          ])
  next_page-Costs n path selector items none seen k =
      Costs-mono (spent weight) 0 (n * g) _ (omega arith)
        (Costs-pure (spent weight) (ok (items, false)))
  next_page-Costs n path selector items (some next) seen k =
      Costs-if (spent weight) (n * g) (any (str_eq next) seen) _ _
        (Costs-mono (spent weight) 0 (n * g) _ (omega arith)
          (Costs-pure (spent weight) (err invalid_response)))
        (k next)

  list_pages-Costs :
      (n : ℕ) (path : Str) (selector : Option Str) (items : List (Value env)) (token : Option Str)
      (seen : List Str)
      → Costs (spent weight) (n * g) (list_pages env path selector n items token seen)
  unfolding list_pages
  list_pages-Costs zero path selector items token seen =
      Costs-mono (spent weight) 0 (0 * g) _ (omega arith)
        (Costs-pure (spent weight) (ok (items, true)))
  list_pages-Costs (suc n) path selector items token seen =
      Costs-if (spent weight) (suc n * g) (max_kube_list_items - length items == 0) _ _
        (Costs-mono (spent weight) 0 (suc n * g) _ (omega arith)
          (Costs-pure (spent weight) (ok (items, is_some token))))
        (Costs-mono (spent weight) (g + n * g) (suc n * g) _ (omega (arith, suc-mul n g)) (
          Costs-bind (spent weight) g (n * g)
            (get_json env path (page_query (max_kube_list_items - length items) selector token)) _
            (get-Costs path (page_query (max_kube_list_items - length items) selector token))
            λ wrapper.
              Costs-lift (spent weight) (n * g) (ok_or invalid_response (page_items env wrapper)) _
                λ page held.
                  next_page-Costs n path selector
                    (items ++ take (max_kube_list_items - length items) page)
                    (next_token env wrapper) seen
                    λ next.
                      list_pages-Costs n path selector
                        (items ++ take (max_kube_list_items - length items) page) (some next)
                        (next ∷ seen)))

  pub kube_list-Costs :
      (path : Str) (selector : Option Str)
      → Costs (spent weight) (10 * g) (kube_list env path selector)
  unfolding kube_list
  kube_list-Costs path selector = list_pages-Costs 10 path selector [] none []

  pub repository_catalog-Costs : Costs (spent weight) (10 * g) (repository_catalog env)
  unfolding repository_catalog
  repository_catalog-Costs =
      Costs-last (spent weight) (10 * g) (kube_list env (repositories_path env) none) _
        (kube_list-Costs (repositories_path env) none)
        λ listed. Costs-pure (spent weight) (catalog_of env listed)

  pub repository-Costs : (id : Str) → Costs (spent weight) (10 * g) (repository env id)
  unfolding repository
  repository-Costs id =
      Costs-last (spent weight) (10 * g) (repository_catalog env) _ repository_catalog-Costs
        λ catalog. Costs-pure (spent weight) (repository_result env id catalog)

  pub owned_run-Costs : (id : Str) → Costs (spent weight) (11 * g) (owned_run env id)
  unfolding owned_run
  owned_run-Costs id =
      Costs-lift (spent weight) (11 * g) (namespaced_id id env.namespace) _ λ name _.
        Costs-mono (spent weight) (g + 10 * g) (11 * g) _ (omega arith) (
          Costs-bind (spent weight) g (10 * g) (get_json env (run_path env name) []) _
            (get-Costs (run_path env name) [])
            λ run.
              Costs-lift (spent weight) (10 * g)
                (ok_or not_found (label env.json run repository_label)) _
                λ cr_name _.
                  Costs-last (spent weight) (10 * g) (repository_catalog env) _
                    repository_catalog-Costs
                    λ catalog.
                      Costs-lift (spent weight) 0
                        (ok_or not_found (find_item (λ r. str_eq r.cr_name cr_name) catalog)) _
                        λ owner _. Costs-pure (spent weight) (ok (run, owner)))

  pub owned_run_matching-Costs :
      (id : Str) (expected : Repository)
      → Costs (spent weight) (11 * g) (owned_run_matching env id expected)
  unfolding owned_run_matching
  owned_run_matching-Costs id expected =
      Costs-last (spent weight) (11 * g) (owned_run env id) _ (owned_run-Costs id) λ owned.
        Costs-lift (spent weight) 0
          (reject_if
            (not (str_eq owned.1.cr_name expected.cr_name) || not (str_eq owned.1.id expected.id))
            not_found)
          _ λ _ _. Costs-pure (spent weight) (ok owned.0)
