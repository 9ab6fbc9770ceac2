-- ===== src/Tekton/Listing.antt =====
-- `kube_list` of src/integrations/tekton/client.rs: at most ten pages and 500 items of a list.
pub mod Laws
use homelab_mcp.Prelude.{
  ℕ, zero, suc, ◌-◌, Bool, true, false, Option, none, some, List, [], ◌∷◌, ◌++◌, Result, ok, err,
  ok_or, ◌==◌, if◌then◌else◌, take, length, any, is_some, min,
}
use homelab_mcp.Text.{Str, lit, str_eq, is_empty, decimal}
use homelab_mcp.Json.{array_of, at_key, str_at}
use homelab_mcp.Tasks.{lift, ◌>>=◌}
use homelab_mcp.Tekton.{TektonError, invalid_response}
use homelab_mcp.Tekton.Env.{Env, Value, Task, get_json}

abbrev pub max_kube_list_items : ℕ
max_kube_list_items = 500

abbrev pub max_kube_list_pages : ℕ
max_kube_list_pages = 10

abbrev pub optional_pair : Str → Option Str → List (Str × Str)
optional_pair key none = []
optional_pair key (some value) = (key, value) ∷ []

unfoldable pub page_query : ℕ → Option Str → Option Str → List (Str × Str)
page_query remaining selector continuation =
    (lit "limit", decimal (min remaining 100)) ∷ optional_pair (lit "labelSelector") selector
    ++ optional_pair (lit "continue") continuation

abbrev pub not_empty : Option Str → Option Str
not_empty none = none
not_empty (some text) = if is_empty text then none else some text

module _ (env : Env) where
  unfoldable pub next_token : Value env → Option Str
  next_token wrapper =
      not_empty (str_at env.json (at_key env.json wrapper (lit "metadata")) (lit "continue"))

  abbrev pub page_items : Value env → Option (List (Value env))
  page_items wrapper = array_of (env.json.view (at_key env.json wrapper (lit "items")))

  module _ (path : Str) (selector : Option Str) where
    -- the loop, with the pages that may still be read
    unfoldable pub list_pages :
        ℕ → List (Value env) → Option Str → List Str → Task (List (Value env) × Bool)
    list_pages zero items continuation seen = lift (ok (items, true))
    list_pages (suc pages) items continuation seen =
        if max_kube_list_items - length items == 0
        then lift (ok (items, is_some continuation))
        else (do
          wrapper ←
              get_json env path
                (page_query (max_kube_list_items - length items) selector continuation)
          page ← lift (ok_or invalid_response (page_items wrapper))
          let items' = items ++ take (max_kube_list_items - length items) page
          elim (next_token wrapper) [
            | none ↦ lift (ok (items', false))
            | some token ↦
                if any (str_eq token) seen
                then lift (err invalid_response)
                else list_pages pages items' (some token) (token ∷ seen)
          ])

    unfoldable pub kube_list : Task (List (Value env) × Bool)
    unfolding list_pages
    kube_list = list_pages max_kube_list_pages [] none []
