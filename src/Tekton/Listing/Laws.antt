-- ===== src/Tekton/Listing/Laws.antt =====
-- What a list of Kubernetes objects is made of (src/integrations/tekton/client.rs).
use homelab_mcp.Prelude.{
  ℕ, ◌+◌, ◌-◌, ◌≤◌, ◌≡◌, Bool, Option, some, List, [], ◌∷◌, ◌++◌, ok, take, length, concat, is_some,
}
use homelab_mcp.Text.{Str}
use homelab_mcp.Tekton.Env.{Env, Value, Task, State, get_json}
use homelab_mcp.Tekton.Listing.{max_kube_list_items, page_query, next_token, page_items}

module _ (env : Env) (path : Str) (selector : Option Str) where
  abbrev page_call : ℕ → Option Str → Task (Value env)
  page_call size token = get_json env path (page_query (max_kube_list_items - size) selector token)

  -- The pages that are read from a state on, each with the token of the page before it, where so
  -- many items are there already; with the state and the token behind the last page.
  pub data Walk
      : State → ℕ → Option Str → List (List (Value env)) → State → Option Str → Type 0 where
    stops : {s : State} {size : ℕ} {token : Option Str} → Walk s size token [] s token
    reads :
        {s s' : State} {size : ℕ} {token last : Option Str} {page : List (Value env)}
        {pages : List (List (Value env))} (wrapper : Value env)
        → (page_call size token s).0 ≡ ok wrapper
        → page_items env wrapper ≡ some page
        → Walk
            (page_call size token s).1
            (size + length (take (max_kube_list_items - size) page))
            (next_token env wrapper)
            pages
            s'
            last
        → Walk s size token (page ∷ pages) s' last

  pub record IsListing (s : State) (pages_left : ℕ) (before : List (Value env)) (token : Option Str)
      (items : List (Value env)) (truncated : Bool) (s' : State) : Type 0 where
    pub pages : List (List (Value env))
    pub last : Option Str
    pub walk : Walk s (length before) token pages s' last
    pub few : length pages ≤ pages_left
    pub spells : items ≡ before ++ take (max_kube_list_items - length before) (concat pages)
    pub marked : truncated ≡ is_some last
