-- ===== src/Tekton/Repositories.antt =====
-- The repositories that Pipelines-as-Code serves and the runs that belong to them: from
-- `parse_repository` to `owned_run_matching` of src/integrations/tekton/client.rs.
use homelab_mcp.Prelude.{
  ℕ, Bool, true, false, not, ◌&&◌, ◌||◌, Option, none, some, List, [], ◌∷◌, ◌++◌, Result, ok, err,
  ok_or, reject_if, ◌==◌, if◌then◌else◌, any, all, find_item, sort_by, reverse,
}
use homelab_mcp.Text.{
  Str, lit, str_eq, str_le, is_empty, strip_prefix, is_ascii_alphanumeric, contains_char,
}
use homelab_mcp.Json.{str_at, at_key}
use homelab_mcp.Tasks.{lift, ◌>>=◌, ◌>>◌}
use homelab_mcp.Tekton.{TektonError, invalid_arguments, not_found, invalid_response}
use homelab_mcp.Tekton.Texts.{bounded_text}
use homelab_mcp.Tekton.Env.{Env, Url, Value, Task, get_json}
use homelab_mcp.Tekton.Objects.{
  Repository, repository_label, filter_map, filter, label, object_name, namespaced_id,
}
use homelab_mcp.Tekton.Listing.{kube_list}

-- `valid_repository_component` of actions.rs
unfoldable pub valid_repository_component : Str → Bool
valid_repository_component value =
    bounded_text value 253
    && all (λ c. is_ascii_alphanumeric c || contains_char (lit "-._~") c) value

abbrev same_host : Option Str → Option Str → Bool
same_host none none = true
same_host (some a) (some b) = str_eq a b
same_host _ _ = false

abbrev same_port : Option ℕ → Option ℕ → Bool
same_port none none = true
same_port (some a) (some b) = a == b
same_port _ _ = false

unfoldable pub foreign_url : Url → Url → Bool
foreign_url url origin =
    not (str_eq url.scheme origin.scheme)
    || not (same_host url.host origin.host)
    || not (same_port url.port_or_known_default origin.port_or_known_default)
    || url.has_query
    || url.has_fragment
    || not (is_empty url.username)
    || url.has_password

-- `value.strip_suffix(".git").unwrap_or(value)`
abbrev pub unreversed : Str → Option Str → Str
unreversed value none = value
unreversed value (some rest) = reverse rest

unfoldable pub without_git : Str → Str
without_git value = unreversed value (strip_prefix (reverse (lit ".git")) (reverse value))

unfoldable pub trim_start_slashes : Str → Str
trim_start_slashes [] = []
trim_start_slashes (c ∷ s) = let rest = trim_start_slashes s in if c == b'/' then rest else c ∷ s

-- `trim_end_matches('/')`
abbrev pub trim_end_slashes : Str → Str
trim_end_slashes s = reverse (trim_start_slashes (reverse s))

abbrev pub repository_of : Url → Str → Str → Str → Option Repository
repository_of origin cr_name owner name =
    if not (valid_repository_component owner) || not (valid_repository_component name)
    then none
    else some (record {
      id = owner ++ b'/' ∷ name;
      cr_name = cr_name;
      owner = owner;
      name = name;
      url = trim_end_slashes origin.text ++ b'/' ∷ owner ++ b'/' ∷ name;
    })

-- the ids are distinct
unfoldable pub all_distinct : List Repository → Bool
all_distinct [] = true
all_distinct (r ∷ rs) = not (any (λ other. str_eq other.id r.id) rs) && all_distinct rs

module _ (env : Env) where
  abbrev pub decoded_parts : Str → List Str → Option Repository
  decoded_parts cr_name (owner_part ∷ name_part ∷ []) = elim (env.percent_decode owner_part) [
    | none ↦ none
    | some owner ↦ elim (env.percent_decode name_part) [
      | none ↦ none
      | some name ↦ repository_of env.forgejo_origin cr_name owner (without_git name)
    ]
  ]
  decoded_parts cr_name _ = none

  abbrev pub from_url : Str → Option Url → Option Repository
  from_url cr_name none = none
  from_url cr_name (some url) =
      if foreign_url url env.forgejo_origin then none else elim url.path_segments [
        | none ↦ none
        | some segments ↦ decoded_parts cr_name (filter (λ part. not (is_empty part)) segments)
      ]

  abbrev pub from_raw : Option Str → Option Str → Option Repository
  from_raw (some cr_name) (some raw) = from_url cr_name (env.parse_url raw)
  from_raw _ _ = none

  unfoldable pub parse_repository : Value env → Option Repository
  parse_repository item =
      from_raw (object_name env.json item)
        (str_at env.json (at_key env.json item (lit "spec")) (lit "url"))

  abbrev pub repositories_path : Str
  repositories_path =
      lit "/apis/pipelinesascode.tekton.dev/v1alpha1/namespaces/"
      ++ env.namespace
      ++ lit "/repositories"

  abbrev pub sorted_catalog : List Repository → Result TektonError (List Repository)
  sorted_catalog repositories =
      if not (all_distinct repositories)
      then err invalid_response
      else ok (sort_by (λ a b. str_le a.id b.id) repositories)

  -- whole, with distinct ids, in the order of the ids
  abbrev pub catalog_of : List (Value env) × Bool → Result TektonError (List Repository)
  catalog_of (items, true) = err invalid_response
  catalog_of (items, false) = sorted_catalog (filter_map parse_repository items)

  unfoldable pub repository_catalog : Task (List Repository)
  repository_catalog = do listed ← kube_list env repositories_path none; lift (catalog_of listed)

  abbrev pub repository_result : Str → List Repository → Result TektonError Repository
  repository_result id catalog = elim (find_item (λ r. str_eq r.id id) catalog) [
    | some repository ↦ ok repository
    | none ↦
        if any (λ r. str_eq id (env.namespace ++ b'/' ∷ r.cr_name)) catalog
        then err invalid_arguments
        else err not_found
  ]

  unfoldable pub repository : Str → Task Repository
  repository id = do catalog ← repository_catalog; lift (repository_result id catalog)

  abbrev pub run_path : Str → Str
  run_path name =
      lit "/apis/tekton.dev/v1/namespaces/" ++ env.namespace ++ lit "/pipelineruns/" ++ name

  -- a run and the repository that its label names
  unfoldable pub owned_run : Str → Task (Value env × Repository)
  owned_run id = do
    name ← lift (namespaced_id id env.namespace)
    run ← get_json env (run_path name) []
    cr_name ← lift (ok_or not_found (label env.json run repository_label))
    catalog ← repository_catalog
    owner ← lift (ok_or not_found (find_item (λ r. str_eq r.cr_name cr_name) catalog))
    lift (ok (run, owner))

  unfoldable pub owned_run_matching : Str → Repository → Task (Value env)
  owned_run_matching id expected = do
    owned ← owned_run id
    lift (
        reject_if
          (not (str_eq owned.1.cr_name expected.cr_name) || not (str_eq owned.1.id expected.id))
          not_found)
    lift (ok owned.0)
