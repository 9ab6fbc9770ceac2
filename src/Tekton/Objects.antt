-- ===== src/Tekton/Objects.antt =====
-- The Kubernetes objects that src/integrations/tekton/client.rs reads: names, labels, owners and the
-- status of a run. The normal forms of runs and tasks are in Normalize.
pub mod Normalize
use homelab_mcp.Prelude.{
  ℕ, Bool, true, false, not, ◌&&◌, ◌||◌, Option, none, some, List, [], ◌∷◌, ◌++◌, Result, ok, ok_or,
  reject_if, ◌>>=◌, ◌>>◌, if◌then◌else◌, any, take, find_item, is_some, ◌==◌,
}
use homelab_mcp.Text.{Str, lit, str_eq, is_empty, contains, contains_char, to_ascii_lowercase}
use homelab_mcp.Json.{Json, array_of, at_key, str_at, has_str}
use homelab_mcp.Tekton.{TektonError, invalid_arguments}

abbrev pub repository_label : Str
repository_label = lit "pipelinesascode.tekton.dev/repository"

abbrev pub pipeline_run_label : Str
pipeline_run_label = lit "tekton.dev/pipelineRun"

-- a Git repository that Pipelines-as-Code serves
pub record Repository : Type 0 where
  pub id : Str
  pub cr_name : Str
  pub owner : Str
  pub name : Str
  pub url : Str

-- the texts of `run_status`
pub data RunStatus : Type 0 where
  running succeeded failed cancelled : RunStatus

abbrev pub status_text : RunStatus → Str
status_text running = lit "running"
status_text succeeded = lit "succeeded"
status_text failed = lit "failed"
status_text cancelled = lit "cancelled"

abbrev pub is_running : RunStatus → Bool
is_running running = true
is_running _ = false

abbrev pub is_failed : RunStatus → Bool
is_failed failed = true
is_failed _ = false

abbrev pub terminal_status : RunStatus → Bool
terminal_status running = false
terminal_status _ = true

pub record Run : Type 0 where
  pub id : Str
  pub repository : Str
  pub workflow : Str
  pub branch : Option Str
  pub revision : Option Str
  pub status : RunStatus
  pub reason : Option Str
  pub created_at : Option Str
  pub started_at : Option Str
  pub completed_at : Option Str
  pub parameter_names : List Str

pub data StepStatus : Type 0 where
  step_terminated step_running step_waiting : StepStatus

pub record TaskStep : Type 0 where
  pub name : Str
  pub status : StepStatus
  pub reason : Option Str

pub record TaskRun : Type 0 where
  pub id : Str
  pub run_id : Str
  pub pipeline_task : Option Str
  pub status : RunStatus
  pub reason : Option Str
  pub created_at : Option Str
  pub started_at : Option Str
  pub completed_at : Option Str
  pub steps : List TaskStep

-- `or_else`
abbrev pub or_else {ℓ} : {A : Type ℓ} → Option A → Option A → Option A
or_else none other = other
or_else (some a) other = some a

abbrev pub unwrap_or {ℓ} : {A : Type ℓ} → A → Option A → A
unwrap_or default none = default
unwrap_or default (some a) = a

-- `filter_map`
unfoldable pub filter_map {ℓ κ} : {A : Type ℓ} {B : Type κ} → (A → Option B) → List A → List B
filter_map f [] = []
filter_map f (x ∷ xs) = let rest = filter_map f xs in elim (f x) [ none ↦ rest | some y ↦ y ∷ rest ]

unfoldable pub filter {ℓ} : {A : Type ℓ} → (A → Bool) → List A → List A
filter p [] = []
filter p (x ∷ xs) = let rest = filter p xs in if p x then x ∷ rest else rest

-- `id.split_once('/')`
unfoldable pub split_once : ℕ → Str → Option (Str × Str)
split_once sep [] = none
split_once sep (c ∷ s) =
    let rest = split_once sep s in
    if c == sep then some ([], s) else elim rest [ none ↦ none | some (a, b) ↦ some (c ∷ a, b) ]

-- the name of an id in the expected namespace
unfoldable pub namespaced_id : Str → Str → Result TektonError Str
namespaced_id id expected_namespace = do
  parts ← ok_or invalid_arguments (split_once b'/' id)
  reject_if
      (not (str_eq parts.0 expected_namespace) || is_empty parts.1 || contains_char parts.1 b'/')
      invalid_arguments
  ok parts.1

unfoldable pub branch_matches : Option Str → Str → Bool
branch_matches none expected = false
branch_matches (some actual) expected =
    str_eq actual expected
    || (str_eq actual (lit "main") && str_eq expected (lit "refs/heads/main"))
    || (str_eq actual (lit "refs/heads/main") && str_eq expected (lit "main"))

module _ (json : Json) where
  abbrev pub items_of : json.Value → List json.Value
  items_of value = unwrap_or [] (array_of (json.view value))

  abbrev pub metadata : json.Value → json.Value
  metadata item = at_key json item (lit "metadata")

  unfoldable pub object_name : json.Value → Option Str
  object_name item = str_at json (metadata item) (lit "name")

  unfoldable pub object_uid : json.Value → Option Str
  object_uid item = str_at json (metadata item) (lit "uid")

  unfoldable pub label : json.Value → Str → Option Str
  label item name = str_at json (at_key json (metadata item) (lit "labels")) name

  unfoldable pub annotation : json.Value → Str → Option Str
  annotation item name = str_at json (at_key json (metadata item) (lit "annotations")) name

  -- `label(item, name) == Some(value)`
  abbrev pub has_label : json.Value → Str → Str → Bool
  has_label item name value = elim (label item name) [
    | none ↦ false
    | some found ↦ str_eq found value
  ]

  unfoldable pub owned_by : json.Value → Str → Str → Str → Bool
  owned_by item kind name uid =
      any
        (λ owner.
          has_str json owner (lit "kind") kind
          && has_str json owner (lit "name") name
          && has_str json owner (lit "uid") uid)
        (items_of (at_key json (metadata item) (lit "ownerReferences")))

  unfoldable pub condition : json.Value → Option json.Value
  condition item =
      find_item (λ c. has_str json c (lit "type") (lit "Succeeded"))
        (items_of (at_key json (at_key json item (lit "status")) (lit "conditions")))

  abbrev pub mentions_cancel : Option Str → Bool
  mentions_cancel none = false
  mentions_cancel (some reason) = contains (lit "cancel") (to_ascii_lowercase reason)

  abbrev pub condition_status : Option Str → Option Str → RunStatus
  condition_status none reason = running
  condition_status (some status) reason =
      if str_eq status (lit "True")
      then succeeded
      else if str_eq status (lit "False")
      then (if mentions_cancel reason then cancelled else failed)
      else running

  abbrev pub status_of : Option json.Value → RunStatus
  status_of none = running
  status_of (some c) =
      condition_status (str_at json c (lit "status")) (str_at json c (lit "reason"))

  unfoldable pub run_status : json.Value → RunStatus
  run_status item = status_of (condition item)

  abbrev pub reason_of : Option json.Value → Option Str
  reason_of none = none
  reason_of (some c) = str_at json c (lit "reason")

  unfoldable pub workflow_name : json.Value → Option Str
  workflow_name item =
      or_else (label item (lit "pipelinesascode.tekton.dev/original-prname"))
        (annotation item (lit "pipelinesascode.tekton.dev/original-prname"))

  abbrev pub branch_of : json.Value → Option Str
  branch_of item =
      or_else (annotation item (lit "pipelinesascode.tekton.dev/branch"))
        (annotation item (lit "pipelinesascode.tekton.dev/source-branch"))
