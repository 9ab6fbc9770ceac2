-- ===== src/Tekton/Workflows.antt =====
-- The workflows that a repository defines: `parse_workflows`, `repository_workflows` and
-- `triggerable_workflow` of src/integrations/tekton/client.rs.
use homelab_mcp.Prelude.{
  ℕ, suc, ◌+◌, ◌*◌, Bool, not, ◌&&◌, ◌||◌, Option, none, some, List, [], ◌∷◌, ◌++◌, Result, ok, err,
  ok_or, reject_if, ltb, leb, if◌then◌else◌, any, map, find_item, length, sort_by, is_some, reverse,
  ◌==◌,
}
use homelab_mcp.Text.{
  Str, lit, len, str_eq, str_le, trim, split, is_empty, strip_prefix, contains_char, decimal,
}
use homelab_mcp.Json.{array_of, at_key, str_at, has_str}
use homelab_mcp.Tasks.{lift, ◌>>=◌, ◌>>◌}
use homelab_mcp.Tekton.{TektonError, mutation_rejected, invalid_response}
use homelab_mcp.Tekton.Texts.{bounded_text}
use homelab_mcp.Tekton.Env.{Env, Value, Task, forgejo_json}
use homelab_mcp.Tekton.Objects.{Repository, or_else, unwrap_or, filter_map, filter}

abbrev pub max_workflow_files : ℕ
max_workflow_files = 32

abbrev pub max_workflow_file_bytes : ℕ
max_workflow_file_bytes = 256 * 1024

abbrev pub max_workflow_total_bytes : ℕ
max_workflow_total_bytes = 4 * 1024 * 1024

abbrev pub max_workflow_documents : ℕ
max_workflow_documents = 32

pub record Workflow : Type 0 where
  pub id : Str
  pub repository : Str
  pub definition : Str
  pub path : Str
  pub revision : Str
  pub events : List Str
  pub triggerable : Bool

unfoldable pub trim_start_of : Str → Str → Str
trim_start_of chars [] = []
trim_start_of chars (c ∷ s) =
    let rest = trim_start_of chars s in if contains_char chars c then rest else c ∷ s

-- `trim_end_matches` and `trim_matches` with a set of characters
abbrev pub trim_end_of : Str → Str → Str
trim_end_of chars s = reverse (trim_start_of chars (reverse s))

abbrev pub trim_of : Str → Str → Str
trim_of chars s = trim_end_of chars (trim_start_of chars s)

-- `dedup`: of equal neighbours the first stays
unfoldable pub dedup : List Str → List Str
dedup [] = []
dedup (s ∷ rest) = drop_same s (dedup rest)
  where
    drop_same : Str → List Str → List Str
    drop_same s [] = s ∷ []
    drop_same s (t ∷ ts) = if str_eq s t then s ∷ ts else s ∷ t ∷ ts

unfoldable pub parse_events : Str → List Str
parse_events annotation =
    filter (λ event. not (is_empty event))
      (map (λ part. trim_of (lit "'\"") (trim part)) (split b',' (trim_of (lit "[]") annotation)))

-- `value.replace('\n', "")`
abbrev pub without_newlines : Str → Str
without_newlines value = filter (λ c. not (c == 10)) value

unfoldable pub is_workflow_path : Str → Bool
is_workflow_path path =
    is_some (strip_prefix (lit ".tekton/") path)
    && leb (len path) 512
    && (is_some (strip_prefix (reverse (lit ".yaml")) (reverse path))
        || is_some (strip_prefix (reverse (lit ".yml")) (reverse path)))

module _ (env : Env) where
  abbrev pub key_path : Value env → Str → Str → Value env
  key_path value a b = at_key env.json (at_key env.json value a) b

  -- the name of a pipeline run, or what its generated names start with
  abbrev pub generated : Option Str → Option Str
  generated none = none
  generated (some name) = some (trim_end_of (lit "-") name)

  abbrev pub nonempty : Option Str → Option Str
  nonempty none = none
  nonempty (some name) = if is_empty name then none else some name

  unfoldable pub definition_name : Value env → Option Str
  definition_name value =
      let metadata = at_key env.json value (lit "metadata") in
      nonempty (
        or_else (str_at env.json metadata (lit "name"))
          (generated (str_at env.json metadata (lit "generateName"))))

  unfoldable pub event_annotation : Value env → Str
  event_annotation value =
      let annotations = key_path value (lit "metadata") (lit "annotations") in
      unwrap_or [] (
        or_else (str_at env.json annotations (lit "pipelinesascode.tekton.dev/on-event"))
          (str_at env.json annotations (lit "pipelinesascode.tekton.dev/event")))

  module _ (repository : Repository) (revision : Str) (path : Str) where
    abbrev pub digest_input : ℕ → Str → Str
    digest_input index definition =
        repository.id ++ 0 ∷ revision ++ 0 ∷ path ++ 0 ∷ decimal index ++ 0 ∷ definition

    abbrev pub workflow_of : ℕ → Str → List Str → Workflow
    workflow_of index definition events = record {
      id = lit "workflow/" ++ env.digest (digest_input index definition);
      repository = repository.id;
      definition = definition;
      path = path;
      revision = revision;
      events = dedup (sort_by str_le events);
      triggerable = any (str_eq (lit "incoming")) (dedup (sort_by str_le events));
    }

    abbrev pub bounded_workflow : ℕ → Str → List Str → Result TektonError Workflow
    bounded_workflow index definition events =
        if not (bounded_text definition 253)
          || ltb 20 (length events)
          || any (λ event. not (bounded_text event 64)) events
        then err invalid_response
        else ok (workflow_of index definition events)

    -- one document that is a pipeline run
    unfoldable pub parse_workflow : ℕ → Value env → Result TektonError Workflow
    parse_workflow index value = elim (definition_name value) [
      | none ↦ err invalid_response
      | some definition ↦ bounded_workflow index definition (parse_events (event_annotation value))
    ]

    abbrev pub cons_result :
        Result TektonError Workflow
        → Result TektonError (List Workflow)
        → Result TektonError (List Workflow)
    cons_result (ok w) (ok ws) = ok (w ∷ ws)
    cons_result (ok w) (err e) = err e
    cons_result (err e) rest = err e

    -- the loop over the documents
    unfoldable pub parse_documents :
        ℕ → List (Option (Value env)) → Result TektonError (List Workflow)
    parse_documents index [] = ok []
    parse_documents index (none ∷ documents) = err invalid_response
    parse_documents index (some value ∷ documents) =
        let rest = parse_documents (suc index) documents in
        if leb max_workflow_documents index
        then err invalid_response
        else if has_str env.json value (lit "kind") (lit "PipelineRun")
        then cons_result (parse_workflow index value) rest
        else rest

    unfoldable pub parse_workflows : List ℕ → Result TektonError (List Workflow)
    parse_workflows bytes = elim (env.from_utf8 bytes) [
      | none ↦ err invalid_response
      | some text ↦ parse_documents 0 (env.yaml_documents text)
    ]

  abbrev pub repo_segments : Repository → List Str
  repo_segments repository =
      lit "api" ∷ lit "v1" ∷ lit "repos" ∷ repository.owner ∷ repository.name ∷ []

  abbrev pub decoded_content : Value env → Option (List ℕ)
  decoded_content content = elim (str_at env.json content (lit "content")) [
    | none ↦ none
    | some encoded ↦ env.decode_base64 (without_newlines encoded)
  ]

  -- the loop over the files, with the bytes and the workflows so far
  unfoldable pub read_files : Repository → Str → List Str → ℕ → List Workflow → Task (List Workflow)
  read_files repository revision [] total workflows = lift (ok workflows)
  read_files repository revision (entry ∷ files) total workflows = do
    content ←
        forgejo_json env (repo_segments repository ++ lit "contents" ∷ split b'/' entry)
          ((lit "ref", revision) ∷ [])
    lift (
        reject_if (not (has_str env.json content (lit "encoding") (lit "base64"))) invalid_response)
    bytes ← lift (ok_or invalid_response (decoded_content content))
    lift (reject_if (ltb max_workflow_file_bytes (length bytes)) invalid_response)
    lift (reject_if (ltb max_workflow_total_bytes (total + length bytes)) invalid_response)
    found ← lift (parse_workflows repository revision entry bytes)
    read_files repository revision files (total + length bytes) (workflows ++ found)

  abbrev pub listed_files : List (Value env) → List Str
  listed_files entries = filter is_workflow_path (
      filter_map (λ entry. str_at env.json entry (lit "path"))
        (filter (λ entry. has_str env.json entry (lit "type") (lit "file")) entries))

  unfoldable pub repository_workflows : Repository → Task (List Workflow)
  repository_workflows repository = do
    metadata ← forgejo_json env (repo_segments repository) []
    revision ← lift (ok_or invalid_response (str_at env.json metadata (lit "default_branch")))
    lift (reject_if (not (bounded_text revision 512)) invalid_response)
    listing ←
        forgejo_json env (repo_segments repository ++ lit "contents" ∷ lit ".tekton" ∷ [])
          ((lit "ref", revision) ∷ [])
    entries ← lift (ok_or invalid_response (array_of (env.json.view listing)))
    lift (reject_if (ltb max_workflow_files (length (listed_files entries))) invalid_response)
    read_files repository revision (listed_files entries) 0 []

  unfoldable pub triggerable_workflow : Repository → Str → Task Workflow
  triggerable_workflow repository id = do
    workflows ← repository_workflows repository
    lift (ok_or mutation_rejected (find_item (λ w. str_eq w.id id && w.triggerable) workflows))
