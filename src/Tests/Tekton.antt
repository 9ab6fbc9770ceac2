-- ===== src/Tests/Tekton.antt =====
-- A cluster with one repository, one run, one task and one workflow.
mod Reads
mod Changes
mod Shown
use homelab_mcp.Prelude.{
  ℕ, ◌+◌, ◌*◌, ◌≤◌, ◌≡◌, ◌⊎◌, refl, true, false, Option, none, some, List, [], ◌∷◌, ◌++◌, ok, err,
  if◌then◌else◌, ◌==◌, find_item, sort_by, All, length, ltb,
}
use homelab_mcp.Text
use homelab_mcp.Text.{Str, lit, str_eq, len}
use homelab_mcp.Json.{Json, View, null, string, object, array}
use homelab_mcp.Http.{responded}
use homelab_mcp.Tekton.Texts
use homelab_mcp.Tekton.Texts.{redact, truncate_utf8}
use homelab_mcp.Tekton.Texts.Redaction.{IsSecret, Absent, redact-Absent}
use homelab_mcp.Tekton.Texts.Truncation.{IsLongest, truncate_utf8-IsLongest}
use homelab_mcp.Tekton.Actions
use homelab_mcp.Tekton.Actions.{valid_dns, valid_namespaced_id, run_wait_query}
use homelab_mcp.Tekton.Actions.Laws.{valid_namespaced_id-namespaced_id}
use homelab_mcp.Tekton.{invalid_arguments}
use homelab_mcp.Tekton.Env
use homelab_mcp.Tekton.Env.{Env, Url, State, Exchange}
use homelab_mcp.Tekton.Objects
use homelab_mcp.Tekton.Objects.{namespaced_id, Repository, Run}
use homelab_mcp.Tekton.Workflows
use homelab_mcp.Tekton.Listing.{kube_list}
use homelab_mcp.Tekton.Listing
use homelab_mcp.Tekton.Listing.Laws.{IsListing}
use homelab_mcp.Tekton.Repositories
use homelab_mcp.Tekton.Repositories.{owned_run}
use homelab_mcp.Tekton.Wait
use homelab_mcp.Tekton.Wait.{polled, expired, wait, Waited}
use homelab_mcp.Tekton.Wait.Bounds.{wait-bound}
use homelab_mcp.Tekton.Wait.Laws.{IsAnswer}
use homelab_mcp.Tekton.Logs
use homelab_mcp.Tekton.Logs.{TaskLogsQuery, TaskLogs, logs}
use homelab_mcp.Tekton.Logs.Laws.{IsRedacted, text_bytes, logs-IsRedacted}
use homelab_mcp.Tekton.Commands.{Dispatch, dispatch, rerun, cancel}
use homelab_mcp.Tekton.Commands.Posts.{mutations}
use homelab_mcp.Tekton.Commands.Laws.{
  IsCancelled, cancel-IsCancelled, IsDispatched, dispatch-IsDispatched,
}
use homelab_mcp.Tekton.Commands.Rerun.{IsRerun, rerun-IsRerun}

-- a JSON value: an object as its fields, an array as its items
pub data Toy : Type 0 where
  empty : Toy
  word : Str → Toy
  field : Str → Toy → Toy → Toy
  item : Toy → Toy → Toy

abbrev pub toy_items : Toy → List Toy
toy_items (item x rest) = x ∷ toy_items rest
toy_items _ = []

abbrev pub toy_view : Toy → View Toy
toy_view empty = null
toy_view (word s) = string s
toy_view (field key value rest) = object
toy_view (item x rest) = array (x ∷ toy_items rest)

abbrev pub toy_get : Toy → Str → Option Toy
toy_get (field key value rest) wanted =
    let later = toy_get rest wanted in if str_eq key wanted then some value else later
toy_get _ wanted = none

abbrev pub one_field : Str → Toy → Toy
one_field key value = field key value empty

abbrev pub repository_object : Toy
repository_object =
    field (lit "metadata") (one_field (lit "name") (word (lit "c")))
      (one_field (lit "spec") (one_field (lit "url") (word (lit "u"))))

abbrev pub repository_list : Toy
repository_list = one_field (lit "items") (item repository_object empty)

abbrev pub the_repository : Repository
the_repository = record {
  id = lit "o/p";
  cr_name = lit "c";
  owner = lit "o";
  name = lit "p";
  url = lit "https://git/o/p";
}

abbrev pub labels : Toy
labels =
    field (lit "pipelinesascode.tekton.dev/repository") (word (lit "c"))
      (one_field (lit "tekton.dev/pipelineRun") (word (lit "r")))

abbrev pub run_object : Toy
run_object = one_field (lit "metadata") (
    field (lit "name") (word (lit "r")) (
      field (lit "uid") (word (lit "1")) (
        field (lit "resourceVersion") (word (lit "7")) (
          field (lit "labels") labels (
            one_field (lit "annotations") (
              field (lit "pipelinesascode.tekton.dev/branch") (word (lit "main")) (
                one_field (lit "pipelinesascode.tekton.dev/original-prname") (word (lit "d")))))))))

abbrev pub owner_of : Str → Str → Str → Toy
owner_of kind name uid =
    item
      (field (lit "kind") (word kind)
        (field (lit "name") (word name) (one_field (lit "uid") (word uid))))
      empty

abbrev pub task_run : Toy
task_run =
    field (lit "metadata")
      (field (lit "name") (word (lit "t")) (
        field (lit "uid") (word (lit "2")) (
          field (lit "labels") labels (
            one_field (lit "ownerReferences") (owner_of (lit "PipelineRun") (lit "r") (lit "1"))))))
      (one_field (lit "status") (
        field (lit "podName") (word (lit "p")) (
          one_field (lit "steps") (
            item
              (field (lit "name") (word (lit "s")) (one_field (lit "container") (word (lit "k"))))
              empty))))

abbrev pub task_pod : Toy
task_pod =
    one_field (lit "metadata")
      (one_field (lit "ownerReferences") (owner_of (lit "TaskRun") (lit "t") (lit "2")))

abbrev pub file_list : Toy
file_list =
    item
      (field (lit "type") (word (lit "file"))
        (one_field (lit "path") (word (lit ".tekton/a.yaml"))))
      empty

abbrev pub file_content : Toy
file_content =
    field (lit "encoding") (word (lit "base64")) (one_field (lit "content") (word (lit "x")))

abbrev pub pipeline : Toy
pipeline = field (lit "kind") (word (lit "PipelineRun")) (
    one_field (lit "metadata") (
      field (lit "name") (word (lit "d")) (
        one_field (lit "annotations")
          (one_field (lit "pipelinesascode.tekton.dev/on-event") (word (lit "[incoming]"))))))

abbrev pub toy_number : ℕ → Toy
toy_number b =
    if b == 1
    then repository_list
    else if b == 2
    then run_object
    else if b == 3
    then task_run
    else if b == 4
    then task_pod
    else if b == 5
    then one_field (lit "default_branch") (word (lit "main"))
    else if b == 6
    then file_list
    else file_content

abbrev pub toy_body : List ℕ → Option Toy
toy_body [] = none
toy_body (b ∷ bytes) = some (toy_number b)

abbrev pub toy : Json
toy = record {
  Value = Toy;
  null = empty;
  view = toy_view;
  get = toy_get;
  as_u64 = λ value. none;
  from_slice = toy_body;
}

abbrev pub url : Url
url = record {
  scheme = lit "https";
  host = some (lit "git");
  port_or_known_default = some 443;
  username = [];
  has_password = false;
  has_query = false;
  has_fragment = false;
  path_segments = some (lit "o" ∷ lit "p" ∷ []);
  text = lit "https://git/";
}

abbrev pub cluster : Env
cluster = record {
  json = toy;
  namespace = lit "n";
  forgejo_origin = url;
  forgejo_has_path = true;
  pac_joins = true;
  kube_joins = λ path. true;
  parse_url = λ text. some url;
  percent_decode = λ text. some text;
  decode_base64 = λ text. some text;
  from_utf8 = λ bytes. some bytes;
  from_utf8_lossy = λ bytes. bytes;
  yaml_documents = λ text. some pipeline ∷ [];
  digest = λ text. lit "h";
  redactions = lit "ab" ∷ [];
}

abbrev pub answered_with : List ℕ → Exchange
answered_with bytes = record {
  token_file = some (lit "t");
  answer = responded (record { status = 200; content_length = none; chunks = some bytes ∷ [] });
}

abbrev pub answered : ℕ → Exchange
answered body = answered_with (body ∷ [])

abbrev pub fresh : State
fresh = record { exchanges = answered 2 ∷ answered 1 ∷ answered 3 ∷ []; sent = [] }

abbrev pub one_page : State
one_page = record { exchanges = answered 1 ∷ []; sent = [] }

abbrev pub waiting : State
waiting = record {
  exchanges = answered 2 ∷ answered 1 ∷ answered 2 ∷ answered 1 ∷ answered 2 ∷ answered 1 ∷ [];
  sent = [];
}

abbrev pub reading : State
reading = record {
  exchanges = answered 2 ∷ answered 1 ∷ answered 3 ∷ answered 4 ∷ answered_with (lit "xab") ∷ [];
  sent = [];
}

abbrev pub dispatching : State
dispatching = record {
  exchanges = answered 1 ∷ answered 5 ∷ answered 6 ∷ answered 7 ∷ answered 8 ∷ [];
  sent = [];
}

abbrev pub rerunning : State
rerunning = record {
  exchanges = answered 2 ∷ answered 1 ∷ answered 5 ∷ answered 6 ∷ answered 7 ∷ answered 8 ∷ [];
  sent = [];
}

abbrev pub started : Dispatch
started = record {
  repository = lit "o/p";
  workflow = lit "workflow/h";
  reference = lit "main";
  params = [];
}
