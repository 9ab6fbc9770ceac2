-- ===== src/Ceph/Client/Osd.antt =====
-- The OSD operations of src/integrations/ceph/client.rs that change the cluster, with the check in
-- front of the two that lose data. An OSD id is a `u32`; a weight enters as its JSON text.
pub mod Laws
use homelab_mcp.Prelude.{
  ℕ, Bool, true, false, not, Option, none, some, List, [], ◌∷◌, ◌++◌, Result, ok, err, reject_if,
  ◌==◌, if◌then◌else◌,
}
use homelab_mcp.Text.{Str, lit, decimal_from}
use homelab_mcp.Ceph.{CephError, mutation_outcome_unknown, unsafe_to_destroy}
use homelab_mcp.Json.{Json}
use homelab_mcp.Ceph.Normalize.{SafeToDestroy, safe_to_destroy as normalize_safe_to_destroy}
use homelab_mcp.Ceph.Tasks.{mutation_task}
use homelab_mcp.Ceph.Client.Calls.{
  Method, get, put, post, State, Task, Body, action_body, weight_body, null_body, UpstreamResponse,
  query_call, mutate,
}
use homelab_mcp.Tasks.{◌>>=◌, ◌>>◌, lift}

pub data MarkState : Type 0 where
  in_cluster out down : MarkState

pub data ScrubKind : Type 0 where
  normal deep : ScrubKind

abbrev pub osd_text : ℕ → Str
osd_text osd_id = decimal_from 10 osd_id []

abbrev pub osd_path : ℕ → Str → Str
osd_path osd_id action = lit "api/osd/" ++ osd_text osd_id ++ b'/' ∷ action

-- the reports of a mutation, with the task of one that is still at work
pub data Report : Type 0 where
  completed : Str → Str → ℕ → Report
  accepted : Str → Str → ℕ → ℕ → Report

module _ (json : Json) (joins : Str → Bool) (meanwhile : Option Str → Option Str) where
  abbrev pub task_report : Str → Str → ℕ → Result CephError ℕ → Result CephError Report
  task_report cluster action osd_id (ok task) = ok (accepted cluster action osd_id task)
  task_report cluster action osd_id (err e) = err mutation_outcome_unknown

  unfoldable pub mutation_result :
      Str → Str → ℕ → UpstreamResponse json joins → Result CephError Report
  mutation_result cluster action osd_id response =
      if response.status == 200
      then ok (completed cluster action osd_id)
      else if response.status == 202
      then task_report cluster action osd_id (mutation_task json response.body action osd_id)
      else err mutation_outcome_unknown

  unfoldable pub safe_to_destroy : Str → ℕ → Task (SafeToDestroy json)
  safe_to_destroy cluster osd_id = do
    value ←
        query_call json joins meanwhile get
          (lit "api/osd/safe_to_destroy?ids=%5B" ++ osd_text osd_id ++ lit "%5D")
    lift (normalize_safe_to_destroy json cluster osd_id value)

  unfoldable pub require_safe : Str → ℕ → Task (Unit {0})
  require_safe cluster osd_id = do
    result ← safe_to_destroy cluster osd_id
    lift (reject_if (not result.safe_to_destroy) unsafe_to_destroy)

  abbrev pub mutate_osd : Method → Str → Body → Str → Str → ℕ → Task Report
  mutate_osd method path body name cluster osd_id = do
    response ← mutate json joins method path body
    lift (mutation_result cluster name osd_id response)

  abbrev pub mark_action : MarkState → Str
  mark_action in_cluster = lit "in"
  mark_action out = lit "out"
  mark_action down = lit "down"

  unfoldable pub mark : Str → ℕ → MarkState → Task Report
  mark cluster osd_id state =
      mutate_osd put (osd_path osd_id (lit "mark")) (action_body (mark_action state))
        (lit "osd.mark") cluster osd_id

  unfoldable pub reweight : Str → ℕ → Str → Task Report
  reweight cluster osd_id value =
      mutate_osd post (osd_path osd_id (lit "reweight")) (weight_body value) (lit "osd.reweight")
        cluster osd_id

  abbrev pub scrub_query : ScrubKind → Str
  scrub_query deep = lit "scrub?deep=true"
  scrub_query normal = lit "scrub?deep=false"

  unfoldable pub scrub : Str → ℕ → ScrubKind → Task Report
  scrub cluster osd_id kind =
      mutate_osd post (osd_path osd_id (scrub_query kind)) null_body (lit "osd.scrub") cluster
        osd_id

  unfoldable pub destroy : Str → ℕ → Task Report
  destroy cluster osd_id = do
    require_safe cluster osd_id
    mutate_osd post (osd_path osd_id (lit "destroy")) null_body (lit "osd.destroy") cluster osd_id

  unfoldable pub purge : Str → ℕ → Task Report
  purge cluster osd_id = do
    require_safe cluster osd_id
    mutate_osd post (osd_path osd_id (lit "purge")) null_body (lit "osd.purge") cluster osd_id
