-- ===== src/Tests/Ceph.antt =====
-- A dashboard that logs in, finds an OSD safe, and refuses or takes its destruction.
use homelab_mcp.Prelude.{
  ◌+◌, ◌≤◌, ◌≡◌, ◌≢◌, ◌⊎◌, refl, Bool, true, Option, none, some, [], ◌∷◌, ok, err, if◌then◌else◌,
}
use homelab_mcp.Text
use homelab_mcp.Text.{Str, lit, str_eq}
use homelab_mcp.Ceph.{mutation_outcome_unknown, mutation_rejected}
use homelab_mcp.Json.{Json, View, null, boolean, string, object}
use homelab_mcp.Ceph.Normalize
use homelab_mcp.Ceph.Client.{status_error, good_token}
use homelab_mcp.Http.{Answer, responded}
use homelab_mcp.Ceph.Client.Calls.{
  put, post, null_body, State, send, sent_result, authenticate, log_in, login_result, mutate,
  query_call, read_limited, read_chunks, parse_bytes,
}
use homelab_mcp.Ceph.Client.Laws.{mutations, mutate-mutations}
use homelab_mcp.Ceph.Client.Refused.{IsRefused, mutate-IsRefused}
use homelab_mcp.Ceph.Client.Osd
use homelab_mcp.Ceph.Client.Osd.{Report, destroy, completed}
use homelab_mcp.Ceph.Client.Osd.Laws.{IsSafe, destroy-IsSafe, purge-IsSafe}

data Toy : Type 0 where
  empty body token_text yes : Toy

abbrev toy_view : Toy → View Toy
toy_view empty = null
toy_view body = object
toy_view token_text = string (lit "token")
toy_view yes = boolean true

abbrev toy_get : Str → Option Toy
toy_get key =
    if str_eq key (lit "token")
    then some token_text
    else if str_eq key (lit "is_safe_to_destroy")
    then some yes
    else none

abbrev toy : Json
toy = record {
  Value = Toy;
  null = empty;
  view = toy_view;
  get = λ value key. toy_get key;
  as_u64 = λ value. none;
  from_slice = λ bytes. some body;
}

abbrev joins : Str → Bool
joins path = true

abbrev alone : Option Str → Option Str
alone token = token

abbrev fine : Answer
fine = responded (record { status = 200; content_length = none; chunks = some (1 ∷ []) ∷ [] })

abbrev refusal : Answer
refusal = responded (record { status = 403; content_length = some 0; chunks = [] })

abbrev fresh : State
fresh = record { token = none; answers = fine ∷ fine ∷ fine ∷ []; sent = [] }

abbrev refusing : State
refusing = record { token = some (lit "t"); answers = refusal ∷ []; sent = [] }

destroyed :
    (destroy toy joins alone (lit "c") 3 fresh).0 ≡ ok (completed (lit "c") (lit "osd.destroy") 3)
unfolding destroy Osd.require_safe Osd.safe_to_destroy Osd.mutation_result query_call authenticate
    log_in login_result send sent_result status_error good_token read_limited read_chunks
    parse_bytes mutate Normalize.safe_to_destroy Normalize.bounded_scalars Normalize.bounded_string
    Text.str_eq Text.is_empty Text.len Text.is_control
destroyed = refl

destroyed-once : mutations (destroy toy joins alone (lit "c") 3 fresh).1.sent ≡ 1
unfolding destroy Osd.require_safe Osd.safe_to_destroy Osd.mutation_result query_call authenticate
    log_in login_result send sent_result status_error good_token read_limited read_chunks
    parse_bytes mutate Normalize.safe_to_destroy Normalize.bounded_scalars Normalize.bounded_string
    Text.str_eq Text.is_empty Text.len Text.is_control mutations
destroyed-once = refl

destroy-IsSafe_example :
    (mutations (destroy toy joins alone (lit "c") 3 fresh).1.sent ≡ mutations fresh.sent)
    ⊎ IsSafe toy joins alone
        (lit "c")
        3
        (lit "destroy")
        fresh
        (destroy toy joins alone (lit "c") 3 fresh).1
destroy-IsSafe_example = destroy-IsSafe toy joins alone (lit "c") 3 fresh

purge-IsSafe_example :
    (mutations (Osd.purge toy joins alone (lit "c") 3 fresh).1.sent ≡ mutations fresh.sent)
    ⊎ IsSafe toy joins alone
        (lit "c")
        3
        (lit "purge")
        fresh
        (Osd.purge toy joins alone (lit "c") 3 fresh).1
purge-IsSafe_example = purge-IsSafe toy joins alone (lit "c") 3 fresh

mutate-mutations_example :
    mutations (mutate toy joins put (lit "p") null_body fresh).1.sent ≤ mutations fresh.sent + 1
mutate-mutations_example = mutate-mutations toy joins put (lit "p") null_body fresh

refused : (mutate toy joins post (lit "p") null_body refusing).0 ≡ err mutation_rejected
unfolding mutate authenticate send sent_result status_error
refused = refl

rejected-known : mutation_rejected ≢ mutation_outcome_unknown
rejected-known h = cc

mutate-IsRefused_example :
    (mutations (mutate toy joins post (lit "p") null_body refusing).1.sent
      ≡ mutations refusing.sent)
    ⊎ IsRefused (authenticate toy joins refusing).1.answers
mutate-IsRefused_example =
    mutate-IsRefused toy joins post (lit "p") null_body refusing mutation_rejected refused
      rejected-known
