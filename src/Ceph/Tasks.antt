-- ===== src/Ceph/Tasks.antt =====
-- src/integrations/ceph/normalize.rs: the task that an accepted mutation must name.
use homelab_mcp.Prelude.{
  ℕ, ◌+◌, ◌-◌, ◌*◌, ◌^◌, Bool, true, false, not, ◌&&◌, ◌||◌, Option, none, some, [], ◌∷◌, Result,
  ok, ok_or, reject_if, ◌>>=◌, ◌>>◌, ltb, leb, ◌==◌, if◌then◌else◌, all,
}
use homelab_mcp.Text.{Str, lit, len, is_empty, str_eq, is_ascii_digit}
use homelab_mcp.Ceph.{CephError, invalid_response}
use homelab_mcp.Json.{Json, View, object, str_of}

-- `value.parse::<u32>()` of decimal digits
unfoldable pub parse_digits : Str → ℕ → ℕ
parse_digits [] n = n
parse_digits (c ∷ s) n = parse_digits s (n * 10 + (c - b'0'))

abbrev pub as_u32 : ℕ → Option ℕ
as_u32 n = if ltb n (2 ^ 32) then some n else none

unfoldable pub parse_u32 : Str → Option ℕ
unfolding parse_digits
parse_u32 s =
    if not (is_empty s) && leb (len s) 10 && all is_ascii_digit s
    then as_u32 (parse_digits s 0)
    else none

abbrev pub is_object : {V : Type 0} → View V → Bool
is_object object = true
is_object _ = false

module _ (json : Json) where
  abbrev pub string_id : Option Str → Option ℕ
  string_id none = none
  string_id (some s) = parse_u32 s

  unfoldable pub numeric_osd_id : json.Value → Option ℕ
  numeric_osd_id value = elim (json.as_u64 value) [
    | some n ↦ as_u32 n
    | none ↦ string_id (str_of (json.view value))
  ]

  abbrev pub get_str : Option json.Value → Option Str
  get_str none = none
  get_str (some value) = str_of (json.view value)

  abbrev pub get_object : Option json.Value → Option json.Value
  get_object none = none
  get_object (some value) = if is_object (json.view value) then some value else none

  abbrev pub get_osd_id : Option json.Value → Option ℕ
  get_osd_id none = none
  get_osd_id (some value) = numeric_osd_id value

  -- The one curated task is `osd/delete`; its normal form is its `svc_id`.
  unfoldable pub delete_task : json.Value → Result CephError (Option ℕ)
  delete_task value = do
    metadata ← ok_or invalid_response (get_object (json.get value (lit "metadata")))
    svc_id ← ok_or invalid_response (get_osd_id (json.get metadata (lit "svc_id")))
    ok (some svc_id)

  abbrev pub named_task : Option Str → json.Value → Result CephError (Option ℕ)
  named_task none value = ok none
  named_task (some name) value =
      if str_eq name (lit "osd/delete") then delete_task value else ok none

  unfoldable pub task : json.Value → Result CephError (Option ℕ)
  task value = named_task (get_str (json.get value (lit "name"))) value

  unfoldable pub mutation_task : json.Value → Str → ℕ → Result CephError ℕ
  mutation_task value action osd_id = do
    reject_if (not (str_eq action (lit "osd.destroy") || str_eq action (lit "osd.purge")))
        invalid_response
    found ← task value
    svc_id ← ok_or invalid_response found
    reject_if (not (svc_id == osd_id)) invalid_response
    ok svc_id
