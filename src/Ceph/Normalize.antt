-- ===== src/Ceph/Normalize.antt =====
-- src/integrations/ceph/normalize.rs: the bounded reading of the answer to `safe_to_destroy`.
use homelab_mcp.Prelude.{
  ℕ, Bool, not, ◌&&◌, Option, none, some, List, [], ◌∷◌, Result, ok, err, ok_or, reject_if, ◌>>=◌,
  ◌>>◌, ltb, leb, if◌then◌else◌, length, any,
}
use homelab_mcp.Text.{Str, lit, len, is_control}
use homelab_mcp.Ceph.{CephError, invalid_response}
use homelab_mcp.Json.{Json, View, null, number, object, boolean, string, array, bool_of, array_of}

abbrev pub max_text_bytes : ℕ
max_text_bytes = 4096

unfoldable pub bounded_plain : Str → ℕ → Option Str
bounded_plain value bytes =
    if leb (len value) bytes && not (any is_control value) then some value else none

module _ (json : Json) where
  -- what `safe_to_destroy` returns, less the constant `"truncated": false`
  pub record SafeToDestroy : Type 0 where
    pub cluster : Str
    pub osd_id : ℕ
    pub safe_to_destroy : Bool
    pub active : List json.Value
    pub missing_stats : List json.Value
    pub stored_pgs : List json.Value
    pub message : Option Str

  unfoldable pub bounded_scalar : json.Value → ℕ → Result CephError (Option json.Value)
  unfolding bounded_plain
  bounded_scalar value bytes = elim (json.view value) [
    | null ↦ ok none
    | boolean b ↦ ok (some value)
    | number ↦ ok (some value)
    | string s ↦ elim (bounded_plain s bytes) [
      | none ↦ err invalid_response
      | some plain ↦ ok (some value)
    ]
    | array vs ↦ err invalid_response
    | object ↦ err invalid_response
  ]

  -- `.map(…).collect()`: the first error ends it
  unfoldable pub collect_scalars : List json.Value → ℕ → Result CephError (List json.Value)
  collect_scalars [] bytes = ok []
  collect_scalars (value ∷ values) bytes = do
    scalar ← bounded_scalar value bytes
    present ← ok_or invalid_response scalar
    rest ← collect_scalars values bytes
    ok (present ∷ rest)

  unfoldable pub bounded_scalars : Option json.Value → ℕ → ℕ → Result CephError (List json.Value)
  bounded_scalars none maximum bytes = ok []
  bounded_scalars (some value) maximum bytes = do
    values ← ok_or invalid_response (array_of (json.view value))
    reject_if (ltb maximum (length values)) invalid_response
    collect_scalars values bytes

  abbrev pub present_string : View json.Value → ℕ → Result CephError (Option Str)
  present_string null bytes = ok none
  present_string (string s) bytes = elim (bounded_plain s bytes) [
    | none ↦ err invalid_response
    | some plain ↦ ok (some plain)
  ]
  present_string _ bytes = err invalid_response

  unfoldable pub bounded_string : Option json.Value → ℕ → Result CephError (Option Str)
  bounded_string none bytes = ok none
  bounded_string (some value) bytes = present_string (json.view value) bytes

  abbrev pub get_bool : Option json.Value → Option Bool
  get_bool none = none
  get_bool (some value) = bool_of (json.view value)

  unfoldable pub safe_to_destroy : Str → ℕ → json.Value → Result CephError SafeToDestroy
  safe_to_destroy cluster osd_id value = do
    safe ← ok_or invalid_response (get_bool (json.get value (lit "is_safe_to_destroy")))
    active ← bounded_scalars (json.get value (lit "active")) 100 128
    missing ← bounded_scalars (json.get value (lit "missing_stats")) 100 128
    stored ← bounded_scalars (json.get value (lit "stored_pgs")) 100 128
    message ← bounded_string (json.get value (lit "message")) max_text_bytes
    ok (record {
      cluster = cluster;
      osd_id = osd_id;
      safe_to_destroy = safe;
      active = active;
      missing_stats = missing;
      stored_pgs = stored;
      message = message;
    })
