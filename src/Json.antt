-- ===== src/Json.antt =====
-- `serde_json::Value` as the interface of what src/integrations/ceph and src/integrations/tekton
-- read of it. The library is not code of this repository.
use homelab_mcp.Prelude.{ℕ, Bool, false, Option, none, some, List}
use homelab_mcp.Text.{Str, str_eq}

-- which of the six variants a value is; a number is only passed on
pub data View (V : Type 0) : Type 0 where
  null number object : View V
  boolean : Bool → View V
  string : Str → View V
  array : List V → View V

pub record Json : Type 1 where
  pub Value : Type 0
  pub null : Value
  pub view : Value → View Value
  pub get : Value → Str → Option Value
  pub as_u64 : Value → Option ℕ
  pub from_slice : List ℕ → Option Value

abbrev pub bool_of : {V : Type 0} → View V → Option Bool
bool_of (boolean b) = some b
bool_of _ = none

abbrev pub str_of : {V : Type 0} → View V → Option Str
str_of (string s) = some s
str_of _ = none

abbrev pub array_of : {V : Type 0} → View V → Option (List V)
array_of (array vs) = some vs
array_of _ = none

module _ (json : Json) where
  -- `value["key"]`: null where there is no such key
  abbrev pub at_key : json.Value → Str → json.Value
  at_key value key = elim (json.get value key) [ none ↦ json.null | some found ↦ found ]

  -- `value["key"].as_str()`
  abbrev pub str_at : json.Value → Str → Option Str
  str_at value key = str_of (json.view (at_key value key))

  -- `value["key"] == "text"`
  abbrev pub has_str : json.Value → Str → Str → Bool
  has_str value key text = elim (str_at value key) [ none ↦ false | some found ↦ str_eq found text ]
