-- ===== src/Inventory/HostKey.antt =====
-- The check of a pinned host key and the SSH string reader behind it (src/inventory.rs). The
-- base64 decoder is the parameter `decode`; what it yields are bytes.
pub mod Laws
use mathlib.Core.Option
use homelab_mcp.Prelude.{
  ℕ, ◌+◌, ◌*◌, Bool, true, false, not, ◌||◌, Option, none, some, List, [], ◌∷◌, Result, ok, err,
  ok_or, reject_if, ◌>>=◌, ◌>>◌, ltb, leb, ◌==◌, if◌then◌else◌, length, take, drop,
}
use homelab_mcp.Text.{Str, lit, len, is_empty, str_eq, trim, split}
use homelab_mcp.Inventory.{ValidationError}

-- `bytes.get(a..b)`: `none` unless the range lies within the bytes
abbrev pub get_range : List ℕ → ℕ → ℕ → Option (List ℕ)
get_range bytes start count =
    if leb (start + count) (length bytes) then some (take count (drop start bytes)) else none

-- `u32::from_be_bytes` of a slice of four bytes
abbrev pub from_be_bytes : List ℕ → Option ℕ
from_be_bytes (a ∷ b ∷ c ∷ d ∷ []) = some (((a * 256 + b) * 256 + c) * 256 + d)
from_be_bytes _ = none

-- The string of an SSH blob at an offset, with the offset behind it. The sums are within `usize`:
-- a length is below 2 ^ 32.
unfoldable pub ssh_string : List ℕ → ℕ → Option (List ℕ × ℕ)
unfolding Option.bind
ssh_string bytes offset = Option.bind (get_range bytes offset 4) λ length_bytes.
    Option.bind (from_be_bytes length_bytes) λ count.
      let start = offset + 4 in
      Option.map (λ value. (value, start + count)) (get_range bytes start count)

-- the second of the two fields that `split(' ')` must give
abbrev pub encoded_field : List Str → Option Str
encoded_field (kind ∷ field ∷ []) =
    if not (str_eq kind (lit "ssh-ed25519")) || is_empty field then none else some field
encoded_field _ = none

unfoldable pub key_field : Str → Option Str
key_field key = encoded_field (split b' ' key)

unfoldable pub is_ed25519_blob : List ℕ → Bool
is_ed25519_blob decoded = elim (ssh_string decoded 0) [
  | none ↦ false
  | some (algorithm, behind) ↦ elim (ssh_string decoded behind) [
    | none ↦ false
    | some (public_key, end) ↦ not (
        not (str_eq algorithm (lit "ssh-ed25519"))
        || not (length public_key == 32)
        || not (end == length decoded))
  ]
]

module _ (decode : Str → Option (List ℕ)) where
  unfoldable pub validate_host_public_key : Str → Result ValidationError (Unit {0})
  validate_host_public_key key = do
    let invalid = ValidationError.host_public_key
    reject_if (ltb 256 (len key) || not (str_eq (trim key) key)) invalid
    encoded ← ok_or invalid (key_field key)
    decoded ← ok_or invalid (decode encoded)
    reject_if (not (is_ed25519_blob decoded)) invalid
