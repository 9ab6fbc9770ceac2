-- ===== src/Deploys/HostPin.antt =====
-- `validate_host_pin` and `known_hosts_host` of src/integrations/deploys/runner.rs. The base64
-- decoder is the parameter `decode`.
pub mod Agreement
pub mod Machines
use homelab_mcp.Prelude.{
  if◌then◌else◌, ◌++◌, ℕ, Bool, not, ◌||◌, Option, List, [], ◌∷◌, ◌++◌, Result, ok_or, reject_if,
  ◌>>=◌, ◌>>◌, ltb, ◌==◌, length, take, drop,
}
use homelab_mcp.Text.{decimal, Str, lit, len, str_eq}
use homelab_mcp.Inventory.HostKey.{key_field}
use homelab_mcp.Deploys.{DeployError, missing_host_pin}

-- b"\0\0\0\x0bssh-ed25519" and b"\0\0\0\x20"
abbrev pub algorithm_bytes : List ℕ
algorithm_bytes = 0 ∷ 0 ∷ 0 ∷ 11 ∷ lit "ssh-ed25519"

abbrev pub key_length_bytes : List ℕ
key_length_bytes = 0 ∷ 0 ∷ 0 ∷ 32 ∷ []

unfoldable pub is_pin_blob : List ℕ → Bool
is_pin_blob bytes = not (
    not (length bytes == 51)
    || not (str_eq (take 15 bytes) algorithm_bytes)
    || not (str_eq (take 4 (drop 15 bytes)) key_length_bytes))

module _ (decode : Str → Option (List ℕ)) where
  unfoldable pub validate_host_pin : Str → Result DeployError (Unit {0})
  validate_host_pin pin = do
    encoded ← ok_or missing_host_pin (key_field pin)
    reject_if (ltb 256 (len pin)) missing_host_pin
    bytes ← ok_or missing_host_pin (decode encoded)
    reject_if (not (is_pin_blob bytes)) missing_host_pin

unfoldable pub known_hosts_host : Str → ℕ → Str
known_hosts_host host port = if port == 22 then host else b'[' ∷ host ++ lit "]:" ++ decimal port
