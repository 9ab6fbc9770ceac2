-- ===== src/Inventory/Fields.antt =====
-- The validators of a machine's fields and of a page size (src/inventory.rs). `IpAddr::from_str`
-- enters as the test `is_ip` that it decides.
pub mod Laws
use homelab_mcp.Prelude.{
  ℕ, Bool, true, false, not, ◌&&◌, ◌||◌, Result, ok, err, ltb, leb, ◌==◌, if◌then◌else◌, all,
}
use homelab_mcp.Text.{
  Str, lit, len, is_empty, str_eq, trim, split, contains_char, starts_with_char, ends_with_char,
  is_ascii_alphanumeric,
}
use homelab_mcp.Inventory.{ValidationError, default_ssh_port, default_ssh_username, max_list_limit}

abbrev pub is_display_char : ℕ → Bool
is_display_char c = is_ascii_alphanumeric c || contains_char (lit " ._-") c

abbrev pub is_label_char : ℕ → Bool
is_label_char c = is_ascii_alphanumeric c || c == b'-'

-- the closure of `split('.').all(…)`
unfoldable pub valid_label : Str → Bool
valid_label label =
    not (is_empty label)
    && leb (len label) 63
    && not (starts_with_char label b'-')
    && not (ends_with_char label b'-')
    && all is_label_char label

unfoldable pub valid_display_name : Str → Bool
valid_display_name name = not (
    is_empty name
    || ltb 100 (len name)
    || not (str_eq (trim name) name)
    || not (all is_display_char name))

module _ (is_ip : Str → Bool) where
  unfoldable pub valid_ssh_host : Str → Bool
  valid_ssh_host host =
      if is_empty host || ltb 253 (len host) || not (str_eq (trim host) host)
      then false
      else if is_ip host
      then true
      else all valid_label (split b'.' host)

  unfoldable pub validate_machine_fields : Str → Str → ℕ → Str → Result ValidationError (Unit {0})
  unfolding valid_display_name
  validate_machine_fields name host port username =
      if not (valid_display_name name)
      then err ValidationError.display_name
      else if not (valid_ssh_host host)
      then err ValidationError.ssh_host
      else if not (port == default_ssh_port)
      then err ValidationError.ssh_port
      else if not (str_eq username default_ssh_username)
      then err ValidationError.ssh_username
      else ok tt

unfoldable pub validate_list_limit : ℕ → Result ValidationError (Unit {0})
validate_list_limit limit =
    if leb 1 limit && leb limit max_list_limit then ok tt else err ValidationError.list_limit
