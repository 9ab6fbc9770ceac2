-- ===== src/Inventory/Fields/Laws.antt =====
-- What accepted fields are made of.
use homelab_mcp.Prelude.{
  ℕ, ◌≤◌, ◌≡◌, ◌↔◌, ◌⊎◌, inl, inr, Bool, true, false, arith, ok, length, all, All, Bool-cases,
  all-All,
}
use homelab_mcp.Text.{
  Str, lit, len, trim, split, is_ascii_alphanumeric, str_eq_iff, is_empty_iff, All-split,
}
use homelab_mcp.Inventory.{default_ssh_username}
use homelab_mcp.Inventory.Fields.{
  is_display_char, is_label_char, valid_label, valid_ssh_host, validate_machine_fields,
}

-- a letter, a digit, or one of `-`, `.` and `:`
abbrev pub IsHostChar : ℕ → Type 0
IsHostChar c = (is_ascii_alphanumeric c ≡ true) ⊎ (c ≡ b'-') ⊎ (c ≡ b'.') ⊎ (c ≡ b':')

label_char-IsHostChar : (c : ℕ) → is_label_char c ≡ true → IsHostChar c
label_char-IsHostChar c h = ground arith

valid_label-IsHostChar : (label : Str) → valid_label label ≡ true → All IsHostChar label
unfolding valid_label
valid_label-IsHostChar label h =
    all-All is_label_char IsHostChar label_char-IsHostChar label (ground arith)

module _ (is_ip : Str → Bool) (ip_chars : (s : Str) → is_ip s ≡ true → All IsHostChar s) where
  -- An accepted host is 1 to 253 bytes of letters, digits, `-`, `.` and `:`, given that nothing
  -- else stands in an IP address.
  pub valid_ssh_host-IsHostChar :
      (host : Str)
      → valid_ssh_host is_ip host ≡ true
      → All IsHostChar host × (1 ≤ length host) × (len host ≤ 253)
  unfolding valid_ssh_host
  valid_ssh_host-IsHostChar host h = (chars, (is_empty_iff host).0 (ground arith), ground arith)
    where
      labels : is_ip host ≡ false → all valid_label (split b'.' host) ≡ true
      labels no_ip = ground arith

      chars : All IsHostChar host
      chars = elim (Bool-cases (is_ip host)) [
        | inl ip ↦ ip_chars host ip
        | inr no_ip ↦ All-split IsHostChar b'.' host (ground arith) (
            all-All valid_label (All IsHostChar) valid_label-IsHostChar (split b'.' host)
              (labels no_ip))
      ]

-- What `validate_machine_fields` asks of a machine.
pub record IsFields (is_ip : Str → Bool) (name host : Str) (port : ℕ) (username : Str)
    : Type 0 where
  pub name_size : (1 ≤ length name) × (len name ≤ 100)
  pub name_trimmed : trim name ≡ name
  pub name_chars : all is_display_char name ≡ true
  pub host_valid : valid_ssh_host is_ip host ≡ true
  pub port_fixed : port ≡ 22
  pub username_fixed : username ≡ lit "homelab"

-- Fields are accepted exactly when the name has 1 to 100 bytes, no surrounding whitespace and only
-- the listed characters, the host is valid, the port is 22 and the user is `homelab`.
pub validate_machine_fields_iff :
    (is_ip : Str → Bool) (name host : Str) (port : ℕ) (username : Str)
    → (validate_machine_fields is_ip name host port username ≡ ok tt)
      ↔ IsFields is_ip name host port username
unfolding validate_machine_fields
validate_machine_fields_iff is_ip name host port username = ground (
  arith,
  is_empty_iff name,
  str_eq_iff (trim name) name,
  str_eq_iff username default_ssh_username,
)
