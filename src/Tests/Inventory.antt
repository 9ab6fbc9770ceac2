-- ===== src/Tests/Inventory.antt =====
-- A pinned machine in the in-memory table.
use homelab_mcp.Prelude.{
  ℕ, ◌≡◌, ◌↔◌, refl, Bool, true, false, Option, some, List, [], ◌∷◌, ◌++◌, ok, All, ◌≤◌, length,
}
use mathlib.Core.Option
use homelab_mcp.Text
use homelab_mcp.Text.{Str, lit, len}
use homelab_mcp.Inventory.{CreateMachine, UpdateMachine}
use homelab_mcp.Inventory.Fields.{
  valid_ssh_host, validate_machine_fields, valid_label, valid_display_name,
}
use homelab_mcp.Inventory.Fields.Laws.{
  IsHostChar, IsFields, valid_ssh_host-IsHostChar, validate_machine_fields_iff,
}
use homelab_mcp.Inventory.HostKey.{validate_host_public_key, key_field, is_ed25519_blob, ssh_string}
use homelab_mcp.Inventory.Database.{MachineRow}
use homelab_mcp.Inventory.Repository.{returned, create, update, get, machine_from_row, machine_of}
use homelab_mcp.Inventory.Repository.Keeps.{
  IsSound, Call, create_call, get_call, delete_call, after, after_all, after-IsSound,
}
use homelab_mcp.Inventory.Table.{Outcome, Run, given_all}
use homelab_mcp.Inventory.Table.Rules.{table}
use homelab_mcp.Inventory.Table.Refinement.{given_all-IsRun}
use homelab_mcp.Deploys.HostPin.{validate_host_pin, algorithm_bytes, key_length_bytes}
use homelab_mcp.Deploys.HostPin.Agreement.{validate_host_public_key_iff}
use homelab_mcp.Deploys.HostPin.Machines.{IsDeployable, get-IsDeployable}
use homelab_mcp.Tests.Memory.{
  memory, memory-IsDatabase, empty, Memory, set_row, inserted, works, unheard, shaky,
}

-- no text is an IP address, and one text decodes
abbrev pub no_ip : Str → Bool
no_ip s = false

abbrev pub eight : List ℕ
eight = 1 ∷ 2 ∷ 3 ∷ 4 ∷ 5 ∷ 6 ∷ 7 ∷ 8 ∷ []

abbrev pub key_blob : List ℕ
key_blob = algorithm_bytes ++ key_length_bytes ++ eight ++ eight ++ eight ++ eight

abbrev pub decode_key : Str → Option (List ℕ)
decode_key text = some key_blob

abbrev pub host_key : Str
host_key = lit "ssh-ed25519 AAAA"

abbrev pub nas : CreateMachine
nas = record {
  display_name = lit "nas";
  ssh_host = lit "nas.lan";
  ssh_port = 22;
  ssh_username = lit "homelab";
  pinned_host_public_key = some host_key;
}

abbrev pub nas_row : MachineRow
nas_row =
    inserted 7 nas.display_name nas.ssh_host nas.ssh_port nas.ssh_username
      nas.pinned_host_public_key

abbrev pub with_nas : Memory
with_nas = record empty { rows = set_row empty.rows 7 (some nas_row) }

pub nas-created :
    create no_ip decode_key memory 7 nas empty ≡ (returned (ok (machine_of nas_row)), with_nas)
unfolding create validate_machine_fields valid_display_name valid_ssh_host valid_label
    validate_host_public_key key_field is_ed25519_blob ssh_string machine_from_row Text.is_empty
    Text.len Text.str_eq Text.trim Text.trim_start Text.is_whitespace Text.split
    Text.starts_with_char Text.ends_with_char Text.contains_char Text.is_ascii_alphanumeric
    Option.bind
nas-created = refl

abbrev rename : UpdateMachine
rename = record {
  display_name = lit "nas 2";
  ssh_host = nas.ssh_host;
  ssh_port = nas.ssh_port;
  ssh_username = nas.ssh_username;
}

abbrev renamed : MachineRow
renamed = record nas_row { display_name = rename.display_name }

nas-updated : update no_ip memory 7 rename with_nas ≡ (
  returned (ok (machine_of renamed)),
  record empty { rows = set_row with_nas.rows 7 (some renamed) },
)
unfolding update validate_machine_fields valid_display_name valid_ssh_host valid_label
    validate_host_public_key key_field is_ed25519_blob ssh_string machine_from_row Text.is_empty
    Text.len Text.str_eq Text.trim Text.trim_start Text.is_whitespace Text.split
    Text.starts_with_char Text.ends_with_char Text.contains_char Text.is_ascii_alphanumeric
    Option.bind
nas-updated = refl

-- the answer to the next statement is lost
abbrev losing : Memory
losing = record empty { faults = unheard ∷ works ∷ [] }

losing-IsSound : IsSound no_ip decode_key memory losing
losing-IsSound = record { all_valid = λ j r h. cc }

after-IsSound_example :
    IsSound no_ip decode_key memory (after no_ip decode_key memory (create_call 7 nas) losing)
after-IsSound_example =
    after-IsSound no_ip decode_key memory memory-IsDatabase (create_call 7 nas) losing
      losing-IsSound

abbrev pub one_call : List Call
one_call = create_call 7 nas ∷ []

-- the machine is there although its creation was reported as failed
get-nas :
    (get memory 7 (after_all no_ip decode_key memory one_call losing)).0
    ≡ returned (ok (machine_of nas_row))
unfolding get after_all after create validate_machine_fields valid_display_name valid_ssh_host
    valid_label validate_host_public_key key_field is_ed25519_blob ssh_string machine_from_row
    Text.is_empty Text.len Text.str_eq Text.trim Text.trim_start Text.is_whitespace Text.split
    Text.starts_with_char Text.ends_with_char Text.contains_char Text.is_ascii_alphanumeric
    Option.bind
get-nas = refl

get-IsDeployable_example : IsDeployable no_ip decode_key (machine_of nas_row)
get-IsDeployable_example =
    get-IsDeployable no_ip decode_key memory memory-IsDatabase losing one_call 7
      (machine_of nas_row) losing-IsSound get-nas

no_ip_chars : (s : Str) → no_ip s ≡ true → All IsHostChar s
no_ip_chars s h = cc

nas_host : valid_ssh_host no_ip (lit "nas.lan") ≡ true
unfolding valid_ssh_host valid_label Text.is_empty Text.len Text.str_eq Text.trim Text.trim_start
    Text.is_whitespace Text.split Text.starts_with_char Text.ends_with_char Text.contains_char
    Text.is_ascii_alphanumeric
nas_host = refl

valid_ssh_host-IsHostChar_example :
    All IsHostChar (lit "nas.lan") × (1 ≤ length (lit "nas.lan")) × (len (lit "nas.lan") ≤ 253)
valid_ssh_host-IsHostChar_example =
    valid_ssh_host-IsHostChar no_ip no_ip_chars (lit "nas.lan") nas_host

validate_machine_fields_iff_example :
    (validate_machine_fields no_ip (lit "nas") (lit "nas.lan") 22 (lit "homelab") ≡ ok tt)
    ↔ IsFields no_ip (lit "nas") (lit "nas.lan") 22 (lit "homelab")
validate_machine_fields_iff_example =
    validate_machine_fields_iff no_ip (lit "nas") (lit "nas.lan") 22 (lit "homelab")

validate_host_public_key_iff_example :
    (validate_host_public_key decode_key host_key ≡ ok tt)
    ↔ ((Text.trim host_key ≡ host_key) × (validate_host_pin decode_key host_key ≡ ok tt))
validate_host_public_key_iff_example = validate_host_public_key_iff decode_key host_key

abbrev visit : List Call
visit = create_call 7 nas ∷ get_call 7 ∷ delete_call 7 ∷ get_call 7 ∷ []

shaky-IsSound : IsSound no_ip decode_key memory shaky
shaky-IsSound = record { all_valid = λ j r h. cc }

given_all-IsRun_example :
    (os : List Outcome) × (given_all no_ip decode_key memory visit shaky ≡ some os)
    × Run
        (table memory shaky)
        visit
        os
        (table memory (after_all no_ip decode_key memory visit shaky))
given_all-IsRun_example =
    given_all-IsRun no_ip decode_key memory memory-IsDatabase visit shaky shaky-IsSound
