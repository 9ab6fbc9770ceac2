-- ===== src/Tekton/Texts.antt =====
-- The texts of src/integrations/tekton/client.rs: `truncate_utf8`, `bounded_text`, and the
-- replacement of secrets.
pub mod Redaction
pub mod Truncation
use homelab_mcp.Prelude.{
  ℕ, zero, suc, ◌+◌, ◌-◌, Bool, true, false, not, ◌&&◌, ◌||◌, Option, none, some, List, [], ◌∷◌,
  ◌++◌, leb, ltb, ◌==◌, if◌then◌else◌, any, is_some, length,
}
use homelab_mcp.Text.{Str, lit, len, is_empty, trim, is_control, char_width, strip_prefix}

unfoldable pub bounded_text : Str → ℕ → Bool
bounded_text value maximum =
    not (is_empty (trim value)) && leb (len value) maximum && not (any is_control value)

-- whether an offset in bytes stands between two characters, at the start or at the end
unfoldable pub is_char_boundary : Str → ℕ → Bool
is_char_boundary [] n = n == 0
is_char_boundary (c ∷ s) n =
    n == 0 || (leb (char_width c) n && is_char_boundary s (n - char_width c))

-- the `while` loop; an offset of 0 is a boundary
unfoldable pub boundary_below : Str → ℕ → ℕ
boundary_below s zero = zero
boundary_below s (suc n) =
    let lower = boundary_below s n in if is_char_boundary s (suc n) then suc n else lower

-- the characters that end within so many bytes
unfoldable pub cut : Str → ℕ → Str
cut [] n = []
cut (c ∷ s) n = let rest = cut s (n - char_width c) in if leb (char_width c) n then c ∷ rest else []

-- `String::truncate`; `none` is its panic at an offset that is not between two characters
unfoldable pub truncate : Str → ℕ → Option Str
truncate value new_len =
    if ltb (len value) new_len
    then some value
    else if is_char_boundary value new_len
    then some (cut value new_len)
    else none

abbrev pub with_flag : Option Str → Option (Str × Bool)
with_flag none = none
with_flag (some value) = some (value, true)

-- the new text, and whether anything was cut
unfoldable pub truncate_utf8 : Str → ℕ → Option (Str × Bool)
truncate_utf8 value maximum =
    if leb (len value) maximum
    then some (value, false)
    else with_flag (truncate value (boundary_below value maximum))

-- where `truncate_utf8` panics nothing is shown
abbrev pub truncated_or_nothing : Option (Str × Bool) → Str × Bool
truncated_or_nothing none = ([], true)
truncated_or_nothing (some shown) = shown

abbrev pub redacted_mark : Str
redacted_mark = lit "[REDACTED]"

-- `replace` from the left, where `skip` characters belong to a match; the pattern is not empty
unfoldable pub replace_from : Str → Str → ℕ → Str → Str
replace_from pattern mark skip [] = []
replace_from pattern mark (suc skip) (c ∷ s) = replace_from pattern mark skip s
replace_from pattern mark zero (c ∷ s) =
    let matched = mark ++ replace_from pattern mark (length pattern - 1) s in
    let kept = c ∷ replace_from pattern mark zero s in
    if is_some (strip_prefix pattern (c ∷ s)) then matched else kept

unfoldable pub redact_one : Str → Str → Str
redact_one secret text = replace_from secret redacted_mark 0 text

-- the `for` loop over the secrets
unfoldable pub redact : List Str → Str → Str
redact [] text = text
redact (secret ∷ secrets) text = redact secrets (redact_one secret text)
