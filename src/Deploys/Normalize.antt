-- ===== src/Deploys/Normalize.antt =====
-- src/integrations/deploys/normalize.rs: the delimited report of the `system-info` deploy. The
-- map from section names to values is the list of its pairs in the order of insertion; the names
-- are distinct. Decoding UTF-8 is the argument `from_utf8`.
pub mod Laws
use homelab_mcp.Prelude.{
  ℕ, ◌+◌, ◌*◌, Bool, not, ◌||◌, Option, none, some, List, [], ◌∷◌, ◌++◌, Result, ok, err, ok_or,
  reject_if, ◌>>=◌, ◌>>◌, ltb, length, take, drop,
}
use homelab_mcp.Text.{Str, lit, len, is_empty, contains_char, strip_prefix, find, contains}
use homelab_mcp.Deploys.{DeployError, invalid_output}

-- SECTIONS and OPTIONAL_SECTION
abbrev pub section_names : List Str
section_names =
    lit "hostname"
    ∷ lit "uptime"
    ∷ lit "boot_time"
    ∷ lit "os_release"
    ∷ lit "kernel_arch"
    ∷ lit "cpu"
    ∷ lit "memory"
    ∷ lit "filesystems"
    ∷ lit "block_devices"
    ∷ lit "interfaces"
    ∷ lit "default_routes"
    ∷ []

abbrev pub max_section_bytes : ℕ
max_section_bytes = 32 * 1024

abbrev pub newline : ℕ
newline = 10

abbrev pub report_begin : Str
report_begin = lit "HOMELAB_SYSTEM_INFO_V1_BEGIN" ++ newline ∷ []

abbrev pub report_end : Str
report_end = lit "HOMELAB_SYSTEM_INFO_V1_END"

-- format!("--- {name} BEGIN ---\n") and format!("\n--- {name} END ---\n")
unfoldable pub section_begin : Str → Str
section_begin name = lit "--- " ++ name ++ lit " BEGIN ---" ++ newline ∷ []

unfoldable pub section_finish : Str → Str
section_finish name = newline ∷ lit "--- " ++ name ++ lit " END ---" ++ newline ∷ []

abbrev pub Section : Type 0
Section = Str × Str

abbrev pub bad_value : Str → Bool
bad_value value = ltb max_section_bytes (len value) || contains_char value 0

-- the `for` loop, with the text that is left behind the last section
unfoldable pub parse_sections : List Str → Str → Result DeployError (List Section × Str)
parse_sections [] remaining = ok ([], remaining)
parse_sections (name ∷ names) remaining = do
  inner ← ok_or invalid_output (strip_prefix (section_begin name) remaining)
  section_end ← ok_or invalid_output (find (section_finish name) inner)
  let value = take section_end inner
  reject_if (bad_value value) invalid_output
  parsed ← parse_sections names (drop (section_end + length (section_finish name)) inner)
  ok ((name, value) ∷ parsed.0, parsed.1)

unfoldable pub parse_report : Str → Result DeployError (List Section)
parse_report text = do
  start ← ok_or invalid_output (find report_begin text)
  let tail = drop (start + length report_begin) text
  end ← ok_or invalid_output (find report_end tail)
  reject_if (contains report_end (drop (end + length report_end) tail)) invalid_output
  parsed ← parse_sections section_names (take end tail)
  reject_if (not (is_empty parsed.1)) invalid_output
  ok parsed.0

unfoldable pub system_info : (List ℕ → Option Str) → List ℕ → Result DeployError (List Section)
system_info from_utf8 stdout = do text ← ok_or invalid_output (from_utf8 stdout); parse_report text
