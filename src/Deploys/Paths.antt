-- ===== src/Deploys/Paths.antt =====
-- Rust's `Path` on Unix, as far as src/integrations/deploys/catalog.rs uses it, over texts.
use homelab_mcp.Prelude.{Bool, true, false, ◌&&◌, ◌||◌, List, [], ◌∷◌, ◌++◌, if◌then◌else◌, any}
use homelab_mcp.Text.{Str, lit, is_empty, str_eq, split, starts_with_char, ends_with_char}

unfoldable pub is_absolute : Str → Bool
is_absolute path = starts_with_char path b'/'

-- `components()` has a `ParentDir` exactly for each part `..`.
unfoldable pub has_parent_dir : Str → Bool
has_parent_dir path = any (λ part. str_eq part (lit "..")) (split b'/' path)

-- the parts that are left when empty ones and `.` are dropped
unfoldable pub normal_parts : List Str → List Str
normal_parts [] = []
normal_parts (part ∷ parts) =
    let rest = normal_parts parts in
    if is_empty part || str_eq part (lit ".") then rest else part ∷ rest

-- `components()`; the root of an absolute path is the part `/`
unfoldable pub components : Str → List Str
components path =
    let parts = normal_parts (split b'/' path) in
    if is_absolute path then (lit "/") ∷ parts else parts

unfoldable pub is_prefix : List Str → List Str → Bool
is_prefix [] parts = true
is_prefix (p ∷ ps) [] = false
is_prefix (p ∷ ps) (q ∷ qs) = str_eq p q && is_prefix ps qs

-- `path.starts_with(base)`, component by component
unfoldable pub path_starts_with : Str → Str → Bool
path_starts_with path base = is_prefix (components base) (components path)

unfoldable pub join : Str → Str → Str
join base path =
    if is_absolute path
    then path
    else if is_empty base || ends_with_char base b'/'
    then base ++ path
    else base ++ b'/' ∷ path
