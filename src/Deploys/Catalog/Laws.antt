-- ===== src/Deploys/Catalog/Laws.antt =====
-- What a loaded catalog guarantees, and what can be resolved in it.
use mathlib.Core.List.{Memᴰ}
use homelab_mcp.Prelude.{
  any-false, Memᴰ-append_left, Memᴰ-append_last, All_of_Memᴰ, find_item-Memᴰ, ◌≤◌, ◌≡◌, ◌≢◌, sym,
  ap, subst, ◌↔◌, inl, inr, true, false, not, some, List, [], ◌∷◌, ◌++◌, arith, ok, ok_or, length,
  All, find_item, find_item_sound, >>=-eq-ok, reject_if-eq-ok, reject_if, ok-injective, ltb, ◌||◌,
  Option-cases,
}
use homelab_mcp.Text.{Str, len, str_eq, str_eq_iff, is_empty_iff}
use homelab_mcp.Deploys.{invalid_catalog, invalid_configuration}
use homelab_mcp.Deploys.Paths.{is_absolute, has_parent_dir, path_starts_with, join}
use homelab_mcp.Deploys.Catalog.{
  DeployEntry, DeployCatalog, ResolvedDeploy, Source, CatalogFile, valid_id, bad_entry,
  confine_file, bad_shape, max_catalog_bytes, check_entries, load, resolve, resolved,
}

-- A relative file that stands, with its links resolved, under the root.
pub record IsConfined (src : Source) (root relative : Str) : Type 0 where
  pub is_relative : is_absolute relative ≡ false
  pub no_parent : has_parent_dir relative ≡ false
  pub target : Str
  pub canonical : src.canonicalize (join root relative) ≡ some target
  pub under_root : path_starts_with target root ≡ true
  pub is_file : src.is_file target ≡ true

confine_file-IsConfined :
    (src : Source) (root relative : Str)
    → confine_file src root relative ≡ ok tt
    → IsConfined src root relative
unfolding confine_file
confine_file-IsConfined src root relative e =
    elim (Option-cases (src.canonicalize (join root relative))) [
      | inl missing ↦ absurd (ground arith)
      | inr (target, found) ↦ record {
        is_relative = ground arith;
        no_parent = ground arith;
        target = target;
        canonical = found;
        under_root = ground arith;
        is_file = ground arith;
      }
    ]

-- What the catalog's checks establish of one entry.
pub record IsEntry (src : Source) (root : Str) (entry : DeployEntry) : Type 0 where
  pub id : valid_id entry.id ≡ true
  pub description : (1 ≤ length entry.description) × (len entry.description ≤ 512)
  pub timeout : (1 ≤ entry.timeout_seconds) × (entry.timeout_seconds ≤ 900)
  pub distributions : 1 ≤ length entry.supported_distributions
  pub entrypoint : IsConfined src root entry.entrypoint
  pub inventory : IsConfined src root entry.inventory

-- The parts of a successful round of the loop.
record IsChecked (src : Source) (root : Str) (before : List DeployEntry) (entry : DeployEntry)
    (rest : List DeployEntry) : Type 0 where
  good : bad_entry before entry ≡ false
  entrypoint : confine_file src root entry.entrypoint ≡ ok tt
  inventory : confine_file src root entry.inventory ≡ ok tt
  later : check_entries src root (before ++ entry ∷ []) rest ≡ ok tt

module _ (src : Source) (root : Str) where
  check_entries-IsChecked :
      (before : List DeployEntry) (entry : DeployEntry) (rest : List DeployEntry)
      → check_entries src root before (entry ∷ rest) ≡ ok tt
      → IsChecked src root before entry rest
  unfolding check_entries
  check_entries-IsChecked before entry rest e = ground arith

  IsChecked-IsEntry :
      (before : List DeployEntry) (entry : DeployEntry) (rest : List DeployEntry)
      → IsChecked src root before entry rest
      → IsEntry src root entry
  unfolding bad_entry
  IsChecked-IsEntry before entry rest c = record {
    id = ground (arith, c.good);
    description = ground (arith, c.good, is_empty_iff entry.description);
    timeout = ground (arith, c.good);
    distributions = ground (arith, c.good);
    entrypoint = confine_file-IsConfined src root entry.entrypoint c.entrypoint;
    inventory = confine_file-IsConfined src root entry.inventory c.inventory;
  }

  check_entries-All :
      (before entries : List DeployEntry)
      → check_entries src root before entries ≡ ok tt
      → All (IsEntry src root) entries
  check_entries-All before [] e = tt
  check_entries-All before (entry ∷ rest) e =
      let c = check_entries-IsChecked before entry rest e in
      (IsChecked-IsEntry before entry rest c, check_entries-All (before ++ entry ∷ []) rest c.later)

  -- an entry before the loop's place has another id than all that follow
  check_entries-differs :
      (before entries : List DeployEntry) {b f : DeployEntry}
      → check_entries src root before entries ≡ ok tt
      → Memᴰ b before
      → Memᴰ f entries
      → b.id ≢ f.id
  unfolding bad_entry
  check_entries-differs before [] e m n = elim n [ ]
  check_entries-differs before (entry ∷ rest) {b} {f} e m (Memᴰ.head here) = λ same.
      let c = check_entries-IsChecked before entry rest e in
      let fresh : str_eq b.id entry.id ≡ false =
        any-false (λ other. str_eq other.id entry.id) before (ground (arith, c.good)) m in
      ground (arith, str_eq_iff b.id entry.id, ap (λ (x : DeployEntry). x.id) here)
  check_entries-differs before (entry ∷ rest) e m (Memᴰ.tail n) =
      let c = check_entries-IsChecked before entry rest e in
      check_entries-differs (before ++ entry ∷ []) rest c.later (Memᴰ-append_left before _ m) n

  find_entry :
      (before entries : List DeployEntry) (e : DeployEntry)
      → check_entries src root before entries ≡ ok tt
      → Memᴰ e entries
      → find_item (λ x. str_eq x.id e.id) entries ≡ some e
  unfolding find_item
  find_entry before [] e h m = elim m [ ]
  find_entry before (entry ∷ rest) e h (Memᴰ.head here) =
      let same : str_eq entry.id e.id ≡ true =
        (str_eq_iff entry.id e.id).1 (ap (λ (x : DeployEntry). x.id) (sym here)) in
      rw same (ap some (sym here))
  find_entry before (entry ∷ rest) e h (Memᴰ.tail n) =
      let c = check_entries-IsChecked before entry rest h in
      let differs =
        check_entries-differs (before ++ entry ∷ []) rest c.later (Memᴰ-append_last before entry)
          n in
      let other : str_eq entry.id e.id ≡ false = ground (arith, str_eq_iff entry.id e.id) in
      rw other (find_entry (before ++ entry ∷ []) rest e c.later n)

-- A loaded catalog: an absolute, resolved root, 1 to 64 entries, each as the checks ask, with its
-- entrypoint and its inventory confined to the root, and no two with the same id.
pub record IsCatalog (src : Source) (catalog : DeployCatalog) : Type 0 where
  pub size : (1 ≤ length catalog.entries) × (length catalog.entries ≤ 64)
  pub entries : All (IsEntry src catalog.root) catalog.entries
  pub unique :
      (e : DeployEntry)
      → Memᴰ e catalog.entries
      → find_item (λ x. str_eq x.id e.id) catalog.entries ≡ some e

IsCatalog-of_parts :
    (src : Source) (root : Str) (parsed : CatalogFile)
    → bad_shape parsed ≡ false
    → check_entries src root [] parsed.deploys ≡ ok tt
    → IsCatalog src (record { root = root; entries = parsed.deploys })
IsCatalog-of_parts src root parsed shaped checked = record {
  size = ground arith;
  entries = check_entries-All src root [] parsed.deploys checked;
  unique = λ e m. find_entry src root [] parsed.deploys e checked m;
}

-- Whatever the file system and the JSON reader return, a catalog that loads has 1 to 64 entries,
-- each within the bounds of the checks and with both files under the root, and the search for the
-- id of an entry finds that entry.
pub load-IsCatalog :
    (src : Source) (root_path path : Str) (catalog : DeployCatalog)
    → load src root_path path ≡ ok catalog
    → IsCatalog src catalog
unfolding load
load-IsCatalog src root_path path catalog e =
    let (_, absolute, e0) =
      >>=-eq-ok
        (reject_if (not (is_absolute root_path) || not (is_absolute path)) invalid_configuration) _
        e in
    let (root, found, e1) = >>=-eq-ok (ok_or invalid_catalog (src.canonicalize root_path)) _ e0 in
    let (stat, stated, e2) = >>=-eq-ok (ok_or invalid_catalog (src.metadata path)) _ e1 in
    let (_, sized, e3) =
      >>=-eq-ok (reject_if (not stat.is_file || ltb max_catalog_bytes stat.size) invalid_catalog) _
        e2 in
    let (bytes, read, e4) = >>=-eq-ok (ok_or invalid_catalog (src.read path)) _ e3 in
    let (parsed, parse, e5) = >>=-eq-ok (ok_or invalid_catalog (src.parse bytes)) _ e4 in
    let (_, shaped, e6) = >>=-eq-ok (reject_if (bad_shape parsed) invalid_catalog) _ e5 in
    let (_, checked, e7) = >>=-eq-ok (check_entries src root [] parsed.deploys) _ e6 in
    subst (IsCatalog src) (ok-injective _ catalog e7)
      (IsCatalog-of_parts src root parsed (reject_if-eq-ok _ _ shaped) checked)

-- The answer for an id, by what the catalog holds.
pub record IsResolved (catalog : DeployCatalog) (id : Str) (deploy : ResolvedDeploy) : Type 0 where
  pub entry : DeployEntry
  pub listed : Memᴰ entry catalog.entries
  pub named : entry.id ≡ id
  pub available : entry.mcp_available ≡ true
  pub same : deploy ≡ resolved catalog.root entry

resolve-IsResolved :
    (catalog : DeployCatalog) (id : Str) (deploy : ResolvedDeploy)
    → resolve catalog id ≡ ok deploy
    → IsResolved catalog id deploy
unfolding resolve
resolve-IsResolved catalog id deploy e =
    elim (Option-cases (find_item (λ x. str_eq x.id id) catalog.entries)) [
      | inl absent ↦ absurd (ground arith)
      | inr (entry, found) ↦ record {
        entry = entry;
        listed = find_item-Memᴰ (λ x. str_eq x.id id) catalog.entries entry found;
        named =
            (str_eq_iff entry.id id).0
              (find_item_sound (λ x. str_eq x.id id) catalog.entries entry found);
        available = ground arith;
        same = ground arith;
      }
    ]

IsResolved-resolve :
    (src : Source) (catalog : DeployCatalog) (id : Str) (deploy : ResolvedDeploy)
    → IsCatalog src catalog
    → IsResolved catalog id deploy
    → resolve catalog id ≡ ok deploy
unfolding resolve
IsResolved-resolve src catalog id deploy k r =
    let found : find_item (λ x. str_eq x.id id) catalog.entries ≡ some r.entry =
      subst (λ (i : Str). find_item (λ x. str_eq x.id i) catalog.entries ≡ some r.entry) r.named
        (k.unique r.entry r.listed) in
    let valid : valid_id id ≡ true =
      subst (λ i. valid_id i ≡ true) r.named
        (All_of_Memᴰ _ catalog.entries k.entries r.listed).id in
    ground (arith, found, valid, r.available, r.same)

-- In a loaded catalog an id resolves to a deploy exactly when an entry that is available to the
-- server has that id and the deploy is that entry's.
pub resolve_iff :
    (src : Source) (catalog : DeployCatalog) (id : Str) (deploy : ResolvedDeploy)
    → IsCatalog src catalog
    → (resolve catalog id ≡ ok deploy) ↔ IsResolved catalog id deploy
resolve_iff src catalog id deploy k =
    (resolve-IsResolved catalog id deploy, IsResolved-resolve src catalog id deploy k)
