-- ===== src/Deploys/HostPin/Agreement.antt =====
-- The two checks of a pinned host key, the inventory's on entry (src/inventory.rs) and the runner's
-- before a deploy (src/integrations/deploys/runner.rs), against each other.
use homelab_mcp.Prelude.{
  ℕ, ◌≡◌, refl, sym, ap, ap₂, subst, ◌∙◌, ◌↔◌, inl, inr, true, Option, some, List, [], ◌∷◌, ◌++◌,
  arith, ok, length, take, drop, take-add, take-take, drop-take, length-take_le, length-drop,
  Option-cases, Bool-cases,
}
use homelab_mcp.Text.{Str, lit, trim, str_eq_iff, str_eq_refl}
use homelab_mcp.Inventory.HostKey.{ssh_string, is_ed25519_blob, key_field, validate_host_public_key}
use homelab_mcp.Inventory.HostKey.Laws.{Holds, ssh_string-Holds, Holds-ssh_string}
use homelab_mcp.Deploys.HostPin.{is_pin_blob, algorithm_bytes, key_length_bytes, validate_host_pin}

-- 51 bytes, the name of the algorithm, and a key of 32 bytes
record IsEd25519 (bytes : List ℕ) : Type 0 where
  algorithm : take 15 bytes ≡ algorithm_bytes
  key_length : take 4 (drop 15 bytes) ≡ key_length_bytes
  size : length bytes ≡ 51

is_pin_blob_iff : (bytes : List ℕ) → (is_pin_blob bytes ≡ true) ↔ IsEd25519 bytes
unfolding is_pin_blob
is_pin_blob_iff bytes = ground (
  arith,
  str_eq_iff (take 15 bytes) algorithm_bytes,
  str_eq_iff (take 4 (drop 15 bytes)) key_length_bytes,
)

-- the two strings of an accepted blob
record Strings (bytes : List ℕ) : Type 0 where
  middle : ℕ
  key : List ℕ
  first : ssh_string bytes 0 ≡ some (lit "ssh-ed25519", middle)
  second : ssh_string bytes middle ≡ some (key, length bytes)
  size : length key ≡ 32

is_ed25519_blob-Strings : (bytes : List ℕ) → is_ed25519_blob bytes ≡ true → Strings bytes
unfolding is_ed25519_blob
is_ed25519_blob-Strings bytes e = elim (Option-cases (ssh_string bytes 0)) [
  | inl absent ↦ absurd (ground arith)
  | inr ((name, middle), first) ↦ elim (Option-cases (ssh_string bytes middle)) [
    | inl absent ↦ absurd (ground arith)
    | inr ((key, end), second) ↦ record {
      middle = middle;
      key = key;
      first = ground (arith, str_eq_iff name (lit "ssh-ed25519"));
      second = ground arith;
      size = ground arith;
    }
  ]
]

IsEd25519-of_Holds :
    (bytes key : List ℕ) (middle : ℕ)
    → Holds bytes 0 (lit "ssh-ed25519") middle
    → Holds bytes middle key (length bytes)
    → length key ≡ 32
    → IsEd25519 bytes
IsEd25519-of_Holds bytes key middle h k size =
    let at_15 : middle ≡ 15 = omega arith in
    record {
      algorithm = take-add 4 11 bytes ∙ ap₂ ◌++◌ h.header h.body;
      key_length =
          subst (λ m. take 4 (drop m bytes) ≡ key_length_bytes) at_15
            (k.header ∙ ap (λ n. 0 ∷ 0 ∷ 0 ∷ n ∷ []) size);
      size = omega arith;
    }

is_ed25519_blob_sound : (bytes : List ℕ) → is_ed25519_blob bytes ≡ true → IsEd25519 bytes
is_ed25519_blob_sound bytes e =
    let p = is_ed25519_blob-Strings bytes e in
    IsEd25519-of_Holds bytes p.key p.middle
      (ssh_string-Holds bytes 0 (lit "ssh-ed25519") p.middle p.first (omega arith))
      (ssh_string-Holds bytes p.middle p.key (length bytes) p.second (omega (arith, p.size))) p.size

algorithm_Holds : (bytes : List ℕ) → IsEd25519 bytes → Holds bytes 0 (lit "ssh-ed25519") 15
algorithm_Holds bytes k = record {
  header = sym (take-take 4 11 bytes) ∙ ap (take 4) k.algorithm;
  body = sym (drop-take 4 11 bytes) ∙ ap (drop 4) k.algorithm;
  behind = refl;
  within = omega arith;
}

length-key : (bytes : List ℕ) → IsEd25519 bytes → length (take 32 (drop 19 bytes)) ≡ 32
length-key bytes k = length-take_le 32 (drop 19 bytes) (omega (arith, length-drop 19 bytes))

key_Holds : (bytes : List ℕ) → IsEd25519 bytes → Holds bytes 15 (take 32 (drop 19 bytes)) 51
key_Holds bytes k =
    let size = length-key bytes k in
    record {
      header = k.key_length ∙ ap (λ n. 0 ∷ 0 ∷ 0 ∷ n ∷ []) (sym size);
      body = ap (λ n. take n (drop 19 bytes)) size;
      behind = omega arith;
      within = omega arith;
    }

is_ed25519_blob_complete : (bytes : List ℕ) → IsEd25519 bytes → is_ed25519_blob bytes ≡ true
unfolding is_ed25519_blob
is_ed25519_blob_complete bytes k =
    let first = Holds-ssh_string bytes 0 (lit "ssh-ed25519") 15 (algorithm_Holds bytes k) in
    let second = Holds-ssh_string bytes 15 (take 32 (drop 19 bytes)) 51 (key_Holds bytes k) in
    ground (arith, first, second, length-key bytes k, str_eq_refl (lit "ssh-ed25519"))

blobs_agree : (bytes : List ℕ) → is_ed25519_blob bytes ≡ is_pin_blob bytes
blobs_agree bytes = elim (Bool-cases (is_pin_blob bytes)) [
  | inl yes_pin ↦ rw yes_pin (is_ed25519_blob_complete bytes ((is_pin_blob_iff bytes).0 yes_pin))
  | inr no_pin ↦ elim (Bool-cases (is_ed25519_blob bytes)) [
    | inl accepted ↦
        absurd (cc (no_pin, (is_pin_blob_iff bytes).1 (is_ed25519_blob_sound bytes accepted)))
    | inr refused ↦ cc
  ]
]

-- The inventory accepts a host key exactly when the key has no surrounding whitespace and the
-- deploy runner accepts it as a pin.
pub validate_host_public_key_iff :
    (decode : Str → Option (List ℕ)) (key : Str)
    → (validate_host_public_key decode key ≡ ok tt)
      ↔ ((trim key ≡ key) × (validate_host_pin decode key ≡ ok tt))
unfolding validate_host_public_key validate_host_pin
validate_host_public_key_iff decode key = elim (Option-cases (key_field key)) [
  | inl absent ↦ ground arith
  | inr (encoded, present) ↦ elim (Option-cases (decode encoded)) [
    | inl undecodable ↦ ground arith
    | inr (bytes, decoded) ↦
        ground (arith, str_eq_iff (trim key) key, blobs_agree bytes, present, decoded)
  ]
]
