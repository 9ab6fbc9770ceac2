-- ===== src/Inventory/HostKey/Laws.antt =====
-- What an SSH string read from a blob says of the bytes, and back.
use mathlib.Core.Option
use native.Mathlib.Nat.{zero-add}
use homelab_mcp.Prelude.{
  ℕ, ◌+◌, ◌≤◌, ◌<◌, ◌≡◌, sym, ap, ◌∙◌, subst, some, List, [], ◌∷◌, arith, bind-eq-some, map-eq-some,
  length, take, drop, length-take_le, length-drop,
}
use homelab_mcp.Inventory.HostKey.{get_range, from_be_bytes, ssh_string}

-- An SSH string `v` of fewer than 256 bytes at an offset, with the offset behind it.
pub record Holds (bytes : List ℕ) (offset : ℕ) (v : List ℕ) (end : ℕ) : Type 0 where
  pub header : take 4 (drop offset bytes) ≡ 0 ∷ 0 ∷ 0 ∷ length v ∷ []
  pub body : take (length v) (drop (offset + 4) bytes) ≡ v
  pub behind : end ≡ offset + 4 + length v
  pub within : end ≤ length bytes

small_header : (bs : List ℕ) (n : ℕ) → n < 256 → from_be_bytes bs ≡ some n → bs ≡ 0 ∷ 0 ∷ 0 ∷ n ∷ []
small_header (a ∷ b ∷ c ∷ d ∷ []) n h e = ground arith
small_header [] n h e = cc
small_header (a ∷ []) n h e = cc
small_header (a ∷ b ∷ []) n h e = cc
small_header (a ∷ b ∷ c ∷ []) n h e = cc
small_header (a ∷ b ∷ c ∷ d ∷ x ∷ bs) n h e = cc

get_range_sound :
    (bytes : List ℕ) (start count : ℕ) (v : List ℕ)
    → get_range bytes start count ≡ some v
    → (take count (drop start bytes) ≡ v) × (start + count ≤ length bytes)
get_range_sound bytes start count v e = (ground arith, ground arith)

Holds-of_parts :
    (bytes bs : List ℕ) (offset n : ℕ) (v : List ℕ)
    → take 4 (drop offset bytes) ≡ bs
    → from_be_bytes bs ≡ some n
    → take n (drop (offset + 4) bytes) ≡ v
    → offset + 4 + n ≤ length bytes
    → length v < 256
    → Holds bytes offset v (offset + 4 + n)
Holds-of_parts bytes bs offset n v front number taken inside h =
    let counted : length v ≡ n =
      ap length (sym taken)
      ∙ length-take_le n (drop (offset + 4) bytes)
          (omega (arith, length-drop (offset + 4) bytes)) in
    record {
      header = rw counted (front ∙ small_header bs n (omega arith) number);
      body = rw counted taken;
      behind = rw counted;
      within = inside;
    }

pub ssh_string-Holds :
    (bytes : List ℕ) (offset : ℕ) (v : List ℕ) (end : ℕ)
    → ssh_string bytes offset ≡ some (v, end)
    → length v < 256
    → Holds bytes offset v end
unfolding ssh_string
ssh_string-Holds bytes offset v end e h =
    let (bs, got, e1) = bind-eq-some (get_range bytes offset 4) _ e in
    let (n, number, e2) = bind-eq-some (from_be_bytes bs) _ e1 in
    let (w, body, e3) = map-eq-some (get_range bytes (offset + 4) n) _ e2 in
    let (front, fits) = get_range_sound bytes offset 4 bs got in
    let (taken, inside) = get_range_sound bytes (offset + 4) n w body in
    let same : w ≡ v = ap (λ (p : List ℕ × ℕ). p.0) e3 in
    subst (Holds bytes offset v) (ap (λ (p : List ℕ × ℕ). p.1) e3)
      (Holds-of_parts bytes bs offset n v front number (taken ∙ same) inside h)

get_range_complete :
    (bytes : List ℕ) (start count : ℕ) (v : List ℕ)
    → start + count ≤ length bytes
    → take count (drop start bytes) ≡ v
    → get_range bytes start count ≡ some v
get_range_complete bytes start count v h e = ground arith

pub Holds-ssh_string :
    (bytes : List ℕ) (offset : ℕ) (v : List ℕ) (end : ℕ)
    → Holds bytes offset v end
    → ssh_string bytes offset ≡ some (v, end)
unfolding ssh_string Option.bind
Holds-ssh_string bytes offset v end k =
    let first = get_range_complete bytes offset 4 _ (omega arith) k.header in
    let second = get_range_complete bytes (offset + 4) (length v) v (omega arith) k.body in
    rw (first, zero-add, second, k.behind)
