-- ===== src/Deploys/Runner/RunDir.antt =====
-- `create_run_dir` of src/integrations/deploys/runner.rs: eight attempts at a fresh private
-- directory. The random bytes and the answer of the file system are the record of each attempt.
use homelab_mcp.Prelude.{
  ℕ, zero, suc, ◌+◌, ◌-◌, ◌*◌, ◌/◌, ◌%◌, ◌<◌, ◌≡◌, refl, sym, ap, Bool, true, false, List, [], ◌∷◌,
  ◌++◌, arith, Result, ok, err, ltb, if◌then◌else◌, length, All, all, ok-injective, ◌||◌,
}
use homelab_mcp.Text.{Str, lit, is_empty, ends_with_char, starts_with_char}
use homelab_mcp.Deploys.{DeployError, execution_rejected}
use homelab_mcp.Deploys.Paths.{join, is_absolute}

pub data CreateDir : Type 0 where
  no_random : CreateDir
  created already_exists refused : List ℕ → CreateDir

-- format!("{byte:02x}")
abbrev pub hex_digit : ℕ → ℕ
hex_digit n = if ltb n 10 then b'0' + n else b'a' + (n - 10)

unfoldable pub hex : List ℕ → Str
hex [] = []
hex (byte ∷ bytes) = hex_digit (byte / 16) ∷ hex_digit (byte % 16) ∷ hex bytes

abbrev pub run_dir_path : Str → List ℕ → Str
run_dir_path root random = join root (lit "homelab-deploy-" ++ hex random)

-- the loop over the attempts that are left; an attempt that is not listed is taken as `no_random`
unfoldable pub attempts : ℕ → Str → List CreateDir → Result DeployError Str
attempts zero root tries = err execution_rejected
attempts (suc n) root [] = err execution_rejected
attempts (suc n) root (no_random ∷ tries) = err execution_rejected
attempts (suc n) root (created random ∷ tries) = ok (run_dir_path root random)
attempts (suc n) root (already_exists random ∷ tries) = attempts n root tries
attempts (suc n) root (refused random ∷ tries) = err execution_rejected

unfoldable pub create_run_dir : Str → List CreateDir → Result DeployError Str
unfolding attempts
create_run_dir root tries = attempts 8 root tries

length-hex : (bytes : List ℕ) → length (hex bytes) ≡ 2 * length bytes
unfolding hex
length-hex [] = refl
length-hex (b ∷ bytes) = omega (arith, length-hex bytes)

hex_digit-injective : (a b : ℕ) → a < 16 → b < 16 → hex_digit a ≡ hex_digit b → a ≡ b
hex_digit-injective a b h k e = ground arith

byte_of_digits : (a b : ℕ) → a < 256 → b < 256 → a / 16 ≡ b / 16 → a % 16 ≡ b % 16 → a ≡ b
byte_of_digits a b h k p q = omega arith

hex-injective :
    (xs ys : List ℕ) → All (λ b. b < 256) xs → All (λ b. b < 256) ys → hex xs ≡ hex ys → xs ≡ ys
unfolding hex
hex-injective [] [] h k e = refl
hex-injective [] (y ∷ ys) h k e = cc
hex-injective (x ∷ xs) [] h k e = cc
hex-injective (x ∷ xs) (y ∷ ys) h k e = ground (
  arith,
  hex_digit-injective (x / 16) (y / 16),
  hex_digit-injective (x % 16) (y % 16),
  byte_of_digits x y,
  hex-injective xs ys h.1 k.1,
)

append-left_cancel : (p s t : Str) → p ++ s ≡ p ++ t → s ≡ t
append-left_cancel [] s t e = e
append-left_cancel (c ∷ p) s t e = append-left_cancel p s t (cons-tail e)
  where
    cons-tail : c ∷ (p ++ s) ≡ c ∷ (p ++ t) → p ++ s ≡ p ++ t
    cons-tail h = cc

joined-injective :
    (b : Bool) (root p q : Str)
    → (if b then root ++ p else root ++ b'/' ∷ p) ≡ (if b then root ++ q else root ++ b'/' ∷ q)
    → p ≡ q
joined-injective true root p q e = append-left_cancel root p q e
joined-injective false root p q e =
    append-left_cancel (b'/' ∷ []) p q (append-left_cancel root (b'/' ∷ p) (b'/' ∷ q) e)

-- Two runs share a directory name only if they drew the same random bytes.
pub run_dir_path-injective :
    (root : Str) (xs ys : List ℕ)
    → All (λ b. b < 256) xs
    → All (λ b. b < 256) ys
    → run_dir_path root xs ≡ run_dir_path root ys
    → xs ≡ ys
unfolding join is_absolute starts_with_char
run_dir_path-injective root xs ys h k e = hex-injective xs ys h k (
    append-left_cancel (lit "homelab-deploy-") (hex xs) (hex ys) (
      joined-injective (is_empty root || ends_with_char root b'/') root
        (lit "homelab-deploy-" ++ hex xs) (lit "homelab-deploy-" ++ hex ys) e))

-- whether an attempt found its name taken
abbrev pub is_taken : CreateDir → Bool
is_taken (already_exists random) = true
is_taken _ = false

attempts-all_taken :
    (n : ℕ) (root : Str) (tries : List CreateDir) (path : Str)
    → attempts n root tries ≡ ok path
    → (taken : List CreateDir) × (random : List ℕ) × (rest : List CreateDir) × (tries
        ≡ taken ++ created random ∷ rest)
      × (all is_taken taken ≡ true)
      × (length taken < n)
      × (path ≡ run_dir_path root random)
unfolding attempts
attempts-all_taken zero root tries path e = cc
attempts-all_taken (suc n) root [] path e = cc
attempts-all_taken (suc n) root (no_random ∷ tries) path e = cc
attempts-all_taken (suc n) root (refused random ∷ tries) path e = cc
attempts-all_taken (suc n) root (created random ∷ tries) path e =
    ([], random, tries, refl, refl, omega arith, ok-injective _ _ (sym e))
attempts-all_taken (suc n) root (already_exists random ∷ tries) path e =
    let (taken, r, rest, split, all_taken, few, same) = attempts-all_taken n root tries path e in
    (
      already_exists random ∷ taken,
      r,
      rest,
      ap (λ l. already_exists random ∷ l) split,
      all_taken,
      omega arith,
      same,
    )

-- A run gets a directory only by creating it: after at most seven names that were taken, the next
-- attempt created the path that is returned.
pub create_run_dir-created :
    (root : Str) (tries : List CreateDir) (path : Str)
    → create_run_dir root tries ≡ ok path
    → (taken : List CreateDir) × (random : List ℕ) × (rest : List CreateDir) × (tries
        ≡ taken ++ created random ∷ rest)
      × (all is_taken taken ≡ true)
      × (length taken < 8)
      × (path ≡ run_dir_path root random)
unfolding create_run_dir
create_run_dir-created = attempts-all_taken 8
