-- ===== src/Prelude/Lists.antt =====
-- Lists measured and indexed by native numbers, under the library's names, and the predicates
-- and tests over their items.
use Prim.Native.Nat.{ℕ, zero, suc, ◌+◌, ◌-◌, ◌≤◌}
use mathlib.Core.Path.{◌≡◌, refl, sym, ap, subst}
use mathlib.Core.Logic.{inl, inr}
use mathlib.Core.Bool.{Bool, true, false, ◌&&◌, ◌||◌}
use mathlib.Core.List.{Memᴰ, List, [], ◌∷◌, ◌++◌}
use mathlib.Core.Option.{Option, none, some}
use native.Mathlib.Omega.{arith}
use native.Mathlib.Nat.{zero-add, suc-add}
use homelab_mcp.Prelude.Tests.{if◌then◌else◌, Bool-cases}

module _ {ℓ} {A : Type ℓ} where
  abbrev pub length : List A → ℕ
  length [] = 0
  length (x ∷ xs) = suc (length xs)

  abbrev pub take : ℕ → List A → List A
  take zero xs = []
  take (suc n) [] = []
  take (suc n) (x ∷ xs) = x ∷ take n xs

  abbrev pub drop : ℕ → List A → List A
  drop zero xs = xs
  drop (suc n) [] = []
  drop (suc n) (x ∷ xs) = drop n xs

  abbrev pub concat : List (List A) → List A
  concat [] = []
  concat (xs ∷ xss) = xs ++ concat xss

  -- `iter().all(p)` and `iter().any(p)`
  abbrev pub all : (A → Bool) → List A → Bool
  all p [] = true
  all p (x ∷ xs) = p x && all p xs

  abbrev pub any : (A → Bool) → List A → Bool
  any p [] = false
  any p (x ∷ xs) = p x || any p xs

  -- `iter().find(p)`
  unfoldable pub find_item : (A → Bool) → List A → Option A
  find_item p [] = none
  find_item p (x ∷ xs) = if p x then some x else find_item p xs

  -- `sort_by`, which is stable: `le x y` is that `x` may stand before `y`
  unfoldable pub insert_by : (A → A → Bool) → A → List A → List A
  insert_by le x [] = x ∷ []
  insert_by le x (y ∷ ys) = let rest = insert_by le x ys in if le x y then x ∷ y ∷ ys else y ∷ rest

  unfoldable pub sort_by : (A → A → Bool) → List A → List A
  unfolding insert_by
  sort_by le [] = []
  sort_by le (x ∷ xs) = insert_by le x (sort_by le xs)

  pub length-append : (xs ys : List A) → length (xs ++ ys) ≡ length xs + length ys
  length-append [] ys = omega arith
  length-append (x ∷ xs) ys = omega (arith, length-append xs ys)

  pub drop-append : (xs ys : List A) → drop (length xs) (xs ++ ys) ≡ ys
  drop-append [] ys = refl
  drop-append (x ∷ xs) ys = drop-append xs ys

  pub take-append : (xs ys : List A) → take (length xs) (xs ++ ys) ≡ xs
  take-append [] ys = refl
  take-append (x ∷ xs) ys = ap (◌∷◌ x) (take-append xs ys)

module _ {ℓ κ} {A : Type ℓ} where
  abbrev pub All : (A → Type κ) → List A → Type κ
  All P [] = Unit
  All P (x ∷ xs) = P x × All P xs

  pub All-append : (P : A → Type κ) (xs ys : List A) → All P xs → All P ys → All P (xs ++ ys)
  All-append P [] ys hx hy = hy
  All-append P (x ∷ xs) ys hx hy = (hx.0, All-append P xs ys hx.1 hy)

  pub All-find_item :
      (P : A → Type κ) (p : A → Bool) (xs : List A) (x : A)
      → All P xs
      → find_item p xs ≡ some x
      → P x
  unfolding find_item
  All-find_item P p [] x h e = cc
  All-find_item P p (y ∷ ys) x h e = elim (Bool-cases (p y)) [
    | inl here ↦ let same : y ≡ x = ground arith in subst P same h.0
    | inr there ↦ All-find_item P p ys x h.1 (ground arith)
  ]

module _ {ℓ} {A : Type ℓ} where
  pub find_item_sound : (p : A → Bool) (xs : List A) (x : A) → find_item p xs ≡ some x → p x ≡ true
  unfolding find_item
  find_item_sound p [] x e = cc
  find_item_sound p (y ∷ ys) x e = ground (arith, find_item_sound p ys x)

module _ {ℓ} {A : Type ℓ} where
  pub take-nil : (n : ℕ) → ◌≡◌ {A = List A} (take n []) []
  take-nil zero = refl
  take-nil (suc n) = refl

  pub take-add : (m n : ℕ) (xs : List A) → take (m + n) xs ≡ take m xs ++ take n (drop m xs)
  take-add zero n xs = rw zero-add
  take-add (suc m) n [] = rw (suc-add, take-nil n)
  take-add (suc m) n (x ∷ xs) = rw (suc-add, take-add m n xs)

  pub take-append_split :
      (n : ℕ) (xs ys : List A) → take n (xs ++ ys) ≡ take n xs ++ take (n - length (take n xs)) ys
  take-append_split zero xs ys = refl
  take-append_split (suc n) [] ys = let same : suc n - 0 ≡ suc n = omega arith in rw same
  take-append_split (suc n) (x ∷ xs) ys =
      let same : suc n - suc (length (take n xs)) ≡ n - length (take n xs) = omega arith in
      rw same (ap (λ l. x ∷ l) (take-append_split n xs ys))

  pub length-take_bound : (n : ℕ) (xs : List A) → length (take n xs) ≤ n
  length-take_bound zero xs = omega arith
  length-take_bound (suc n) [] = omega arith
  length-take_bound (suc n) (x ∷ xs) = omega (arith, length-take_bound n xs)

  pub length-take_le : (n : ℕ) (xs : List A) → n ≤ length xs → length (take n xs) ≡ n
  length-take_le zero xs h = refl
  length-take_le (suc n) [] h = absurd (omega arith)
  length-take_le (suc n) (x ∷ xs) h = ap suc (length-take_le n xs (omega arith))

  pub length-drop : (n : ℕ) (xs : List A) → length (drop n xs) ≡ length xs - n
  length-drop zero xs = omega arith
  length-drop (suc n) [] = omega arith
  length-drop (suc n) (x ∷ xs) = omega (arith, length-drop n xs)

  pub take-take : (m n : ℕ) (xs : List A) → take m (take (m + n) xs) ≡ take m xs
  take-take zero n xs = refl
  take-take (suc m) n [] = rw (suc-add)
  take-take (suc m) n (x ∷ xs) = rw (suc-add, take-take m n xs)

  pub drop-take : (m n : ℕ) (xs : List A) → drop m (take (m + n) xs) ≡ take n (drop m xs)
  drop-take zero n xs = rw zero-add
  drop-take (suc m) n [] = rw (suc-add, take-nil n)
  drop-take (suc m) n (x ∷ xs) = rw (suc-add, drop-take m n xs)

module _ {ℓ κ} {A : Type ℓ} where
  -- what the test `p` shows of each item
  pub all-All :
      (p : A → Bool) (P : A → Type κ)
      → ((x : A) → p x ≡ true → P x)
      → (xs : List A) → all p xs ≡ true
      → All P xs
  all-All p P sound [] h = tt
  all-All p P sound (x ∷ xs) h = (sound x (ground arith), all-All p P sound xs (ground arith))

module _ {ℓ} {A : Type ℓ} where
  pub Memᴰ-append_left : {x : A} (xs ys : List A) → Memᴰ x xs → Memᴰ x (xs ++ ys)
  Memᴰ-append_left [] ys m = elim m [ ]
  Memᴰ-append_left (y ∷ xs) ys (Memᴰ.head e) = Memᴰ.head e
  Memᴰ-append_left (y ∷ xs) ys (Memᴰ.tail m) = Memᴰ.tail (Memᴰ-append_left xs ys m)

  pub Memᴰ-append_last : (xs : List A) (x : A) → Memᴰ x (xs ++ x ∷ [])
  Memᴰ-append_last [] x = Memᴰ.head refl
  Memᴰ-append_last (y ∷ xs) x = Memᴰ.tail (Memᴰ-append_last xs x)

  pub any-false : (p : A → Bool) {x : A} (xs : List A) → any p xs ≡ false → Memᴰ x xs → p x ≡ false
  any-false p [] h m = elim m [ ]
  any-false p (y ∷ xs) h (Memᴰ.head e) = subst (λ z. p z ≡ false) (sym e) (ground arith)
  any-false p (y ∷ xs) h (Memᴰ.tail m) = any-false p xs (ground arith) m

  pub All_of_Memᴰ {κ} : (P : A → Type κ) {x : A} (xs : List A) → All P xs → Memᴰ x xs → P x
  All_of_Memᴰ P [] h m = elim m [ ]
  All_of_Memᴰ P (y ∷ xs) h (Memᴰ.head e) = subst P (sym e) h.0
  All_of_Memᴰ P (y ∷ xs) h (Memᴰ.tail m) = All_of_Memᴰ P xs h.1 m

  pub find_item-Memᴰ : (p : A → Bool) (xs : List A) (x : A) → find_item p xs ≡ some x → Memᴰ x xs
  unfolding find_item
  find_item-Memᴰ p [] x e = cc
  find_item-Memᴰ p (y ∷ xs) x e = elim (Bool-cases (p y)) [
    | inl here ↦ Memᴰ.head (ground arith)
    | inr there ↦ Memᴰ.tail (find_item-Memᴰ p xs x (ground arith))
  ]
