-- ===== src/Tasks.antt =====
-- A fallible call on a state: `?` in a method that sends requests. A failed call keeps what it did.
use homelab_mcp.Prelude.{
  ℕ, ◌+◌, ◌≤◌, ◌⊎◌, inl, inr, arith, Bool, true, false, if◌then◌else◌, ◌≡◌, refl, ap, subst, ◌∙◌,
  Result, ok, err, ok-injective,
}

abbrev pub Task : Type 0 → Type 0 → Type 0 → Type 0
Task E S A = S → Result E A × S

module _ {E S A : Type 0} where
  abbrev pub continue : {B : Type 0} → Result E A → S → (A → Task E S B) → Result E B × S
  continue (ok a) s f = f a s
  continue (err e) s f = (err e, s)

  infixl 5 ◌>>=◌ ◌>>◌
  abbrev pub ◌>>=◌ : {B : Type 0} → Task E S A → (A → Task E S B) → Task E S B
  (m >>= f) s = let (r, s') = m s in continue r s' f

  abbrev pub ◌>>◌ : {B : Type 0} → Task E S A → Task E S B → Task E S B
  m >> k = m >>= λ _. k

  abbrev pub lift : Result E A → Task E S A
  lift r s = (r, s)

-- The task leaves a measure of the state as it is.
pub record Keeps {E S M A : Type 0} (measure : S → M) (m : Task E S A) : Type 0 where
  pub at : (s : S) → measure (m s).1 ≡ measure s

module _ {E S M A B : Type 0} (measure : S → M) where
  pub continue-Keeps :
      (r : Result E A) (s : S) (f : A → Task E S B)
      → ((a : A) → Keeps measure (f a))
      → measure (continue r s f).1 ≡ measure s
  continue-Keeps (ok a) s f k = (k a).at s
  continue-Keeps (err e) s f k = refl

  pub Keeps-bind :
      (m : Task E S A) (f : A → Task E S B)
      → Keeps measure m
      → ((a : A) → Keeps measure (f a))
      → Keeps measure (m >>= f)
  Keeps-bind m f h k = record { at = λ s. continue-Keeps (m s).0 (m s).1 f k ∙ h.at s }

module _ {E S M A : Type 0} (measure : S → M) where
  pub Keeps-lift : (r : Result E A) → Keeps measure (lift {S = S} r)
  Keeps-lift r = record { at = λ s. refl }

module _ {E S A B : Type 0} where
  -- the inversion of a call that succeeds
  pub >>=-eq-ok :
      (m : Task E S A) (f : A → Task E S B) (s s' : S) {b : B}
      → (m >>= f) s ≡ (ok b, s')
      → (a : A) × ((m s).0 ≡ ok a) × (f a (m s).1 ≡ (ok b, s'))
  >>=-eq-ok m f s s' h = continued (m s).0 (m s).1 h
    where
      continued :
          {b : B} (r : Result E A) (t : S)
          → continue r t f ≡ (ok b, s')
          → (a : A) × (r ≡ ok a) × (f a t ≡ (ok b, s'))
      continued (ok a) t e = (a, refl, e)
      continued (err e) t h = cc

pub not_ok :
    {E A S : Type 0} {e : E} {a : A} {s s' : S} → ◌≡◌ {A = Result E A × S} (err e, s) (ok a, s') → ⊥
not_ok h = cc

-- Whatever the task returns has the property.
pub record Yields {E S A : Type 0} (P : A → Type 0) (m : Task E S A) : Type 0 where
  pub at : (s s' : S) (a : A) → m s ≡ (ok a, s') → P a

module _ {E S A B : Type 0} where
  pub Yields-bind :
      (P : B → Type 0) (m : Task E S A) (f : A → Task E S B)
      → ((a : A) → Yields P (f a))
      → Yields P (m >>= f)
  Yields-bind P m f k = record {
    at = λ s s' b h. let (a, answered, later) = >>=-eq-ok m f s s' h in (k a).at (m s).1 s' b later;
  }

  -- with what is known of the first result
  pub Yields-bind_known :
      (Q : A → Type 0) (P : B → Type 0) (m : Task E S A) (f : A → Task E S B)
      → Yields Q m
      → ((a : A) → Q a → Yields P (f a))
      → Yields P (m >>= f)
  Yields-bind_known Q P m f q k = record {
    at = λ s s' b h.
        let (a, answered, later) = >>=-eq-ok m f s s' h in
        (k a (q.at s (m s).1 a (ap (λ r. (r, (m s).1)) answered))).at (m s).1 s' b later;
  }

  -- the first call only looks at a result, and it is known which
  pub Yields-lift :
      (P : B → Type 0) (r : Result E A) (f : A → Task E S B)
      → ((a : A) → r ≡ ok a → Yields P (f a))
      → Yields P (lift r >>= f)
  Yields-lift P r f k = record {
    at = λ s s' b h.
        let (a, answered, later) = >>=-eq-ok (lift r) f s s' h in (k a answered).at s s' b later;
  }

module _ {E S B : Type 0} where
  pub Yields-ok : (P : B → Type 0) (b : B) → P b → Yields P (lift {E = E} {S = S} (ok b))
  Yields-ok P b p = record { at = λ s s' a h. subst P (ok-injective b a (ap (λ r. r.0) h)) p }

  pub Yields-err : (P : B → Type 0) (e : E) → Yields P (lift {E = E} {S = S} (err e))
  Yields-err P e = record { at = λ s s' a h. absurd (not_ok h) }

-- The task raises a measure of the state by at most a bound, and never lowers it.
pub record Costs {E S A : Type 0} (measure : S → ℕ) (n : ℕ) (m : Task E S A) : Type 0 where
  pub at : (s : S) → (measure s ≤ measure (m s).1) × (measure (m s).1 ≤ measure s + n)

module _ {E S A B : Type 0} (measure : S → ℕ) where
  continue-Costs :
      (n : ℕ) (r : Result E A) (s : S) (f : A → Task E S B)
      → ((a : A) → r ≡ ok a → Costs measure n (f a))
      → (measure s ≤ measure (continue r s f).1) × (measure (continue r s f).1 ≤ measure s + n)
  continue-Costs n (ok a) s f k = (k a refl).at s
  continue-Costs n (err e) s f k = (omega arith, omega arith)

  pub Costs-bind :
      (n k : ℕ) (m : Task E S A) (f : A → Task E S B)
      → Costs measure n m
      → ((a : A) → Costs measure k (f a))
      → Costs measure (n + k) (m >>= f)
  Costs-bind n k m f first later = record {
    at = λ s.
        let a = first.at s in
        let b = continue-Costs k (m s).0 (m s).1 f (λ x _. later x) in
        (omega (arith, a.0, b.0), omega (arith, a.1, b.1));
  }

  -- what follows costs nothing
  pub Costs-last :
      (n : ℕ) (m : Task E S A) (f : A → Task E S B)
      → Costs measure n m
      → ((a : A) → Costs measure 0 (f a))
      → Costs measure n (m >>= f)
  Costs-last n m f first later = record {
    at = λ s. let a = (Costs-bind n 0 m f first later).at s in (a.0, omega (arith, a.1));
  }

  -- what the first result is known to be
  pub Costs-lift :
      (n : ℕ) (r : Result E A) (f : A → Task E S B)
      → ((a : A) → r ≡ ok a → Costs measure n (f a))
      → Costs measure n (lift r >>= f)
  Costs-lift n r f k = record { at = λ s. continue-Costs n r s f k }

  -- a task that costs nothing in front of one that changes the measure for a reason only
  pub Costs-guard :
      (P : S → Type 0) (m : Task E S A) (f : A → Task E S B) (s : S)
      → Costs measure 0 m
      → ((a : A) → (m s).0 ≡ ok a → (measure (f a (m s).1).1 ≡ measure (m s).1) ⊎ P (f a (m s).1).1)
      → (measure ((m >>= f) s).1 ≡ measure s) ⊎ P ((m >>= f) s).1
  Costs-guard P m f s c k = elim (guarded (m s).0 (m s).1 k) [
    | inl same ↦ inl (same ∙ omega (arith, (c.at s).0, (c.at s).1))
    | inr p ↦ inr p
  ]
    where
      guarded :
          (r : Result E A) (t : S)
          → ((a : A) → r ≡ ok a → (measure (f a t).1 ≡ measure t) ⊎ P (f a t).1)
          → (measure (continue r t f).1 ≡ measure t) ⊎ P (continue r t f).1
      guarded (ok a) t k = k a refl
      guarded (err e) t k = inl refl

  -- the same where only a result is looked at
  pub Costs-check :
      (P : S → Type 0) (r : Result E A) (f : A → Task E S B) (s : S)
      → ((a : A) → r ≡ ok a → (measure (f a s).1 ≡ measure s) ⊎ P (f a s).1)
      → (measure ((lift r >>= f) s).1 ≡ measure s) ⊎ P ((lift r >>= f) s).1
  Costs-check P (ok a) f s k = k a refl
  Costs-check P (err e) f s k = inl refl

module _ {E S A : Type 0} (measure : S → ℕ) where
  pub Costs-pure : (r : Result E A) → Costs measure 0 (lift {S = S} r)
  Costs-pure r = record { at = λ s. (omega arith, omega arith) }

  pub Costs-if :
      (n : ℕ) (b : Bool) (m k : Task E S A)
      → Costs measure n m
      → Costs measure n k
      → Costs measure n (if b then m else k)
  Costs-if n true m k c d = c
  Costs-if n false m k c d = d

  pub Costs-mono : (n k : ℕ) (m : Task E S A) → n ≤ k → Costs measure n m → Costs measure k m
  Costs-mono n k m le c = record { at = λ s. ((c.at s).0, omega (arith, (c.at s).1, le)) }
