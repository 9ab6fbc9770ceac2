-- ===== src/Text/Laws.antt =====
-- What the proofs about the program use of text.
use mathlib.Core.Option
use native.Mathlib.Nat.{zero-add, suc-add}
use homelab_mcp.Prelude.{
  ℕ, suc, ◌+◌, ◌≤◌, ◌≡◌, refl, ap, sym, subst, ==_iff, ◌==◌, inl, inr, ◌↔◌, true, false, Option,
  none, some, List, [], ◌∷◌, ◌++◌, arith, Option-cases, length, take, drop, All, Bool-cases,
  drop-append, length-append,
}
use homelab_mcp.Text.Defs.{Str, len, str_eq, strip_prefix, find, split, push_head, is_empty}

str_eq_sound : (s t : Str) → str_eq s t ≡ true → s ≡ t
unfolding str_eq
str_eq_sound [] [] e = refl
str_eq_sound (a ∷ s) (b ∷ t) e = ground (arith, str_eq_sound s t)
str_eq_sound [] (b ∷ t) e = cc
str_eq_sound (a ∷ s) [] e = cc

pub str_eq_refl : (s : Str) → str_eq s s ≡ true
unfolding str_eq
str_eq_refl [] = refl
str_eq_refl (a ∷ s) = ground (arith, str_eq_refl s)

pub str_eq_iff : (s t : Str) → (str_eq s t ≡ true) ↔ (s ≡ t)
str_eq_iff s t = (str_eq_sound s t, λ e. rw e (str_eq_refl t))

-- a text has at least as many bytes as characters
pub length-le-len : (s : Str) → length s ≤ len s
unfolding len
length-le-len [] = omega arith
length-le-len (c ∷ s) = ground (arith, length-le-len s)

pub strip_prefix_sound : (p s t : Str) → strip_prefix p s ≡ some t → s ≡ p ++ t
unfolding strip_prefix
strip_prefix_sound [] s t e = ground arith
strip_prefix_sound (a ∷ p) [] t e = cc
strip_prefix_sound (a ∷ p) (c ∷ s) t e = ground (arith, strip_prefix_sound p s t)

pub strip_prefix-append : (p t : Str) → strip_prefix p (p ++ t) ≡ some t
unfolding strip_prefix
strip_prefix-append [] t = refl
strip_prefix-append (a ∷ p) t = ground (arith, strip_prefix-append p t)

-- An occurrence of `pat` at offset `i`, and what the slices up to it and behind it are.
pub record Match (pat s : Str) (i : ℕ) : Type 0 where
  pub before : Str
  pub after : Str
  pub whole : s ≡ before ++ pat ++ after
  pub front : take i s ≡ before
  pub rest : drop (i + length pat) s ≡ after

Match-zero : (pat s t : Str) → strip_prefix pat s ≡ some t → Match pat s 0
Match-zero pat s t e =
    let whole = strip_prefix_sound pat s t e in
    record {
      before = [];
      after = t;
      whole = whole;
      front = refl;
      rest = rw (whole, zero-add) (drop-append pat t);
    }

Match-suc : (pat s : Str) (c i : ℕ) → Match pat s i → Match pat (c ∷ s) (suc i)
Match-suc pat s c i m = record {
  before = c ∷ m.before;
  after = m.after;
  whole = ap (◌∷◌ c) m.whole;
  front = ap (◌∷◌ c) m.front;
  rest = rw suc-add m.rest;
}

-- an offset that `find` gives is an occurrence
pub find-Match : (pat s : Str) (i : ℕ) → find pat s ≡ some i → Match pat s i
unfolding find
find-Match pat [] i e = elim (Option-cases (strip_prefix pat [])) [
  | inl missed ↦ absurd (ground arith)
  | inr (t, met) ↦ let at_start : i ≡ 0 = ground arith in rw at_start (Match-zero pat [] t met)
]
find-Match pat (c ∷ s) i e = elim (Option-cases (strip_prefix pat (c ∷ s))) [
  | inl missed ↦ elim (Option-cases (find pat s)) [
    | inl nowhere ↦ absurd (ground arith)
    | inr (j, found) ↦
        let later : i ≡ suc j = ground arith in
        rw later (Match-suc pat s c j (find-Match pat s j found))
  ]
  | inr (t, met) ↦ let at_start : i ≡ 0 = ground arith in rw at_start (Match-zero pat (c ∷ s) t met)
]

strip_prefix-extend :
    (p s t : Str) → strip_prefix p s ≡ none → length p ≤ length s → strip_prefix p (s ++ t) ≡ none
unfolding strip_prefix
strip_prefix-extend [] s t e h = cc
strip_prefix-extend (a ∷ p) [] t e h = absurd (omega arith)
strip_prefix-extend (a ∷ p) (c ∷ s) t e h = ground (arith, strip_prefix-extend p s t)

find-zero : (pat s t : Str) → strip_prefix pat s ≡ some t → find pat s ≡ some 0
unfolding find
find-zero pat [] t e = ground (arith, e)
find-zero pat (c ∷ s) t e = ground (arith, e)

find-cons :
    (pat s : Str) (c : ℕ)
    → strip_prefix pat (c ∷ s) ≡ none
    → find pat (c ∷ s) ≡ Option.map (λ i. suc i) (find pat s)
unfolding find
find-cons pat s c e = rw e

map-suc-eq-some : (o : Option ℕ) (n : ℕ) → Option.map (λ i. suc i) o ≡ some (suc n) → o ≡ some n
map-suc-eq-some none n e = cc
map-suc-eq-some (some m) n e = cc

-- A first match is found whatever stands behind it.
pub find-extend :
    (pat v t : Str)
    → find pat (v ++ pat) ≡ some (length v)
    → find pat (v ++ pat ++ t) ≡ some (length v)
find-extend pat [] t e = find-zero pat (pat ++ t) t (strip_prefix-append pat t)
find-extend pat (c ∷ v) t e = elim (Option-cases (strip_prefix pat (c ∷ v ++ pat))) [
  | inl missed ↦
      let later : find pat (v ++ pat) ≡ some (length v) =
        map-suc-eq-some _ _ (rw (find-cons pat (v ++ pat) c missed) at e) in
      let still : strip_prefix pat (c ∷ v ++ pat ++ t) ≡ none =
        strip_prefix-extend pat (c ∷ v ++ pat) t missed (omega (arith, length-append v pat)) in
      rw (find-cons pat (v ++ pat ++ t) c still, find-extend pat v t later)
  | inr (r, met) ↦ absurd (let first = find-zero pat (c ∷ v ++ pat) r met in cc)
]

All-push_head {ℓ} :
    (P : ℕ → Type ℓ) (c : ℕ) (parts : List Str)
    → All (All P) (push_head c parts)
    → P c × All (All P) parts
All-push_head P c [] h = (h.0.0, tt)
All-push_head P c (p ∷ ps) h = (h.0.0, (h.0.1, h.1))

-- What holds of every part of a split, and of the separator, holds of the whole.
pub All-split {ℓ} :
    (P : ℕ → Type ℓ) (sep : ℕ) (s : Str) → P sep → All (All P) (split sep s) → All P s
unfolding split
All-split P sep [] at_sep h = tt
All-split P sep (c ∷ s) at_sep h = elim (Bool-cases (c == sep)) [
  | inl same ↦
      let parts : All (All P) ([] ∷ split sep s) = rw same at h in
      (subst P (sym ((==_iff c sep).0 same)) at_sep, All-split P sep s at_sep parts.1)
  | inr other ↦
      let (here, rest) = All-push_head P c (split sep s) (rw other at h) in
      (here, All-split P sep s at_sep rest)
]

pub is_empty_iff : (s : Str) → (is_empty s ≡ false) ↔ (1 ≤ length s)
unfolding is_empty
is_empty_iff [] = ground arith
is_empty_iff (c ∷ s) = ground arith
