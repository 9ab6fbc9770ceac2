-- ===== src/Tekton/Texts/Truncation.antt =====
-- What `truncate_utf8` of src/integrations/tekton/client.rs keeps of a text.
use homelab_mcp.Prelude.{
  ℕ, zero, suc, ◌+◌, ◌-◌, ◌≤◌, ◌<◌, ◌≡◌, refl, sym, ap, subst, ◌∙◌, true, false, some, ◌&&◌, ◌||◌,
  [], ◌∷◌, ◌++◌, arith, ltb, leb, ◌==◌, if◌then◌else◌, Bool-cases, inl, inr, append-nil,
}
use homelab_mcp.Text.{Str, len, char_width}
use homelab_mcp.Tekton.Texts.{is_char_boundary, boundary_below, cut, truncate, truncate_utf8}

-- The longest start of a text that takes at most so many bytes.
pub record IsLongest (s : Str) (maximum : ℕ) (t : Str) : Type 0 where
  pub rest : Str
  pub spells : s ≡ t ++ rest
  pub fits : len t ≤ maximum
  pub longest : (c : ℕ) (behind : Str) → rest ≡ c ∷ behind → maximum < len t + char_width c

char_width-pos : (c : ℕ) → 1 ≤ char_width c
char_width-pos c = ground arith

is_char_boundary-zero : (s : Str) → is_char_boundary s 0 ≡ true
unfolding is_char_boundary
is_char_boundary-zero [] = refl
is_char_boundary-zero (c ∷ s) = refl

cut-inside_step :
    (w n c : ℕ) (s : Str)
    → 1 ≤ w
    → ((suc n == 0) || (leb w (suc n) && is_char_boundary s (suc n - w))) ≡ false
    → ((k : ℕ) → is_char_boundary s (suc k) ≡ false → cut s (suc k) ≡ cut s k)
    → (if leb w (suc n) then c ∷ cut s (suc n - w) else [])
      ≡ (if leb w n then c ∷ cut s (n - w) else [])
cut-inside_step w n c s pos h step = elim (Bool-cases (leb w n)) [
  | inl fits ↦
      let same : suc n - w ≡ suc (n - w) = ground arith in ground (arith, same, step (n - w))
  | inr wide ↦ elim (Bool-cases (leb w (suc n))) [
    | inl exact ↦
        let start : suc n - w ≡ 0 = ground arith in
        absurd (ground (arith, start, is_char_boundary-zero s))
    | inr wider ↦ ground arith
  ]
]

cut-inside : (s : Str) (n : ℕ) → is_char_boundary s (suc n) ≡ false → cut s (suc n) ≡ cut s n
unfolding is_char_boundary cut
cut-inside [] n h = refl
cut-inside (c ∷ s) n h = cut-inside_step (char_width c) n c s (char_width-pos c) h (cut-inside s)

cut-boundary_below : (s : Str) (n : ℕ) → cut s (boundary_below s n) ≡ cut s n
unfolding boundary_below
cut-boundary_below s zero = refl
cut-boundary_below s (suc n) = elim (Bool-cases (is_char_boundary s (suc n))) [
  | inl yes_here ↦ rw yes_here
  | inr inside ↦ rw inside (cut-boundary_below s n ∙ sym (cut-inside s n inside))
]

cut-IsLongest : (s : Str) (n : ℕ) → IsLongest s n (cut s n)
unfolding cut len
cut-IsLongest [] n = record {
  rest = [];
  spells = refl;
  fits = omega arith;
  longest = λ c behind e. cc;
}
cut-IsLongest (c ∷ s) n = elim (Bool-cases (leb (char_width c) n)) [
  | inl fits ↦
      let k = cut-IsLongest s (n - char_width c) in
      rw fits (record {
        rest = k.rest;
        spells = ap (λ l. c ∷ l) k.spells;
        fits = ground (arith, k.fits);
        longest = λ d behind e. ground (arith, k.longest d behind e);
      })
  | inr wide ↦ rw wide (record {
    rest = c ∷ s;
    spells = refl;
    fits = omega arith;
    longest = λ d behind e.
        let same : c ≡ d = cc in subst (λ x. n < 0 + char_width x) same (ground arith);
  })
]

boundary_below-boundary : (s : Str) (n : ℕ) → is_char_boundary s (boundary_below s n) ≡ true
unfolding boundary_below
boundary_below-boundary s zero = is_char_boundary-zero s
boundary_below-boundary s (suc n) = elim (Bool-cases (is_char_boundary s (suc n))) [
  | inl yes_here ↦ rw yes_here yes_here
  | inr inside ↦ rw inside (boundary_below-boundary s n)
]

boundary_below-le : (s : Str) (n : ℕ) → boundary_below s n ≤ n
unfolding boundary_below
boundary_below-le s zero = omega arith
boundary_below-le s (suc n) = elim (Bool-cases (is_char_boundary s (suc n))) [
  | inl yes_here ↦ rw yes_here (omega arith)
  | inr inside ↦ rw inside (omega (arith, boundary_below-le s n))
]

truncate-boundary :
    (s : Str) (n : ℕ) → n ≤ len s → is_char_boundary s n ≡ true → truncate s n ≡ some (cut s n)
unfolding truncate
truncate-boundary s n within boundary =
    let shorter : ltb (len s) n ≡ false = ground arith in rw (shorter, boundary)

-- Truncating never panics. A text within the bound stays as it is; of a longer one stays the
-- longest start that takes at most the bound in bytes and ends between two characters; and what is
-- reported is whether the text was longer than the bound.
pub truncate_utf8-IsLongest :
    (value : Str) (maximum : ℕ)
    → (kept : Str) × (truncate_utf8 value maximum ≡ some (kept, ltb maximum (len value)))
      × IsLongest value maximum kept
unfolding truncate_utf8
truncate_utf8-IsLongest value maximum = elim (Bool-cases (leb (len value) maximum)) [
  | inl short ↦
      let uncut : ltb maximum (len value) ≡ false = ground arith in
      (
        value,
        rw (short, uncut),
        record {
          rest = [];
          spells = sym (append-nil value);
          fits = ground arith;
          longest = λ c behind e. cc;
        },
      )
  | inr long ↦
      let boundary = boundary_below value maximum in
      let longer : ltb maximum (len value) ≡ true = ground arith in
      let within : boundary ≤ len value = ground (arith, boundary_below-le value maximum) in
      (
        cut value boundary,
        rw (
          long,
          longer,
          truncate-boundary value boundary within (boundary_below-boundary value maximum),
        ),
        rw (cut-boundary_below value maximum) (cut-IsLongest value maximum),
      )
]
