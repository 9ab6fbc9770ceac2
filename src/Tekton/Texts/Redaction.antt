-- ===== src/Tekton/Texts/Redaction.antt =====
-- Secrets in a redacted text (src/integrations/tekton/client.rs).
use homelab_mcp.Prelude.{
  ℕ, zero, suc, ◌-◌, ◌≡◌, ◌≢◌, refl, ◌∙◌, subst, append_assoc, ap, true, false, List, [], ◌∷◌, ◌++◌,
  arith, All, is_some, Bool-cases, inl, inr, length,
}
use homelab_mcp.Text.{Str, lit, strip_prefix, contains_char}
use homelab_mcp.Tekton.Texts.{replace_from, redact_one, redact, redacted_mark}

-- The pattern starts at no place of the text.
pub record Absent (pattern s : Str) : Type 0 where
  pub nowhere : (before after : Str) → s ≢ before ++ pattern ++ after

-- the same, place by place
abbrev Free : Str → Str → Type 0
Free pattern [] = is_some (strip_prefix pattern []) ≡ false
Free pattern (c ∷ s) = (is_some (strip_prefix pattern (c ∷ s)) ≡ false) × Free pattern s

-- A secret that the mark cannot hide: no bracket, and no part of the word in the mark.
pub record IsSecret (secret : Str) : Type 0 where
  pub no_open : contains_char secret b'[' ≡ false
  pub no_close : contains_char secret b']' ≡ false
  pub apart : Free secret (lit "REDACTED")

-- A match in front of a character that the pattern lacks lies before it.
strip_prefix-stop :
    (pattern w t : Str) (c : ℕ)
    → contains_char pattern c ≡ false
    → is_some (strip_prefix pattern (w ++ c ∷ t)) ≡ true
    → is_some (strip_prefix pattern w) ≡ true
unfolding strip_prefix contains_char
strip_prefix-stop [] w t c h e = refl
strip_prefix-stop (p ∷ ps) [] t c h e = ground arith
strip_prefix-stop (p ∷ ps) (d ∷ w) t c h e = ground (arith, strip_prefix-stop ps w t c)

Free-stop :
    (pattern w t : Str) (c : ℕ)
    → contains_char pattern c ≡ false
    → Free pattern w
    → Free pattern t
    → Free pattern (w ++ c ∷ t)
Free-stop pattern [] t c h f g = (ground (arith, strip_prefix-stop pattern [] t c), g)
Free-stop pattern (d ∷ w) t c h f g =
    (ground (arith, strip_prefix-stop pattern (d ∷ w) t c), Free-stop pattern w t c h f.1 g)

-- Where the replaced text has a match, so had the text before: a match has no bracket.
strip_prefix-replace_from :
    (other pattern s : Str)
    → contains_char pattern b'[' ≡ false
    → is_some (strip_prefix pattern (replace_from other redacted_mark zero s)) ≡ true
    → is_some (strip_prefix pattern s) ≡ true
unfolding strip_prefix replace_from contains_char
strip_prefix-replace_from other [] s h e = refl
strip_prefix-replace_from other (p ∷ ps) [] h e = e
strip_prefix-replace_from other (p ∷ ps) (c ∷ s) h e =
    elim (Bool-cases (is_some (strip_prefix other (c ∷ s)))) [
      | inl matched ↦ absurd (ground arith)
      | inr kept ↦ ground (arith, strip_prefix-replace_from other ps s)
    ]

strip_prefix-kept :
    (other pattern s : Str) (c : ℕ)
    → contains_char pattern b'[' ≡ false
    → is_some (strip_prefix pattern (c ∷ s)) ≡ false
    → is_some (strip_prefix pattern (c ∷ replace_from other redacted_mark zero s)) ≡ false
unfolding strip_prefix contains_char
strip_prefix-kept other [] s c h e = e
strip_prefix-kept other (p ∷ ps) s c h e = ground (arith, strip_prefix-replace_from other ps s)

-- Where the other text does not match, neither does the pattern.
abbrev Follows : Str → Str → Str → Type 0
Follows pattern other [] = is_some (strip_prefix pattern []) ≡ false
Follows pattern other (c ∷ s) =
    (is_some (strip_prefix other (c ∷ s)) ≡ false → is_some (strip_prefix pattern (c ∷ s)) ≡ false)
    × Follows pattern other s

Follows-of_Free : (pattern other s : Str) → Free pattern s → Follows pattern other s
Follows-of_Free pattern other [] f = f
Follows-of_Free pattern other (c ∷ s) f = (λ h. f.0, Follows-of_Free pattern other s f.1)

Follows-refl :
    (pattern s : Str) → is_some (strip_prefix pattern []) ≡ false → Follows pattern pattern s
Follows-refl pattern [] h = h
Follows-refl pattern (c ∷ s) h = (λ k. k, Follows-refl pattern s h)

Free-mark :
    (pattern t : Str) → IsSecret pattern → Free pattern t → Free pattern (redacted_mark ++ t)
Free-mark pattern t k f =
    Free-stop pattern [] (lit "REDACTED" ++ b']' ∷ t) b'[' k.no_open k.apart.1.1.1.1.1.1.1.1
      (Free-stop pattern (lit "REDACTED") t b']' k.no_close k.apart f)

Free-replace_from :
    (pattern other s : Str) (skip : ℕ)
    → IsSecret pattern
    → Follows pattern other s
    → Free pattern (replace_from other redacted_mark skip s)
unfolding replace_from
Free-replace_from pattern other [] skip k f = f
Free-replace_from pattern other (c ∷ s) (suc skip) k f =
    Free-replace_from pattern other s skip k f.1
Free-replace_from pattern other (c ∷ s) zero k f =
    elim (Bool-cases (is_some (strip_prefix other (c ∷ s)))) [
      | inl matched ↦
          rw matched
            (Free-mark pattern _ k (Free-replace_from pattern other s (length other - 1) k f.1))
      | inr kept ↦ rw kept (
        strip_prefix-kept other pattern s c k.no_open (f.0 kept),
        Free-replace_from pattern other s zero k f.1,
      )
    ]

abbrev secret_nil : {pattern : Str} → IsSecret pattern → is_some (strip_prefix pattern []) ≡ false
secret_nil k = k.apart.1.1.1.1.1.1.1.1

-- what was redacted stays absent, and a redacted secret is absent
Free-redact :
    (pattern text : Str) (secrets : List Str)
    → IsSecret pattern
    → Free pattern text
    → Free pattern (redact secrets text)
unfolding redact redact_one
Free-redact pattern text [] k f = f
Free-redact pattern text (secret ∷ secrets) k f =
    Free-redact pattern (redact_one secret text) secrets k
      (Free-replace_from pattern secret text zero k (Follows-of_Free pattern secret text f))

redact-Free :
    (text : Str) (secrets : List Str)
    → All IsSecret secrets
    → All (λ secret. Free secret (redact secrets text)) secrets
unfolding redact redact_one
redact-Free text [] k = tt
redact-Free text (secret ∷ secrets) k = (
  Free-redact secret (redact_one secret text) secrets k.0
      (Free-replace_from secret secret text zero k.0 (Follows-refl secret text (secret_nil k.0))),
  redact-Free (redact_one secret text) secrets k.1,
)

strip_prefix-front :
    (pattern after : Str) → is_some (strip_prefix pattern (pattern ++ after)) ≡ true
unfolding strip_prefix
strip_prefix-front [] after = refl
strip_prefix-front (p ∷ ps) after = ground (arith, strip_prefix-front ps after)

Free-head : (pattern s : Str) → Free pattern s → is_some (strip_prefix pattern s) ≡ false
Free-head pattern [] f = f
Free-head pattern (c ∷ s) f = f.0

Free-nowhere : (pattern before after : Str) → Free pattern (before ++ pattern ++ after) → ⊥
Free-nowhere pattern [] after f =
    absurd (cc (Free-head pattern (pattern ++ after) f, strip_prefix-front pattern after))
Free-nowhere pattern (c ∷ before) after f = Free-nowhere pattern before after f.1

Free-Absent : (pattern s : Str) → Free pattern s → Absent pattern s
Free-Absent pattern s f = record {
  nowhere = λ before after e. Free-nowhere pattern before after (subst (Free pattern) e f);
}

pub Absent-prefix : (pattern s t : Str) → Absent pattern (s ++ t) → Absent pattern s
Absent-prefix pattern s t a = record {
  nowhere = λ before after e.
      a.nowhere before (after ++ t) (ap (λ x. x ++ t) e ∙ append_assoc (before ++ pattern) after t);
}

All-Absent :
    (text : Str) (secrets : List Str)
    → All (λ secret. Free secret text) secrets
    → All (λ secret. Absent secret text) secrets
All-Absent text [] f = tt
All-Absent text (secret ∷ secrets) f = (Free-Absent secret text f.0, All-Absent text secrets f.1)

-- No secret stands anywhere in a redacted text, if no secret has a bracket or is part of the word
-- in the mark.
pub redact-Absent :
    (text : Str) (secrets : List Str)
    → All IsSecret secrets
    → All (λ secret. Absent secret (redact secrets text)) secrets
redact-Absent text secrets k = All-Absent (redact secrets text) secrets (redact-Free text secrets k)

All-Absent-redact_one :
    (text other : Str) (secrets : List Str)
    → All IsSecret secrets
    → All (λ secret. Free secret text) secrets
    → All (λ secret. Absent secret (redact_one other text)) secrets
unfolding redact redact_one
All-Absent-redact_one text other [] k f = tt
All-Absent-redact_one text other (secret ∷ secrets) k f = (
  Free-Absent secret (redact_one other text) (Free-redact secret text (other ∷ []) k.0 f.0),
  All-Absent-redact_one text other secrets k.1 f.1,
)

-- one more replacement brings no secret back
pub redact_one-Absent :
    (text other : Str) (secrets : List Str)
    → All IsSecret secrets
    → All (λ secret. Absent secret (redact_one other (redact secrets text))) secrets
redact_one-Absent text other secrets k =
    All-Absent-redact_one (redact secrets text) other secrets k (redact-Free text secrets k)
