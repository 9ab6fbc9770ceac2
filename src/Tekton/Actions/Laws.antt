-- ===== src/Tekton/Actions/Laws.antt =====
-- What the client makes of an id that the tool arguments of src/integrations/tekton/actions.rs let
-- through (src/integrations/tekton/client.rs, `namespaced_id`).
use homelab_mcp.Prelude.{
  ℕ, ◌≡◌, refl, ap, ap₂, subst, ◌∙◌, Bool, true, false, not, ◌&&◌, ◌||◌, some, List, [], ◌∷◌, ◌++◌,
  ok, err, arith, ◌==◌, if◌then◌else◌, Bool-cases, inl, inr, ==_iff, reject_if, ◌>>◌,
}
use homelab_mcp.Text.{Str, str_eq, split, contains_char, is_empty}
use homelab_mcp.Tekton.{invalid_arguments}
use homelab_mcp.Tekton.Objects.{split_once, namespaced_id}
use homelab_mcp.Tekton.Actions.{valid_pair, valid_dns, valid_namespaced_id}

split-cases : (sep : ℕ) (s : Str) → (p : Str) × (ps : List Str) × (split sep s ≡ p ∷ ps)
unfolding split
split-cases sep [] = ([], [], refl)
split-cases sep (c ∷ s) = elim (Bool-cases (c == sep)) [
  | inl here ↦ ([], split sep s, rw here)
  | inr there ↦ let (p, ps, e) = split-cases sep s in (c ∷ p, ps, rw (there, e))
]

heads : {a b : Str} {p q : List Str} → ◌≡◌ {A = List Str} (a ∷ p) (b ∷ q) → (a ≡ b) × (p ≡ q)
heads e = (cc, cc)

-- The separator stands in no part that is the only one.
split-single :
    (sep : ℕ) (s b : Str) → split sep s ≡ b ∷ [] → (s ≡ b) × (contains_char s sep ≡ false)
unfolding split contains_char
split-single sep [] b e = ((heads e).0, refl)
split-single sep (c ∷ s) b e = elim (Bool-cases (c == sep)) [
  | inl here ↦
      let (p, ps, parts) = split-cases sep s in
      let two : ◌≡◌ {A = List Str} ([] ∷ p ∷ ps) (b ∷ []) = rw (here, parts) at e in
      absurd (cons-ne-nil (heads two).1)
  | inr there ↦
      let (p, ps, parts) = split-cases sep s in
      let one : ◌≡◌ {A = List Str} ((c ∷ p) ∷ ps) (b ∷ []) = rw (there, parts) at e in
      let (same, free) = split-single sep s p (parts ∙ ap (◌∷◌ p) (heads one).1) in
      (ap (◌∷◌ c) same ∙ (heads one).0, rw there free)
]
  where
    cons-ne-nil : {p : Str} {ps : List Str} → ◌≡◌ {A = List Str} (p ∷ ps) [] → ⊥
    cons-ne-nil h = cc

-- Two parts are the text around its only separator.
split-pair :
    (sep : ℕ) (s a b : Str)
    → split sep s ≡ a ∷ b ∷ []
    → (split_once sep s ≡ some (a, b)) × (s ≡ a ++ sep ∷ b) × (contains_char b sep ≡ false)
unfolding split split_once
split-pair sep [] a b e = absurd (nil-ne-cons (heads e).1)
  where
    nil-ne-cons : {p : Str} {ps : List Str} → ◌≡◌ {A = List Str} [] (p ∷ ps) → ⊥
    nil-ne-cons h = cc
split-pair sep (c ∷ s) a b e = elim (Bool-cases (c == sep)) [
  | inl here ↦
      let both : ◌≡◌ {A = List Str} ([] ∷ split sep s) (a ∷ b ∷ []) = rw here at e in
      let (same, free) = split-single sep s b (heads both).1 in
      (
        rw here (ap some (ap₂ (λ x y. (x, y)) (heads both).0 same)),
        ap₂ (λ x y. x ∷ y) ((==_iff c sep).0 here) same ∙ ap (λ x. x ++ sep ∷ b) (heads both).0,
        subst (λ t. contains_char t sep ≡ false) same free,
      )
  | inr there ↦
      let (p, ps, parts) = split-cases sep s in
      let both : ◌≡◌ {A = List Str} ((c ∷ p) ∷ ps) (a ∷ b ∷ []) = rw (there, parts) at e in
      let (once, whole, free) = split-pair sep s p b (parts ∙ ap (◌∷◌ p) (heads both).1) in
      (
        rw (there, once) (ap (λ x. some (x, b)) (heads both).0),
        ap (◌∷◌ c) whole ∙ ap (λ x. x ++ sep ∷ b) (heads both).0,
        free,
      )
]

and-parts : (a b : Bool) → a && b ≡ true → (a ≡ true) × (b ≡ true)
and-parts a b h = (ground arith, ground arith)

pair-parts :
    (valid : Str → Bool) (parts : List Str)
    → valid_pair valid parts ≡ true
    → (a : Str) × (b : Str) × (parts ≡ a ∷ b ∷ []) × (valid a ≡ true) × (valid b ≡ true)
pair-parts valid (a ∷ b ∷ []) h =
    let (left, right) = and-parts (valid a) (valid b) h in (a, b, refl, left, right)
pair-parts valid [] h = cc
pair-parts valid (a ∷ []) h = cc
pair-parts valid (a ∷ b ∷ c ∷ rest) h = cc

valid_dns-filled : (s : Str) → valid_dns s ≡ true → is_empty s ≡ false
unfolding valid_dns
valid_dns-filled s h = ground arith

-- An id that the arguments let through is a namespace and a name around its only slash, each of at
-- most 253 lower-case letters, digits, dashes and dots; the client takes the name of it exactly if the
-- namespace is its own, and refuses the arguments otherwise.
pub valid_namespaced_id-namespaced_id :
    (id expected : Str)
    → valid_namespaced_id id ≡ true
    → (namespace : Str) × (name : Str) × (id ≡ namespace ++ b'/' ∷ name)
      × (valid_dns namespace ≡ true)
      × (valid_dns name ≡ true)
      × (namespaced_id id expected
          ≡ (if str_eq namespace expected then ok name else err invalid_arguments))
unfolding valid_namespaced_id namespaced_id
valid_namespaced_id-namespaced_id id expected h =
    let (namespace, name, parts, namespace_ok, name_ok) = pair-parts valid_dns (split b'/' id) h in
    let (once, whole, free) = split-pair b'/' id namespace name parts in
    (
      namespace,
      name,
      whole,
      namespace_ok,
      name_ok,
      rw (once, valid_dns-filled name name_ok, free) (chosen (str_eq namespace expected) name),
    )
  where
    chosen :
        (same : Bool) (name : Str)
        → (do reject_if (not same || false || false) invalid_arguments; ok name)
          ≡ (if same then ok name else err invalid_arguments)
    chosen true name = refl
    chosen false name = refl
