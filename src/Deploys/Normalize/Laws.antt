-- ===== src/Deploys/Normalize/Laws.antt =====
-- The report parser against a printer of reports.
use homelab_mcp.Prelude.{
  ℕ, ◌+◌, ◌≡◌, refl, sym, ap, ap₂, subst, ◌∙◌, true, false, not, some, List, [], ◌∷◌, ◌++◌, map,
  arith, append-nil, append_assoc, ok, ok_or, reject_if, length, take, drop, All, >>=-eq-ok,
  ok_or-eq-ok, reject_if-eq-ok, ok-injective, take-append, drop-append, length-append,
}
use homelab_mcp.Text.{
  Str, contains, strip_prefix, find, strip_prefix_sound, strip_prefix-append, Match, find-Match,
  find-extend, is_empty,
}
use homelab_mcp.Deploys.{invalid_output}
use homelab_mcp.Deploys.Normalize.{
  section_names, section_begin, section_finish, report_begin, report_end, Section, bad_value,
  parse_sections, parse_report,
}

-- the text of a section and of a list of sections
abbrev pub print_section : Section → Str
print_section (name, value) = section_begin name ++ value ++ section_finish name

unfoldable pub print_sections : List Section → Str
print_sections [] = []
print_sections (s ∷ ss) = print_section s ++ print_sections ss

abbrev pub names : List Section → List Str
names = map (λ s. s.0)

-- The sections and the rest that a parse gives are what its text spells.
record IsPrinted (ns : List Str) (text : Str) (p : List Section × Str) : Type 0 where
  spells : text ≡ print_sections p.0 ++ p.1
  named : names p.0 ≡ ns
  bounded : All (λ s. bad_value s.1 ≡ false) p.0

Match-spells :
    (pat text : Str) (i : ℕ)
    → Match pat text i
    → text ≡ take i text ++ pat ++ drop (i + length pat) text
Match-spells pat text i m = m.whole ∙ ap₂ (λ a b. a ++ pat ++ b) (sym m.front) (sym m.rest)

regroup : (a b c d e : Str) → a ++ (b ++ c ++ (d ++ e)) ≡ a ++ b ++ c ++ d ++ e
regroup a b c d e = simp append_assoc

IsPrinted-cons :
    (n : Str) (ns : List Str) (text inner : Str) (i : ℕ) (p : List Section × Str)
    → strip_prefix (section_begin n) text ≡ some inner
    → find (section_finish n) inner ≡ some i
    → bad_value (take i inner) ≡ false
    → IsPrinted ns (drop (i + length (section_finish n)) inner) p
    → IsPrinted (n ∷ ns) text ((n, take i inner) ∷ p.0, p.1)
unfolding print_sections
IsPrinted-cons n ns text inner i p stripped found good later = record {
  spells =
      strip_prefix_sound (section_begin n) text inner stripped
      ∙ ap (λ t. section_begin n ++ t)
          (Match-spells (section_finish n) inner i (find-Match _ inner i found))
      ∙ ap (λ t. section_begin n ++ (take i inner ++ section_finish n ++ t)) later.spells
      ∙ regroup (section_begin n) (take i inner) (section_finish n) (print_sections p.0) p.1;
  named = ap (λ l. n ∷ l) later.named;
  bounded = (good, later.bounded);
}

parse_sections-IsPrinted :
    (ns : List Str) (text : Str) (p : List Section × Str)
    → parse_sections ns text ≡ ok p
    → IsPrinted ns text p
unfolding parse_sections print_sections
parse_sections-IsPrinted [] text p e =
    subst (IsPrinted [] text) (ok-injective ([], text) p e)
      (record { spells = refl; named = refl; bounded = tt })
parse_sections-IsPrinted (n ∷ ns) text p e =
    let (inner, stripped, e1) =
      >>=-eq-ok (ok_or invalid_output (strip_prefix (section_begin n) text)) _ e in
    let (i, found, e2) = >>=-eq-ok (ok_or invalid_output (find (section_finish n) inner)) _ e1 in
    let (_, good, e3) = >>=-eq-ok (reject_if (bad_value (take i inner)) invalid_output) _ e2 in
    let (parsed, later, e4) =
      >>=-eq-ok (parse_sections ns (drop (i + length (section_finish n)) inner)) _ e3 in
    subst (IsPrinted (n ∷ ns) text) (ok-injective _ p e4) (
      IsPrinted-cons n ns text inner i parsed (ok_or-eq-ok _ _ stripped) (ok_or-eq-ok _ _ found)
        (reject_if-eq-ok _ _ good)
        (parse_sections-IsPrinted ns (drop (i + length (section_finish n)) inner) parsed later))

-- A value whose closing line is the first one in the text, within the size bound and with no NUL.
pub record IsClean (s : Section) : Type 0 where
  pub closes_first : find (section_finish s.0) (s.1 ++ section_finish s.0) ≡ some (length s.1)
  pub bounded : bad_value s.1 ≡ false

take_front : (v f t : Str) → take (length v) (v ++ f ++ t) ≡ v
take_front v f t = rw append_assoc (take-append v (f ++ t))

drop_behind : (v f t : Str) → drop (length v + length f) (v ++ f ++ t) ≡ t
drop_behind v f t = rw (← length-append v f) (drop-append (v ++ f) t)

-- Clean sections are read back from their text, whatever stands behind it.
pub parse_sections-print :
    (sections : List Section) (rest : Str)
    → All IsClean sections
    → parse_sections (names sections) (print_sections sections ++ rest) ≡ ok (sections, rest)
unfolding parse_sections print_sections
parse_sections-print [] rest k = refl
parse_sections-print ((n, v) ∷ ss) rest k =
    let f = section_finish n in
    let t = print_sections ss ++ rest in
    rw (
      sym (regroup (section_begin n) v f (print_sections ss) rest),
      strip_prefix-append (section_begin n) (v ++ f ++ t),
      find-extend f v t k.0.closes_first,
      take_front v f t,
      k.0.bounded,
      drop_behind v f t,
      parse_sections-print ss rest k.1,
    )

-- The parts of a text that was accepted as a report.
pub record IsReport (text : Str) (sections : List Section) : Type 0 where
  pub before : Str
  pub after : Str
  pub whole : text ≡ before ++ report_begin ++ (print_sections sections ++ report_end ++ after)
  pub named : names sections ≡ section_names
  pub bounded : All (λ s. bad_value s.1 ≡ false) sections
  pub once : contains report_end after ≡ false

IsReport-of_parts :
    (text : Str) (i j : ℕ) (p : List Section × Str)
    → Match report_begin text i
    → Match report_end (drop (i + length report_begin) text) j
    → contains report_end (drop (j + length report_end) (drop (i + length report_begin) text))
      ≡ false
    → IsPrinted section_names (take j (drop (i + length report_begin) text)) p
    → is_empty p.1 ≡ true
    → IsReport text p.0
unfolding is_empty
IsReport-of_parts text i j (sections, []) m k once printed e = record {
  before = take i text;
  after = drop (j + length report_end) (drop (i + length report_begin) text);
  whole =
      Match-spells report_begin text i m
      ∙ ap (λ t. take i text ++ report_begin ++ t)
          (Match-spells report_end (drop (i + length report_begin) text) j k
            ∙ ap
                (λ t.
                  t
                  ++ report_end
                  ++ drop (j + length report_end) (drop (i + length report_begin) text))
                (printed.spells ∙ append-nil (print_sections sections)));
  named = printed.named;
  bounded = printed.bounded;
  once = once;
}
IsReport-of_parts text i j (sections, c ∷ r) m k once printed e = cc

-- An accepted text is a report: something, the opening line, the eleven sections in their order as
-- the printer spells them, the closing mark, and something with no second closing mark; and every
-- value is within 32 KiB and has no NUL.
pub parse_report-IsReport :
    (text : Str) (sections : List Section)
    → parse_report text ≡ ok sections
    → IsReport text sections
unfolding parse_report
parse_report-IsReport text sections e =
    let (i, opened, e1) = >>=-eq-ok (ok_or invalid_output (find report_begin text)) _ e in
    let tail = drop (i + length report_begin) text in
    let (j, closed, e2) = >>=-eq-ok (ok_or invalid_output (find report_end tail)) _ e1 in
    let (_, once, e3) =
      >>=-eq-ok (reject_if (contains report_end (drop (j + length report_end) tail)) invalid_output)
        _ e2 in
    let (p, parsed, e4) = >>=-eq-ok (parse_sections section_names (take j tail)) _ e3 in
    let (_, all_read, e5) = >>=-eq-ok (reject_if (not (is_empty p.1)) invalid_output) _ e4 in
    subst (IsReport text) (ok-injective p.0 sections e5) (
      IsReport-of_parts text i j p (find-Match _ _ i (ok_or-eq-ok _ _ opened))
        (find-Match _ _ j (ok_or-eq-ok _ _ closed)) (reject_if-eq-ok _ _ once)
        (parse_sections-IsPrinted section_names (take j tail) p parsed)
        (ground (arith, reject_if-eq-ok (not (is_empty p.1)) invalid_output all_read)))
