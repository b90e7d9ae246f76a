-- ===== src/Validators/Slug.antt =====
-- Which texts are slugs.
use Prim.Native.Char.{Char, code}
use ai_detention.Prelude.{
  String, ◌≡◌, true, refl, false, arith, Bool-cases, inl, inr, ap, Bool, ◌∙◌, ◌&&◌, ◌==◌, ◌↔◌, ◌≤◌,
  sym,
}
use ai_detention.Validators.{
  is_lower_alnum, is_hyphen, slug_pattern, has_double_hyphen, chomp, slug_rest, starts_hyphen,
  is_valid_slug,
}
use ai_detention.Prelude.Text.{is_empty, text_length}

-- Words of lowercase letters and digits, joined by single hyphens.
pub data IsSlug : String → Type 0 where
  last : (c : Char) → is_lower_alnum c ≡ true → IsSlug (String.◌∷◌ c String.[])
  more : (c : Char) {s : String} → is_lower_alnum c ≡ true → IsSlug s → IsSlug (String.◌∷◌ c s)
  hyphen :
      (c h : Char) {s : String}
      → is_lower_alnum c ≡ true
      → is_hyphen h ≡ true
      → IsSlug s
      → IsSlug (String.◌∷◌ c (String.◌∷◌ h s))

abbrev ends : Char → String → Bool
ends c s = is_empty s && code c == b'\n'

chomp-newline : (c : Char) (s : String) → ends c s ≡ true → chomp (String.◌∷◌ c s) ≡ String.[]
unfolding chomp
chomp-newline c s h = ground arith

chomp-cons :
    (c : Char) (s : String) → ends c s ≡ false → chomp (String.◌∷◌ c s) ≡ String.◌∷◌ c (chomp s)
unfolding chomp
chomp-cons c s h = ground arith

-- The newline that `chomp` takes away is no hyphen.
starts_hyphen-chomp : (s : String) → starts_hyphen (chomp s) ≡ starts_hyphen s
unfolding chomp
starts_hyphen-chomp String.[] = refl
starts_hyphen-chomp (String.◌∷◌ c s) = elim (Bool-cases (ends c s)) [
  | inl e ↦ ap starts_hyphen (chomp-newline c s e) ∙ ground arith
  | inr e ↦ ap starts_hyphen (chomp-cons c s e)
]

newline-no_hyphens :
    (c : Char) (s : String) → ends c s ≡ true → false ≡ has_double_hyphen (String.◌∷◌ c s)
unfolding has_double_hyphen
newline-no_hyphens c String.[] h = ground arith
newline-no_hyphens c (String.◌∷◌ d s) h = ground arith

has_double_hyphen-chomp : (s : String) → has_double_hyphen (chomp s) ≡ has_double_hyphen s
unfolding has_double_hyphen
has_double_hyphen-chomp String.[] = unfold chomp in refl
has_double_hyphen-chomp (String.◌∷◌ c s) = elim (Bool-cases (ends c s)) [
  | inl e ↦ ap has_double_hyphen (chomp-newline c s e) ∙ newline-no_hyphens c s e
  | inr e ↦
      ap has_double_hyphen (chomp-cons c s e)
      ∙ rw (starts_hyphen-chomp s, has_double_hyphen-chomp s) refl
]

-- The pattern's rest is the pattern, where no hyphen begins it.
pattern-rest : (s : String) → slug_rest s ≡ true → starts_hyphen s ≡ false → slug_pattern s ≡ true
unfolding slug_pattern slug_rest
pattern-rest String.[] h k = ground arith
pattern-rest (String.◌∷◌ c s) h k = ground arith

rest-pattern : (s : String) → slug_pattern s ≡ true → slug_rest s ≡ true
unfolding slug_pattern slug_rest
rest-pattern String.[] h = ground arith
rest-pattern (String.◌∷◌ c s) h = ground arith

pattern-no_hyphen : (s : String) → slug_pattern s ≡ true → starts_hyphen s ≡ false
unfolding slug_pattern
pattern-no_hyphen String.[] h = refl
pattern-no_hyphen (String.◌∷◌ c s) h = ground arith

pattern-filled : (s : String) → slug_pattern s ≡ true → is_empty s ≡ false
unfolding slug_pattern
pattern-filled String.[] h = ground arith
pattern-filled (String.◌∷◌ c s) h = refl

-- A text the pattern and the test of "--" accept is a slug.
IsSlug-of : (s : String) → slug_pattern s ≡ true → has_double_hyphen s ≡ false → IsSlug s
unfolding slug_pattern slug_rest has_double_hyphen
IsSlug-of String.[] h k = ground arith
IsSlug-of (String.◌∷◌ c String.[]) h k = last c (ground arith)
IsSlug-of (String.◌∷◌ c (String.◌∷◌ d s)) h k = elim (Bool-cases (is_lower_alnum d)) [
  | inl e ↦ more c (ground arith) (IsSlug-of (String.◌∷◌ d s) (ground arith) (ground arith))
  | inr e ↦
      hyphen c d (ground arith) (ground arith)
        (IsSlug-of s (pattern-rest s (ground arith) (ground arith)) (ground arith))
]

IsSlug-accepted : {s : String} → IsSlug s → (slug_pattern s ≡ true) × (has_double_hyphen s ≡ false)
unfolding slug_pattern slug_rest has_double_hyphen
IsSlug-accepted (last c h) = (ground arith, ground arith)
IsSlug-accepted (more c {s} h rest) =
    let (p, q) = IsSlug-accepted rest in let r = rest-pattern s p in (ground arith, ground arith)
IsSlug-accepted (hyphen c d {s} h k rest) =
    let (p, q) = IsSlug-accepted rest in
    let r = rest-pattern s p in
    let n = pattern-no_hyphen s p in let f = pattern-filled s p in (ground arith, ground arith)

pattern-non_empty : (s : String) → slug_pattern (chomp s) ≡ true → is_empty s ≡ false
pattern-non_empty String.[] h = unfold slug_pattern chomp in ground arith
pattern-non_empty (String.◌∷◌ c s) h = refl

-- A value is a valid slug exactly when it has at most 63 characters and is, one newline at its end
-- aside, words of lowercase letters and digits that single hyphens join.
pub is_valid_slug_exact :
    (value : String)
    → (is_valid_slug value ≡ true) ↔ ((text_length value ≤ 63) × IsSlug (chomp value))
unfolding is_valid_slug
is_valid_slug_exact value =
    let eq = has_double_hyphen-chomp value in
    (
      (λ h. (ground arith, IsSlug-of (chomp value) (ground arith) (eq ∙ ground arith))),
      λ (short, slug).
          let (p, q) = IsSlug-accepted slug in
          let full = pattern-non_empty value p in let single = sym eq ∙ q in ground arith,
    )
