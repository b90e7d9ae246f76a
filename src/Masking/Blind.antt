-- ===== src/Masking/Blind.antt =====
-- What a masked event shows of secrets: nothing of a sensitive field, and of a personal one its
-- first and last two characters at most.
use ai_detention.Prelude.{[], ◌∷◌, ℕ, sym, leb, arith, false}
use ai_detention.Masking.{
  LogValue, text, TokenPattern, sensitive_fields, pii_fields, is_field, mask_value, last_two,
  mask_entry, sensitive_field_masker,
}
use ai_detention.Prelude.{String, ◌≡◌, List, ◌≤◌, inl, true, ◌⊎◌, inr, refl, ◌<◌, take_chars}
use ai_detention.Prelude.Text.{text_length}

-- Texts that agree in what the mask of a personal field shows: both are short, or both are long
-- and begin and end alike.
abbrev pub LooksAlike : String → String → Type 0
LooksAlike s t =
    ((text_length s ≤ 6) × (text_length t ≤ 6))
    ⊎ ((6 < text_length s)
        × (6 < text_length t)
        × (take_chars 2 s ≡ take_chars 2 t)
        × (last_two s ≡ last_two t))

le→leb : (a b : ℕ) → a ≤ b → leb a b ≡ true
le→leb a b h = ground arith

lt→not_leb : (a b : ℕ) → b < a → leb a b ≡ false
lt→not_leb a b h = ground arith

mask-alike : (s t : String) → LooksAlike s t → mask_value s ≡ mask_value t
unfolding mask_value
mask-alike s t (inl (short, short')) =
    rw (le→leb (text_length s) 6 short, le→leb (text_length t) 6 short') refl
mask-alike s t (inr (long, long', first, last)) =
    rw (lt→not_leb (text_length s) 6 long, lt→not_leb (text_length t) 6 long', first, last) refl

module _ (lower : String → String) (tokens : TokenPattern) where
  -- Values that differ only in what the masking hides.
  abbrev pub Hidden : String → LogValue → LogValue → Type 0
  Hidden key v v' =
      (is_field sensitive_fields (lower key) ≡ true)
      ⊎ (((is_field pii_fields (lower key) ≡ true)
            × ((s : String) × (t : String) × (v ≡ text s) × (v' ≡ text t) × LooksAlike s t))
          ⊎ (v ≡ v'))

  abbrev pub SameShown : List (String × LogValue) → List (String × LogValue) → Type 0
  SameShown [] [] = Unit
  SameShown [] (e' ∷ event') = ⊥
  SameShown (e ∷ event) [] = ⊥
  SameShown ((key, v) ∷ event) ((key', v') ∷ event') =
      (key ≡ key') × Hidden key v v' × SameShown event event'

  entry-alike :
      (key : String) (v v' : LogValue)
      → Hidden key v v'
      → mask_entry lower tokens key v ≡ mask_entry lower tokens key v'
  unfolding mask_entry
  entry-alike key v v' (inl sensitive) = rw sensitive refl
  entry-alike key v v' (inr (inl (pii, (s, t, is_s, is_t, alike)))) =
      rw (is_s, is_t, pii, mask-alike s t alike) refl
  entry-alike key v v' (inr (inr same)) = rw same refl

  -- Two events with the same keys that differ only in the values of sensitive fields, and in what
  -- the texts of personal fields have between their first and last two characters, are masked to
  -- the same line: the line does not depend on what is hidden.
  pub masked_blind :
      (event event' : List (String × LogValue))
      → SameShown event event'
      → sensitive_field_masker lower tokens event ≡ sensitive_field_masker lower tokens event'
  unfolding sensitive_field_masker
  masked_blind [] [] h = refl
  masked_blind [] (e' ∷ event') h = absurd h
  masked_blind (e ∷ event) [] h = absurd h
  masked_blind ((key, v) ∷ event) ((key', v') ∷ event') (same, hidden, rest) =
      rw (sym same, entry-alike key v v' hidden, masked_blind event event' rest) refl
