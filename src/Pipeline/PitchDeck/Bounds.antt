-- ===== src/Pipeline/PitchDeck/Bounds.antt =====
-- The scores of a pitch deck.
use ai_detention.Pipeline.PitchDeck.{
  analyze_pitch_deck, DeckTools, analyze_deck, deck_claims, DeckResult, all_text, found_in,
  section_keywords, after_download, s3_key, has_section, deck_claim,
}
use ai_detention.Prelude.{
  ℕ, List, ◌≤◌, length, String, min, max, sum_by, if◌then◌else◌, Option, ◌/◌, some, arith, ◌∷◌, [],
  ◌*◌, Bool-cases, ◌==◌, inl, inr, none, Bool, suc, true, false,
}
use ai_detention.Pipeline.CrossCheck.{ClaimData}
use ai_detention.Errors.{Result, err, ok}
use ai_detention.Prelude.Rounding.{round_div-le}
use ai_detention.Prelude.Text.{is_empty}

-- The bounds of an analysis that completes.
abbrev pub IsBounded : DeckResult → Type 0
IsBounded DeckResult.skipped = Unit
IsBounded (DeckResult.error reason) = Unit
IsBounded (DeckResult.completed scores claims) =
    (scores.content_quality ≤ 1000)
    × (scores.structure_completeness ≤ 10000)
    × (scores.depth ≤ 10000)
    × (length claims ≤ 3)

module _ (tools : DeckTools) where
  sections-le :
      (text : String) (sections : List (String × List String))
      → sum_by (λ s. if found_in tools text s then 1 else 0) sections ≤ length sections
  sections-le text [] = omega arith
  sections-le text (s ∷ sections) = ground (arith, sections-le text sections)

  deck_claim-le :
      (found : Bool) (text category : String) (confidence : ℕ) (rest : List ClaimData) (n : ℕ)
      → length rest ≤ n
      → length (deck_claim tools found text category confidence rest) ≤ suc n
  deck_claim-le true text category confidence rest n h = omega arith
  deck_claim-le false text category confidence rest n h = omega arith

  deck_claims-le : (text : String) → length (deck_claims tools text) ≤ 3
  unfolding deck_claims
  deck_claims-le text =
      deck_claim-le (has_section tools text "financials")
        "Pitch deck contains financial projections" "financials" 8000 _ 2
        (deck_claim-le (has_section tools text "traction")
          "Startup claims traction metrics in pitch deck" "traction" 7000 _ 1
          (deck_claim-le (has_section tools text "team") "Team section present in pitch deck" "team"
            9000 [] 0 (omega arith)))

  analyze_deck-IsBounded : (file_size : ℕ) → IsBounded (analyze_deck tools file_size)
  unfolding analyze_deck
  analyze_deck-IsBounded file_size =
      let slides = min (max 1 (file_size / 50000)) 50 in
      let text = tools.lower (all_text tools slides) in
      let some_found = sections-le text section_keywords in
      let words = round_div-le (slides * 4 * 10000) 2000 1000 (omega arith) (omega arith) in
      (
        ground arith,
        round_div-le (sum_by (λ s. if found_in tools text s then 1 else 0) section_keywords * 10000)
            8 10000 (omega arith) (omega arith),
        omega arith,
        deck_claims-le text,
      )

  -- An analysis that completes gives a content quality of at most 0.1, whatever the deck holds, other
  -- scores of at most 1, and at most three claims.
  analyze_pitch_deck-IsBounded :
      (bucket : String) (file_size : String → Result ℕ) (pitch_deck_url : Option String)
      → IsBounded (analyze_pitch_deck tools bucket file_size pitch_deck_url)
  unfolding analyze_pitch_deck
  analyze_pitch_deck-IsBounded bucket file_size none = tt
  analyze_pitch_deck-IsBounded bucket file_size (some url) = elim (Bool-cases (is_empty url)) [
    | inl empty ↦ rw empty tt
    | inr full ↦ rw full (go (file_size (s3_key tools bucket url)))
  ]
    where
      go : (size : Result ℕ) → IsBounded (after_download tools size)
      go (err e) = tt
      go (ok size) = elim (Bool-cases (size == 0)) [
        | inl empty ↦ rw empty tt
        | inr full ↦ rw full (analyze_deck-IsBounded size)
      ]
