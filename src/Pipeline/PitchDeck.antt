-- ===== src/Pipeline/PitchDeck.antt =====
-- The pitch deck analysis (src/workers/tasks/pitch_deck.py), which reads no more of the file than its
-- size: the texts of the slides are placeholders. The download is the argument `file_size`; str, lower
-- and the search in a text are the parameters of `DeckTools`. A score counts ten-thousandths.
pub mod Bounds
use ai_detention.Prelude.{
  ℕ, List, Bool, String, ◌∷◌, suc, any, max, Option, if◌then◌else◌, zero, some, ◌/◌, str_eq, false,
  [], min, ◌&&◌, ◌==◌, true, none, ◌+◌, ◌*◌, sum_by,
}
use ai_detention.Errors.{Error, Result, err, ok}
use ai_detention.Prelude.Text.{append_text, text_length, is_empty, drop_chars}
use ai_detention.Pipeline.CrossCheck.{ClaimData}
use ai_detention.Validators.{starts_with}
use ai_detention.Prelude.Rounding.{round_div}

pub record DeckTools : Type 0 where
  pub show_number : ℕ → String
  pub lower : String → String
  -- needle in haystack
  pub contains : String → String → Bool
  -- urlparse(url).path.lstrip("/")
  pub path_of : String → String

pub data DeckError : Type 0 where
  download_failed : Error → DeckError
  empty_file : DeckError

pub record DeckScores : Type 0 where
  pub content_quality : ℕ
  pub structure_completeness : ℕ
  pub depth : ℕ

pub data DeckResult : Type 0 where
  skipped : DeckResult
  error : DeckError → DeckResult
  completed : DeckScores → List ClaimData → DeckResult

-- A section and its keywords.
abbrev pub section_keywords : List (String × List String)
section_keywords =
    ("problem", "problem" ∷ "pain point" ∷ "challenge" ∷ [])
    ∷ ("solution", "solution" ∷ "product" ∷ "platform" ∷ [])
    ∷ ("market", "market" ∷ "tam" ∷ "sam" ∷ "addressable" ∷ [])
    ∷ ("business_model", "revenue" ∷ "business model" ∷ "monetization" ∷ [])
    ∷ ("team", "team" ∷ "founders" ∷ "experience" ∷ [])
    ∷ ("financials", "financial" ∷ "projection" ∷ "revenue" ∷ "arr" ∷ [])
    ∷ ("traction", "traction" ∷ "growth" ∷ "users" ∷ "customers" ∷ [])
    ∷ ("ask", "funding" ∷ "raise" ∷ "investment" ∷ "ask" ∷ [])
    ∷ []

module _ (tools : DeckTools) where
  open tools use {show_number, lower, contains, path_of}

  -- The key in the bucket, of a key or of a URL.
  unfoldable pub s3_key : String → String → String
  s3_key bucket pitch_deck_url =
      if starts_with "http" pitch_deck_url
      then (let key = path_of pitch_deck_url in
          if starts_with bucket key then drop_chars (text_length bucket + 1) key else key)
      else pitch_deck_url

  abbrev pub slide_text : ℕ → String
  slide_text number = append_text "[Slide " (append_text (show_number number) " content extracted]")

  -- The texts of the first slides, each with a newline.
  unfoldable pub all_text : ℕ → String
  all_text zero = String.[]
  all_text (suc n) = append_text (all_text n) (append_text (slide_text (suc n)) "\n")

  abbrev pub found_in : String → String × List String → Bool
  found_in text_lower (section, keywords) = any (λ kw. contains kw text_lower) keywords

  abbrev pub has_section : String → String → Bool
  has_section text_lower wanted =
      any (λ (s : String × List String). str_eq s.0 wanted && found_in text_lower s)
        section_keywords

  abbrev pub deck_claim : Bool → String → String → ℕ → List ClaimData → List ClaimData
  deck_claim false text category confidence rest = rest
  deck_claim true text category confidence rest =
      record {
        text = text;
        category = category;
        confidence = confidence;
        source_reference = "Pitch deck analysis";
      }
      ∷ rest

  unfoldable pub deck_claims : String → List ClaimData
  deck_claims text_lower =
      deck_claim (has_section text_lower "financials") "Pitch deck contains financial projections"
        "financials" 8000
        (deck_claim (has_section text_lower "traction")
          "Startup claims traction metrics in pitch deck" "traction" 7000
          (deck_claim (has_section text_lower "team") "Team section present in pitch deck" "team"
            9000 []))

  -- Each of the at most 50 slides counts 4 words.
  unfoldable pub analyze_deck : ℕ → DeckResult
  analyze_deck file_size =
      let slide_count = max 1 (file_size / 50000) in
      let slides = min slide_count 50 in
      let text_lower = lower (all_text slides) in
      completed
        (record {
          content_quality = min 10000 (round_div (slides * 4 * 10000) 2000);
          structure_completeness =
              round_div
                (sum_by (λ s. if found_in text_lower s then 1 else 0) section_keywords * 10000) 8;
          depth = min 10000 (round_div (slide_count * 10000) 15);
        })
        (deck_claims text_lower)

  abbrev pub after_download : Result ℕ → DeckResult
  after_download (err e) = error (download_failed e)
  after_download (ok file_size) =
      if file_size == 0 then error empty_file else analyze_deck file_size

  unfoldable pub analyze_pitch_deck : String → (String → Result ℕ) → Option String → DeckResult
  analyze_pitch_deck bucket file_size none = skipped
  analyze_pitch_deck bucket file_size (some pitch_deck_url) =
      if is_empty pitch_deck_url
      then skipped
      else after_download (file_size (s3_key bucket pitch_deck_url))
