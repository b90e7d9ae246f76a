-- ===== src/Pipeline/WebVerification.antt =====
-- The web verification (src/workers/tasks/web_verification.py). The HTTP client is the argument `get`,
-- lowering and searching in a page are those of `PageTools`. A score counts ten-thousandths.
pub mod Bounds
use Prim.Native.Char.{code}
use ai_detention.Prelude.{
  Option, ℕ, Bool, List, String, ◌==◌, some, ◌∷◌, none, if◌then◌else◌, false, ◌+◌, [], any, ◌*◌,
  min,
}
use ai_detention.Pipeline.CrossCheck.{ClaimData}
use ai_detention.Prelude.Text.{append_text, is_empty, rstrip, text_length}
use ai_detention.Prelude.Rounding.{round_div}
use ai_detention.Validators.{starts_with}

-- client.get: a response, a timeout, or another exception with its text.
pub data Fetched : Type 0 where
  response : ℕ → String → Fetched
  timeout_exception : Fetched
  other_exception : String → Fetched

pub record PageTools : Type 0 where
  pub lower : String → String
  -- needle in haystack
  pub contains : String → String → Bool

pub data Reason : Type 0 where
  http_status : ℕ → Reason
  timed_out : Reason
  verification_failed : String → Reason

pub record WebScores : Type 0 where
  pub web_presence : ℕ
  pub content_richness : ℕ
  pub security : ℕ
  pub technical_quality : ℕ

-- The score of an error is its `web_presence`.
pub data WebResult : Type 0 where
  skipped : WebResult
  error : Reason → Option ℕ → WebResult
  completed : WebScores → List ClaimData → WebResult

abbrev pub key_pages : List (List String)
key_pages =
    ("/about" ∷ "/about-us" ∷ "/team" ∷ [])
    ∷ ("/pricing" ∷ "/plans" ∷ [])
    ∷ ("/blog" ∷ "/news" ∷ [])
    ∷ ("/contact" ∷ "/support" ∷ [])
    ∷ ("/docs" ∷ "/documentation" ∷ "/api" ∷ [])
    ∷ []

-- A kind of signal, the category of its claim, and its keywords.
abbrev pub social_signals : List (String × String × List String)
social_signals =
    ("customers", "customers", "customer" ∷ "client" ∷ "trusted by" ∷ [])
    ∷ ("partners", "partners", "partner" ∷ "integration" ∷ "powered by" ∷ [])
    ∷ ("press", "press", "featured in" ∷ "as seen in" ∷ "press" ∷ [])
    ∷ ("metrics", "traction", "users" ∷ "revenue" ∷ "growth" ∷ "%" ∷ [])
    ∷ []

-- An exception counts as a page that is missing.
abbrev pub is_page : Fetched → Bool
is_page (response status_code text) = status_code == 200
is_page timeout_exception = false
is_page (other_exception e) = false

module _ (tools : PageTools) (get : String → Fetched) where
  open tools use {lower, contains}

  abbrev pub page_url : String → String → String
  page_url website_url path = append_text (rstrip (λ c. code c == b'/') website_url) path

  unfoldable pub pages_found : String → List (List String) → ℕ
  pages_found website_url [] = 0
  pages_found website_url (paths ∷ rest) =
      (if any (λ path. is_page (get (page_url website_url path))) paths then 1 else 0)
      + pages_found website_url rest

  abbrev pub signal_claim : String → String → String → String → ClaimData
  signal_claim website_url signal_type category keyword = record {
    text =
        append_text "Website mentions "
          (append_text signal_type (append_text " (" (append_text keyword ")")));
    category = category;
    confidence = 6000;
    source_reference = append_text "Website: " website_url;
  }

  -- The first keyword that the page has.
  unfoldable pub first_keyword : String → List String → Option String
  first_keyword html_lower [] = none
  first_keyword html_lower (kw ∷ keywords) =
      let rest = first_keyword html_lower keywords in
      if contains kw html_lower then some kw else rest

  unfoldable pub extract_claims :
      String → String → List (String × String × List String) → List ClaimData
  extract_claims website_url html_lower [] = []
  extract_claims website_url html_lower ((signal_type, category, keywords) ∷ rest) =
      let claims = extract_claims website_url html_lower rest in
      elim (first_keyword html_lower keywords) [
        | none ↦ claims
        | some kw ↦ signal_claim website_url signal_type category kw ∷ claims
      ]

  -- The scores and the claims of a page that was found; the main page is one of six.
  unfoldable pub analyze_page : String → String → WebResult
  analyze_page website_url html =
      let html_lower = lower html in
      completed
        (record {
          web_presence = round_div ((1 + pages_found website_url key_pages) * 10000) 6;
          content_richness = min 10000 (round_div (text_length html * 10000) 50000);
          security = if starts_with "https" website_url then 10000 else 3000;
          technical_quality =
              5000
              + (if contains "application/ld+json" html_lower then 2500 else 0)
              + (if contains "property=\"og:" html_lower then 2500 else 0);
        })
        (extract_claims website_url html_lower social_signals)

  abbrev pub after_fetch : String → Fetched → WebResult
  after_fetch website_url (response status_code html) =
      if status_code == 200
      then analyze_page website_url html
      else error (http_status status_code) (some 2000)
  after_fetch website_url timeout_exception = error timed_out (some 1000)
  after_fetch website_url (other_exception e) = error (verification_failed e) none

  -- `not website_url`: none and an empty text are skipped.
  unfoldable pub verify_web : Option String → WebResult
  verify_web none = skipped
  verify_web (some website_url) =
      if is_empty website_url then skipped else after_fetch website_url (get website_url)
