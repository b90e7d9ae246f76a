-- ===== src/Pipeline/WebVerification/Bounds.antt =====
-- The scores and claims of a web verification.
use ai_detention.Pipeline.WebVerification.{
  verify_web, PageTools, Fetched, extract_claims, pages_found, analyze_page, key_pages,
  social_signals, WebResult, after_fetch,
}
use ai_detention.Prelude.{
  String, List, length, ◌≤◌, arith, ◌∷◌, [], Option, ◌+◌, ◌*◌, some, none, Bool-cases, ◌==◌, inl,
  inr,
}
use ai_detention.Prelude.Rounding.{round_div-ge, round_div-le}
use ai_detention.Prelude.Text.{is_empty}

-- The bounds of a verification that completes.
abbrev pub IsBounded : WebResult → Type 0
IsBounded WebResult.skipped = Unit
IsBounded (WebResult.error reason score) = Unit
IsBounded (WebResult.completed scores claims) =
    (1666 ≤ scores.web_presence)
    × (scores.web_presence ≤ 10000)
    × (scores.content_richness ≤ 10000)
    × (scores.security ≤ 10000)
    × (scores.technical_quality ≤ 10000)
    × (length claims ≤ 4)

module _ (tools : PageTools) (get : String → Fetched) where
  pages_found-le :
      (website_url : String) (pages : List (List String))
      → pages_found tools get website_url pages ≤ length pages
  unfolding pages_found
  pages_found-le website_url [] = omega arith
  pages_found-le website_url (paths ∷ rest) = ground (arith, pages_found-le website_url rest)

  extract_claims-le :
      (website_url html_lower : String) (signals : List (String × String × List String))
      → length (extract_claims tools get website_url html_lower signals) ≤ length signals
  unfolding extract_claims
  extract_claims-le website_url html_lower [] = omega arith
  extract_claims-le website_url html_lower ((signal_type, category, keywords) ∷ rest) =
      ground (arith, extract_claims-le website_url html_lower rest)

  analyze_page-IsBounded :
      (website_url html : String) → IsBounded (analyze_page tools get website_url html)
  unfolding analyze_page
  analyze_page-IsBounded website_url html =
      let found = pages_found tools get website_url key_pages in
      let few = pages_found-le website_url key_pages in
      let signals = extract_claims-le website_url (tools.lower html) social_signals in
      (
        round_div-ge ((1 + found) * 10000) 6 1666 (omega arith) (omega arith),
        round_div-le ((1 + found) * 10000) 6 10000 (omega arith) (omega arith),
        omega arith,
        ground arith,
        ground arith,
        signals,
      )

  -- A verification that completes gives four scores of at most 1, of which the one for the pages is
  -- at least that of the main page alone, and at most four claims, whatever the site answers.
  verify_web-IsBounded :
      (website_url : Option String) → IsBounded (verify_web tools get website_url)
  unfolding verify_web
  verify_web-IsBounded none = tt
  verify_web-IsBounded (some website_url) = elim (Bool-cases (is_empty website_url)) [
    | inl empty ↦ rw empty tt
    | inr full ↦ rw full (go (get website_url))
  ]
    where
      go : (fetched : Fetched) → IsBounded (after_fetch tools get website_url fetched)
      go (Fetched.response status_code html) = elim (Bool-cases (status_code == 200)) [
        | inl fine ↦ rw fine (analyze_page-IsBounded website_url html)
        | inr other ↦ rw other tt
      ]
      go Fetched.timeout_exception = tt
      go (Fetched.other_exception e) = tt
