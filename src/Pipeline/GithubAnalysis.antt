-- ===== src/Pipeline/GithubAnalysis.antt =====
-- The analysis of a GitHub repository (src/workers/tasks/github_analysis.py). The answers of GitHub's
-- API are the record `Api`; the cache is the one of Cache, on any server; hashing is `cache_key`. A
-- score counts ten-thousandths. An exception of the client ends the task and is left out.
pub mod Bounds
use Prim.Native.Char.{code}
use ai_detention.Prelude.{
  Option, String, ℕ, List, ◌∷◌, [], Bool, none, if◌then◌else◌, some, ◌-◌, ◌==◌, ◌*◌, ltb, ◌&&◌, min,
  length,
}
use ai_detention.Prelude.Rounding.{round_div}
use ai_detention.Prelude.Text.{rstrip, append_text, is_empty}
use ai_detention.Cache.{Redis, PayloadJson, CacheManager, Payload, cache_get, cache_set}
use ai_detention.Pipeline.CrossCheck.{ClaimData}
use ai_detention.Errors.{Result, ok, err}

pub record RepoData : Type 0 where
  -- the days since pushed_at, if it is given; 0 for a time to come
  pub days_since_push : Option ℕ
  pub stargazers_count : ℕ
  pub has_description : Bool
  pub has_license : Bool
  pub language : String

-- An answer that is used only at status 200 is none at any other.
pub record Api : Type 0 where
  -- X-RateLimit-Remaining, and the seconds until X-RateLimit-Reset
  pub rate_limit : Option (ℕ × ℕ)
  -- the commits' hashes, newest first
  pub commits : Option (List String)
  pub repo_status : ℕ
  pub repo : RepoData
  -- their number
  pub contributors : Option ℕ

pub record GithubScores : Type 0 where
  pub activity_recency : ℕ
  pub commit_frequency : ℕ
  pub contributor_diversity : ℕ
  pub community_traction : ℕ
  pub documentation_quality : ℕ
  pub license_compliance : ℕ

pub data GithubResult : Type 0 where
  skipped invalid_url repository_not_found : GithubResult
  rate_limited : ℕ → GithubResult
  api_error : ℕ → GithubResult
  completed : GithubScores → List ClaimData → GithubResult

-- text.split("/")
unfoldable pub split_slash : String → String × List String
split_slash String.[] = (String.[], [])
split_slash (String.◌∷◌ c s) =
    let (first, rest) = split_slash s in
    if code c == b'/' then (String.[], first ∷ rest) else (String.◌∷◌ c first, rest)

-- parts[-2] and parts[-1], if there are two.
unfoldable pub last_two : String → List String → Option (String × String)
last_two a [] = none
last_two a (b ∷ []) = some (a, b)
last_two a (b ∷ c ∷ rest) = last_two b (c ∷ rest)

unfoldable pub owner_and_repo : String → Option (String × String)
owner_and_repo github_url =
    let (first, rest) = split_slash (rstrip (λ c. code c == b'/') github_url) in last_two first rest

-- wait_secs if fewer than 10 requests remain and the wait is above a minute
unfoldable pub too_long : Option (ℕ × ℕ) → Option ℕ
too_long none = none
too_long (some (remaining, wait_secs)) =
    if ltb remaining 10 && ltb 60 wait_secs then some wait_secs else none

abbrev pub commits_of : Api → List String
commits_of api = elim api.commits [ none ↦ [] | some hashes ↦ hashes ]

abbrev pub latest_sha : List String → String
latest_sha [] = "UNKNOWN"
latest_sha (sha ∷ rest) = sha

abbrev pub contributors_of : Api → ℕ
contributors_of api = elim api.contributors [ none ↦ 0 | some n ↦ n ]

abbrev pub days_of : Option ℕ → ℕ
days_of none = 999
days_of (some days) = days

unfoldable pub github_scores : Api → GithubScores
github_scores api = record {
  -- max(0, min(1.0, 1.0 - days / 365))
  activity_recency = round_div ((365 - days_of api.repo.days_since_push) * 10000) 365;
  commit_frequency = min 10000 (length (commits_of api) * 200);
  contributor_diversity = min 10000 (contributors_of api * 2000);
  community_traction = min 10000 (api.repo.stargazers_count * 100);
  documentation_quality = if api.repo.has_description then 10000 else 3000;
  license_compliance = if api.repo.has_license then 10000 else 0;
}

module _ (show_number : ℕ → String) where
  abbrev pub github_claim : String → String → ℕ → ClaimData
  github_claim text category confidence = record {
    text = text;
    category = category;
    confidence = confidence;
    source_reference = "";
  }

  unfoldable pub github_claims : Api → List ClaimData
  github_claims api =
      github_claim
        (append_text "Repository has "
          (append_text (show_number api.repo.stargazers_count) " stars"))
        "traction" 10000
      ∷ github_claim (append_text "Primary language is " api.repo.language) "product" 10000
      ∷ github_claim
          (append_text (show_number (contributors_of api)) " contributors active on the project")
          "team" 9000
      ∷ []

  -- The answers to the repository's request and those after it.
  unfoldable pub analyze_repo : Api → GithubResult
  analyze_repo api =
      if api.repo_status == 404
      then repository_not_found
      else (if api.repo_status == 200
          then GithubResult.completed (github_scores api) (github_claims api)
          else api_error api.repo_status)

  module _ {S : Type 0} (redis : Redis S) (json : PayloadJson GithubResult)
      (cache_key : String → String → String → String) where
    -- Only a completed analysis is stored.
    abbrev pub store_completed :
        CacheManager → ℕ → String → GithubResult → S → Result GithubResult × S
    store_completed manager now key (GithubResult.completed scores claims) s =
        let result = GithubResult.completed scores claims in
        (ok result, cache_set redis json manager now key result 3600 s)
    store_completed manager now key result s = (ok result, s)

    abbrev pub after_lookup :
        CacheManager
        → ℕ
        → String
        → Api
        → Result (Option (Payload GithubResult))
        → S
        → Result GithubResult × S
    after_lookup manager now key api (err e) s = (err e, s)
    after_lookup manager now key api (ok (some payload)) s = (ok payload.val, s)
    after_lookup manager now key api (ok none) s =
        store_completed manager now key (analyze_repo api) s

    abbrev pub analyze_found :
        CacheManager → ℕ → Api → Option (String × String) → S → Result GithubResult × S
    analyze_found manager now api none s = (ok invalid_url, s)
    analyze_found manager now api (some (owner, name)) s = elim (too_long api.rate_limit) [
      | some wait_secs ↦ (ok (rate_limited wait_secs), s)
      | none ↦
          let key = cache_key owner name (latest_sha (commits_of api)) in
          after_lookup manager now key api (cache_get redis json manager key s) s
    ]

    unfoldable pub analyze_github : CacheManager → ℕ → Api → String → S → Result GithubResult × S
    analyze_github manager now api github_url s =
        if is_empty github_url
        then (ok GithubResult.skipped, s)
        else analyze_found manager now api (owner_and_repo github_url) s
