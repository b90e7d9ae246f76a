-- ===== src/Pipeline/GithubAnalysis/Bounds.antt =====
-- The scores of a repository.
use ai_detention.Pipeline.GithubAnalysis.{github_scores, Api, days_of}
use ai_detention.Prelude.{◌≤◌, ◌≡◌, ◌-◌, ◌*◌, arith}
use ai_detention.Prelude.Rounding.{round_div-le}

-- Every score is at most 1, and a repository without a push for a year is not active.
github_scores-between :
    (api : Api)
    → let scores = github_scores api in
      (scores.activity_recency ≤ 10000)
      × (scores.commit_frequency ≤ 10000)
      × (scores.contributor_diversity ≤ 10000)
      × (scores.community_traction ≤ 10000)
      × (scores.documentation_quality ≤ 10000)
      × (scores.license_compliance ≤ 10000)
      × (365 ≤ days_of api.repo.days_since_push → scores.activity_recency ≡ 0)
unfolding github_scores
github_scores-between api =
    let days = days_of api.repo.days_since_push in
    let active = round_div-le ((365 - days) * 10000) 365 10000 (omega arith) (omega arith) in
    (
      active,
      omega arith,
      omega arith,
      omega arith,
      ground arith,
      ground arith,
      λ old.
          let idle = round_div-le ((365 - days) * 10000) 365 0 (omega arith) (omega arith) in
          omega (arith, idle),
    )
