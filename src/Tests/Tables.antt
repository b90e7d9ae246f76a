-- ===== src/Tests/Tables.antt =====
-- BaseRepository's methods, pages, the limiter and roles at sample rows.
use ai_detention.Database.Repository.{IsModel}
use ai_detention.RateLimiter.Window.{decision, since, allowed_exact}
use ai_detention.Tests.Samples.{sample_user, sample_run, score_of}
use ai_detention.Prelude.{
  List, ◌∷◌, [], refl, none, ◌≡◌, length, some, ltb, ◌⊎◌, ℕ, ◌<◌, ◌≢◌, ◌≤◌, true, arith,
}
use ai_detention.Database.Table.{select}
use ai_detention.Models.Run.{EvaluationRun, RunStatus}
use ai_detention.Database.Session.{empty_db}
use ai_detention.Runs.{run_model}
use ai_detention.Pagination.Cover.{first_pages, pages_cover}
use ai_detention.Pagination.{paginate_list}
use ai_detention.Findings.Scores.{compute_weighted_average, total_weight, score_of_run}
use ai_detention.Findings.Scores.Average.{average_between}
use ai_detention.Models.Account.{UserRole}
use ai_detention.RateLimiter.{Settings}
use ai_detention.Auth.Roles.{Role, check_role, role_value, check_role_exact}
use ai_detention.Errors.{ok, err, app, forbidden, requires_role}

run_model-IsModel : IsModel run_model
run_model-IsModel = record {
  deleted_at-set = λ t x. refl;
  id-set = λ t x. refl;
  org-set = λ t x. refl;
}

abbrev two_runs : List EvaluationRun
two_runs =
    sample_run RunStatus.running
    ∷ record (sample_run RunStatus.failed) { id = 2; deleted_at = some 20 }
    ∷ []

abbrev five : List ℕ
five = 1 ∷ 2 ∷ 3 ∷ 4 ∷ 5 ∷ []

pages_cover_example :
    let xs = five in
    (first_pages (paginate_list xs 1 2).total_pages 2 xs ≡ xs)
    × ((page : ℕ)
        → 0 < page
        → (paginate_list xs page 2).has_next ≡ true
        → length (paginate_list xs page 2).items ≡ 2)
pages_cover_example = pages_cover five 2 (omega arith)

abbrev two_per_minute : Settings
two_per_minute = record { rate_limit_window = 60; rate_limit_default = 2 }

allowed_exact_example :
    (decision two_per_minute 200 (190 ∷ 180 ∷ 100 ∷ [])).allowed
    ≡ ltb (length (since 140 (190 ∷ 180 ∷ 100 ∷ []))) 2
allowed_exact_example = allowed_exact two_per_minute 200 (190 ∷ 180 ∷ 100 ∷ []) (
  (omega arith, (omega arith, (omega arith, tt))),
  ((omega arith, (omega arith, tt)), ((omega arith, tt), (tt, tt))),
)

check_role_exact_example :
    let user = sample_user UserRole.judge in
    ((user.role ≡ UserRole.admin) ⊎ ((user.role ≡ UserRole.viewer) × (Role.viewer ≡ Role.viewer))
      → check_role Role.viewer user ≡ ok user)
    × ((user.role ≡ UserRole.judge) ⊎ ((user.role ≡ UserRole.viewer) × (Role.viewer ≢ Role.viewer))
        → check_role Role.viewer user
          ≡ err (app (forbidden (requires_role (role_value Role.viewer)))))
check_role_exact_example = check_role_exact Role.viewer (sample_user UserRole.judge)

average_between_example :
    let db = record empty_db {
      scores = score_of "team" 6000 2000 ∷ score_of "traction" 8000 3000 ∷ [];
    } in
    ((compute_weighted_average 1 7 db ≡ none)
      × (total_weight (select (score_of_run 1 7) db.scores) ≡ 0))
    ⊎ ((average : ℕ) × (compute_weighted_average 1 7 db ≡ some average)
        × (0 < total_weight (select (score_of_run 1 7) db.scores))
        × (6000 ≤ average)
        × (average ≤ 8000))
unfolding select
average_between_example =
    average_between 1 7 6000 8000
      (record empty_db { scores = score_of "team" 6000 2000 ∷ score_of "traction" 8000 3000 ∷ [] })
      (omega arith, (omega arith, tt)) (omega arith, (omega arith, tt))
