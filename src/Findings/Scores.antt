-- ===== src/Findings/Scores.antt =====
-- ScoreRepository (src/repositories/score_repository.py): scores that are written once, and their
-- weighted average. A value and a weight count ten-thousandths, as does the average.
pub mod Average
use ai_detention.Prelude.{
  ℕ, Option, List, sum_by, String, Bool, false, ◌==◌, some, ◌*◌, ◌∷◌, ◌&&◌, if◌then◌else◌, any,
  str_eq, map, ◌++◌, none, is_none, ◌||◌, [],
}
use ai_detention.Models.Findings.{Score}
use ai_detention.Database.Session.{
  Session, Db, query, ◌>>◌, ◌>>=◌, raise, modify_db, raise_if, pure,
}
use ai_detention.Database.Table.{select, scalar_one_or_none}
use ai_detention.Errors.{app, conflict, scores_immutable, score_exists, duplicate_dimensions}
use ai_detention.Prelude.Rounding.{round_div}

-- The filter of the reads of a run's scores.
abbrev pub score_of_run : ℕ → ℕ → Score → Bool
score_of_run run_id org_id s =
    s.evaluation_run_id == run_id && (s.organization_id == org_id && is_none s.deleted_at)

abbrev pub score_of_dimension : ℕ → String → ℕ → Score → Bool
score_of_dimension run_id dimension org_id s =
    s.evaluation_run_id == run_id
    && (str_eq s.dimension dimension && (s.organization_id == org_id && is_none s.deleted_at))

unfoldable pub find_by_run_and_dimension : ℕ → String → ℕ → Session (Option Score)
find_by_run_and_dimension run_id dimension org_id =
    query λ db. scalar_one_or_none (select (score_of_dimension run_id dimension org_id) db.scores)

abbrev pub save_score : Score → Session Score
save_score score = do modify_db λ db. record db { scores = db.scores ++ score ∷ [] }; pure score

-- if existing: raise ConflictError(…)
abbrev pub create_unless : Option Score → Score → Session Score
create_unless none score = save_score score
create_unless (some _) score = raise (app (conflict (score_exists score.dimension)))

unfoldable pub create_score : Score → Session Score
unfolding find_by_run_and_dimension
create_score score = do
  existing ← find_by_run_and_dimension score.evaluation_run_id score.dimension score.organization_id
  create_unless existing score

-- len(dimensions) != len(set(dimensions))
unfoldable pub has_duplicates : List String → Bool
has_duplicates [] = false
has_duplicates (d ∷ ds) = any (str_eq d) ds || has_duplicates ds

unfoldable pub bulk_create_scores : List Score → Session (List Score)
bulk_create_scores scores = do
  raise_if (has_duplicates (map (λ s. s.dimension) scores)) (app (conflict duplicate_dimensions))
  modify_db λ db. record db { scores = db.scores ++ scores }
  pure scores

unfoldable pub soft_delete_score : ℕ → Session Bool
soft_delete_score score_id = raise (app (conflict scores_immutable))

-- `order_by` is the database's order by descending weight.
unfoldable pub get_scores_for_run : (List Score → List Score) → ℕ → ℕ → Db → List Score
get_scores_for_run order_by run_id org_id db =
    order_by (select (score_of_run run_id org_id) db.scores)

abbrev pub weighted_sum : List Score → ℕ
weighted_sum scores = sum_by (λ s. s.value * s.weight) scores

abbrev pub total_weight : List Score → ℕ
total_weight scores = sum_by (λ s. s.weight) scores

-- SUM over no row is NULL, which ends in None as a total of 0 does.
unfoldable pub compute_weighted_average : ℕ → ℕ → Db → Option ℕ
compute_weighted_average run_id org_id db =
    let scores = select (score_of_run run_id org_id) db.scores in
    if total_weight scores == 0
    then none
    else some (round_div (weighted_sum scores) (total_weight scores))
