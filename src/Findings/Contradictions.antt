-- ===== src/Findings/Contradictions.antt =====
-- ContradictionRepository (src/repositories/contradiction_repository.py): a run's contradictions by
-- severity, which counts ten-thousandths. The eager loading of claims is the ORM's.
pub mod Buckets
use ai_detention.Prelude.{
  ℕ, List, Bool, true, if◌then◌else◌, ◌==◌, false, ltb, ◌&&◌, Option, [], ◌++◌, ◌∷◌, is_none,
}
use ai_detention.Models.Findings.{Contradiction}
use ai_detention.Database.Session.{Db}
use ai_detention.Database.Table.{count, select, scalar_one_or_none}
use ai_detention.Errors.{Result}

pub data Bucket : Type 0 where
  critical high medium low : Bucket

abbrev pub bucket_eq : Bucket → Bucket → Bool
bucket_eq critical critical = true
bucket_eq high high = true
bucket_eq medium medium = true
bucket_eq low low = true
bucket_eq _ _ = false

-- The SQL case expression.
unfoldable pub severity_bucket : ℕ → Bucket
severity_bucket severity =
    if ltb 8000 severity
    then critical
    else (if ltb 6000 severity then high else (if ltb 4000 severity then medium else low))

abbrev pub contradiction_of_run : ℕ → ℕ → Contradiction → Bool
contradiction_of_run run_id org_id c =
    c.evaluation_run_id == run_id && (c.organization_id == org_id && is_none c.deleted_at)

unfoldable pub get_contradiction : ℕ → ℕ → Db → Result (Option Contradiction)
get_contradiction contradiction_id org_id db = scalar_one_or_none (
    select (λ c. c.id == contradiction_id && (c.organization_id == org_id && is_none c.deleted_at))
      db.contradictions)

-- `order_by` is the database's order by descending severity.
unfoldable pub get_by_run :
    (List Contradiction → List Contradiction) → ℕ → ℕ → Db → List Contradiction
get_by_run order_by run_id org_id db =
    order_by (select (contradiction_of_run run_id org_id) db.contradictions)

-- The entry that GROUP BY makes for a bucket, if the bucket has a row.
abbrev pub group_of : Bucket → List Contradiction → List (Bucket × ℕ)
group_of bucket rows =
    let n = count (λ c. bucket_eq (severity_bucket c.severity) bucket) rows in
    if n == 0 then [] else (bucket, n) ∷ []

-- The dict of the counts; the order of its entries is not the database's.
unfoldable pub count_by_severity_bucket : ℕ → ℕ → Db → List (Bucket × ℕ)
count_by_severity_bucket run_id org_id db =
    let rows = select (contradiction_of_run run_id org_id) db.contradictions in
    group_of critical rows ++ (group_of high rows ++ (group_of medium rows ++ group_of low rows))

-- buckets.get(bucket, 0)
unfoldable pub get_count : Bucket → List (Bucket × ℕ) → ℕ
get_count bucket [] = 0
get_count bucket ((b, n) ∷ rest) =
    let later = get_count bucket rest in if bucket_eq b bucket then n else later
