-- ===== src/Findings/Contradictions/Buckets.antt =====
-- The buckets partition the contradictions of a run.
use ai_detention.Findings.Contradictions.{
  get_count, count_by_severity_bucket, contradiction_of_run, bucket_eq, severity_bucket, Bucket,
  critical, high, medium, low, group_of,
}
use ai_detention.Database.Table.{select, count}
use ai_detention.Prelude.{List, ℕ, ◌≡◌, ◌+◌, length, ◌∷◌, arith, ◌++◌, [], refl}
use ai_detention.Models.Findings.{Contradiction}
use ai_detention.Database.Session.{Db}

one_bucket :
    (rows : List Contradiction)
    → count (λ c. bucket_eq (severity_bucket c.severity) critical) rows
        + count (λ c. bucket_eq (severity_bucket c.severity) high) rows
        + count (λ c. bucket_eq (severity_bucket c.severity) medium) rows
        + count (λ c. bucket_eq (severity_bucket c.severity) low) rows
      ≡ length rows
unfolding select
one_bucket [] = refl
one_bucket (c ∷ rows) = ground (arith, one_bucket rows)

-- Reading the dict gives for each bucket the number of the run's contradictions with that severity,
-- and the four numbers add up to the number of the run's contradictions.
buckets_partition :
    (run_id org_id : ℕ) (db : Db)
    → let rows = select (contradiction_of_run run_id org_id) db.contradictions in
      let buckets = count_by_severity_bucket run_id org_id db in
      ((bucket : Bucket)
        → get_count bucket buckets
          ≡ count (λ c. bucket_eq (severity_bucket c.severity) bucket) rows)
      × (get_count critical buckets
            + get_count high buckets
            + get_count medium buckets
            + get_count low buckets
          ≡ length rows)
unfolding get_count count_by_severity_bucket
buckets_partition run_id org_id db =
    let rows = select (contradiction_of_run run_id org_id) db.contradictions in
    (counts rows, sums rows)
  where
    counts :
        (rows : List Contradiction) (bucket : Bucket)
        → get_count bucket (
            group_of critical rows
            ++ (group_of high rows ++ (group_of medium rows ++ group_of low rows)))
          ≡ count (λ c. bucket_eq (severity_bucket c.severity) bucket) rows
    counts rows critical = ground arith
    counts rows high = ground arith
    counts rows medium = ground arith
    counts rows low = ground arith

    sums :
        (rows : List Contradiction)
        → let groups =
            group_of critical rows
            ++ (group_of high rows ++ (group_of medium rows ++ group_of low rows)) in
          get_count critical groups
            + get_count high groups
            + get_count medium groups
            + get_count low groups
          ≡ length rows
    sums rows =
        rw (counts rows critical, counts rows high, counts rows medium, counts rows low)
          (one_bucket rows)
