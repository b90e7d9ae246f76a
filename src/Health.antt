-- ===== src/Health.antt =====
-- The probes of src/api/v1/health.py. What a check of a dependency does (a query, a ping) is a
-- parameter: it tells whether the dependency answers, or raises.
use ai_detention.Errors.{Result, ok, err}
use ai_detention.Prelude.{
  Option, ◌≡◌, ℕ, ◌∷◌, Bool, [], String, false, if◌then◌else◌, some, ◌&&◌, all, List, ltb, str_eq,
  none, any, true, arith, refl,
}

-- What the database, Redis, S3 and the workers do when they are asked.
pub record Checks : Type 0 where
  pub postgres_answers : Result Bool
  pub redis_ping : Result Bool
  pub head_bucket : Result Bool
  -- the workers that answer a ping, or none
  pub ping : Result (Option ℕ)

-- try: …; return True except Exception: return False
abbrev or_false : Result Bool → Bool
or_false (ok answer) = answer
or_false (err e) = false

unfoldable pub check_postgres : Checks → Bool
check_postgres checks = or_false checks.postgres_answers

-- src/redis_client.py
unfoldable pub redis_health_check : Checks → Bool
redis_health_check checks = or_false checks.redis_ping

unfoldable pub check_redis : Checks → Bool
unfolding redis_health_check
check_redis checks = redis_health_check checks

unfoldable pub check_s3 : Checks → Bool
check_s3 checks = or_false checks.head_bucket

abbrev workers_answer : Result (Option ℕ) → Bool
workers_answer (ok none) = false
workers_answer (ok (some n)) = ltb 0 n
workers_answer (err e) = false

unfoldable pub check_celery : Checks → Bool
check_celery checks = workers_answer checks.ping

pub record Readiness : Type 0 where
  pub status_code : ℕ
  pub status : String
  pub checks : List (String × Bool)

unfoldable pub readiness : Checks → Readiness
unfolding check_postgres check_redis check_s3
readiness checks =
    let results =
      ("postgresql", check_postgres checks)
      ∷ ("redis", check_redis checks)
      ∷ ("s3", check_s3 checks)
      ∷ [] in
    let all_healthy = all (λ (r : String × Bool). r.1) results in
    record {
      status_code = if all_healthy then 200 else 503;
      status = if all_healthy then "ok" else "degraded";
      checks = results;
    }

-- _timed_check, without the latency
unfoldable pub timed_check : Bool → String
timed_check healthy = if healthy then "ok" else "down"

pub record DependencyHealth : Type 0 where
  pub status_code : ℕ
  pub status : String
  pub dependencies : List (String × String)

unfoldable pub dependency_health : Checks → DependencyHealth
unfolding check_postgres check_redis check_s3 check_celery timed_check
dependency_health checks =
    let deps =
      ("postgresql", timed_check (check_postgres checks))
      ∷ ("redis", timed_check (check_redis checks))
      ∷ ("s3", timed_check (check_s3 checks))
      ∷ ("celery", timed_check (check_celery checks))
      ∷ [] in
    let overall =
      if all (λ (d : String × String). str_eq d.1 "ok") deps
      then "ok"
      else (if any (λ (d : String × String). str_eq d.1 "down") deps
          then "degraded"
          else "degraded") in
    record {
      status_code = if str_eq overall "ok" then 200 else 503;
      status = overall;
      dependencies = deps;
    }

ok_if_healthy : (b : Bool) → str_eq (timed_check b) "ok" ≡ b
unfolding timed_check
ok_if_healthy true = refl
ok_if_healthy false = refl

overall_ok :
    (all_ok any_down : Bool)
    → str_eq (if all_ok then "ok" else (if any_down then "degraded" else "degraded")) "ok" ≡ all_ok
overall_ok true b = refl
overall_ok false true = refl
overall_ok false false = refl

-- The readiness probe answers 200 exactly if the database, Redis and S3 answer; the probe of the
-- dependencies answers 200 exactly if the readiness probe does and a Celery worker answers.
health_exact :
    (checks : Checks)
    → ((readiness checks).status_code
        ≡ (if check_postgres checks && (check_redis checks && check_s3 checks) then 200 else 503))
      × ((dependency_health checks).status_code
          ≡ (if check_celery checks then (readiness checks).status_code else 503))
unfolding readiness dependency_health
health_exact checks = (
  ground arith,
  rw
      (
        overall_ok,
        ok_if_healthy (check_postgres checks),
        ok_if_healthy (check_redis checks),
        ok_if_healthy (check_s3 checks),
        ok_if_healthy (check_celery checks),
      )
      (ground arith),
)
