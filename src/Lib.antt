-- ===== src/Lib.antt =====
-- A service that evaluates startups. A member of an organization stores a submission and triggers an
-- evaluation run of it; Celery workers analyse the submission, look for contradictions, let a
-- language model score it, and complete the run.
--
-- The parts, the code of each and the files that model it:
--   Models/*             src/models: rows as records, states as enums. An id, an organization's id and
--                        a time are numbers; a score, a weight and a severity between 0 and 1 count
--                        ten-thousandths. The source computes with doubles; it rounds what it
--                        makes itself, but stores a model's answer as it comes.
--   Errors               src/middleware/error_handler.py: exceptions as values.
--   Database/Table       what a select, an update or a delete of SQLAlchemy does to a table, a list of
--                        rows in the order of insertion.
--   Database/Session     src/database.py: a session is a function from the world (the tables, the
--                        messages sent, the time) to a result and a world; `transaction` commits if
--                        its body returns and rolls the tables back if it raises. Messages already
--                        sent stay sent.
--   Database/Audit       src/services/audit_service.py.
--   Database/Repository  src/repositories/base_repository.py, for any model; Repository/Laws proves.
--   Runs                 src/repositories/evaluation_run_repository.py: the optimistic lock and the
--                        transitions; Runs/Locking proves what the lock does, Runs/Protocol what it
--                        does for workers that share a run, as a step relation.
--   Submissions          src/services/submission_service.py; proofs in Submissions/Trigger.
--   Evaluations          src/services/evaluation_service.py; proofs in Evaluations/Cancel.
--   Auth/*               src/security.py, src/services/auth_service.py and src/api/deps.py: roles,
--                        tokens, registration, login, API keys and the user of a request.
--   Datasets             src/services/dataset_service.py and storage_service.py; proofs in
--                        Datasets/Uploads.
--   Findings/*           src/repositories/score_repository.py, contradiction_repository.py and
--                        worker_result_repository.py.
--   Pipeline/BaseTask    src/workers/tasks/base_task.py: `run` around a task's `execute`. The decorator
--                        of each task puts the task's function in the place of `run`, so that no task
--                        goes through it.
--   Pipeline/Orchestrator, Pipeline/CrossCheck, Pipeline/LlmJudge, Pipeline/Finalize
--                        src/workers/tasks/orchestrator.py, cross_check.py, llm_judge.py and
--                        finalize.py.
--   Metrics              src/services/metric_service.py; proofs in Metrics/Seed.
--   Results              src/services/result_service.py; proofs in Results/Summary.
--   Repositories         the repositories of users, organizations, claims and log entries.
--   Webhooks             src/services/webhook_service.py; proofs in Webhooks/Delivery.
--   Progress             src/workers/progress.py and the dead letters of src/workers/tasks/base_task.py.
--   Pipeline/GithubAnalysis, Pipeline/WebVerification, Pipeline/PitchDeck, Pipeline/VideoAnalysis
--                        src/workers/tasks/github_analysis.py, web_verification.py, pitch_deck.py and
--                        video_analysis.py.
--   Pipeline/Fabrication src/workers/tasks/fabrication.py; proofs in Fabrication/Marks.
--   Pipeline/Chain       the chain of the four sequential tasks in src/workers/tasks/orchestrator.py.
--   Cleanup              src/workers/cleanup_worker.py.
--   Pagination           src/utils/pagination.py.
--   Validators           src/utils/validators.py, over the texts of Prelude/Text.
--   Cache                src/cache.py: the decorator `cached` and what it calls; Cache/Refines proves.
--   CacheService         src/services/cache_service.py.
--   RateLimiter          src/middleware/rate_limiter.py, and src/rate_limit.py in RateLimiter/Log.
--   Schemas              src/schemas: the response schemas against the attributes of the rows.
--   Api                  src/api/v1: Api/Route is a request (its user, its role, its transaction, the
--                        error handlers), Api/Submissions and its siblings have the routes of the
--                        files, Api/Router has all of them as one type of requests; proofs in
--                        Router/Refusals, Router/Readers, Router/Tenancy and Router/Broken.
--   Middleware           src/middleware: the four middleware; Middleware/Stack composes them as
--                        src/main.py does, and Stack/Passes proves.
--   Masking              src/observability/logging.py: the masking of fields; Masking/Blind proves.
--   Health               src/api/v1/health.py: the probes.
--   TaskMetrics          src/workers/celery_app.py: the signal handlers and the routes of tasks.
--   Exports              src/workers/tasks/export.py.
--   Database/Reading, Database/Returning
--                        sessions that leave the database alone, and what sessions return.
--   Tests/*              the theorems at concrete inputs.
--
-- A service's function is a session with the name of the source's function; its do block has the
-- source's steps in their order, an early raise as `raise_if`. New ids, task ids and tokens' ids come
-- as arguments. A text in an exception is a constructor of `Reason`.
--
-- No function runs on fuel: each loop of the modelled code is over a list, or over the attempts left.
--
-- Parameters, for code of other packages: hashing (`Passwords`, `hash_api_key`), signing of tokens
-- (`Jwt`, with the law that a token written here is read back while it lives), the order that the
-- database gives to a page (`order_by`), what Celery does to start the pipeline (`dispatch`), the
-- answers of the language models (`call_llm`) and the random variation of synthetic scores, the
-- numbers that a regular expression finds (`find_numbers`), Python's functions and classes of
-- characters (`TextTools`, `CharClasses`, `is_space`), S3 (`Storage`, `upload_bytes`), `urlparse`,
-- the web (`get`, `post`, `Api`), and Redis and json for the cache (`Redis`, `PayloadJson`, with the
-- laws that only what was set is read, and as JSON can say it: a tuple comes back as a list).
--
-- Not modelled: the schemas of requests, the streams of src/api/v1/ws_runs.py, the set-up of
-- metrics and tracing, and the parts of the code that only call other packages. Arithmetic is exact where the source's is on
-- doubles: a comparison whose exact sides are equal can come out otherwise there. The answers of a model
-- can hold NaN (Pipeline/LlmJudge). Errors of the database itself are modelled only where a constraint
-- of a table refuses a row. The isolation of concurrent transactions is the database's: one statement acts at once.
pub mod Prelude
pub mod Errors
pub mod Models
pub mod Database
pub mod Runs
pub mod Submissions
pub mod Evaluations
pub mod Datasets
pub mod Metrics
pub mod Results
pub mod Api
pub mod Schemas
pub mod Auth
pub mod Findings
pub mod Pipeline
pub mod Pagination
pub mod RateLimiter
pub mod Middleware
pub mod Masking
pub mod Health
pub mod TaskMetrics
pub mod Exports
pub mod Repositories
pub mod Webhooks
pub mod Progress
pub mod Validators
pub mod Cache
pub mod CacheService
pub mod Cleanup
pub mod Tests
