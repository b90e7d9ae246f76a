-- ===== src/Tests/Api.antt =====
-- The API at a sample user of an application in development, where a request without credentials
-- is the first user's.
use ai_detention.Tests.Tokens.{plain_passwords, unary_jwt, token_settings}
use ai_detention.Tests.Services.{ascii, sample_storage}
use ai_detention.Tests.Reports.{id_orders}
use ai_detention.Tests.Samples.{sample_user, sample_run, world_with}
use ai_detention.Api.Route.{Env, failure, current_user, respond}
use ai_detention.Api.Router.{serve, route_of, get_runs_id, get_me, post_runs_id_cancel}
use ai_detention.Api.Router.Readers.{low_changes_nothing}
use ai_detention.Api.Router.Tenancy.{answers_belong}
use ai_detention.Api.Router.Tenancy.Belonging.{Ordering}
use ai_detention.Api.Router.Broken.{broken_never_succeeds, accounts_never_succeed, IsRolledBack}
use ai_detention.Api.Body.{run}
use ai_detention.Models.Run.{RunStatus}
use ai_detention.Auth.Deps.{Credentials, get_current_user}
use ai_detention.Models.Account.{User, UserRole}
use ai_detention.Prelude.{true, Bool, refl, ◌≡◌, none, some, arith}
use ai_detention.Api.Evaluations.{get_run_route}
use ai_detention.Database.Session.{World, pure, transaction}
use ai_detention.Auth.Registration.{Registration}
use ai_detention.Database.Table.{select}
use ai_detention.Api.Accounts.{register, refresh_token}
use ai_detention.Auth.Roles.{Role}
use ai_detention.Errors.{ok}
use ai_detention.Evaluations.{get_evaluation_run}
use ai_detention.Schemas.{fits, reads, takes}
use ai_detention.Database.Reading.{pure-KeepsDb}

abbrev sample_env : Bool → Env
sample_env is_development = record {
  passwords = plain_passwords;
  jwt = unary_jwt;
  settings = token_settings;
  chars = ascii;
  hash_api_key = λ s. s;
  is_development = is_development;
  s3_presigned_url_expiry = 3600;
  storage = sample_storage;
  upload_bytes = λ key contents type. pure tt;
  users_by_created_at = λ rows. rows;
  submissions_by_created_at = λ rows. rows;
  configs_by_created_at = λ rows. rows;
  runs_by_created_at = λ rows. rows;
  datasets_by_created_at = λ rows. rows;
  metrics_by_name = λ rows. rows;
  result_orders = id_orders;
}

abbrev no_credentials : Credentials
no_credentials = record { bearer = none; x_api_key = none }

abbrev api_world : World
api_world = world_with RunStatus.running

abbrev viewer_user : User
viewer_user = sample_user UserRole.viewer

known_viewer : current_user (sample_env true) no_credentials api_world ≡ (ok viewer_user, api_world)
unfolding get_current_user select
known_viewer = refl

sample_env-Ordering : (b : Bool) → Ordering (sample_env b)
sample_env-Ordering b = record {
  submissions = λ p rows h. h;
  configs = λ p rows h. h;
  runs = λ p rows h. h;
  datasets = λ p rows h. h;
  metrics = λ p rows h. h;
  workers = λ p rows h. h;
  claims = λ p rows h. h;
  contradictions = λ p rows h. h;
  scores = λ p rows h. h;
}

low_changes_nothing_example :
    ((serve (sample_env true) (post_runs_id_cancel 1) no_credentials api_world).1.db ≡ api_world.db)
    × ((role : Role)
        → (route_of (sample_env true) (post_runs_id_cancel 1)).requires ≡ some role
        → serve (sample_env true) (post_runs_id_cancel 1) no_credentials api_world
          ≡ (failure 403 "forbidden", api_world))
low_changes_nothing_example =
    low_changes_nothing (sample_env true) (λ key contents type. pure-KeepsDb tt)
      (post_runs_id_cancel 1) no_credentials api_world known_viewer (λ e. absurd (ground arith))

answers_belong_example : (sample_run RunStatus.running).organization_id ≡ 7
unfolding serve respond route_of get_run_route transaction get_current_user get_evaluation_run
    select fits reads takes
answers_belong_example =
    answers_belong (sample_env true) (sample_env-Ordering true) (get_runs_id 1) no_credentials
      api_world known_viewer {code = 200} {body = run (sample_run RunStatus.running)} refl

broken_never_succeeds_example :
    IsRolledBack api_world (serve (sample_env true) get_me no_credentials api_world)
broken_never_succeeds_example =
    broken_never_succeeds (sample_env true) get_me no_credentials api_world refl

abbrev sample_body : Registration
sample_body = record {
  user_id = 20;
  organization_id = 21;
  email = "eve";
  password = "password";
  full_name = "Eve";
  organization_name = "Eve Org";
}

accounts_never_succeed_example :
    IsRolledBack api_world (register (sample_env true) sample_body api_world)
    × IsRolledBack api_world (refresh_token (sample_env true) "j" "token" api_world)
accounts_never_succeed_example =
    accounts_never_succeed (sample_env true) sample_body "j" "token" api_world
