-- ===== src/Database/Session.antt =====
-- A session: what it reads and writes, errors, and the commit or rollback at its end.
use ai_detention.Prelude.{
  ℕ, String, ◌≡◌, refl, Bool, true, false, List, [], ◌∷◌, ◌++◌, Option, some, none,
}
use ai_detention.Errors.{Error, Result, ok, err}
use ai_detention.Models.Run.{EvaluationConfig, EvaluationRun, WorkerResult}
use ai_detention.Models.Submission.{Submission}
use ai_detention.Models.Account.{Organization, User, ApiKey, AuditLog}
use ai_detention.Models.Findings.{Claim, Contradiction, Score}
use ai_detention.Models.Dataset.{Dataset}
use ai_detention.Models.Metric.{Metric}

pub record Db : Type 0 where
  pub organizations : List Organization
  pub users : List User
  pub api_keys : List ApiKey
  pub submissions : List Submission
  pub configs : List EvaluationConfig
  pub runs : List EvaluationRun
  pub worker_results : List WorkerResult
  pub claims : List Claim
  pub contradictions : List Contradiction
  pub scores : List Score
  pub datasets : List Dataset
  pub metrics : List Metric
  pub audit_logs : List AuditLog

abbrev pub empty_db : Db
empty_db = record {
  organizations = [];
  users = [];
  api_keys = [];
  submissions = [];
  configs = [];
  runs = [];
  worker_results = [];
  claims = [];
  contradictions = [];
  scores = [];
  datasets = [];
  metrics = [];
  audit_logs = [];
}

-- What the code hands to Celery, to the dead letter queue in Redis and to a webhook.
pub data Message : Type 0 where
  evaluate_submission_task : ℕ → Message
  revoke : String → Message
  -- the chord of the four analyses with the chain that follows
  dispatch_pipeline : ℕ → Message
  dead_letter : ℕ → String → Message
  deliver_webhook : String → ℕ → Message
  refresh_org_stats : Message

-- `now` is what `datetime.now` returns during the call.
pub record World : Type 0 where
  pub db : Db
  pub sent : List Message
  pub now : ℕ

abbrev pub Session {ℓ} : Type ℓ → Type ℓ
Session A = World → Result A × World

module _ {ℓ} {A : Type ℓ} where
  abbrev pub pure : A → Session A
  pure a w = (ok a, w)

  abbrev pub raise : Error → Session A
  raise e w = (err e, w)

  abbrev pub lift : Result A → Session A
  lift r w = (r, w)

  abbrev pub gets : (World → A) → Session A
  gets f w = (ok (f w), w)

-- Continues with a value, and passes an error on with the state as it is.
module _ {ℓ κ} {A : Type ℓ} {B : Type κ} where
  abbrev pub continue : Result A → (A → World → Result B × World) → World → Result B × World
  continue (ok a) f w = f a w
  continue (err e) f w = (err e, w)

infixl 5 ◌>>=◌ ◌>>◌
abbrev pub ◌>>=◌ {ℓ κ} :
    {A : Type ℓ} {B : Type κ}
    → (World → Result A × World)
    → (A → World → Result B × World)
    → World
    → Result B × World
◌>>=◌ m f w = let (r, w') = m w in continue r f w'

abbrev pub ◌>>◌ {ℓ} :
    {B : Type ℓ}
    → (World → Result (Unit {0}) × World)
    → (World → Result B × World)
    → World
    → Result B × World
m >> k = m >>= λ _. k

abbrev pub modify_db : (Db → Db) → Session (Unit {0})
modify_db f w = (ok tt, record w { db = f w.db })

abbrev pub send : Message → Session (Unit {0})
send m w = (ok tt, record w { sent = w.sent ++ m ∷ [] })

-- if test: raise e
abbrev pub raise_if : Bool → Error → Session (Unit {0})
raise_if true e w = (err e, w)
raise_if false e w = (ok tt, w)

-- get_db_session, get_standalone_session: commit if the body returns, roll back if it raises.
module _ {ℓ} {A : Type ℓ} where
  abbrev pub settle : Db → Result A × World → Result A × World
  settle before (ok a, w) = (ok a, w)
  settle before (err e, w) = (err e, record w { db = before })

  unfoldable pub transaction : Session A → Session A
  transaction body w = settle w.db (body w)

  -- Whatever raised, the database is as it was.
  pub transaction-err :
      (body : Session A) (w : World) {e : Error}
      → (transaction body w).0 ≡ err e
      → (transaction body w).1.db ≡ w.db
  unfolding transaction
  transaction-err body w h = go (body w) h
    where
      go :
          (r : Result A × World) {e : Error}
          → (settle w.db r).0 ≡ err e
          → (settle w.db r).1.db ≡ w.db
      go (ok a, w') h = cc
      go (err e, w') h = refl

-- try: body; except Exception as e: handler(e). What the body has done stays done.
module _ {ℓ} {A : Type ℓ} where
  abbrev pub handle : Result A → (Error → World → Result A × World) → World → Result A × World
  handle (ok a) handler w = (ok a, w)
  handle (err e) handler w = handler e w

  abbrev pub attempt : Session A → (Error → Session A) → Session A
  attempt body handler w = let (r, w') = body w in handle r handler w'

-- What a select reads.
abbrev pub query {ℓ} : {A : Type ℓ} → (Db → Result A) → Session A
query read w = (read w.db, w)

-- if not row: raise NotFoundError(resource, id)
abbrev pub found_or_raise {ℓ} : {A : Type ℓ} → Error → Option A → Session A
found_or_raise e none w = (err e, w)
found_or_raise e (some x) w = (ok x, w)
