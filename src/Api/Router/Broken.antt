-- ===== src/Api/Router/Broken.antt =====
-- Routes that cannot succeed: their service names a member that AuditAction lacks, or their
-- response schema fits no row.
use ai_detention.Api.Router.{
  Request, serve, route_of, post_datasets, post_datasets_id_confirm, get_datasets_id,
  delete_datasets_id, get_me, post_api_keys, delete_api_keys_id,
}
use ai_detention.Database.Returning.{Returns, bind-Returns}
use ai_detention.Api.Route.{
  Env, Response, respond, failure, answered, respond_public, authenticated, error_response_lem,
  current_user, authorize,
}
use ai_detention.Datasets.{delete_dataset, confirm_dataset_upload, get_dataset, Storage}
use ai_detention.Database.Session.{World, transaction, Session, ◌>>=◌, settle, lift}
use ai_detention.Prelude.{Bool, true, ◌≡◌, ℕ, String, false, arith, refl}
use ai_detention.Auth.Service.{
  refresh_access_token, create_api_key_for_user, revoke_api_key, Passwords, NewApiKey,
}
use ai_detention.Api.Datasets.{
  create_dataset_route, confirm_upload_route, get_dataset_route, delete_dataset_route,
}
use ai_detention.Api.Accounts.{
  register, refresh_token, get_me_route, create_api_key_route, revoke_api_key_route,
}
use ai_detention.Api.Body.{Body}
use ai_detention.Auth.Token.{Jwt, TokenSettings}
use ai_detention.Api.Router.Tenancy.Reports.{any-Returns}
use ai_detention.Auth.Deps.{Credentials}
use ai_detention.Schemas.{model_validate, fits, reads, takes}
use ai_detention.Errors.{Result, ok, err}
use ai_detention.Auth.Registration.{Registration}
use ai_detention.Models.Account.{User, Organization}
use ai_detention.Models.Dataset.{Dataset}
use ai_detention.Schemas.Responses.{dataset_response, dataset_create_response, user_response}
use ai_detention.Schemas.Rows.{dataset_attributes, user_attributes}

-- The requests for a dataset (but not for a list of them), for API keys and for the user's profile.
abbrev pub is_broken : Request → Bool
is_broken (post_datasets body) = true
is_broken (post_datasets_id_confirm id checksum count) = true
is_broken (get_datasets_id id) = true
is_broken (delete_datasets_id id) = true
is_broken get_me = true
is_broken (post_api_keys new) = true
is_broken (delete_api_keys_id id) = true
is_broken _ = false

unfoldable Never {ℓ} : {A : Type ℓ} → Session A → Type ℓ
Never m = (w : World) → Returns (λ a. ⊥) m w

-- A session that only raises, or one whose last part only raises.
module _ {A : Type 0} {B : Type 0} (m : Session A) (k : A → Session B) where
  first-Never : Never m → Never (m >>= k)
  unfolding Never
  first-Never never w = bind-Returns (λ a. ⊥) (λ b. ⊥) m k w (never w) (λ a w' p. absurd p)

  last-Never : ((a : A) → Never (k a)) → Never (m >>= k)
  unfolding Never
  last-Never never w =
      bind-Returns (λ a. Unit {0}) (λ b. ⊥) m k w (any-Returns m w) (λ a w' p. never a w')

unfit-Never : {A : Type 0} (fit : Bool) (row : A) → fit ≡ false → Never (model_validate fit row)
unfolding Returns Never
unfit-Never true row h w a e = absurd (ground arith)
unfit-Never false row h w a e = absurd (ground arith)

created_dataset_unfit : fits dataset_create_response dataset_attributes ≡ false
unfolding fits reads takes
created_dataset_unfit = refl

dataset_unfit : fits dataset_response dataset_attributes ≡ false
unfolding fits reads takes
dataset_unfit = refl

user_unfit : fits user_response user_attributes ≡ false
unfolding fits reads takes
user_unfit = refl

confirm-Never :
    (storage : Storage) (id org : ℕ) (sum : String) (n : ℕ)
    → Never (confirm_dataset_upload storage id org sum n)
unfolding confirm_dataset_upload Returns Never
confirm-Never storage id org sum n w d h = ground arith

delete-Never : (id org user_id : ℕ) → Never (delete_dataset id org user_id)
unfolding delete_dataset get_dataset Returns Never
delete-Never id org user_id w u h = ground arith

keys-Never : (user_id org : ℕ) (new : NewApiKey) → Never (create_api_key_for_user user_id org new)
unfolding create_api_key_for_user Returns Never
keys-Never user_id org new w found h = ground arith

revoke-Never : (id org user_id : ℕ) → Never (revoke_api_key id org user_id)
unfolding revoke_api_key Returns Never
revoke-Never id org user_id w u h = ground arith

refresh-Never :
    (passwords : Passwords) (jwt : Jwt) (settings : TokenSettings) (jti token : String)
    → Never (refresh_access_token passwords jwt settings jti token)
unfolding refresh_access_token Returns Never
refresh-Never passwords jwt settings jti token w pair h = ground arith

-- An answer that is a failure, with the database as before.
abbrev pub IsRolledBack : World → Response × World → Type 0
IsRolledBack w (response, w') =
    ((code : ℕ) × (error : String) × (response ≡ failure code error)) × (w'.db ≡ w.db)

answered-IsRolledBack :
    (status : ℕ) (m : Session Body) (w : World)
    → Never m
    → IsRolledBack w (answered status (transaction m w))
unfolding transaction Returns Never
answered-IsRolledBack status m w never = go (m w) (never w)
  where
    go :
        (p : Result Body × World)
        → ((a : Body) → p.0 ≡ ok a → ⊥)
        → IsRolledBack w (answered status (settle w.db p))
    go (ok a, w') h = absurd (h a refl)
    go (err e, w') h = (error_response_lem e, refl)

module _ (env : Env) where
  handler-Never :
      (request : Request)
      → is_broken request ≡ true
      → (user : User) → Never ((route_of env request).handler user)
  unfolding route_of create_dataset_route confirm_upload_route get_dataset_route
      delete_dataset_route get_me_route create_api_key_route revoke_api_key_route
  handler-Never (post_datasets body) h user =
      last-Never _ _ (λ (found : Dataset × String).
        first-Never _ _ (unfit-Never _ found.0 created_dataset_unfit))
  handler-Never (post_datasets_id_confirm id sum n) h user =
      first-Never _ _ (confirm-Never env.storage id user.organization_id sum n)
  handler-Never (get_datasets_id id) h user =
      last-Never _ _ (λ row. first-Never _ _ (unfit-Never _ row dataset_unfit))
  handler-Never (delete_datasets_id id) h user =
      first-Never _ _ (delete-Never id user.organization_id user.id)
  handler-Never get_me h user = first-Never _ _ (unfit-Never _ user user_unfit)
  handler-Never (post_api_keys new) h user =
      first-Never _ _ (keys-Never user.id user.organization_id new)
  handler-Never (delete_api_keys_id id) h user =
      first-Never _ _ (revoke-Never id user.organization_id user.id)
  handler-Never _ h user = absurd (ground arith)

  -- No request to create, confirm, show or delete a dataset, to show the user's profile, or to
  -- create or revoke an API key ever succeeds, whoever makes it: the answer is a failure and the
  -- database is as it was.
  pub broken_never_succeeds :
      (request : Request) (credentials : Credentials) (w : World)
      → is_broken request ≡ true
      → IsRolledBack w (serve env request credentials w)
  unfolding serve respond
  broken_never_succeeds request credentials w broken =
      answered-IsRolledBack (route_of env request).status
        (authenticated env (route_of env request) credentials) w
        (last-Never (current_user env credentials) _ (λ user.
          last-Never (lift (authorize (route_of env request).requires user)) _
            (λ checked. handler-Never request broken user)))

  -- No registration and no refresh of a token ever succeeds: the answer is a failure and the
  -- database is as it was.
  pub accounts_never_succeed :
      (body : Registration) (jti token : String) (w : World)
      → IsRolledBack w (register env body w) × IsRolledBack w (refresh_token env jti token w)
  unfolding register refresh_token respond_public
  accounts_never_succeed body jti token w = (
    answered-IsRolledBack 201 _ w (
        last-Never _ _
          (λ (found : User × Organization). first-Never _ _ (unfit-Never _ found.0 user_unfit))),
    answered-IsRolledBack 200 _ w
        (first-Never _ _ (refresh-Never env.passwords env.jwt env.settings jti token)),
  )
