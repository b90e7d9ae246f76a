-- ===== src/Auth/Deps.antt =====
-- The dependencies of the API (src/api/deps.py): who makes a request, and the bounds of a page.
pub mod Current
use ai_detention.Prelude.{
  Option, ℕ, String, some, List, if◌then◌else◌, str_eq, none, Bool, ◌∷◌, [], ◌&&◌, is_none, not,
  true, false,
}
use ai_detention.Auth.Service.{Passwords, authenticate_api_key, decode_or, active_user}
use ai_detention.Prelude.Int.{ℤ, pos_part, max_ℤ, pos, min_ℤ}
use ai_detention.Auth.Token.{Jwt, TokenSettings, is_access}
use ai_detention.Models.Account.{User}
use ai_detention.Database.Session.{
  Session, ◌>>=◌, gets, pure, ◌>>◌, raise_if, found_or_raise, raise, query,
}
use ai_detention.Errors.{
  invalid_access_token, app, unauthorized, invalid_token_type, development_bypass_failed,
  authentication_required, user_not_found_or_deactivated,
}
use ai_detention.Database.Table.{select, scalar_one_or_none}

-- What a request carries of credentials: the bearer token and the X-API-Key header. An empty text
-- counts as none.
pub record Credentials : Type 0 where
  pub bearer : Option String
  pub x_api_key : Option String

abbrev pub given : Option String → Option String
given none = none
given (some t) = if str_eq t "" then none else some t

module _ (passwords : Passwords) (jwt : Jwt) (settings : TokenSettings)
    (hash_api_key : String → String) (order_by : List User → List User) where
  abbrev pub by_token : String → Session User
  by_token token = do
    payload ← decode_or passwords jwt settings invalid_access_token token
    raise_if (not (is_access payload)) (app (unauthorized invalid_token_type))
    found ← query (λ db.
        scalar_one_or_none (select (active_user passwords jwt settings payload.sub) db.users))
    found_or_raise (app (unauthorized user_not_found_or_deactivated)) found

  abbrev pub by_key : String → Session User
  by_key raw_key = do pair ← authenticate_api_key hash_api_key raw_key; pure pair.0

  abbrev pub first_user : List User → Option User
  first_user [] = none
  first_user (u ∷ us) = some u

  -- Without credentials: in development the first user, oldest first by `order_by`.
  abbrev pub by_default : Bool → Session User
  by_default true = do
    found ←
        gets (λ w.
          first_user (order_by (select (λ u. u.is_active && is_none u.deleted_at) w.db.users)))
    found_or_raise (app (unauthorized development_bypass_failed)) found
  by_default false = raise (app (unauthorized authentication_required))

  abbrev pub by_key_or_default : Bool → Option String → Session User
  by_key_or_default is_development (some key) = by_key key
  by_key_or_default is_development none = by_default is_development

  abbrev pub by_credentials : Bool → Option String → Option String → Session User
  by_credentials is_development (some token) key = by_token token
  by_credentials is_development none key = by_key_or_default is_development key

  unfoldable pub get_current_user : Bool → Credentials → Session User
  get_current_user is_development c =
      by_credentials is_development (given c.bearer) (given c.x_api_key)

pub record PaginationParams : Type 0 where
  pub page : ℕ
  pub page_size : ℕ

-- PaginationParams(page=max(1, page), page_size=min(100, max(1, page_size))), of what a query may
-- send: any integer.
unfoldable pub get_pagination : ℤ → ℤ → PaginationParams
get_pagination page page_size = record {
  page = pos_part (max_ℤ (pos 1) page);
  page_size = pos_part (min_ℤ (pos 100) (max_ℤ (pos 1) page_size));
}
