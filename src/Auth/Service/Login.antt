-- ===== src/Auth/Service/Login.antt =====
-- `authenticate_user` on each of its branches, and what is left of it after the request's
-- transaction.
use ai_detention.Database.Session.{Db, transaction, Session, World, settle}
use ai_detention.Prelude.{
  String, All, ◌<◌, List, ◌∷◌, ◌≡◌, [], ◌==◌, false, some, refl, arith, true, ◌+◌, none,
}
use ai_detention.Auth.Service.{Passwords, authenticate_user, TokenPair, has_email}
use ai_detention.Auth.Token.{Jwt, TokenSettings, create_access_token, create_refresh_token}
use ai_detention.Models.Account.{User, max_failed_attempts, is_locked}
use ai_detention.Database.Table.{select, update_where, All-update_where}
use ai_detention.Errors.{
  Result, ok, err, app, unauthorized, account_deactivated, account_locked, invalid_credentials,
}

module _ (passwords : Passwords) (jwt : Jwt) (settings : TokenSettings)
    (jti email password : String) where
  abbrev login_call : Session (TokenPair × User)
  login_call = authenticate_user passwords jwt settings jti email password

  -- The login of a user that is found: a deactivated account and then a locked one are refused
  -- with nothing changed; a wrong password is refused, with one failed attempt more on the row; the
  -- right one resets the attempts, notes the time, and gives tokens for that user.
  pub login_exact :
      (w : World) {user : User}
      → select (has_email email) w.db.users ≡ user ∷ []
      → let (r, w') = login_call w in
        let same = λ (u : User). u.id == user.id in
        (user.is_active ≡ false → login_call w ≡ (err (app (unauthorized account_deactivated)), w))
        × (user.is_active ≡ true
            → is_locked user ≡ true
            → login_call w ≡ (err (app (unauthorized account_locked)), w))
        × (user.is_active ≡ true
            → is_locked user ≡ false
            → passwords.verify password user.hashed_password ≡ false
            → (r ≡ err (app (unauthorized invalid_credentials)))
              × (w'.db.users
                  ≡ update_where same
                      (λ u. record u { failed_login_attempts = user.failed_login_attempts + 1 })
                      w.db.users))
        × (user.is_active ≡ true
            → is_locked user ≡ false
            → passwords.verify password user.hashed_password ≡ true
            → (r
                ≡ ok (
                  record {
                    access_token =
                        create_access_token jwt settings jti user.id user.organization_id user.role
                          none w.now;
                    refresh_token =
                        create_refresh_token jwt settings user.id user.organization_id w.now;
                  },
                  record user { failed_login_attempts = 0; last_login_at = some w.now },
                ))
              × (w'.db.users
                  ≡ update_where same
                      (λ u. record u { failed_login_attempts = 0; last_login_at = some w.now })
                      w.db.users))
  unfolding authenticate_user
  login_exact w found = rw found (
    λ inactive. ground arith,
    λ active locked. ground arith,
    λ active unlocked wrong. ground arith,
    λ active unlocked right. ground arith,
  )

  -- A login that succeeds only resets attempts.
  users_after :
      (w : World) {pair : TokenPair} {user : User}
      → (login_call w).0 ≡ ok (pair, user)
      → (login_call w).1.db.users
        ≡ update_where
            (λ u. u.id == user.id)
            (λ u. record u { failed_login_attempts = 0; last_login_at = some w.now })
            w.db.users
  unfolding authenticate_user
  users_after w h = ground arith

-- No account is locked.
abbrev pub IsUnlocked : Db → Type 0
IsUnlocked db = All (λ (u : User). u.failed_login_attempts < max_failed_attempts) db.users

pub record LoginRequest : Type 0 where
  pub jti : String
  pub email : String
  pub password : String

module _ (passwords : Passwords) (jwt : Jwt) (settings : TokenSettings) where
  -- One request: the service's call inside the session of the request.
  abbrev pub login_request : LoginRequest → Session (TokenPair × User)
  login_request q = transaction (authenticate_user passwords jwt settings q.jti q.email q.password)

  unfoldable pub serve_logins : List LoginRequest → World → World
  serve_logins [] w = w
  serve_logins (q ∷ qs) w = serve_logins qs (login_request q w).1

  login_request-IsUnlocked :
      (q : LoginRequest) (w : World) → IsUnlocked w.db → IsUnlocked (login_request q w).1.db
  unfolding transaction
  login_request-IsUnlocked q w h =
      go (login_call passwords jwt settings q.jti q.email q.password w) (λ pair user e.
        rw (users_after passwords jwt settings q.jti q.email q.password w e) (
          All-update_where (λ (u : User). u.failed_login_attempts < max_failed_attempts)
            (λ u. u.id == user.id)
            (λ u. record u { failed_login_attempts = 0; last_login_at = some w.now }) w.db.users
            (λ u small. omega arith) h))
    where
      go :
          (r : Result (TokenPair × User) × World)
          → ((pair : TokenPair) (user : User) → r.0 ≡ ok (pair, user) → IsUnlocked r.1.db)
          → IsUnlocked (settle w.db r).1.db
      go (ok (pair, user), w') kept = kept pair user refl
      go (err e, w') kept = h

  -- Requests of logins, however many and however wrong their passwords, never lock an account: the
  -- attempt that a failed login counts is rolled back with its request.
  pub lockout_never_reached :
      (requests : List LoginRequest) (w : World)
      → IsUnlocked w.db
      → IsUnlocked (serve_logins requests w).db
  unfolding serve_logins
  lockout_never_reached [] w h = h
  lockout_never_reached (q ∷ qs) w h =
      lockout_never_reached qs (login_request q w).1 (login_request-IsUnlocked q w h)
