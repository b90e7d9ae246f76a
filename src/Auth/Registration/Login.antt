-- ===== src/Auth/Registration/Login.antt =====
-- A user who has registered can log in.
use ai_detention.Auth.Registration.{
  register_user, CharClasses, Registration, new_user, new_organization,
}
use ai_detention.Auth.Service.{Passwords, has_email, authenticate_user}
use ai_detention.Prelude.{
  ℕ, ◌≡◌, str_eq, [], ◌++◌, ◌∷◌, Bool, List, none, arith, ◌∙◌, String, some, refl, str_eq_refl,
}
use ai_detention.Database.Session.{World, Session}
use ai_detention.Models.Account.{User, Organization, admin}
use ai_detention.Errors.{ok}
use ai_detention.Database.Table.{
  select, scalar_one_or_none, missed-select, select-append, select-select,
}
use ai_detention.Auth.Token.{Jwt, TokenSettings, create_access_token, create_refresh_token}
use ai_detention.Auth.Service.Login.{login_exact}

module _ (chars : CharClasses) (passwords : Passwords) (new : Registration) where
  abbrev registration : Session (User × Organization)
  registration = register_user chars passwords new

  abbrev has_address : User → Bool
  has_address u = str_eq u.email new.email

  -- What a registration that succeeds has found and added.
  registered :
      (w : World) {user : User} {org : Organization}
      → (registration w).0 ≡ ok (user, org)
      → (scalar_one_or_none (select has_address w.db.users) ≡ ok none)
        × ((registration w).1.db.users ≡ w.db.users ++ user ∷ [])
        × (user ≡ new_user chars passwords new w.now)
        × (org ≡ new_organization chars passwords new)
        × ((registration w).1.now ≡ w.now)
  unfolding register_user
  registered w h = ground arith

  -- The row of the user is the only one that a login with its address sees.
  found_again :
      (users : List User) (now : ℕ)
      → scalar_one_or_none (select has_address users) ≡ ok none
      → select (has_email new.email) (users ++ new_user chars passwords new now ∷ [])
        ≡ new_user chars passwords new now ∷ []
  unfolding select
  found_again users now missed =
      let none_before = missed-select has_address users missed in
      select-append (has_email new.email) users (new_user chars passwords new now ∷ [])
      ∙ rw (select-select has_address (has_email new.email) users (λ u h. ground arith))
          (rw (none_before, str_eq_refl new.email) refl)

  -- After a registration that succeeds, the user is the admin of the new organization, and a login
  -- with the same address and password is answered with tokens for that user.
  pub register_then_login :
      (jwt : Jwt) (settings : TokenSettings) (jti : String) (w : World) {user : User}
      {org : Organization}
      → (registration w).0 ≡ ok (user, org)
      → (user.role ≡ admin)
        × (user.organization_id ≡ org.id)
        × ((authenticate_user passwords jwt settings jti new.email new.password
              (registration w).1).0
            ≡ ok (
              record {
                access_token = create_access_token jwt settings jti user.id org.id admin none w.now;
                refresh_token = create_refresh_token jwt settings user.id org.id w.now;
              },
              record user { failed_login_attempts = 0; last_login_at = some w.now },
            ))
  register_then_login jwt settings jti w {user} {org} h =
      let (missed, users, made, founded, same_time) = registered w h in
      let found : select (has_email new.email) (registration w).1.db.users ≡ user ∷ [] =
        rw (users, made) (found_again w.db.users w.now missed) in
      let logged =
        (login_exact passwords jwt settings jti new.email new.password (registration w).1 found).3
          (rw made refl) (rw made refl) (rw made (passwords.verify-hash new.password)) in
      (
        ground (arith, made),
        ground (arith, made, founded),
        logged.0 ∙ rw (same_time, made, founded) refl,
      )
