-- ===== src/Auth/Registration.antt =====
-- Registration (src/services/auth_service.py): the slug of an organization's name, and
-- `register_user`. What Python's text functions say of characters is a parameter.
pub mod Login
use Prim.Native.Char.{Char, code}
use ai_detention.Auth.Service.{Passwords}
use ai_detention.Prelude.{
  ℕ, Bool, String, ◌||◌, ◌==◌, ◌≤◌, take_chars, true, none, str_eq, not, is_none, ◌++◌, ◌∷◌, [],
  some,
}
use ai_detention.Models.Account.{User, Organization, admin, AuditAction}
use ai_detention.Prelude.Text.{text_length, strip, filter_chars, length-take_chars, replace_runs}
use ai_detention.Database.Session.{Session, ◌>>=◌, query, ◌>>◌, raise_if, modify_db, gets, pure}
use ai_detention.Database.Table.{scalar_one_or_none, select}
use ai_detention.Errors.{app, conflict, user_exists, organization_exists}
use ai_detention.Database.Audit.{create_audit_log}

-- str.lower, and the classes \w and \s
pub record CharClasses : Type 0 where
  pub lower : String → String
  pub is_word : Char → Bool
  pub is_space : Char → Bool

-- The ids are those that the database gives to the two rows.
pub record Registration : Type 0 where
  pub user_id : ℕ
  pub organization_id : ℕ
  pub email : String
  pub password : String
  pub full_name : String
  pub organization_name : String

module _ (chars : CharClasses) where
  open chars use {lower, is_word, is_space}

  abbrev stays : Char → Bool
  stays c = is_word c || (is_space c || code c == b'-')

  abbrev is_gap : Char → Bool
  is_gap c = is_space c || code c == b'_'

  unfoldable pub slugify : String → String
  slugify name =
      let slug = strip is_space (lower name) in
      let kept = filter_chars stays slug in take_chars 63 (replace_runs is_gap "-" kept)

  length-slugify : (name : String) → text_length (slugify name) ≤ 63
  unfolding slugify
  length-slugify name = length-take_chars 63 _

  module _ (passwords : Passwords) where
    abbrev pub new_organization : Registration → Organization
    new_organization new = record {
      id = new.organization_id;
      name = new.organization_name;
      slug = slugify new.organization_name;
      max_concurrent_evaluations = 10;
      deleted_at = none;
    }

    -- The first user of an organization is its admin.
    abbrev pub new_user : Registration → ℕ → User
    new_user new now = record {
      id = new.user_id;
      email = new.email;
      hashed_password = passwords.hash new.password;
      full_name = new.full_name;
      role = admin;
      organization_id = new.organization_id;
      is_active = true;
      last_login_at = none;
      failed_login_attempts = 0;
      created_at = now;
      deleted_at = none;
    }

    unfoldable pub register_user : Registration → Session (User × Organization)
    register_user new = do
      existing ← query (λ db. scalar_one_or_none (select (λ u. str_eq u.email new.email) db.users))
      raise_if (not (is_none existing)) (app (conflict user_exists))
      let slug = slugify new.organization_name
      existing_org ←
          query (λ db. scalar_one_or_none (select (λ o. str_eq o.slug slug) db.organizations))
      raise_if (not (is_none existing_org)) (app (conflict organization_exists))
      let org = new_organization new
      modify_db λ db. record db { organizations = db.organizations ++ org ∷ [] }
      now ← gets (λ w. w.now)
      let user = new_user new now
      modify_db λ db. record db { users = db.users ++ user ∷ [] }
      create_audit_log AuditAction.create "user" (some user.id) (some org.id) (some user.id)
          "success"
      pure (user, org)
