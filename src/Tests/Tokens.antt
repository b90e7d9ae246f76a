-- ===== src/Tests/Tokens.antt =====
-- Concrete functions for the libraries of authentication: a password is its own hash, and a token
-- writes its claims in unary.
use Prim.Native.Char.{Char}
use ai_detention.Auth.Token.{TokenType, Jwt, Claims, access, refresh, TokenSettings}
use ai_detention.Prelude.{
  ℕ, String, Option, suc, some, arith, ◌≡◌, str_eq, none, refl, zero, if◌then◌else◌, leb, ◌≤◌, Bool,
  ap, ◌∙◌, str_eq_refl,
}
use ai_detention.Auth.Service.{Passwords}
use ai_detention.Models.Account.{UserRole}
use ai_detention.Errors.{Result, ok, err, other_error}
use ai_detention.Database.Session.{World}
use ai_detention.Tests.Samples.{world_with}
use ai_detention.Models.Run.{RunStatus}

abbrev pub plain_passwords : Passwords
plain_passwords = record { verify = λ p h. str_eq p h; hash = λ p. p; verify-hash = str_eq_refl }

-- n in unary, before a text.
abbrev pub unary : ℕ → String → String
unary zero rest = String.◌∷◌ "0" rest
unary (suc n) rest = String.◌∷◌ "1" (unary n rest)

abbrev is_one : Char → Bool
is_one c = str_eq (String.◌∷◌ c String.[]) "1"

abbrev pub read_unary : String → ℕ × String
read_unary String.[] = (0, String.[])
read_unary (String.◌∷◌ c s) =
    let (n, rest) = read_unary s in if is_one c then (suc n, rest) else (0, s)

pub read-unary : (n : ℕ) (rest : String) → read_unary (unary n rest) ≡ (n, rest)
read-unary zero rest = refl
read-unary (suc n) rest = rw (read-unary n rest) refl

abbrev role_number : Option UserRole → ℕ
role_number none = 0
role_number (some UserRole.admin) = 1
role_number (some UserRole.judge) = 2
role_number (some UserRole.viewer) = 3

abbrev number_role : ℕ → Option UserRole
number_role zero = none
number_role (suc zero) = some UserRole.admin
number_role (suc (suc zero)) = some UserRole.judge
number_role (suc (suc (suc n))) = some UserRole.viewer

number-role : (r : Option UserRole) → number_role (role_number r) ≡ r
number-role none = refl
number-role (some UserRole.admin) = refl
number-role (some UserRole.judge) = refl
number-role (some UserRole.viewer) = refl

abbrev type_number : TokenType → ℕ
type_number access = 0
type_number refresh = 1

abbrev number_type : ℕ → TokenType
number_type zero = access
number_type (suc n) = refresh

number-type : (t : TokenType) → number_type (type_number t) ≡ t
number-type access = refl
number-type refresh = refl

abbrev write_jti : Option String → String
write_jti none = String.[]
write_jti (some s) = String.◌∷◌ "1" s

abbrev read_jti : String → Option String
read_jti String.[] = none
read_jti (String.◌∷◌ c s) = some s

read-jti : (j : Option String) → read_jti (write_jti j) ≡ j
read-jti none = refl
read-jti (some s) = refl

abbrev write_claims : Claims → String
write_claims c = unary c.sub (
    unary c.org (
      unary (role_number c.role)
        (unary (type_number c.token_type) (unary c.exp (unary c.iat (write_jti c.jti))))))

abbrev read_claims : String → Claims
read_claims s =
    let (sub, s1) = read_unary s in
    let (org, s2) = read_unary s1 in
    let (role, s3) = read_unary s2 in
    let (type, s4) = read_unary s3 in
    let (exp, s5) = read_unary s4 in
    let (iat, s6) = read_unary s5 in
    record {
      jti = read_jti s6;
      sub = sub;
      org = org;
      role = number_role role;
      token_type = number_type type;
      exp = exp;
      iat = iat;
    }

read-claims : (c : Claims) → read_claims (write_claims c) ≡ c
read-claims c =
    rw
      (
        read-unary c.sub _,
        read-unary c.org _,
        read-unary (role_number c.role) _,
        read-unary (type_number c.token_type) _,
        read-unary c.exp _,
        read-unary c.iat _,
        read-jti c.jti,
        number-role c.role,
        number-type c.token_type,
      )
      refl

abbrev unexpired : ℕ → Claims → Result Claims
unexpired now c = if leb now c.exp then ok c else err (other_error "expired")

unexpired-ok : (c : Claims) (now : ℕ) → now ≤ c.exp → unexpired now c ≡ ok c
unexpired-ok c now lives = ground arith

pub decode-encoded :
    (c : Claims) (now : ℕ) → now ≤ c.exp → unexpired now (read_claims (write_claims c)) ≡ ok c
decode-encoded c now lives = ap (unexpired now) (read-claims c) ∙ unexpired-ok c now lives

abbrev pub unary_jwt : Jwt
unary_jwt = record {
  encode = write_claims;
  decode = λ now token. unexpired now (read_claims token);
  decode-encode = decode-encoded;
}

abbrev pub token_settings : TokenSettings
token_settings = record { jwt_access_token_expire_minutes = 1; jwt_refresh_token_expire_days = 0 }

abbrev pub auth_world : World
auth_world = world_with RunStatus.running
