-- ===== src/Auth/Token.antt =====
-- JWT tokens (src/security.py). The signing and checking of a token is the library's (jose), and so
-- a parameter: `Jwt`. It is used with the one secret and algorithm of the settings.
use ai_detention.Prelude.{
  Bool, Option, String, ℕ, some, false, true, none, suc, ◌+◌, ◌≤◌, zero, ◌*◌, ◌≡◌,
}
use ai_detention.Models.Account.{UserRole}
use ai_detention.Errors.{Result, ok}

pub data TokenType : Type 0 where
  access refresh : TokenType

pub record Claims : Type 0 where
  pub jti : Option String
  pub sub : ℕ
  pub org : ℕ
  pub role : Option UserRole
  pub token_type : TokenType
  pub exp : ℕ
  pub iat : ℕ

-- decode(token) at a time; it raises for a token that is malformed, forged or expired.
pub record Jwt : Type 0 where
  pub encode : Claims → String
  pub decode : ℕ → String → Result Claims
  -- a token that was encoded here is read back until its time of expiry
  pub decode-encode : (c : Claims) (now : ℕ) → now ≤ c.exp → decode now (encode c) ≡ ok c

pub record TokenSettings : Type 0 where
  pub jwt_access_token_expire_minutes : ℕ
  pub jwt_refresh_token_expire_days : ℕ

-- expires_delta or timedelta(minutes=…): a delta of zero counts as none.
abbrev pub lifetime : Option ℕ → ℕ → ℕ
lifetime none default = default
lifetime (some zero) default = default
lifetime (some (suc n)) default = suc n

module _ (jwt : Jwt) (settings : TokenSettings) where
  abbrev pub access_claims : String → ℕ → ℕ → UserRole → Option ℕ → ℕ → Claims
  access_claims jti user_id org_id role expires_delta now = record {
    jti = some jti;
    sub = user_id;
    org = org_id;
    role = some role;
    token_type = access;
    exp = now + lifetime expires_delta (settings.jwt_access_token_expire_minutes * 60);
    iat = now;
  }

  -- `jti` is the text of a new uuid4.
  abbrev pub create_access_token : String → ℕ → ℕ → UserRole → Option ℕ → ℕ → String
  create_access_token jti user_id org_id role expires_delta now =
      jwt.encode (access_claims jti user_id org_id role expires_delta now)

  abbrev pub refresh_claims : ℕ → ℕ → ℕ → Claims
  refresh_claims user_id org_id now = record {
    jti = none;
    sub = user_id;
    org = org_id;
    role = none;
    token_type = refresh;
    exp = now + settings.jwt_refresh_token_expire_days * 86400;
    iat = now;
  }

  abbrev pub create_refresh_token : ℕ → ℕ → ℕ → String
  create_refresh_token user_id org_id now = jwt.encode (refresh_claims user_id org_id now)

-- if payload.get("type") != TokenType.….value
abbrev pub is_access : Claims → Bool
is_access c = elim c.token_type [ access ↦ true | refresh ↦ false ]

abbrev pub is_refresh : Claims → Bool
is_refresh c = elim c.token_type [ access ↦ false | refresh ↦ true ]
