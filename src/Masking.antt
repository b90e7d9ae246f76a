-- ===== src/Masking.antt =====
-- The masking of log fields (src/observability/logging.py). An event is a dict, here the list of its
-- entries with different keys. `str.lower` and the pattern of tokens in texts are parameters.
pub mod Blind
use ai_detention.Prelude.{
  ℕ, String, List, suc, ◌∷◌, if◌then◌else◌, Bool, [], zero, any, leb, ◌-◌, str_eq, take_chars,
}
use ai_detention.Prelude.Text.{text_length, append_text, drop_chars}

-- What an entry holds: a text, or a value of another type, by what it prints.
pub data LogValue : Type 0 where
  text : String → LogValue
  other : String → LogValue

-- _TOKEN_PATTERN: whether `search` finds it, and what `sub` makes of a text.
pub record TokenPattern : Type 0 where
  pub search : String → Bool
  pub sub : String → String

abbrev pub sensitive_fields : List String
sensitive_fields =
    "password" ∷ "hashed_password" ∷ "token" ∷ "access_token" ∷ "refresh_token" ∷ "api_key"
    ∷ "secret" ∷ "secret_key" ∷ "authorization" ∷ "x_api_key" ∷ "aws_secret_access_key"
    ∷ "s3_secret_access_key" ∷ []

abbrev pub pii_fields : List String
pii_fields = "email" ∷ "ip_address" ∷ "client_ip" ∷ []

abbrev pub redacted : String
redacted = "***REDACTED***"

abbrev pub is_field : List String → String → Bool
is_field fields key = any (λ f. str_eq f key) fields

-- value[-2:] of a text of at least two characters
abbrev pub last_two : String → String
last_two value = drop_chars (text_length value - 2) value

unfoldable pub mask_value : String → String
mask_value value =
    if leb (text_length value) 6
    then redacted
    else append_text (take_chars 2 value) (append_text "***" (last_two value))

module _ (lower : String → String) (tokens : TokenPattern) where
  -- The last test, of texts that hold a token.
  abbrev pub mask_tokens : LogValue → LogValue
  mask_tokens (text s) = if tokens.search s then text (tokens.sub s) else text s
  mask_tokens (other s) = other s

  abbrev pub mask_pii : LogValue → LogValue
  mask_pii (text s) = text (mask_value s)
  mask_pii (other s) = mask_tokens (other s)

  unfoldable pub mask_entry : String → LogValue → LogValue
  mask_entry key value =
      if is_field sensitive_fields (lower key)
      then text redacted
      else (if is_field pii_fields (lower key) then mask_pii value else mask_tokens value)

  unfoldable pub sensitive_field_masker : List (String × LogValue) → List (String × LogValue)
  sensitive_field_masker [] = []
  sensitive_field_masker ((key, value) ∷ event) =
      (key, mask_entry key value) ∷ sensitive_field_masker event
