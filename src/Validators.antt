-- ===== src/Validators.antt =====
-- Validation of inputs (src/utils/validators.py). The two patterns are translated by what
-- `re.match` does with them: `$` also matches before one newline at the end. Which characters are
-- white space is the parameter `is_space`, and urllib's `urlparse` is the parameter `urlparse`.
pub mod Slug
pub mod Sanitize
use Prim.Native.Char.{Char, code}
use ai_detention.Prelude.{
  Bool, Option, List, String, false, ◌&&◌, if◌then◌else◌, ◌==◌, ◌∷◌, true, some, ℕ, take_chars, not,
  ◌||◌, [], none, str_eq, ltb, any,
}
use ai_detention.Prelude.Text.{between, is_empty, filter_chars, replace_runs, text_length, strip}

abbrev pub is_lower_alnum : Char → Bool
is_lower_alnum c = between b'a' b'z' c || between b'0' b'9' c

abbrev pub is_hyphen : Char → Bool
is_hyphen c = code c == b'-'

-- The text without a newline at its end.
unfoldable pub chomp : String → String
chomp String.[] = String.[]
chomp (String.◌∷◌ c s) =
    let rest = chomp s in if is_empty s && code c == b'\n' then String.[] else String.◌∷◌ c rest

-- [a-z0-9-]*[a-z0-9]
unfoldable pub slug_rest : String → Bool
slug_rest String.[] = false
slug_rest (String.◌∷◌ c s) =
    let rest = slug_rest s in
    if is_empty s then is_lower_alnum c else (is_lower_alnum c || is_hyphen c) && rest

-- [a-z0-9]([a-z0-9-]*[a-z0-9])?
unfoldable pub slug_pattern : String → Bool
slug_pattern String.[] = false
slug_pattern (String.◌∷◌ c s) = is_lower_alnum c && (is_empty s || slug_rest s)

abbrev pub starts_hyphen : String → Bool
starts_hyphen String.[] = false
starts_hyphen (String.◌∷◌ c s) = is_hyphen c

-- "--" in value
unfoldable pub has_double_hyphen : String → Bool
has_double_hyphen String.[] = false
has_double_hyphen (String.◌∷◌ c s) = (is_hyphen c && starts_hyphen s) || has_double_hyphen s

unfoldable pub is_valid_slug : String → Bool
is_valid_slug value =
    if is_empty value || ltb 63 (text_length value)
    then false
    else (if not (slug_pattern (chomp value)) then false else not (has_double_hyphen value))

abbrev pub is_scope_char : Char → Bool
is_scope_char c = between b'a' b'z' c || code c == b'_'

-- [a-z_]+:[a-z_]+; the flags say that a character, and that the colon, has been read.
unfoldable pub scope_pattern : Bool → Bool → String → Bool
scope_pattern any_read colon_read String.[] = any_read && colon_read
scope_pattern any_read colon_read (String.◌∷◌ c s) =
    let more = scope_pattern true colon_read s in
    let action = scope_pattern false true s in
    if is_scope_char c
    then more
    else (if code c == b':' && (any_read && not colon_read) then action else false)

unfoldable pub is_valid_scope : String → Bool
is_valid_scope scope = scope_pattern false false (chomp scope)

module _ (is_space : Char → Bool) where
  -- strip, re.sub(r"\s+", " ", …), replace("\x00", "") and the cut, in this order.
  unfoldable pub sanitize_string : String → ℕ → String
  sanitize_string value max_length =
      take_chars max_length
        (filter_chars (λ c. not (code c == 0)) (replace_runs is_space " " (strip is_space value)))

pub record ParsedUrl : Type 0 where
  pub scheme : String
  pub netloc : String
  pub hostname : Option String

-- s.startswith(prefix)
unfoldable pub starts_with : String → String → Bool
starts_with String.[] s = true
starts_with (String.◌∷◌ p prefix) String.[] = false
starts_with (String.◌∷◌ p prefix) (String.◌∷◌ c s) = code p == code c && starts_with prefix s

abbrev pub blocked_prefixes : List String
blocked_prefixes =
    "10." ∷ "172.16." ∷ "172.17." ∷ "172.18." ∷ "172.19." ∷ "172.20." ∷ "172.21." ∷ "172.22."
    ∷ "172.23." ∷ "172.24." ∷ "172.25." ∷ "172.26." ∷ "172.27." ∷ "172.28." ∷ "172.29." ∷ "172.30."
    ∷ "172.31." ∷ "192.168." ∷ "169.254." ∷ []

abbrev pub is_local : Option String → Bool
is_local none = false
is_local (some host) = str_eq host "localhost" || str_eq host "127.0.0.1"

abbrev pub hostname_or_empty : Option String → String
hostname_or_empty none = ""
hostname_or_empty (some host) = host

abbrev pub url_allowed : ParsedUrl → Bool
url_allowed parsed =
    if is_empty parsed.scheme || is_empty parsed.netloc
    then false
    else (if not (str_eq parsed.scheme "https") && not (is_local parsed.hostname)
        then false
        else not (
            any (λ prefix. starts_with prefix (hostname_or_empty parsed.hostname))
              blocked_prefixes))

-- none stands for an exception of urlparse.
unfoldable pub validate_webhook_url : (String → Option ParsedUrl) → String → Bool
validate_webhook_url urlparse url = elim (urlparse url) [
  | none ↦ false
  | some parsed ↦ url_allowed parsed
]
