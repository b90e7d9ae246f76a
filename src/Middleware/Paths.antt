-- ===== src/Middleware/Paths.antt =====
-- The endpoint of a request in the metrics (src/middleware/metrics.py): its path, with ids
-- replaced. The substitution of UUIDs by a regular expression is a parameter, as are the digits of \d.
use Prim.Native.Char.{Char, code}
use ai_detention.Validators.{starts_with}
use ai_detention.Prelude.{
  List, Bool, String, any, ◌∷◌, if◌then◌else◌, none, Option, ◌&&◌, some, ◌==◌, [],
}
use ai_detention.Prelude.Text.{is_empty, append_text}

abbrev flush : String → String
flush digits = if is_empty digits then "/" else "/:id"

-- re.sub(r"/\d+(?=/|$)", "/:id", path): the first argument has the digits after a slash, none
-- outside; `$` matches before a newline at the end too.
unfoldable pub sub_numbers : (Char → Bool) → Option String → String → String
sub_numbers is_digit none String.[] = String.[]
sub_numbers is_digit none (String.◌∷◌ c s) =
    let slash = sub_numbers is_digit (some String.[]) s in
    let other = sub_numbers is_digit none s in if code c == 47 then slash else String.◌∷◌ c other
sub_numbers is_digit (some digits) String.[] = flush digits
sub_numbers is_digit (some digits) (String.◌∷◌ c s) =
    let longer = sub_numbers is_digit (some (append_text digits (String.◌∷◌ c String.[]))) s in
    let slash = sub_numbers is_digit (some String.[]) s in
    let other = sub_numbers is_digit none s in
    if is_digit c
    then longer
    else (if code c == 47
        then append_text (flush digits) slash
        else (if code c == 10 && is_empty s
            then append_text (flush digits) (String.◌∷◌ c s)
            else append_text (String.◌∷◌ "/" digits) (String.◌∷◌ c other)))

module _ (sub_uuids : String → String) (is_digit : Char → Bool) where
  unfoldable pub normalize_path : String → String
  normalize_path path = sub_numbers is_digit none (sub_uuids path)

-- path.startswith(prefix) for one of the prefixes
abbrev pub excluded_prefixes : List String
excluded_prefixes = "/health" ∷ "/metrics" ∷ "/docs" ∷ "/redoc" ∷ "/openapi.json" ∷ []

unfoldable pub is_excluded : String → Bool
unfolding starts_with
is_excluded path = any (λ prefix. starts_with prefix path) excluded_prefixes
