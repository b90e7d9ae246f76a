-- ===== src/Tests/Services.antt =====
-- Registration, datasets, slugs and the cache at concrete inputs.
use ai_detention.Auth.Registration.Login.{register_then_login}
use ai_detention.Datasets.Uploads.{
  uploads_never_end, run_calls, DatasetCall, initiate, confirm, remove,
}
use ai_detention.Cache.Refines.{cached_refines, call_all, Call, AreAnswers}
use ai_detention.Validators.Slug.{is_valid_slug_exact, IsSlug}
use ai_detention.Tests.Tokens.{
  plain_passwords, unary_jwt, token_settings, auth_world, unary, read_unary, read-unary,
}
use Prim.Native.Char.{code}
use ai_detention.Auth.Registration.{register_user, CharClasses, slugify, Registration}
use ai_detention.Prelude.{
  List, ◌≡◌, true, ◌||◌, All, none, ◌==◌, ◌↔◌, [], refl, ◌∷◌, ◌≤◌, length, ◌+◌, String, Bool, ℕ,
  false, Option, some, arith, if◌then◌else◌, ◌⊎◌, Bool-cases, str_eq, inl, str_eq_iff, inr, sym, ap,
  ◌∙◌,
}
use ai_detention.Validators.{is_valid_slug, slug_pattern, slug_rest, has_double_hyphen, chomp}
use ai_detention.Datasets.{Storage}
use ai_detention.Models.Account.{User, admin}
use ai_detention.Errors.{ok, Result}
use ai_detention.Prelude.Text.{
  between, strip, lstrip, rstrip, text_length, filter_chars, replace_runs, replace_runs_from,
}
use ai_detention.Database.Table.{select}
use ai_detention.Tests.Samples.{world_with}
use ai_detention.Models.Run.{RunStatus}
use ai_detention.Models.Dataset.{Dataset, uploading}
use ai_detention.Auth.Service.{authenticate_user}
use ai_detention.Auth.Token.{create_access_token, create_refresh_token}
use ai_detention.Cache.{Redis, Payload, reply, Reply, PayloadJson, cached, cache_get, cache_set}

is_valid_slug_exact_example :
    (is_valid_slug "acme-2" ≡ true) ↔ ((text_length "acme-2" ≤ 63) × IsSlug (chomp "acme-2"))
is_valid_slug_exact_example = is_valid_slug_exact "acme-2"

-- The slug of a text with a newline at its end is accepted.
accepts_newline : is_valid_slug "a\n" ≡ true
unfolding is_valid_slug slug_pattern slug_rest has_double_hyphen chomp
accepts_newline = refl

abbrev pub ascii : CharClasses
ascii = record {
  lower = λ s. s;
  is_word = λ c. between b'a' b'z' c || code c == b'_';
  is_space = λ c. code c == b' ';
}

slug_of_name : slugify ascii " my_new  org! " ≡ "my-new-org"
unfolding slugify strip lstrip rstrip filter_chars replace_runs replace_runs_from
slug_of_name = refl

abbrev grace : Registration
grace = record {
  user_id = 21;
  organization_id = 20;
  email = "grace";
  password = "navy";
  full_name = "Grace";
  organization_name = "cobol";
}

abbrev grace_user : User
grace_user = record {
  id = 21;
  email = "grace";
  hashed_password = "navy";
  full_name = "Grace";
  role = admin;
  organization_id = 20;
  is_active = true;
  last_login_at = none;
  failed_login_attempts = 0;
  created_at = 100;
  deleted_at = none;
}

register_then_login_example :
    (grace_user.role ≡ admin)
    × (grace_user.organization_id ≡ 20)
    × ((authenticate_user plain_passwords unary_jwt token_settings "j" "grace" "navy"
          (register_user ascii plain_passwords grace auth_world).1).0
        ≡ ok (
          record {
            access_token = create_access_token unary_jwt token_settings "j" 21 20 admin none 100;
            refresh_token = create_refresh_token unary_jwt token_settings 21 20 100;
          },
          record grace_user { failed_login_attempts = 0; last_login_at = some 100 },
        ))
unfolding register_user slugify select strip lstrip rstrip filter_chars replace_runs
    replace_runs_from
register_then_login_example =
    register_then_login ascii plain_passwords grace unary_jwt token_settings "j" auth_world
      {user = grace_user}
      {org = record {
        id = 20;
        name = "cobol";
        slug = "cobol";
        max_concurrent_evaluations = 10;
        deleted_at = none;
      }}
      refl

abbrev pub sample_storage : Storage
sample_storage = record {
  presigned_upload_url = λ s. s;
  presigned_download_url = λ s. s;
  download_sha256 = λ s. ok "sum";
  show_id = λ n. "7";
}

abbrev sample_requests : List DatasetCall
sample_requests =
    initiate 7 9
      (record { new_id = 30; name = "d"; description = none; size_bytes = 8; metadata = [] })
    ∷ confirm 30 7 "sum" 2
    ∷ remove 30 7 9
    ∷ []

uploads_never_end_example :
    let after =
      (run_calls sample_storage sample_requests (world_with RunStatus.running)).db.datasets in
    All (λ (d : Dataset). (d.status ≡ uploading) × (d.deleted_at ≡ none)) after
    × (length after ≡ 0 + 1)
uploads_never_end_example =
    uploads_never_end sample_storage sample_requests (world_with RunStatus.running) tt

-- A server that keeps every key: its contents, newest first.
abbrev lookup : String → List (String × String) → Option String
lookup key [] = none
lookup key ((k, v) ∷ rest) = if str_eq k key then some v else lookup key rest

lookup-cons :
    (key value : String) (rest : List (String × String)) (key' x : String)
    → lookup key' ((key, value) ∷ rest) ≡ some x
    → ((key' ≡ key) × (x ≡ value)) ⊎ (lookup key' rest ≡ some x)
lookup-cons key value rest key' x h = elim (Bool-cases (str_eq key key')) [
  | inl same ↦ inl (ground (arith, str_eq_iff key key'), ground arith)
  | inr other ↦ inr (ground arith)
]

content-reply : {a b : Option String} → Reply.reply a ≡ reply b → a ≡ b
content-reply h = ground arith

abbrev sample_redis : Redis (List (String × String))
sample_redis = record {
  get = λ key s. reply (lookup key s);
  set = λ key value ttl s. (reply tt, (key, value) ∷ s);
  content = lookup;
  get-content = λ key x s h. content-reply h;
  content-set = λ key value ttl s key' x h. lookup-cons key value s key' x h;
}

-- A number in a tuple or in a list, which is what json reads back.
data Boxed : Type 0 where
  tuple list : ℕ → Boxed

abbrev unboxed : Boxed → ℕ
unboxed (tuple n) = n
unboxed (list n) = n

abbrev read_payload : String → Payload Boxed
read_payload text =
    let (val, s1) = read_unary text in
    let (ts, s2) = read_unary s1 in
    let (ttl, s3) = read_unary s2 in record { val = list val; ts = ts; ttl = ttl }

abbrev unary_json : PayloadJson Boxed
unary_json = record {
  decoded = λ v. list (unboxed v);
  dumps = λ p. unary (unboxed p.val) (unary p.ts (unary p.ttl ""));
  loads = λ text. ok (read_payload text);
  loads-dumps = λ p. rw (read-unary (unboxed p.val) _, read-unary p.ts _, read-unary p.ttl _) refl;
}

abbrev double : ℕ → Result Boxed
double n = ok (tuple (n + n))

abbrev one_key : ℕ → String
one_key n = unary n ""

same_key : (a b : ℕ) → one_key a ≡ one_key b → double a ≡ double b
same_key a b h =
    let first = λ (text : String). (read_unary text).0 in
    let same : a ≡ b =
      sym (ap (λ p. p.0) (read-unary a "")) ∙ ap first h ∙ ap (λ p. p.0) (read-unary b "") in
    ap double same

abbrev call_at : Bool → ℕ → Call ℕ Boxed (List (String × String))
call_at recompute n = record {
  manager = record { is_connected = true; has_client = true };
  should_recompute = λ payload. recompute;
  now = n;
  args = n;
  drift = λ s. s;
}

-- The second call finds what the first one has stored.
second_is_list :
    call_all sample_redis unary_json 60 one_key double
      (call_at false 3 ∷ call_at false 3 ∷ call_at true 3 ∷ [])
      []
    ≡ ok (tuple 6) ∷ ok (list 6) ∷ ok (tuple 6) ∷ []
unfolding call_all cached cache_get cache_set
second_is_list = refl

cached_refines_example :
    AreAnswers sample_redis unary_json 60 one_key double
      (call_at false 3 ∷ call_at false 3 ∷ call_at true 3 ∷ [])
      (call_all sample_redis unary_json 60 one_key double
        (call_at false 3 ∷ call_at false 3 ∷ call_at true 3 ∷ [])
        [])
cached_refines_example =
    cached_refines sample_redis unary_json 60 one_key double same_key
      (call_at false 3 ∷ call_at false 3 ∷ call_at true 3 ∷ []) []
      ((λ s key x h. h), ((λ s key x h. h), ((λ s key x h. h), tt))) (λ args raw h. ground arith)
