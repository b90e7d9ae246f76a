-- ===== src/CacheService.antt =====
-- The cache of src/services/cache_service.py, where a failure of Redis or of the encoding never
-- reaches the caller. Redis (`Client`, over the states of its server) and orjson (`Encoding`) are
-- parameters; a command may raise.
use ai_detention.Errors.{Result, ok, err}
use ai_detention.Prelude.{String, ℕ, Option, List, ◌∷◌, some, ◌≡◌, ◌+◌, suc, none, refl, zero, []}
use ai_detention.Prelude.Text.{append_text}

pub record Client (S : Type 0) : Type 0 where
  pub get : String → S → Result (Option String)
  pub set : String → String → ℕ → S → Result (Unit {0}) × S
  pub delete : String → S → Result (Unit {0}) × S
  -- the keys that scan_iter finds, all read before the first deletion
  pub scan_iter : String → S → Result (List String)

pub record Encoding (A : Type 0) : Type 0 where
  pub dumps : A → Result String
  pub loads : String → Result A

module _ {S A : Type 0} (client : Client S) (json : Encoding A) (redis_cache_ttl : ℕ) where
  -- f"{PREFIX}:{namespace}:{key}"
  abbrev pub service_key : String → String → String
  service_key namespace key =
      append_text "eval-engine:" (append_text namespace (append_text ":" key))

  abbrev loaded : Result A → Option A
  loaded (ok value) = some value
  loaded (err e) = none

  abbrev read_reply : Result (Option String) → Option A
  read_reply (ok none) = none
  read_reply (ok (some raw)) = loaded (json.loads raw)
  read_reply (err e) = none

  unfoldable pub service_get : String → String → S → Option A
  service_get namespace key s = read_reply (client.get (service_key namespace key) s)

  -- ttl or settings.redis_cache_ttl
  abbrev pub ttl_or_default : Option ℕ → ℕ
  ttl_or_default none = redis_cache_ttl
  ttl_or_default (some zero) = redis_cache_ttl
  ttl_or_default (some (suc n)) = suc n

  abbrev set_encoded : String → Result String → Option ℕ → S → S
  set_encoded key (ok serialized) ttl s = (client.set key serialized (ttl_or_default ttl) s).1
  set_encoded key (err e) ttl s = s

  unfoldable pub service_set : String → String → A → Option ℕ → S → S
  service_set namespace key value ttl s =
      set_encoded (service_key namespace key) (json.dumps value) ttl s

  unfoldable pub service_delete : String → String → S → S
  service_delete namespace key s = (client.delete (service_key namespace key) s).1

  -- The loop with its counter; a failure gives 0, whatever has been deleted before.
  abbrev unless_raised : Result (Unit {0}) → ℕ × S → S → ℕ × S
  unless_raised (ok u) rest s = rest
  unless_raised (err e) rest s = (0, s)

  unfoldable pub delete_keys : ℕ → List String → S → ℕ × S
  delete_keys deleted [] s = (deleted, s)
  delete_keys deleted (key ∷ keys) s =
      let (r, s') = client.delete key s in
      let rest = delete_keys (deleted + 1) keys s' in unless_raised r rest s'

  abbrev invalidate_found : Result (List String) → S → ℕ × S
  invalidate_found (ok keys) s = delete_keys 0 keys s
  invalidate_found (err e) s = (0, s)

  unfoldable pub invalidate_pattern : String → String → S → ℕ × S
  invalidate_pattern namespace pattern s =
      invalidate_found (client.scan_iter (service_key namespace pattern) s) s

  -- What was set is read, if the value has an encoding that decodes to it and Redis returns what it
  -- was given, whatever it replies to the command.
  service_get-set :
      (namespace key : String) (value : A) (ttl : Option ℕ) (s : S) {raw : String}
      → json.dumps value ≡ ok raw
      → json.loads raw ≡ ok value
      → ((n : ℕ)
          → client.get
              (service_key namespace key)
              (client.set (service_key namespace key) raw n s).1
            ≡ ok (some raw))
      → service_get namespace key (service_set namespace key value ttl s) ≡ some value
  unfolding service_get service_set
  service_get-set namespace key value ttl s encoded decoded reads =
      rw (encoded, reads (ttl_or_default ttl), decoded) refl
