-- ===== src/Cache/Refines.antt =====
-- Calls of a function through the cache are calls of the function.
use ai_detention.Cache.{
  cached, CacheManager, Redis, PayloadJson, Payload, cache_set, cache_get, compute, store, hit,
  Reply, parse_reply, reply, redis_error,
}
use ai_detention.Prelude.{
  Bool, ℕ, String, ◌≡◌, List, some, All, ◌∷◌, [], refl, Bool-cases, Option, not, inl, ◌||◌, inr,
  ◌∙◌, none, if◌then◌else◌, true, false, ◌⊎◌, ap,
}
use ai_detention.Errors.{Result, ok, err}
use ai_detention.Prelude.Text.{is_empty}

-- One call, and what has become of the server since the last one.
pub record Call (Args A S : Type 0) : Type 0 where
  pub manager : CacheManager
  pub should_recompute : Payload A → Bool
  pub now : ℕ
  pub args : Args
  pub drift : S → S

module _ {Args A S : Type 0} (redis : Redis S) (json : PayloadJson A) (ttl : ℕ)
    (key_builder : Args → String) (func : Args → Result A) where
  -- What a call may return: what the function returns, or what JSON makes of that.
  abbrev pub IsAnswer : Args → Result A → Type 0
  IsAnswer args r =
      (r ≡ func args) ⊎ ((value : A) × (func args ≡ ok value) × (r ≡ ok (json.decoded value)))

  -- What is stored under the key of a call is what JSON makes of the function's value.
  abbrev pub IsCoherent : S → Type 0
  IsCoherent s =
      (args : Args) (raw : String)
      → redis.content (key_builder args) s ≡ some raw
      → (payload : Payload A) × (value : A) × (json.loads raw ≡ ok payload)
        × (func args ≡ ok value)
        × (payload.val ≡ json.decoded value)

  -- The server loses keys, and gains none.
  abbrev pub IsForgetful : (S → S) → Type 0
  IsForgetful drift =
      (s : S) (key x : String) → redis.content key (drift s) ≡ some x → redis.content key s ≡ some x

  unfoldable pub call_all : List (Call Args A S) → S → List (Result A)
  call_all [] s = []
  call_all (c ∷ cs) s =
      let (r, s') =
        cached redis json ttl key_builder func c.manager c.should_recompute c.now c.args
          (c.drift s) in
      r ∷ call_all cs s'

  -- The results of calls, one for each.
  abbrev pub AreAnswers : List (Call Args A S) → List (Result A) → Type 0
  AreAnswers [] [] = Unit
  AreAnswers [] (r ∷ rs) = ⊥
  AreAnswers (c ∷ cs) [] = ⊥
  AreAnswers (c ∷ cs) (r ∷ rs) = IsAnswer c.args r × AreAnswers cs rs

  module _ (same_key : (a b : Args) → key_builder a ≡ key_builder b → func a ≡ func b) where
    cache_set-IsCoherent :
        (manager : CacheManager) (now : ℕ) (args : Args) (result : A) (s : S)
        → func args ≡ ok result
        → IsCoherent s
        → IsCoherent (cache_set redis json manager now (key_builder args) result ttl s)
    unfolding cache_set
    cache_set-IsCoherent manager now args result s made h =
        elim (Bool-cases (not manager.is_connected || not manager.has_client)) [
          | inl off ↦ rw off h
          | inr on ↦ rw on λ args' raw found.
              elim (redis.content-set (key_builder args) (json.dumps fresh) ttl s
                (key_builder args') raw found) [
                  | inl (same, eq) ↦
                      (read, result, rw eq (json.loads-dumps fresh), same_key _ _ same ∙ made, refl)
                  | inr old ↦ h args' raw old
                ]
        ]
      where
        fresh : Payload A
        fresh = record { val = result; ts = now; ttl = ttl }

        read : Payload A
        read = record { val = json.decoded result; ts = now; ttl = ttl }

    -- What a lookup may find: nothing, or what JSON makes of the function's value.
    abbrev IsSound : Args → Result (Option (Payload A)) → Type 0
    IsSound args (err e) = ⊥
    IsSound args (ok none) = Unit
    IsSound args (ok (some payload)) =
        (value : A) × (func args ≡ ok value) × (payload.val ≡ json.decoded value)

    cache_get-IsSound :
        (manager : CacheManager) (args : Args) (s : S)
        → IsCoherent s
        → IsSound args (cache_get redis json manager (key_builder args) s)
    unfolding cache_get
    cache_get-IsSound manager args s h =
        elim (Bool-cases (not manager.is_connected || not manager.has_client)) [
          | inl off ↦ rw off tt
          | inr on ↦ rw on (go (redis.get (key_builder args) s) refl)
        ]
      where
        go :
            (found : Reply (Option String))
            → redis.get (key_builder args) s ≡ found
            → IsSound args (parse_reply redis json found)
        go redis_error e = tt
        go (reply none) e = tt
        go (reply (some raw)) e =
            let (payload, value, loaded, made, read) =
              h args raw (redis.get-content (key_builder args) raw s e) in
            elim (Bool-cases (is_empty raw)) [
              | inl empty ↦ rw empty tt
              | inr full ↦ rw (full, loaded) (value, made, read)
            ]

    compute-exact :
        (manager : CacheManager) (now : ℕ) (args : Args) (s : S)
        → IsCoherent s
        → let (r, s') = compute redis json ttl key_builder func manager now args s in
          (r ≡ func args) × IsCoherent s'
    compute-exact manager now args s h = go (func args) refl
      where
        go :
            (r : Result A)
            → func args ≡ r
            → let (r', s') = store redis json ttl key_builder func manager now args s r in
              (r' ≡ r) × IsCoherent s'
        go (err e) made = (refl, h)
        go (ok result) made = (refl, cache_set-IsCoherent manager now args result s made h)

    cached-exact :
        (manager : CacheManager) (should_recompute : Payload A → Bool) (now : ℕ) (args : Args)
        (s : S)
        → IsCoherent s
        → let (r, s') =
            cached redis json ttl key_builder func manager should_recompute now args s in
          IsAnswer args r × IsCoherent s'
    unfolding cached
    cached-exact manager should_recompute now args s h = pick manager.is_connected
      where
        computed :
            let (r, s') = compute redis json ttl key_builder func manager now args s in
            IsAnswer args r × IsCoherent s'
        computed =
            let (exact, coherent) = compute-exact manager now args s h in (inl exact, coherent)

        go :
            (found : Result (Option (Payload A)))
            → IsSound args found
            → let (r, s') =
                hit redis json ttl key_builder func manager should_recompute now args found s in
              IsAnswer args r × IsCoherent s'
        go (err e) sound = absurd sound
        go (ok none) sound = computed
        go (ok (some payload)) (value, made, read) = elim (Bool-cases (should_recompute payload)) [
          | inl again ↦ rw again computed
          | inr keep ↦ rw keep (inr (value, made, ap ok read), h)
        ]

        looked_up : Result (Option (Payload A))
        looked_up = cache_get redis json manager (key_builder args) s

        pick :
            (healthy : Bool)
            → let (r, s') =
                if healthy
                then hit redis json ttl key_builder func manager should_recompute now args looked_up
                    s
                else compute redis json ttl key_builder func manager now args s in
              IsAnswer args r × IsCoherent s'
        pick true = go looked_up (cache_get-IsSound manager args s h)
        pick false = computed

    -- Let calls with one key have one result, and let the server lose keys between the calls but gain
    -- none. Then each call through the cache, in any sequence, whatever the cache's connection and the
    -- choices to recompute are, and from any contents that agree with the function, returns what the
    -- function returns for its own arguments, or what JSON makes of that value: a tuple may come back
    -- as a list. An exception is the function's own.
    pub cached_refines :
        (calls : List (Call Args A S)) (s : S)
        → All (λ c. IsForgetful c.drift) calls
        → IsCoherent s
        → AreAnswers calls (call_all calls s)
    unfolding call_all
    cached_refines [] s forgetful h = tt
    cached_refines (c ∷ cs) s forgetful h =
        let (r, coherent) =
          cached-exact c.manager c.should_recompute c.now c.args (c.drift s)
            (λ args raw found. h args raw (forgetful.0 s (key_builder args) raw found)) in
        (r, cached_refines cs _ forgetful.1 coherent)
