-- ===== src/Auth/Service/Keys.antt =====
-- API keys: which key authenticates, and what is left of creating and revoking one after the
-- request's transaction.
use ai_detention.Database.Session.{transaction, World}
use ai_detention.Prelude.{
  String, ℕ, ◌≡◌, false, none, some, ◌≤◌, true, arith, Option, refl, str_eq_iff,
}
use ai_detention.Auth.Service.{revoke_api_key, authenticate_api_key, has_key_hash, key_owner}
use ai_detention.Models.Account.{User, ApiKey, is_valid}
use ai_detention.Errors.{err, ok, is_ok, Result}
use ai_detention.Database.Table.{scalar_one_or_none, select, found-holds}

module _ (hash_api_key : String → String) (raw_key : String) (w : World) {user : User}
    {key : ApiKey}
    (accepted : (authenticate_api_key hash_api_key raw_key w).0 ≡ ok (user, key)) where
  abbrev looked_up : Result (Option ApiKey)
  looked_up =
      scalar_one_or_none (select (has_key_hash hash_api_key (hash_api_key raw_key)) w.db.api_keys)

  abbrev IsSound : Type 0
  IsSound =
      (key.key_hash ≡ hash_api_key raw_key)
      × (key.is_revoked ≡ false)
      × (key.deleted_at ≡ none)
      × ((t : ℕ) → key.expires_at ≡ some t → w.now ≤ t)
      × (key.last_used_at ≡ some w.now)
      × (user.id ≡ key.user_id)
      × (user.is_active ≡ true)

  sound_of : (r : Result (Option ApiKey)) → looked_up ≡ r → IsSound
  unfolding authenticate_api_key is_valid
  sound_of (err e) found = absurd (ground arith)
  sound_of (ok none) found = absurd (ground arith)
  sound_of (ok (some k)) found =
      let facts =
        found-holds (has_key_hash hash_api_key (hash_api_key raw_key)) w.db.api_keys found in
      let owner = found-holds (key_owner hash_api_key k.user_id) w.db.users {x = user} in
      let same = str_eq_iff k.key_hash (hash_api_key raw_key) in
      (
        ground (arith, same, facts),
        ground (arith, facts),
        ground (arith, facts),
        (λ t e. ground arith),
        ground arith,
        ground (arith, owner),
        ground (arith, owner),
      )

  -- A key that authenticates has the hash of the text that was sent, is not revoked, not deleted
  -- and not past its time of expiry; its use is noted; and its owner is the user, who is active.
  pub api_key_sound :
      (key.key_hash ≡ hash_api_key raw_key)
      × (key.is_revoked ≡ false)
      × (key.deleted_at ≡ none)
      × ((t : ℕ) → key.expires_at ≡ some t → w.now ≤ t)
      × (key.last_used_at ≡ some w.now)
      × (user.id ≡ key.user_id)
      × (user.is_active ≡ true)
  api_key_sound = sound_of looked_up refl

-- A request that revokes a key always fails and leaves the database as it was: no key is ever
-- revoked.
revoke_has_no_effect :
    (key_id org_id user_id : ℕ) (w : World)
    → let (r, w') = transaction (revoke_api_key key_id org_id user_id) w in
      (is_ok r ≡ false) × (w' ≡ w)
unfolding transaction revoke_api_key
revoke_has_no_effect key_id org_id user_id w = ground arith
