-- ===== src/Progress/DeadLetters.antt =====
-- An entry of the dead letter queue that is retried.
use ai_detention.Progress.{
  send_to_dlq, retry_dlq_entry, lookup_hash, delete_hash, lrem_one, DlqEntry, DlqStore, dlq_key,
  ltrim,
}
use ai_detention.Prelude.{
  ℕ, String, List, str_eq, length, ◌≡◌, none, ◌≤◌, false, true, arith, take, str_eq_iff, ◌∷◌, ◌<◌,
  [], refl, some, ◌∙◌, suc, ap, ◌+◌, zero, str_eq_refl,
}
use ai_detention.Prelude.Text.{is_empty}

lookup-delete :
    (key : String) (hashes : List (String × DlqEntry))
    → lookup_hash key (delete_hash key hashes) ≡ none
unfolding lookup_hash delete_hash
lookup-delete key [] = refl
lookup-delete key ((k, e) ∷ hashes) = ground (arith, lookup-delete key hashes)

lookup-delete_other :
    (key other : String) (hashes : List (String × DlqEntry))
    → str_eq key other ≡ false
    → lookup_hash other (delete_hash key hashes) ≡ lookup_hash other hashes
unfolding lookup_hash delete_hash
lookup-delete_other key other [] h = refl
lookup-delete_other key other ((k, e) ∷ hashes) h = ground (
  arith,
  lookup-delete_other key other hashes h,
  str_eq_iff k key,
  str_eq_iff k other,
  str_eq_iff key other,
)

take-all : (n : ℕ) (keys : List String) → length keys ≤ n → take n keys ≡ keys
take-all zero [] h = refl
take-all (suc n) [] h = refl
take-all zero (k ∷ keys) h = absurd (omega arith)
take-all (suc n) (k ∷ keys) h = ap (◌∷◌ k) (take-all n keys (omega arith))

ltrim-all : (stop : ℕ) (keys : List String) → length keys ≤ stop + 1 → ltrim stop keys ≡ keys
unfolding ltrim
ltrim-all stop keys h = take-all (stop + 1) keys h

-- The store that a retry right after the entry leaves.
abbrev store_after : DlqEntry → DlqStore → DlqStore
store_after entry store =
    let key = dlq_key entry.run_id entry.worker_type in
    record { hashes = delete_hash key (delete_hash key store.hashes); dlq_all = store.dlq_all }

first_retry :
    (entry : DlqEntry) (store : DlqStore)
    → is_empty entry.task_name ≡ false
    → length store.dlq_all < 10000
    → retry_dlq_entry entry.run_id entry.worker_type (send_to_dlq entry store) ≡ record {
      done = true;
      sent = some (entry.task_name, entry.run_id);
      store = store_after entry store;
    }
unfolding retry_dlq_entry send_to_dlq lookup_hash delete_hash lrem_one
first_retry entry store named room =
    let key = dlq_key entry.run_id entry.worker_type in
    rw (ltrim-all 9999 (key ∷ store.dlq_all) (omega arith), str_eq_refl key, named, str_eq_refl key)
      refl

second_retry :
    (run_id worker_type : String) (store : DlqStore)
    → lookup_hash (dlq_key run_id worker_type) store.hashes ≡ none
    → retry_dlq_entry run_id worker_type store ≡ record { done = false; sent = none; store = store }
unfolding retry_dlq_entry
second_retry run_id worker_type store gone = rw gone refl

-- Let an entry with a task's name be sent to a queue of fewer than 10000. Then a retry of its run and
-- worker sends this task with this run's id, leaves the list of keys as it was before the entry and
-- the hashes under other keys, and deletes the entry, so that a second retry sends nothing.
pub retry_once :
    (entry : DlqEntry) (store : DlqStore)
    → is_empty entry.task_name ≡ false
    → length store.dlq_all < 10000
    → let key = dlq_key entry.run_id entry.worker_type in
      let first = retry_dlq_entry entry.run_id entry.worker_type (send_to_dlq entry store) in
      (first.done ≡ true)
      × (first.sent ≡ some (entry.task_name, entry.run_id))
      × (first.store.dlq_all ≡ store.dlq_all)
      × ((other : String)
          → str_eq key other ≡ false
          → lookup_hash other first.store.hashes ≡ lookup_hash other store.hashes)
      × (retry_dlq_entry entry.run_id entry.worker_type first.store
          ≡ record { done = false; sent = none; store = first.store })
retry_once entry store named room =
    let key = dlq_key entry.run_id entry.worker_type in
    rw (first_retry entry store named room) (
      refl,
      refl,
      refl,
      (λ other differs.
          lookup-delete_other key other (delete_hash key store.hashes) differs
          ∙ lookup-delete_other key other store.hashes differs),
      second_retry entry.run_id entry.worker_type (store_after entry store)
          (lookup-delete key (delete_hash key store.hashes)),
    )
