-- ===== src/Progress.antt =====
-- Progress and the dead letter queue in Redis (src/workers/progress.py, and _send_to_dlq of
-- src/workers/tasks/base_task.py). A hash of Redis is an entry of an association list; an id is its
-- text. That an entry expires after seven days, and that Redis fails, which each function answers as if
-- nothing were there, is left out.
pub mod DeadLetters
use ai_detention.Prelude.{
  Bool, List, Option, ℕ, ◌∷◌, String, [], some, false, if◌then◌else◌, none, map, take, sum_by, ◌==◌,
  str_eq, true, ◌/◌, length, ◌+◌,
}
use ai_detention.Prelude.Text.{append_text, is_empty}

abbrev pub worker_types : List String
worker_types =
    "github_analysis" ∷ "pitch_deck" ∷ "video_analysis" ∷ "web_verification" ∷ "cross_check"
    ∷ "fabrication_detection" ∷ "llm_judge" ∷ "finalize" ∷ []

-- The progress and its detail that a worker's hash holds, if there is one.
abbrev pub progress_of : Option (ℕ × String) → ℕ × String
progress_of none = (0, "Not started")
progress_of (some entry) = entry

-- The overall progress, and each worker's. `hgetall` reads the hash of a run and a worker.
unfoldable pub get_run_progress :
    (String → String → Option (ℕ × String)) → String → ℕ × List (String × ℕ × String)
get_run_progress hgetall run_id =
    let entries =
      map (λ w. let (progress, detail) = progress_of (hgetall run_id w) in (w, progress, detail))
        worker_types in
    (sum_by (λ w. (progress_of (hgetall run_id w)).0) worker_types / length worker_types, entries)

pub record DlqEntry : Type 0 where
  pub task_name : String
  pub run_id : String
  pub worker_type : String
  pub kwargs : String
  pub retries : ℕ

-- The hashes by their keys, and the list "dlq:all", newest first.
pub record DlqStore : Type 0 where
  pub hashes : List (String × DlqEntry)
  pub dlq_all : List String

unfoldable pub dlq_key : String → String → String
dlq_key run_id worker_type = append_text "dlq:" (append_text run_id (append_text ":" worker_type))

-- hgetall, delete, and lrem of the first occurrence
unfoldable pub lookup_hash : String → List (String × DlqEntry) → Option DlqEntry
lookup_hash key [] = none
lookup_hash key ((k, e) ∷ hashes) = if str_eq k key then some e else lookup_hash key hashes

unfoldable pub delete_hash : String → List (String × DlqEntry) → List (String × DlqEntry)
delete_hash key [] = []
delete_hash key ((k, e) ∷ hashes) =
    let rest = delete_hash key hashes in if str_eq k key then rest else (k, e) ∷ rest

unfoldable pub lrem_one : String → List String → List String
lrem_one key [] = []
lrem_one key (k ∷ keys) = let rest = lrem_one key keys in if str_eq k key then keys else k ∷ rest

-- ltrim(key, 0, stop)
unfoldable pub ltrim : ℕ → List String → List String
ltrim stop keys = take (stop + 1) keys

unfoldable pub send_to_dlq : DlqEntry → DlqStore → DlqStore
send_to_dlq entry store =
    let key = dlq_key entry.run_id entry.worker_type in
    record {
      hashes = (key, entry) ∷ delete_hash key store.hashes;
      dlq_all = ltrim 9999 (key ∷ store.dlq_all);
    }

unfoldable pub entries_of : List String → List (String × DlqEntry) → List DlqEntry
entries_of [] hashes = []
entries_of (key ∷ keys) hashes = elim (lookup_hash key hashes) [
  | none ↦ entries_of keys hashes
  | some e ↦ e ∷ entries_of keys hashes
]

-- lrange("dlq:all", 0, limit - 1), where a limit of 0 asks for all.
unfoldable pub get_dlq_entries : ℕ → DlqStore → List DlqEntry
get_dlq_entries limit store =
    entries_of (if limit == 0 then store.dlq_all else take limit store.dlq_all) store.hashes

-- What is sent is the task's name with the run's id.
pub record Retried : Type 0 where
  pub done : Bool
  pub sent : Option (String × String)
  pub store : DlqStore

abbrev pub retry_found : String → String → Option DlqEntry → DlqStore → Retried
retry_found run_id key none store = record { done = false; sent = none; store = store }
retry_found run_id key (some entry) store =
    if is_empty entry.task_name
    then record { done = false; sent = none; store = store }
    else record {
      done = true;
      sent = some (entry.task_name, run_id);
      store = record {
        hashes = delete_hash key store.hashes;
        dlq_all = lrem_one key store.dlq_all;
      };
    }

unfoldable pub retry_dlq_entry : String → String → DlqStore → Retried
retry_dlq_entry run_id worker_type store =
    let key = dlq_key run_id worker_type in
    retry_found run_id key (lookup_hash key store.hashes) store
