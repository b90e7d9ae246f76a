-- ===== src/Webhooks.antt =====
-- Webhooks (src/services/webhook_service.py). The network is the argument `post`, which gives what
-- each attempt meets; orjson and HMAC are parameters. The waits between attempts change nothing else.
pub mod Delivery
use ai_detention.Prelude.{
  String, ℕ, if◌then◌else◌, leb, Option, List, some, Bool, none, ◌∷◌, false, suc, true, [], zero,
}
use ai_detention.Models.Run.{Json}
use ai_detention.Prelude.Text.{append_text}

-- What `client.post` does: a response with its status, or an exception.
pub data Answer : Type 0 where
  response : ℕ → Answer
  connect_error timeout_exception other_exception : Answer

pub data Attempt : Type 0 where
  returned : ℕ → Attempt
  -- HTTPStatusError, ConnectError or TimeoutException
  retried : Attempt
  raised : Attempt

-- The body of _deliver_with_retry.
unfoldable pub deliver_once : Answer → Attempt
deliver_once (response status_code) = if leb 500 status_code then retried else returned status_code
deliver_once connect_error = retried
deliver_once timeout_exception = retried
deliver_once other_exception = raised

abbrev pub next : Attempt → (ℕ → Option ℕ × ℕ) → ℕ → Option ℕ × ℕ
next (returned status_code) again made = (some status_code, suc made)
next retried again made = again (suc made)
next raised again made = (none, suc made)

-- The retries, with the attempts that are left and those made: the status code, or none for an
-- exception, and the number of attempts.
unfoldable pub deliver_from : (ℕ → Answer) → ℕ → ℕ → Option ℕ × ℕ
deliver_from post zero made = (none, made)
deliver_from post (suc left) made =
    next (deliver_once (post made)) (λ n. deliver_from post left n) made

-- stop_after_attempt(3)
unfoldable pub deliver_with_retry : (ℕ → Answer) → Option ℕ × ℕ
deliver_with_retry post = deliver_from post 3 0

abbrev pub is_delivered : Option ℕ → Bool
is_delivered none = false
is_delivered (some status_code) = true

pub record Signing : Type 0 where
  -- orjson.dumps of the event, the timestamp and the data
  pub dumps : String → String → Json → String
  -- hmac.new(secret, payload, sha256).hexdigest()
  pub hmac_sha256 : String → String → String

pub record Request : Type 0 where
  pub url : String
  pub body : String
  pub headers : List (String × String)

module _ (signing : Signing) (secret_key app_version : String) where
  unfoldable pub sign_payload : String → String
  sign_payload payload = signing.hmac_sha256 secret_key payload

  unfoldable pub webhook_request : String → String → String → Json → Request
  webhook_request timestamp url event_type payload =
      let body = signing.dumps event_type timestamp payload in
      record {
        url = url;
        body = body;
        headers =
            ("Content-Type", "application/json")
            ∷ ("X-Webhook-Signature", append_text "sha256=" (sign_payload body))
            ∷ ("X-Webhook-Timestamp", timestamp)
            ∷ ("X-Webhook-Event", event_type)
            ∷ ("User-Agent", append_text "EvalEngine/" app_version)
            ∷ [];
      }

  -- Whether it was delivered, and the number of attempts, all of one request.
  unfoldable pub deliver_webhook :
      (Request → ℕ → Answer) → String → String → String → Json → Bool × ℕ
  deliver_webhook post timestamp url event_type payload =
      let (status_code, attempts) =
        deliver_with_retry (post (webhook_request timestamp url event_type payload)) in
      (is_delivered status_code, attempts)
