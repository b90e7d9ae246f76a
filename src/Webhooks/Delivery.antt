-- ===== src/Webhooks/Delivery.antt =====
-- How often a webhook is tried, and when it counts as delivered.
use ai_detention.Prelude.{subst, refl, sym, inr, ap, ◌∙◌, String}
use ai_detention.Webhooks.{
  deliver_once, deliver_from, Answer, retried, returned, Attempt, next, is_delivered, raised,
  response, deliver_webhook, connect_error, deliver_with_retry, Signing, timeout_exception,
  other_exception, Request, webhook_request,
}
use ai_detention.Prelude.{
  ℕ, ◌<◌, ◌≡◌, suc, arith, ◌≤◌, Option, zero, ◌+◌, Bool-cases, ◌==◌, inl, true, ◌↔◌,
}
use ai_detention.Models.Run.{Json}

-- The first `n` answers are all retried.
abbrev pub AllRetried : (ℕ → Answer) → ℕ → Type 0
AllRetried post n = (k : ℕ) → k < n → deliver_once (post k) ≡ retried

-- The answer after the ones that are retried is returned.
abbrev pub Succeeds : (ℕ → Answer) → ℕ → Type 0
Succeeds post n = AllRetried post n × ((status : ℕ) × (deliver_once (post n) ≡ returned status))

module _ (post : ℕ → Answer) where
  AllRetried-suc :
      (n : ℕ) → AllRetried post n → deliver_once (post n) ≡ retried → AllRetried post (suc n)
  AllRetried-suc n before last k small = elim (Bool-cases (k == n)) [
    | inl same ↦
        let eq : k ≡ n = ground arith in subst (λ m. deliver_once (post m) ≡ retried) (sym eq) last
    | inr other ↦ before k (ground arith)
  ]

  -- A success among the answers from `low` on, before `high`.
  abbrev SucceedsIn : ℕ → ℕ → Type 0
  SucceedsIn low high = (k : ℕ) × (low ≤ k) × (k < high) × Succeeds post k

  -- What `left` more attempts after `made` retried ones come to.
  abbrev IsExact : ℕ → ℕ → Option ℕ × ℕ → Type 0
  IsExact left made (status, attempts) =
      (attempts ≤ made + left) × ((is_delivered status ≡ true) ↔ SucceedsIn made (made + left))

  retried_once :
      (k made status : ℕ)
      → k ≡ made
      → deliver_once (post k) ≡ returned status
      → deliver_once (post made) ≡ retried
      → ⊥
  retried_once k made status same hit e =
      let again = ap (λ n. deliver_once (post n)) same in
      let clash : returned status ≡ retried = sym hit ∙ again ∙ e in ground arith

  raised_once :
      (k made status : ℕ)
      → k ≡ made
      → deliver_once (post k) ≡ returned status
      → deliver_once (post made) ≡ raised
      → ⊥
  raised_once k made status same hit e =
      let again = ap (λ n. deliver_once (post n)) same in
      let clash : returned status ≡ raised = sym hit ∙ again ∙ e in ground arith

  not_both : {a : Attempt} → a ≡ retried → a ≡ raised → ⊥
  not_both e f = let clash : Attempt.retried ≡ raised = sym e ∙ f in ground arith

  next-IsExact :
      (left made : ℕ) (attempt : Attempt)
      → deliver_once (post made) ≡ attempt
      → AllRetried post made
      → (attempt ≡ retried → IsExact left (suc made) (deliver_from post left (suc made)))
      → IsExact (suc left) made (next attempt (λ n. deliver_from post left n) made)
  next-IsExact left made (returned status) e before later =
      (omega arith, ((λ h. (made, omega arith, omega arith, (before, (status, e)))), λ found. refl))
  next-IsExact left made retried e before later =
      let (bound, (to, from)) = later refl in
      (
        omega arith,
        (
          (λ h. let (k, low, high, found) = to h in (k, omega arith, omega arith, found)),
          λ (k, low, high, (all, (status, hit))). elim (Bool-cases (k == made)) [
            | inl same ↦ absurd (retried_once k made status (ground arith) hit e)
            | inr other ↦ from (k, ground arith, omega arith, (all, (status, hit)))
          ],
        ),
      )
  next-IsExact left made raised e before later = (
    omega arith,
    (
      (λ h. absurd (ground arith)),
      λ (k, low, high, (all, (status, hit))). elim (Bool-cases (k == made)) [
        | inl same ↦ absurd (raised_once k made status (ground arith) hit e)
        | inr other ↦ absurd (not_both (all made (ground arith)) e)
      ],
    ),
  )

  deliver_from-IsExact :
      (left made : ℕ) → AllRetried post made → IsExact left made (deliver_from post left made)
  unfolding deliver_from
  deliver_from-IsExact zero made before =
      (omega arith, ((λ h. absurd (ground arith)), λ (k, low, high, found). absurd (omega arith)))
  deliver_from-IsExact (suc left) made before =
      next-IsExact left made (deliver_once (post made)) refl before
        (λ e. deliver_from-IsExact left (suc made) (AllRetried-suc made before e))

deliver_once-returned :
    (a : Answer) (status : ℕ)
    → (deliver_once a ≡ returned status) ↔ ((a ≡ response status) × (status < 500))
unfolding deliver_once
deliver_once-returned (response code) status =
    ((λ h. (ground arith, ground arith)), λ (h, k). ground arith)
deliver_once-returned connect_error status =
    ((λ h. absurd (ground arith)), λ (h, k). absurd (ground arith))
deliver_once-returned timeout_exception status =
    ((λ h. absurd (ground arith)), λ (h, k). absurd (ground arith))
deliver_once-returned other_exception status =
    ((λ h. absurd (ground arith)), λ (h, k). absurd (ground arith))

-- A webhook is tried at most three times, and counts as delivered exactly if one of the first three
-- answers has a status below 500 (one of a client's error included) and all before it were retried.
pub delivery_exact :
    (signing : Signing) (secret_key app_version : String) (post : Request → ℕ → Answer)
    (timestamp url event_type : String) (payload : Json)
    → let request =
        webhook_request signing secret_key app_version timestamp url event_type payload in
      let (delivered, attempts) =
        deliver_webhook signing secret_key app_version post timestamp url event_type payload in
      (attempts ≤ 3)
      × ((delivered ≡ true) ↔ (
          (k : ℕ) × (k < 3)
          × ((j : ℕ) → j < k → deliver_once (post request j) ≡ retried)
          × ((status : ℕ) × (post request k ≡ response status) × (status < 500))))
unfolding deliver_webhook deliver_with_retry
delivery_exact signing secret_key app_version post timestamp url event_type payload =
    let request = webhook_request signing secret_key app_version timestamp url event_type payload in
    let (bound, (to, from)) =
      deliver_from-IsExact (post request) 3 0 (λ k h. absurd (omega arith)) in
    (
      bound,
      (
        (λ h.
            let (k, low, high, (all, (status, hit))) = to h in
            let (answer, small) = (deliver_once-returned (post request k) status).0 hit in
            (k, high, all, (status, answer, small))),
        λ (k, high, all, (status, answer, small)). from (
          k,
          omega arith,
          high,
          (all, (status, (deliver_once-returned (post request k) status).1 (answer, small))),
        ),
      ),
    )
