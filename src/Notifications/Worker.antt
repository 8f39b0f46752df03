-- ===== src/Notifications/Worker.antt =====
-- src/estateflow/services/notifications.py: `NotificationDeliveryWorker`. The message formatter and
-- the Telegram client are given to the worker, and are parameters here: the client's answer may
-- depend on all messages that it was asked to send so far, this one included.
use Prim.Native.String.{◌++◌}
use estate_flow.Base.{
  ℕ, ◌+◌, ◌*◌, String, Bool, true, false, not, ◌||◌, Option, none, some, List, [], ◌∷◌, leb,
  if◌then◌else◌, str, on_option, length, map, Result, ok, err, Error, Exec, pure, raise, gets,
  modify, ◌>>=◌, ◌>>◌,
}
use estate_flow.Base as B
use estate_flow.Notifications.Jobs.{
  JobRepository, NotificationJob, NotificationDeliveryAttempt, NotificationDeliveryContext,
  NotificationAttemptResult, list_ready, get_delivery_context, mark_sending, mark_sent,
  mark_retryable_failure, mark_permanent_failure, RetryableError, local_rate_limited,
  telegram_rate_limited, telegram_transient_error, PermanentError, missing_delivery_context,
  telegram_user_blocked, telegram_permanent_error,
}
use estate_flow.Notifications.Limiter.{NotificationRateLimiter, retry_after}

-- What `send_message` does: it returns, raises one of the exceptions of this module, or another.
pub data SendOutcome : Type 0 where
  delivered : (message_id : String) → SendOutcome
  rate_limit_error : (retry_after_seconds : ℕ) → SendOutcome
  user_blocked_error permanent_error transient_error : SendOutcome
  other_error : Error → SendOutcome

abbrev pub Message : Type 0
Message = ℕ × String

-- The worker; `messages` are the calls of `send_message`, `technical` and `recorded` the keys of the
-- metrics and events that were recorded, and `warnings` the counts of the notices to operations.
pub record NotificationDeliveryWorker : Type 0 where
  pub repository : JobRepository
  pub limiter : NotificationRateLimiter
  pub messages : List Message
  pub technical : List String
  pub recorded : List String
  pub warnings : List ℕ
  pub bulk_failure_threshold : ℕ
  pub retry_backoff : ℕ

pub record NotificationDeliveryMetrics : Type 0 where
  pub picked : ℕ
  pub sent : ℕ
  pub retryable_failures : ℕ
  pub permanent_failures : ℕ
  pub rate_limited : ℕ
  pub skipped : ℕ

-- the names of the metrics
pub data MetricName : Type 0 where
  picked sent retryable_failures permanent_failures rate_limited skipped : MetricName

-- the updates of a metric, a dict from names to numbers
abbrev pub MetricUpdates : Type 0
MetricUpdates = List (MetricName × ℕ)

-- `getattr(metrics, name)`
abbrev pub metric : MetricName → NotificationDeliveryMetrics → ℕ
metric MetricName.picked m = m.picked
metric MetricName.sent m = m.sent
metric MetricName.retryable_failures m = m.retryable_failures
metric MetricName.permanent_failures m = m.permanent_failures
metric MetricName.rate_limited m = m.rate_limited
metric MetricName.skipped m = m.skipped

abbrev pub with_metric : MetricName → ℕ → NotificationDeliveryMetrics → NotificationDeliveryMetrics
with_metric MetricName.picked n m = record m { picked = n }
with_metric MetricName.sent n m = record m { sent = n }
with_metric MetricName.retryable_failures n m = record m { retryable_failures = n }
with_metric MetricName.permanent_failures n m = record m { permanent_failures = n }
with_metric MetricName.rate_limited n m = record m { rate_limited = n }
with_metric MetricName.skipped n m = record m { skipped = n }

-- `metrics.add(**updates)`: each named metric gets the new value.
unfoldable pub add : MetricUpdates → NotificationDeliveryMetrics → NotificationDeliveryMetrics
add [] m = m
add ((name, n) ∷ updates) m = add updates (with_metric name n m)

-- `{key: getattr(metrics, key) + value for key, value in metric_updates.items()}`
unfoldable pub incremented : NotificationDeliveryMetrics → MetricUpdates → MetricUpdates
incremented m updates = map (λ u. (u.0, metric u.0 m + u.1)) updates

module _ {A : Type 0} where
  abbrev pub in_repository : Exec JobRepository A → Exec NotificationDeliveryWorker A
  in_repository m w = let r = m w.repository in (r.0, record w { repository = r.1 })

  abbrev pub in_limiter : Exec NotificationRateLimiter A → Exec NotificationDeliveryWorker A
  in_limiter m w = let r = m w.limiter in (r.0, record w { limiter = r.1 })

abbrev is_retry : NotificationAttemptResult → Bool
is_retry NotificationAttemptResult.retryable_failure = true
is_retry NotificationAttemptResult.rate_limited = true
is_retry _ = false

abbrev error_text : Option String → String
error_text none = "unknown"
error_text (some text) = text

unfoldable pub record_technical_delivery_failure :
    NotificationJob → NotificationDeliveryAttempt → Exec NotificationDeliveryWorker (Unit {0})
record_technical_delivery_failure job attempt = do
  let name = if is_retry attempt.result then "notification_retry" else "notification_error"
  let key =
      name
      ++ (":"
          ++ (job.notification_id
              ++ (":" ++ (str attempt.attempt_no ++ (":" ++ error_text attempt.error_type)))))
  modify (λ w. record w { technical = B.◌++◌ w.technical (key ∷ []) })

abbrev pub record_event : String → Exec NotificationDeliveryWorker (Unit {0})
record_event key = modify (λ w. record w { recorded = B.◌++◌ w.recorded (key ∷ []) })

unfoldable pub record_delivery_failure :
    NotificationJob → NotificationDeliveryAttempt → Exec NotificationDeliveryWorker (Unit {0})
record_delivery_failure job attempt = do
  record_technical_delivery_failure job attempt
  record_event
      ("notification_delivery_failed:" ++ (job.notification_id ++ (":" ++ str attempt.attempt_no)))

abbrev pub Processed : Type 0
Processed = NotificationDeliveryAttempt × MetricUpdates

abbrev pub skip : NotificationJob → Processed
skip job = (
  record {
    notification_id = job.notification_id;
    attempt_no = job.attempts;
    result = NotificationAttemptResult.skipped;
    error_type = none;
    retryable = false;
    telegram_message_id = none;
    created_at = none;
  },
  (MetricName.skipped, 1) ∷ [],
)

unfoldable pub retry_later :
    NotificationJob → RetryableError → (wait now : ℕ) → Exec NotificationDeliveryWorker Processed
retry_later sending error wait now = do
  attempt ← in_repository (mark_retryable_failure sending.notification_id error wait now)
  record_delivery_failure sending attempt
  pure (attempt, (MetricName.retryable_failures, 1) ∷ [])

unfoldable pub give_up :
    NotificationJob → PermanentError → (now : ℕ) → Exec NotificationDeliveryWorker Processed
give_up sending error now = do
  attempt ← in_repository (mark_permanent_failure sending.notification_id error now)
  record_delivery_failure sending attempt
  pure (attempt, (MetricName.permanent_failures, 1) ∷ [])

-- The `except` clauses, and what follows a message that was sent.
unfoldable pub settle :
    NotificationJob → ℕ → SendOutcome → Exec NotificationDeliveryWorker Processed
settle sending now (delivered message_id) = do
  attempt ← in_repository (mark_sent sending.notification_id message_id now)
  record_event ("notification_sent:" ++ sending.notification_id)
  pure (attempt, (MetricName.sent, 1) ∷ [])
settle sending now (rate_limit_error seconds) =
    retry_later sending telegram_rate_limited (seconds * 1000000) now
settle sending now user_blocked_error = give_up sending telegram_user_blocked now
settle sending now permanent_error = give_up sending telegram_permanent_error now
settle sending now transient_error = do
  backoff ← gets (λ w. w.retry_backoff)
  retry_later sending telegram_transient_error backoff now
settle sending now (other_error e) = raise e

-- `attempt.result in {"retryable_failure", "permanent_failure"}`
abbrev pub is_failure : NotificationDeliveryAttempt → Bool
is_failure attempt = elim attempt.result [
  | NotificationAttemptResult.retryable_failure ↦ true
  | NotificationAttemptResult.permanent_failure ↦ true
  | _ ↦ false
]

module _ (format : NotificationDeliveryContext → String)
    (telegram : List Message → SendOutcome) where
  -- `send_message`: the call, and the client's answer to it.
  unfoldable pub send_message : ℕ → String → Exec NotificationDeliveryWorker SendOutcome
  send_message chat_id text = do
    modify (λ w. record w { messages = B.◌++◌ w.messages ((chat_id, text) ∷ []) })
    gets (λ w. telegram w.messages)

  -- `_process_job`, once the job is marked as sending.
  unfoldable pub deliver : NotificationJob → ℕ → Exec NotificationDeliveryWorker Processed
  deliver sending now = do
    limited ← in_limiter (retry_after sending.user_id now)
    on_option limited
        (do
          context ← gets (λ w. get_delivery_context sending.notification_id w.repository)
          on_option context
              (do
                attempt ←
                    in_repository
                      (mark_permanent_failure sending.notification_id missing_delivery_context now)
                record_technical_delivery_failure sending attempt
                pure (attempt, (MetricName.permanent_failures, 1) ∷ []))
              (λ c. send_message sending.user_id (format c) >>= settle sending now))
        (λ wait. do
          attempt ←
              in_repository
                (mark_retryable_failure sending.notification_id local_rate_limited wait now)
          record_technical_delivery_failure sending attempt
          pure (attempt, (MetricName.rate_limited, 1) ∷ []))

  unfoldable pub process_job : NotificationJob → ℕ → Exec NotificationDeliveryWorker Processed
  process_job job now = do
    marked ← in_repository (mark_sending job.notification_id now)
    on_option marked (pure (skip job)) (λ sending. deliver sending now)

  -- The loop of `process_batch`, from the metrics and attempts so far.
  unfoldable pub process_jobs :
      List NotificationJob
      → ℕ
      → NotificationDeliveryMetrics
      → Exec NotificationDeliveryWorker
          (NotificationDeliveryMetrics × List NotificationDeliveryAttempt)
  process_jobs [] now metrics = pure (metrics, [])
  process_jobs (job ∷ jobs) now metrics = do
    done ← process_job job now
    rest ← process_jobs jobs now (add (incremented metrics done.1) metrics)
    pure (rest.0, done.0 ∷ rest.1)

  unfoldable pub process_batch :
      (limit now : ℕ)
      → Exec NotificationDeliveryWorker
          (NotificationDeliveryMetrics × List NotificationDeliveryAttempt)
  process_batch limit now = do
    jobs ← gets (λ w. list_ready limit now w.repository)
    done ← process_jobs jobs now (record {
      picked = length jobs;
      sent = 0;
      retryable_failures = 0;
      permanent_failures = 0;
      rate_limited = 0;
      skipped = 0;
    })
    let bulk_failures = B.count_if is_failure done.1
    threshold ← gets (λ w. w.bulk_failure_threshold)
    if leb threshold bulk_failures
        then modify (λ w. record w { warnings = B.◌++◌ w.warnings (bulk_failures ∷ []) })
        else pure tt
    pure done
