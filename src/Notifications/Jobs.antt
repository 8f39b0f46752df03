-- ===== src/Notifications/Jobs.antt =====
-- src/estateflow/services/notifications.py: `NotificationJob` and
-- `InMemoryNotificationJobRepository`. A fresh UUID and the clock reading are arguments.
use Prim.Native.String.{◌++◌}
use estate_flow.Base.{
  ℕ, ◌+◌, String, Bool, true, false, not, ◌&&◌, ◌||◌, Option, none, some, List, [], ◌∷◌, ltb, leb,
  nat_eq, ◌==◌, String_eq, ℕ_eq, if◌then◌else◌, str, str_leb, find_first, keep_if, take, on_option,
  Result, ok, err, Error, key_error, Exec, pure, raise, or_raise, gets, modify, ◌>>=◌, ◌>>◌,
}
use estate_flow.Base as B
use estate_flow.Base.Dict.{Dict, get, put, values}
use estate_flow.Base.Sort.{sort_by}
use estate_flow.Announcements.{StructuredAnnouncement}

pub data NotificationStatus : Type 0 where
  pending sending sent failed suppressed : NotificationStatus

abbrev pub is_pending : NotificationStatus → Bool
is_pending pending = true
is_pending _ = false

pub data NotificationQueueName : Type 0 where
  standard high_priority : NotificationQueueName

pub record NotificationJob : Type 0 where
  pub notification_id : String
  pub user_id : ℕ
  pub filter_id : String
  pub announcement_id : String
  pub status : NotificationStatus
  pub priority : ℕ
  pub queue_name : NotificationQueueName
  pub created_at : ℕ
  pub attempts : ℕ
  pub next_attempt_at : Option ℕ
  pub telegram_message_id : Option String

pub data NotificationAttemptResult : Type 0 where
  sending sent retryable_failure permanent_failure rate_limited skipped : NotificationAttemptResult

pub record NotificationDeliveryAttempt : Type 0 where
  pub notification_id : String
  pub attempt_no : ℕ
  pub result : NotificationAttemptResult
  pub error_type : Option String
  pub retryable : Bool
  pub telegram_message_id : Option String
  pub created_at : Option ℕ

pub record NotificationDeliveryContext : Type 0 where
  pub job : NotificationJob
  pub announcement : StructuredAnnouncement
  pub filter_name : String

-- The repository; its dict `jobs` is keyed by the idempotency keys.
pub record JobRepository : Type 0 where
  pub jobs : Dict String NotificationJob
  pub announcements : Dict String StructuredAnnouncement
  pub filter_names : Dict String String
  pub attempts : List NotificationDeliveryAttempt

unfoldable pub notification_idempotency_key : ℕ → String → String → String
notification_idempotency_key user_id filter_id announcement_id =
    "notification:" ++ (str user_id ++ (":" ++ (filter_id ++ (":" ++ announcement_id))))

abbrev pub idempotency_key : NotificationJob → String
idempotency_key job = notification_idempotency_key job.user_id job.filter_id job.announcement_id

unfoldable pub get_by_notification_id : String → JobRepository → Option NotificationJob
get_by_notification_id id s = find_first (λ job. job.notification_id == id) (values s.jobs)

abbrev pub require : String → Exec JobRepository NotificationJob
require id s = or_raise (key_error id) (get_by_notification_id id s) s

abbrev pub store : NotificationJob → Exec JobRepository (Unit {0})
store job = modify (λ s. record s { jobs = put (idempotency_key job) job s.jobs })

abbrev pub record_attempt :
    NotificationDeliveryAttempt → Exec JobRepository NotificationDeliveryAttempt
record_attempt attempt = do
  modify (λ s. record s { attempts = B.◌++◌ s.attempts (attempt ∷ []) })
  pure attempt

abbrev pub new_job :
    (user_id : ℕ) (filter_id announcement_id : String) (priority : ℕ)
    (queue : NotificationQueueName) (fresh_id : String) (now : ℕ)
    → NotificationJob
new_job user_id filter_id announcement_id priority queue fresh_id now = record {
  notification_id = fresh_id;
  user_id = user_id;
  filter_id = filter_id;
  announcement_id = announcement_id;
  status = pending;
  priority = priority;
  queue_name = queue;
  created_at = now;
  attempts = 0;
  next_attempt_at = none;
  telegram_message_id = none;
}

unfoldable pub create_pending :
    (user_id : ℕ) (filter_id announcement_id : String) (priority : ℕ)
    (queue : NotificationQueueName) (fresh_id : String) (now : ℕ)
    → Exec JobRepository (NotificationJob × Bool)
create_pending user_id filter_id announcement_id priority queue fresh_id now = do
  existing ← gets (λ s. get (notification_idempotency_key user_id filter_id announcement_id) s.jobs)
  on_option existing
      (do
        let job = new_job user_id filter_id announcement_id priority queue fresh_id now
        store job
        pure (job, true))
      (λ job. pure (job, false))

-- `job.next_attempt_at is None or job.next_attempt_at <= now`
abbrev is_due : ℕ → Option ℕ → Bool
is_due now none = true
is_due now (some at) = leb at now

abbrev pub is_ready : ℕ → NotificationJob → Bool
is_ready now job = is_pending job.status && is_due now job.next_attempt_at

-- The order of the key `(-priority, created_at, notification_id)`.
unfoldable pub before : NotificationJob → NotificationJob → Bool
before a b =
    if ltb b.priority a.priority
    then true
    else if ltb a.priority b.priority
    then false
    else if ltb a.created_at b.created_at
    then true
    else if ltb b.created_at a.created_at
    then false
    else str_leb a.notification_id b.notification_id

unfoldable pub list_ready : (limit now : ℕ) → JobRepository → List NotificationJob
list_ready limit now s = take limit (sort_by before (keep_if (is_ready now) (values s.jobs)))

unfoldable pub get_delivery_context : String → JobRepository → Option NotificationDeliveryContext
get_delivery_context id s = on_option (get_by_notification_id id s) none λ job.
    on_option (get job.announcement_id s.announcements) none λ announcement.
      on_option (get job.filter_id s.filter_names) none λ filter_name.
        some (record { job = job; announcement = announcement; filter_name = filter_name })

-- `NotificationDeliveryAttempt(...)` with the fields that each caller gives.
abbrev pub attempt_of :
    (id : String) (attempt_no : ℕ) (result : NotificationAttemptResult) (error : Option String)
    (retryable : Bool) (message : Option String) (now : ℕ)
    → NotificationDeliveryAttempt
attempt_of id attempt_no result error retryable message now = record {
  notification_id = id;
  attempt_no = attempt_no;
  result = result;
  error_type = error;
  retryable = retryable;
  telegram_message_id = message;
  created_at = some now;
}

unfoldable pub mark_sending : String → ℕ → Exec JobRepository (Option NotificationJob)
mark_sending id now = do
  found ← gets (get_by_notification_id id)
  on_option found (pure none) λ job. if not (is_pending job.status) then pure none else (do
    let updated = record job { status = sending; attempts = job.attempts + 1 }
    store updated
    record_attempt (attempt_of id updated.attempts sending none false none now)
    pure (some updated))

unfoldable pub mark_sent : String → String → ℕ → Exec JobRepository NotificationDeliveryAttempt
mark_sent id message now = do
  job ← require id
  store (record job { status = sent; telegram_message_id = some message; next_attempt_at = none })
  record_attempt (attempt_of id job.attempts sent none false (some message) now)

-- The two error types that contain "rate_limited" are those of a rate limit.
pub data RetryableError : Type 0 where
  local_rate_limited telegram_rate_limited telegram_transient_error : RetryableError

abbrev pub retryable_text : RetryableError → String
retryable_text local_rate_limited = "local_rate_limited"
retryable_text telegram_rate_limited = "telegram_rate_limited"
retryable_text telegram_transient_error = "telegram_transient_error"

abbrev pub retryable_result : RetryableError → NotificationAttemptResult
retryable_result telegram_transient_error = retryable_failure
retryable_result _ = rate_limited

unfoldable pub mark_retryable_failure :
    (id : String) (error : RetryableError) (retry_after now : ℕ)
    → Exec JobRepository NotificationDeliveryAttempt
mark_retryable_failure id error retry_after now = do
  job ← require id
  store (record job { status = pending; next_attempt_at = some (now + retry_after) })
  record_attempt (
      attempt_of id job.attempts (retryable_result error) (some (retryable_text error)) true none
        now)

pub data PermanentError : Type 0 where
  missing_delivery_context telegram_user_blocked telegram_permanent_error : PermanentError

abbrev pub permanent_text : PermanentError → String
permanent_text missing_delivery_context = "missing_delivery_context"
permanent_text telegram_user_blocked = "telegram_user_blocked"
permanent_text telegram_permanent_error = "telegram_permanent_error"

abbrev pub permanent_status : PermanentError → NotificationStatus
permanent_status telegram_user_blocked = suppressed
permanent_status _ = failed

unfoldable pub mark_permanent_failure :
    (id : String) (error : PermanentError) (now : ℕ)
    → Exec JobRepository NotificationDeliveryAttempt
mark_permanent_failure id error now = do
  job ← require id
  store (record job { status = permanent_status error; next_attempt_at = none })
  record_attempt
      (attempt_of id job.attempts permanent_failure (some (permanent_text error)) false none now)
