-- ===== src/Notifications/Counted.antt =====
-- src/estateflow/services/notifications.py: which metric `_process_job` updates, by the attempt.
use mathlib.Core.Path.{subst}
use estate_flow.Base.{
  ℕ, ◌+◌, String, ◌≡◌, refl, inl, inr, Bool, false, Option, none, some, List, [], ◌∷◌, arith,
  Result, Result-cases, ok, ◌==◌, String_eq, if◌then◌else◌, Option-cases, Bool-cases, nat_eq,
}
use estate_flow.Notifications.{
  NotificationJob, NotificationDeliveryAttempt, NotificationAttemptResult,
  NotificationDeliveryContext, telegram_rate_limited, telegram_transient_error, PermanentError,
  JobRepository, is_pending, get_by_notification_id, mark_sending, mark_sent,
  mark_retryable_failure, mark_permanent_failure, get_delivery_context, retry_after,
}
use estate_flow.Notifications.Index.{find-id}
use estate_flow.Notifications.Worker.{
  NotificationDeliveryWorker, NotificationDeliveryMetrics, MetricName, metric, SendOutcome,
  delivered, rate_limit_error, user_blocked_error, permanent_error, transient_error, other_error,
  Message, Processed, process_job, deliver, settle, send_message, retry_later, give_up,
  record_delivery_failure, record_technical_delivery_failure, add, incremented,
}

abbrev is_local : Option String → Bool
is_local none = false
is_local (some text) = text == "local_rate_limited"

-- The metric that an attempt counts for: a limit of Telegram is a retryable failure, and the worker's
-- own limit has a metric of its own. No job ends with an attempt that is sending.
abbrev pub counter_of : NotificationDeliveryAttempt → MetricName
counter_of a = elim a.result [
  | NotificationAttemptResult.sending ↦ MetricName.skipped
  | NotificationAttemptResult.sent ↦ MetricName.sent
  | NotificationAttemptResult.retryable_failure ↦ MetricName.retryable_failures
  | NotificationAttemptResult.permanent_failure ↦ MetricName.permanent_failures
  | NotificationAttemptResult.rate_limited ↦
      if is_local a.error_type then MetricName.rate_limited else MetricName.retryable_failures
  | NotificationAttemptResult.skipped ↦ MetricName.skipped
]

-- A job that is processed adds one to the metric of its attempt.
abbrev pub IsCounted : String → Processed → Type 0
IsCounted id p = (p.1 ≡ (counter_of p.0, 1) ∷ []) × (p.0.notification_id ≡ id)

abbrev AreCounted : String → Result Processed → Type 0
AreCounted id o = (p : Processed) → o ≡ ok p → IsCounted id p

ok_inj : {a b : Processed} → ok a ≡ ok b → a ≡ b
ok_inj h = ground (arith, h)

counted : (id : String) (p : Processed) → IsCounted id p → AreCounted id (ok p)
counted id p c q h = subst (IsCounted id) (ok_inj h) c

module _ (job : NotificationJob) (now : ℕ) (w : NotificationDeliveryWorker) where
  give_up-AreCounted :
      (error : PermanentError) → AreCounted job.notification_id (give_up job error now w).0
  unfolding give_up mark_permanent_failure record_delivery_failure record_technical_delivery_failure
  give_up-AreCounted error =
      elim (Option-cases (get_by_notification_id job.notification_id w.repository)) [
        | inl e ↦ rw e λ p h. cc
        | inr (found, e) ↦ rw e (counted job.notification_id _ (refl, refl))
      ]

  limited-AreCounted :
      (wait : ℕ)
      → AreCounted job.notification_id (retry_later job telegram_rate_limited wait now w).0
  unfolding retry_later mark_retryable_failure record_delivery_failure
      record_technical_delivery_failure
  limited-AreCounted wait =
      elim (Option-cases (get_by_notification_id job.notification_id w.repository)) [
        | inl e ↦ rw e λ p h. cc
        | inr (found, e) ↦ rw e (counted job.notification_id _ (refl, refl))
      ]

  transient-AreCounted :
      (wait : ℕ)
      → AreCounted job.notification_id (retry_later job telegram_transient_error wait now w).0
  unfolding retry_later mark_retryable_failure record_delivery_failure
      record_technical_delivery_failure
  transient-AreCounted wait =
      elim (Option-cases (get_by_notification_id job.notification_id w.repository)) [
        | inl e ↦ rw e λ p h. cc
        | inr (found, e) ↦ rw e (counted job.notification_id _ (refl, refl))
      ]

  settle-AreCounted : (out : SendOutcome) → AreCounted job.notification_id (settle job now out w).0
  unfolding settle mark_sent
  settle-AreCounted (delivered message) =
      elim (Option-cases (get_by_notification_id job.notification_id w.repository)) [
        | inl e ↦ rw e λ p h. cc
        | inr (found, e) ↦ rw e (counted job.notification_id _ (refl, refl))
      ]
  settle-AreCounted (rate_limit_error seconds) = limited-AreCounted _
  settle-AreCounted user_blocked_error = give_up-AreCounted _
  settle-AreCounted permanent_error = give_up-AreCounted _
  settle-AreCounted transient_error = transient-AreCounted _
  settle-AreCounted (other_error x) = λ p h. cc

get_by_notification_id-id :
    (id : String) (job : NotificationJob) (s : JobRepository)
    → get_by_notification_id id s ≡ some job
    → job.notification_id ≡ id
unfolding get_by_notification_id
get_by_notification_id-id id job s h = find-id id s.jobs job h

module _ (format : NotificationDeliveryContext → String)
    (telegram : List Message → SendOutcome) where
  deliver-AreCounted :
      (sending : NotificationJob) (now : ℕ) (w : NotificationDeliveryWorker)
      → AreCounted sending.notification_id (deliver format telegram sending now w).0
  unfolding deliver send_message mark_permanent_failure mark_retryable_failure
      record_technical_delivery_failure
  deliver-AreCounted sending now w =
      elim (Result-cases (retry_after sending.user_id now w.limiter).0) [
        | inr (x, e) ↦ rw e λ p h. cc
        | inl (some wait, e) ↦
            elim (Option-cases (get_by_notification_id sending.notification_id w.repository)) [
              | inl g ↦ rw (e, g) λ p h. cc
              | inr (found, g) ↦ rw (e, g) (counted sending.notification_id _ (refl, refl))
            ]
        | inl (none, e) ↦
            elim (Option-cases (get_delivery_context sending.notification_id w.repository)) [
              | inr (context, c) ↦ rw (e, c) (settle-AreCounted sending now _ _)
              | inl c ↦
                  elim (Option-cases
                    (get_by_notification_id sending.notification_id w.repository)) [
                      | inl g ↦ rw (e, c, g) λ p h. cc
                      | inr (found, g) ↦
                          rw (e, c, g) (counted sending.notification_id _ (refl, refl))
                    ]
            ]
      ]

  pub process_job-AreCounted :
      (job : NotificationJob) (now : ℕ) (w : NotificationDeliveryWorker) (p : Processed)
      → (process_job format telegram job now w).0 ≡ ok p
      → IsCounted job.notification_id p
  unfolding process_job mark_sending
  process_job-AreCounted job now w =
      elim (Option-cases (get_by_notification_id job.notification_id w.repository)) [
        | inl e ↦ rw e (counted job.notification_id _ (refl, refl))
        | inr (found, e) ↦ elim (Bool-cases (is_pending found.status)) [
          | inr f ↦ rw (e, f) (counted job.notification_id _ (refl, refl))
          | inl f ↦
              rw (e, f, ← get_by_notification_id-id job.notification_id found w.repository e)
                (deliver-AreCounted _ now _)
        ]
      ]

abbrev pub index : MetricName → ℕ
index MetricName.picked = 0
index MetricName.sent = 1
index MetricName.retryable_failures = 2
index MetricName.permanent_failures = 3
index MetricName.rate_limited = 4
index MetricName.skipped = 5

abbrev pub same_metric : MetricName → MetricName → Bool
same_metric a b = nat_eq (index a) (index b)

pub metric-add :
    (c name : MetricName) (m : NotificationDeliveryMetrics)
    → metric name (add (incremented m ((c, 1) ∷ [])) m)
      ≡ metric name m + (if same_metric c name then 1 else 0)
unfolding add incremented
metric-add c name m = ground arith
