-- ===== src/Notifications/Outcomes.antt =====
-- src/estateflow/services/notifications.py: `_process_job`, by the outcome of the send.
use estate_flow.Base.{
  ℕ, ◌+◌, ◌*◌, String, ◌≡◌, refl, sym, ap, ◌∙◌, inl, inr, Bool, true, false, Option, none, some,
  List, [], ◌∷◌, arith, String_eq, Option-cases, Result, ok, err, Exec, Error,
}
use mathlib.Core.Path.{subst}
use estate_flow.Base as B
use estate_flow.Base.Dict.{Dict, put}
use estate_flow.Notifications.{
  JobRepository, NotificationJob, NotificationDeliveryContext, NotificationStatus, is_pending,
  idempotency_key, get_by_notification_id, mark_sending, mark_sent, mark_retryable_failure,
  mark_permanent_failure, RetryableError, PermanentError, permanent_status, retry_after,
  get_delivery_context, telegram_user_blocked, telegram_permanent_error,
}
use estate_flow.Notifications.Index.{IsIndexed, find, find-id, store-found, store-IsIndexed}
use estate_flow.Notifications.Worker.{
  NotificationDeliveryWorker, SendOutcome, delivered, rate_limit_error, user_blocked_error,
  permanent_error, transient_error, other_error, Message, process_job, deliver, settle,
  send_message, retry_later, give_up, record_delivery_failure, record_technical_delivery_failure,
}
use estate_flow.Notifications.Kept.{Holds, marked}
use estate_flow.Notifications.Settled.{process_job-marks}

-- The job after the send, by its outcome.
abbrev pub after_send : NotificationJob → (backoff now : ℕ) → SendOutcome → NotificationJob
after_send job backoff now (delivered message) = record job {
  status = NotificationStatus.sent;
  telegram_message_id = some message;
  next_attempt_at = none;
}
after_send job backoff now (rate_limit_error seconds) = record job {
  status = NotificationStatus.pending;
  next_attempt_at = some (now + seconds * 1000000);
}
after_send job backoff now user_blocked_error = record job {
  status = NotificationStatus.suppressed;
  next_attempt_at = none;
}
after_send job backoff now permanent_error = record job {
  status = NotificationStatus.failed;
  next_attempt_at = none;
}
after_send job backoff now transient_error = record job {
  status = NotificationStatus.pending;
  next_attempt_at = some (now + backoff);
}
after_send job backoff now (other_error e) = job

-- Storing an update of the job that is found.
Holds-store :
    (id : String) (old new : NotificationJob) (jobs : Dict String NotificationJob)
    → new.notification_id ≡ old.notification_id
    → idempotency_key new ≡ idempotency_key old
    → IsIndexed jobs × (find id jobs ≡ some old)
    → IsIndexed (put (idempotency_key new) new jobs)
      × (find id (put (idempotency_key new) new jobs) ≡ some new)
Holds-store id old new jobs same_id same_key h =
    let own = find-id id jobs old h.1 in
    let f = subst (λ i. find i jobs ≡ some old) (sym own) h.1 in
    (
      store-IsIndexed old new jobs h.0 same_id same_key f,
      subst (λ i. find i (put (idempotency_key new) new jobs) ≡ some new) own
          (store-found old new jobs h.0 same_id same_key f),
    )

module _ (job : NotificationJob) (w : NotificationDeliveryWorker)
    (h : Holds job.notification_id job w.repository) where
  retry_later-stores :
      (error : RetryableError) (wait now : ℕ)
      → Holds job.notification_id
          (record job { status = NotificationStatus.pending; next_attempt_at = some (now + wait) })
          (retry_later job error wait now w).1.repository
  unfolding retry_later mark_retryable_failure get_by_notification_id record_delivery_failure
      record_technical_delivery_failure
  retry_later-stores error wait now =
      rw h.1 (Holds-store job.notification_id job _ w.repository.jobs refl refl h)

  give_up-stores :
      (error : PermanentError) (now : ℕ)
      → Holds job.notification_id
          (record job { status = permanent_status error; next_attempt_at = none })
          (give_up job error now w).1.repository
  unfolding give_up mark_permanent_failure get_by_notification_id record_delivery_failure
      record_technical_delivery_failure
  give_up-stores error now =
      rw h.1 (Holds-store job.notification_id job _ w.repository.jobs refl refl h)

  settle-stores :
      (now : ℕ) (out : SendOutcome)
      → Holds job.notification_id
          (after_send job w.retry_backoff now out)
          (settle job now out w).1.repository
  unfolding settle mark_sent get_by_notification_id
  settle-stores now (delivered message) =
      rw h.1 (Holds-store job.notification_id job _ w.repository.jobs refl refl h)
  settle-stores now (rate_limit_error seconds) = retry_later-stores _ _ now
  settle-stores now user_blocked_error = give_up-stores telegram_user_blocked now
  settle-stores now permanent_error = give_up-stores telegram_permanent_error now
  settle-stores now transient_error = retry_later-stores _ w.retry_backoff now
  settle-stores now (other_error e) = h

settle-messages :
    (job : NotificationJob) (w : NotificationDeliveryWorker)
    → Holds job.notification_id job w.repository
    → (now : ℕ) (out : SendOutcome) → (settle job now out w).1.messages ≡ w.messages
unfolding settle mark_sent get_by_notification_id retry_later mark_retryable_failure give_up
    mark_permanent_failure record_delivery_failure record_technical_delivery_failure
settle-messages job w h now (delivered message) = rw h.1 refl
settle-messages job w h now (rate_limit_error seconds) = rw h.1 refl
settle-messages job w h now user_blocked_error = rw h.1 refl
settle-messages job w h now permanent_error = rw h.1 refl
settle-messages job w h now transient_error = rw h.1 refl
settle-messages job w h now (other_error e) = refl

mark_sending-Holds-marked :
    (id : String) (stored : NotificationJob) (now : ℕ) (s : JobRepository)
    → Holds id stored s
    → is_pending stored.status ≡ true
    → Holds id (marked stored) (mark_sending id now s).1
unfolding mark_sending get_by_notification_id
mark_sending-Holds-marked id stored now s h p =
    rw (h.1, p) (Holds-store id stored (marked stored) s.jobs refl refl h)

module _ (format : NotificationDeliveryContext → String)
    (telegram : List Message → SendOutcome) where
  -- The worker when Telegram has answered, before the answer is handled.
  abbrev asked :
      NotificationJob
      → NotificationDeliveryContext
      → ℕ
      → NotificationDeliveryWorker
      → NotificationDeliveryWorker
  asked sending context now w = record w {
    limiter = (retry_after sending.user_id now w.limiter).1;
    messages = B.◌++◌ w.messages ((sending.user_id, format context) ∷ []);
  }

  deliver-sends :
      (sending : NotificationJob) (context : NotificationDeliveryContext) (now : ℕ)
      (w : NotificationDeliveryWorker)
      → (retry_after sending.user_id now w.limiter).0 ≡ ok none
      → get_delivery_context sending.notification_id w.repository ≡ some context
      → deliver format telegram sending now w
        ≡ settle sending now
            (telegram (B.◌++◌ w.messages ((sending.user_id, format context) ∷ [])))
            (asked sending context now w)
  unfolding deliver send_message
  deliver-sends sending context now w free known = rw (free, known) refl

  -- A delivery of a job that waits, when the rate limiter lets it pass and its announcement and
  -- filter are known: exactly one message is sent, to the job's user, and the stored job is left as
  -- the outcome of the send demands: sent with the message's id, put off by the time that Telegram
  -- or the backoff gives, suppressed, failed, or, after any other exception, still marked as sending.
  pub process_job-sends :
      (job stored : NotificationJob) (context : NotificationDeliveryContext) (now : ℕ)
      (w : NotificationDeliveryWorker)
      → Holds job.notification_id stored w.repository
      → is_pending stored.status ≡ true
      → (retry_after stored.user_id now w.limiter).0 ≡ ok none
      → get_delivery_context job.notification_id
          (mark_sending job.notification_id now w.repository).1
        ≡ some context
      → let messages = B.◌++◌ w.messages ((stored.user_id, format context) ∷ []) in
        ((process_job format telegram job now w).1.messages ≡ messages)
        × Holds job.notification_id
            (after_send (marked stored) w.retry_backoff now (telegram messages))
            (process_job format telegram job now w).1.repository
  unfolding get_by_notification_id
  process_job-sends job stored context now w h p free known =
      let own = find-id job.notification_id w.repository.jobs stored h.1 in
      let w1 = record w { repository = (mark_sending job.notification_id now w.repository).1 } in
      let messages = B.◌++◌ w.messages ((stored.user_id, format context) ∷ []) in
      let m = mark_sending-Holds-marked job.notification_id stored now w.repository h p in
      let steps =
        process_job-marks format telegram job stored now w h.1 p
        ∙ deliver-sends (marked stored) context now w1 free
            (subst (λ i. get_delivery_context i w1.repository ≡ some context) (sym own) known) in
      let held = subst (λ i. Holds i (marked stored) w1.repository) (sym own) m in
      subst
        (λ r.
          (r.1.messages ≡ messages)
          × Holds job.notification_id
              (after_send (marked stored) w.retry_backoff now (telegram messages)) r.1.repository)
        (sym steps)
        (
          settle-messages (marked stored) (asked (marked stored) context now w1) held now
              (telegram messages),
          subst
              (λ i.
                Holds i (after_send (marked stored) w.retry_backoff now (telegram messages))
                  (settle (marked stored) now (telegram messages)
                    (asked (marked stored) context now w1)).1.repository)
              own
              (settle-stores (marked stored) (asked (marked stored) context now w1) held now
                (telegram messages)),
        )
