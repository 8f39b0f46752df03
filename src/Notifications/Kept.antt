-- ===== src/Notifications/Kept.antt =====
-- src/estateflow/services/notifications.py: the stored jobs that the steps of
-- `NotificationDeliveryWorker` leave alone.
use estate_flow.Base.{
  ℕ, ◌+◌, String, ◌≡◌, refl, ◌≢◌, sym, ◌∙◌, inl, inr, Bool, false, Option, none, some, List,
  String_eq, Bool-cases, Option-cases, Exec,
}
use mathlib.Core.Path.{subst}
use estate_flow.Base.Dict.{Dict, put}
use estate_flow.Base.Invariants.{Preserves, preserves_rules}
use estate_flow.Notifications.{
  JobRepository, NotificationJob, NotificationDeliveryAttempt, NotificationDeliveryContext,
  NotificationRateLimiter, NotificationStatus, is_pending, idempotency_key, get_by_notification_id,
  mark_sending, mark_sent, mark_retryable_failure, mark_permanent_failure, RetryableError,
  PermanentError,
}
use estate_flow.Notifications.Index.{IsIndexed, find, find-id, store-others, store-IsIndexed}
use estate_flow.Notifications.Worker.{
  NotificationDeliveryWorker, SendOutcome, delivered, rate_limit_error, user_blocked_error,
  permanent_error, transient_error, other_error, Message, in_repository, in_limiter, deliver,
  settle, send_message, retry_later, give_up, record_delivery_failure,
  record_technical_delivery_failure, record_event,
}

-- The well-formed dict holds this job under this id.
abbrev pub Holds : String → NotificationJob → JobRepository → Type 0
Holds id job s = IsIndexed s.jobs × (find id s.jobs ≡ some job)

-- A stored copy that is there and pending.
abbrev pub is_waiting : Option NotificationJob → Bool
is_waiting none = false
is_waiting (some job) = is_pending job.status

-- The job, as `mark_sending` stores it.
abbrev pub marked : NotificationJob → NotificationJob
marked job = record job { status = NotificationStatus.sending; attempts = job.attempts + 1 }

module _ (id : String) (job : NotificationJob) where
  Holds-put :
      (other : String) (old new : NotificationJob) (jobs : Dict String NotificationJob)
      → find other jobs ≡ some old
      → new.notification_id ≡ old.notification_id
      → idempotency_key new ≡ idempotency_key old
      → other ≢ id
      → IsIndexed jobs × (find id jobs ≡ some job)
      → IsIndexed (put (idempotency_key new) new jobs)
        × (find id (put (idempotency_key new) new jobs) ≡ some job)
  Holds-put other old new jobs f same_id same_key ne h =
      let own = find-id other jobs old f in
      let f' = subst (λ i. find i jobs ≡ some old) (sym own) f in
      (
        store-IsIndexed old new jobs h.0 same_id same_key f',
        store-others old new jobs h.0 same_id same_key f' id (λ e. ne (sym own ∙ e)) ∙ h.1,
      )

  module _ (other : String) (ne : other ≢ id) where
    pub mark_sending-Holds : (now : ℕ) → Preserves (Holds id job) (mark_sending other now)
    unfolding mark_sending get_by_notification_id
    mark_sending-Holds now = record {
      holds = λ s h. elim (Option-cases (find other s.jobs)) [
        | inl e ↦ rw e h
        | inr (old, e) ↦ elim (Bool-cases (is_pending old.status)) [
          | inl p ↦ rw (e, p) (Holds-put other old _ s.jobs e refl refl ne h)
          | inr n ↦ rw (e, n) h
        ]
      ];
    }

    mark_sent-Holds :
        (message : String) (now : ℕ) → Preserves (Holds id job) (mark_sent other message now)
    unfolding mark_sent get_by_notification_id
    mark_sent-Holds message now = record {
      holds = λ s h. elim (Option-cases (find other s.jobs)) [
        | inl e ↦ rw e h
        | inr (old, e) ↦ rw e (Holds-put other old _ s.jobs e refl refl ne h)
      ];
    }

    mark_retryable_failure-Holds :
        (error : RetryableError) (wait now : ℕ)
        → Preserves (Holds id job) (mark_retryable_failure other error wait now)
    unfolding mark_retryable_failure get_by_notification_id
    mark_retryable_failure-Holds error wait now = record {
      holds = λ s h. elim (Option-cases (find other s.jobs)) [
        | inl e ↦ rw e h
        | inr (old, e) ↦ rw e (Holds-put other old _ s.jobs e refl refl ne h)
      ];
    }

    mark_permanent_failure-Holds :
        (error : PermanentError) (now : ℕ)
        → Preserves (Holds id job) (mark_permanent_failure other error now)
    unfolding mark_permanent_failure get_by_notification_id
    mark_permanent_failure-Holds error now = record {
      holds = λ s h. elim (Option-cases (find other s.jobs)) [
        | inl e ↦ rw e h
        | inr (old, e) ↦ rw e (Holds-put other old _ s.jobs e refl refl ne h)
      ];
    }

  abbrev pub Kept : NotificationDeliveryWorker → Type 0
  Kept w = Holds id job w.repository

  in_repository-Kept :
      {A : Type 0} (m : Exec JobRepository A)
      → Preserves (Holds id job) m
      → Preserves Kept (in_repository m)
  in_repository-Kept m k = record { holds = λ w h. k.holds w.repository h }

  in_limiter-Kept :
      {A : Type 0} (m : Exec NotificationRateLimiter A) → Preserves Kept (in_limiter m)
  in_limiter-Kept m = record { holds = λ w h. h }

  technical-Kept :
      (sending : NotificationJob) (attempt : NotificationDeliveryAttempt)
      → Preserves Kept (record_technical_delivery_failure sending attempt)
  unfolding record_technical_delivery_failure
  technical-Kept sending attempt = record { holds = λ w h. h }

  failure-Kept :
      (sending : NotificationJob) (attempt : NotificationDeliveryAttempt)
      → Preserves Kept (record_delivery_failure sending attempt)
  unfolding record_delivery_failure record_technical_delivery_failure
  failure-Kept sending attempt = record { holds = λ w h. h }

  record_event-Kept : (key : String) → Preserves Kept (record_event key)
  record_event-Kept key = record { holds = λ w h. h }

  module _ (sending : NotificationJob) (ne : sending.notification_id ≢ id) where
    retry_later-Kept :
        (error : RetryableError) (wait now : ℕ)
        → Preserves Kept (retry_later sending error wait now)
    unfolding retry_later
    retry_later-Kept error wait now =
        search (preserves_rules, in_repository-Kept, failure-Kept, mark_retryable_failure-Holds, ne)
          depth 12

    give_up-Kept : (error : PermanentError) (now : ℕ) → Preserves Kept (give_up sending error now)
    unfolding give_up
    give_up-Kept error now =
        search (preserves_rules, in_repository-Kept, failure-Kept, mark_permanent_failure-Holds, ne)
          depth 12

    settle-Kept : (now : ℕ) (out : SendOutcome) → Preserves Kept (settle sending now out)
    unfolding settle
    settle-Kept now (delivered message) =
        search (preserves_rules, in_repository-Kept, mark_sent-Holds, record_event-Kept, ne) depth
          12
    settle-Kept now (rate_limit_error seconds) = retry_later-Kept _ _ now
    settle-Kept now user_blocked_error = give_up-Kept _ now
    settle-Kept now permanent_error = give_up-Kept _ now
    settle-Kept now transient_error = search (preserves_rules, retry_later-Kept) depth 12
    settle-Kept now (other_error e) = record { holds = λ w h. h }

    module _ (format : NotificationDeliveryContext → String)
        (telegram : List Message → SendOutcome) where
      send-Kept :
          (chat : ℕ) (text : String) → Preserves Kept (send_message format telegram chat text)
      unfolding send_message
      send-Kept chat text = record { holds = λ w h. h }

      pub deliver-Kept : (now : ℕ) → Preserves Kept (deliver format telegram sending now)
      unfolding deliver
      deliver-Kept now =
          search
            (
              preserves_rules, in_limiter-Kept, in_repository-Kept, mark_permanent_failure-Holds,
              mark_retryable_failure-Holds, technical-Kept, send-Kept, settle-Kept, ne,
            )
            depth 14
