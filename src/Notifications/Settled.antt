-- ===== src/Notifications/Settled.antt =====
-- src/estateflow/services/notifications.py: `NotificationDeliveryWorker` on a job that is not pending.
use estate_flow.Base.{
  ℕ, ◌+◌, String, ◌≡◌, refl, ◌≢◌, sym, ap, ◌∙◌, inl, inr, Bool, true, false, not, Option, none,
  some, List, [], ◌∷◌, arith, ◌==◌, String_eq, str_eq_iff, if◌then◌else◌, Bool-cases, Option-cases,
  Result, ok, err, Exec, modify,
}
use estate_flow.Base as B
use estate_flow.Base.Invariants.{Preserves, preserves_rules, Preserves-bind, Preserves-pure}
use estate_flow.Notifications.{
  NotificationJob, NotificationDeliveryContext, is_pending, get_by_notification_id, mark_sending,
}
use estate_flow.Notifications.Index.{find-id}
use estate_flow.Notifications.Worker.{
  NotificationDeliveryWorker, NotificationDeliveryMetrics, SendOutcome, Message, process_job,
  process_jobs, process_batch, deliver, skip, add, incremented,
}
use estate_flow.Notifications.Kept.{
  Holds, is_waiting, marked, mark_sending-Holds, Kept, deliver-Kept,
}

module _ (format : NotificationDeliveryContext → String)
    (telegram : List Message → SendOutcome) where
  -- A job whose stored copy is missing or not pending is skipped: nothing changes, and no message is
  -- sent.
  pub process_job-skips :
      (job : NotificationJob) (now : ℕ) (w : NotificationDeliveryWorker)
      → is_waiting (get_by_notification_id job.notification_id w.repository) ≡ false
      → process_job format telegram job now w ≡ (ok (skip job), w)
  unfolding process_job mark_sending
  process_job-skips job now w h =
      elim (Option-cases (get_by_notification_id job.notification_id w.repository)) [
        | inl e ↦ rw e refl
        | inr (stored, e) ↦ rw (e, rw e at h) refl
      ]

  -- A pending job is marked first.
  pub process_job-marks :
      (job stored : NotificationJob) (now : ℕ) (w : NotificationDeliveryWorker)
      → get_by_notification_id job.notification_id w.repository ≡ some stored
      → is_pending stored.status ≡ true
      → process_job format telegram job now w
        ≡ deliver format telegram
            (marked stored)
            now
            (record w { repository = (mark_sending job.notification_id now w.repository).1 })
  unfolding process_job mark_sending
  process_job-marks job stored now w e p = rw (e, p) refl

  module _ (id : String) (final : NotificationJob) (settled : is_pending final.status ≡ false) where
    process_job-Kept :
        (job : NotificationJob) (now : ℕ)
        → Preserves (Kept id final) (process_job format telegram job now)
    unfolding get_by_notification_id
    process_job-Kept job now = record {
      holds = λ w h.
          elim (Bool-cases (is_waiting (get_by_notification_id job.notification_id w.repository))) [
            | inl waits ↦
                elim (Option-cases (get_by_notification_id job.notification_id w.repository)) [
                  | inl e ↦ cc (rw e at waits)
                  | inr (stored, e) ↦
                      let ne : job.notification_id ≢ id =
                        λ same. pending_settled stored (rw e at waits) (sym e ∙ rw same h.1) in
                      let own = find-id job.notification_id w.repository.jobs stored e in
                      rw (process_job-marks job stored now w e (rw e at waits)) (
                        (deliver-Kept id final (marked stored) (λ s. ne (sym own ∙ s)) format
                            telegram now).holds
                          _
                          ((mark_sending-Holds id final job.notification_id ne now).holds
                            w.repository h))
                ]
            | inr idle ↦ rw (process_job-skips job now w idle) h
          ];
    }
      where
        pending_settled :
            (stored : NotificationJob) → is_pending stored.status ≡ true → some stored ≢ some final
        pending_settled stored p e = ground (arith, p, e, settled)

    process_jobs-Kept :
        (jobs : List NotificationJob) (now : ℕ) (metrics : NotificationDeliveryMetrics)
        → Preserves (Kept id final) (process_jobs format telegram jobs now metrics)
    unfolding process_jobs
    process_jobs-Kept [] now metrics = record { holds = λ w h. h }
    process_jobs-Kept (job ∷ jobs) now metrics =
        Preserves-bind _ _ (process_job-Kept job now) λ done.
          Preserves-bind _ _ (process_jobs-Kept jobs now (add (incremented metrics done.1) metrics))
            λ rest. Preserves-pure _

    process_batch-Kept :
        (limit now : ℕ) → Preserves (Kept id final) (process_batch format telegram limit now)
    unfolding process_batch
    process_batch-Kept limit now = search (preserves_rules, process_jobs-Kept, warn-Kept) depth 14
      where
        warn-Kept :
            (count : ℕ)
            → Preserves
                (Kept id final)
                (modify (λ w. record w { warnings = B.◌++◌ w.warnings (count ∷ []) }))
        warn-Kept count = record { holds = λ w h. h }

-- A call of the worker: one job that came by the queue, or a batch.
pub data Call : Type 0 where
  one : (job : NotificationJob) (now : ℕ) → Call
  batch : (limit now : ℕ) → Call

module _ (format : NotificationDeliveryContext → String)
    (telegram : List Message → SendOutcome) where
  unfoldable pub call : Call → NotificationDeliveryWorker → NotificationDeliveryWorker
  call (one job now) w = (process_job format telegram job now w).1
  call (batch limit now) w = (process_batch format telegram limit now w).1

  unfoldable pub run : NotificationDeliveryWorker → List Call → NotificationDeliveryWorker
  run w [] = w
  run w (c ∷ calls) = run (call c w) calls

  -- A stored job that is not pending is final for the worker: no sequence of deliveries from the
  -- queue and of batches, whether they return or raise, changes it, for every formatter and every
  -- behaviour of Telegram, if the repository's dict was well formed.
  pub run-Holds :
      (id : String) (final : NotificationJob) (w : NotificationDeliveryWorker) (calls : List Call)
      → is_pending final.status ≡ false
      → Holds id final w.repository
      → Holds id final (run w calls).repository
  unfolding run call
  run-Holds id final w [] settled h = h
  run-Holds id final w (one job now ∷ calls) settled h =
      run-Holds id final (call (one job now) w) calls settled
        ((process_job-Kept format telegram id final settled job now).holds w h)
  run-Holds id final w (batch limit now ∷ calls) settled h =
      run-Holds id final (call (batch limit now) w) calls settled
        ((process_batch-Kept format telegram id final settled limit now).holds w h)
