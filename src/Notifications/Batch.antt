-- ===== src/Notifications/Batch.antt =====
-- src/estateflow/services/notifications.py: `process_batch`, its metrics and its attempts.
use estate_flow.Base.{
  ℕ, suc, ◌+◌, ◌≡◌, refl, ap, ◌∙◌, inl, inr, false, List, [], ◌∷◌, map, arith, length, ok,
  Result-cases, leb, Bool-cases, count_if, if◌then◌else◌,
}
use Prim.Native.String.{String}
use mathlib.Core.Path.{subst}
use estate_flow.Notifications.{
  NotificationJob, NotificationDeliveryContext, NotificationDeliveryAttempt, list_ready,
}
use estate_flow.Notifications.Worker.{
  NotificationDeliveryWorker, NotificationDeliveryMetrics, SendOutcome, Message, MetricName, metric,
  add, incremented, process_job, process_jobs, process_batch, is_failure,
}
use estate_flow.Notifications.Counted.{counter_of, same_metric, metric-add, process_job-AreCounted}

abbrev pub processed : NotificationDeliveryMetrics → ℕ
processed m = m.sent + m.retryable_failures + m.permanent_failures + m.rate_limited + m.skipped

-- the attempts that count for a metric
abbrev pub count_for : MetricName → List NotificationDeliveryAttempt → ℕ
count_for name attempts = count_if (λ a. same_metric (counter_of a) name) attempts

abbrev Done : Type 0
Done = NotificationDeliveryMetrics × List NotificationDeliveryAttempt

-- The attempts are those of the jobs, in their order, and each metric is the number of the attempts
-- that count for it.
pub record IsTally (jobs : List NotificationJob) (done : Done) : Type 0 where
  pub ids : map (λ a. a.notification_id) done.1 ≡ map (λ j. j.notification_id) jobs
  pub picked : done.0.picked ≡ length jobs
  pub sent : done.0.sent ≡ count_for MetricName.sent done.1
  pub retryable_failures :
      done.0.retryable_failures ≡ count_for MetricName.retryable_failures done.1
  pub permanent_failures :
      done.0.permanent_failures ≡ count_for MetricName.permanent_failures done.1
  pub rate_limited : done.0.rate_limited ≡ count_for MetricName.rate_limited done.1
  pub skipped : done.0.skipped ≡ count_for MetricName.skipped done.1
  pub total : processed done.0 ≡ length jobs

abbrev AreAdded : NotificationDeliveryMetrics → List NotificationJob → Done → Type 0
AreAdded m jobs done =
    ((name : MetricName) → metric name done.0 ≡ metric name m + count_for name done.1)
    × (map (λ a. a.notification_id) done.1 ≡ map (λ j. j.notification_id) jobs)

ok_inj : {a b : Done} → ok a ≡ ok b → a ≡ b
ok_inj h = ground (arith, h)

not_picked :
    (a : NotificationDeliveryAttempt) → same_metric (counter_of a) MetricName.picked ≡ false
not_picked a = ground arith

none_picked : (rest : List NotificationDeliveryAttempt) → count_for MetricName.picked rest ≡ 0
none_picked [] = refl
none_picked (a ∷ rest) = ground (arith, not_picked a, none_picked rest)

one_of_five :
    (c : MetricName)
    → same_metric c MetricName.picked ≡ false
    → (if same_metric c MetricName.sent then 1 else 0)
        + (if same_metric c MetricName.retryable_failures then 1 else 0)
        + (if same_metric c MetricName.permanent_failures then 1 else 0)
        + (if same_metric c MetricName.rate_limited then 1 else 0)
        + (if same_metric c MetricName.skipped then 1 else 0)
      ≡ 1
one_of_five c h = ground (arith, h)

all_counted :
    (rest : List NotificationDeliveryAttempt)
    → count_for MetricName.sent rest
        + count_for MetricName.retryable_failures rest
        + count_for MetricName.permanent_failures rest
        + count_for MetricName.rate_limited rest
        + count_for MetricName.skipped rest
      ≡ length rest
all_counted [] = refl
all_counted (a ∷ rest) = omega (arith, one_of_five (counter_of a) (not_picked a), all_counted rest)

length-ids :
    (rest : List NotificationDeliveryAttempt) (jobs : List NotificationJob)
    → map (λ a. a.notification_id) rest ≡ map (λ j. j.notification_id) jobs
    → length rest ≡ length jobs
length-ids [] [] h = refl
length-ids (a ∷ rest) (j ∷ jobs) h = ap suc (length-ids rest jobs (ground (arith, h)))
length-ids [] (j ∷ jobs) h = cc
length-ids (a ∷ rest) [] h = cc

-- The metrics of the whole loop, which starts with the number of the jobs and with zeros.
AreAdded-IsTally :
    (jobs : List NotificationJob) (done : Done)
    → AreAdded
        (record {
          picked = length jobs;
          sent = 0;
          retryable_failures = 0;
          permanent_failures = 0;
          rate_limited = 0;
          skipped = 0;
        })
        jobs
        done
    → IsTally jobs done
AreAdded-IsTally jobs done (counts, ids) = record {
  ids = ids;
  picked = omega (arith, counts MetricName.picked, none_picked done.1);
  sent = omega (arith, counts MetricName.sent);
  retryable_failures = omega (arith, counts MetricName.retryable_failures);
  permanent_failures = omega (arith, counts MetricName.permanent_failures);
  rate_limited = omega (arith, counts MetricName.rate_limited);
  skipped = omega (arith, counts MetricName.skipped);
  total = omega (
    arith,
    counts MetricName.sent,
    counts MetricName.retryable_failures,
    counts MetricName.permanent_failures,
    counts MetricName.rate_limited,
    counts MetricName.skipped,
    all_counted done.1,
    length-ids done.1 jobs ids,
  );
}

module _ (format : NotificationDeliveryContext → String)
    (telegram : List Message → SendOutcome) where
  process_jobs-AreAdded :
      (jobs : List NotificationJob) (now : ℕ) (m : NotificationDeliveryMetrics) (done : Done)
      (w : NotificationDeliveryWorker)
      → (process_jobs format telegram jobs now m w).0 ≡ ok done
      → AreAdded m jobs done
  unfolding process_jobs
  process_jobs-AreAdded [] now m done w h =
      subst (AreAdded m []) (ok_inj h) (λ name. omega arith, refl)
  process_jobs-AreAdded (job ∷ jobs) now m done w h =
      elim (Result-cases (process_job format telegram job now w).0) [
        | inr (x, failed) ↦ cc (rw failed at h)
        | inl (one, first) ↦
            let added = add (incremented m one.1) m in
            let w1 = (process_job format telegram job now w).1 in
            elim (Result-cases (process_jobs format telegram jobs now added w1).0) [
              | inr (x, failed) ↦ cc (rw (first, failed) at h)
              | inl (rest, next) ↦
                  let (updates, id) = process_job-AreCounted format telegram job now w one first in
                  let (counts, ids) = process_jobs-AreAdded jobs now added rest w1 next in
                  subst (AreAdded m (job ∷ jobs)) (ok_inj (rw (first, next) at h)) (
                    λ name. omega (
                      arith,
                      counts name,
                      ap (λ u. metric name (add (incremented m u) m)) updates,
                      metric-add (counter_of one.0) name m,
                    ),
                    ap (λ i. i ∷ map (λ a. a.notification_id) rest.1) id
                        ∙ ap (λ is. job.notification_id ∷ is) ids,
                  )
            ]
      ]

  -- In a batch that returns, the attempts are those of the jobs that `list_ready` picked, in their
  -- order; the number of the picked jobs is reported, each of the other five counters is the number of
  -- the attempts whose outcome it counts, and these five add up to the number of the picked jobs.
  pub process_batch-counts :
      (limit now : ℕ) (done : Done) (w : NotificationDeliveryWorker)
      → (process_batch format telegram limit now w).0 ≡ ok done
      → IsTally (list_ready limit now w.repository) done
  unfolding process_batch
  process_batch-counts limit now done w h =
      let ready = list_ready limit now w.repository in
      let start : NotificationDeliveryMetrics = record {
        picked = length ready;
        sent = 0;
        retryable_failures = 0;
        permanent_failures = 0;
        rate_limited = 0;
        skipped = 0;
      } in
      let after = (process_jobs format telegram ready now start w).1 in
      elim (Result-cases (process_jobs format telegram ready now start w).0) [
        | inr (x, failed) ↦ cc (rw failed at h)
        | inl (rest, next) ↦
            let e : rest ≡ done =
              elim (Bool-cases (leb after.bulk_failure_threshold (count_if is_failure rest.1))) [
                | inl many ↦ ok_inj (rw (next, many) at h)
                | inr few ↦ ok_inj (rw (next, few) at h)
              ] in
            subst (IsTally ready) e
              (AreAdded-IsTally ready rest (process_jobs-AreAdded ready now start rest w next))
      ]
