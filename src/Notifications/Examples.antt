-- ===== src/Notifications/Examples.antt =====
-- Runs of src/estateflow/services/notifications.py, and the theorems at concrete inputs.
use mathlib.Core.List.{Perm}
use estate_flow.Base.{
  ℕ, ◌+◌, ◌≤◌, String, ◌≡◌, ◌↔◌, refl, Bool, true, false, not, ◌||◌, Option, none, some, List, [],
  ◌∷◌, leb, nat_eq, length, Result, ok, runtime_error, All, keep_if, ◌++◌, ◌⊎◌, str, ℕ_eq,
  String_eq,
}
use estate_flow.Base.Dict.{get, put, values}
use estate_flow.Base.Sort.{IsSorted, sort_by}
use estate_flow.Announcements.{StructuredAnnouncement, SearchCriteria, announcement_matches}
use estate_flow.Samples.{announcement}
use estate_flow.Notifications.{
  NotificationDeliveryAttempt, NotificationAttemptResult, JobRepository, NotificationJob,
  NotificationDeliveryContext, NotificationRateLimiter, high_priority, new_job, idempotency_key,
  notification_idempotency_key, create_pending, list_ready, is_ready, before, mark_sending,
  mark_sent, mark_retryable_failure, mark_permanent_failure, get_by_notification_id,
  get_delivery_context, retry_after, remaining,
}
use estate_flow.Notifications.Callbacks.{
  notification_action_callback, parse_notification_action_callback,
  notification_action_callback_iff,
}
use estate_flow.Notifications.Worker.{
  NotificationDeliveryMetrics, process_batch, process_jobs, add, incremented,
  NotificationDeliveryWorker, SendOutcome, other_error, delivered, Message, process_job, deliver,
  settle, send_message,
}
use estate_flow.Notifications.Matching.{
  NotificationUser, UserFilter, NotificationMatchResult, NotificationMatchingEngine,
  match_announcement, match_filters, match_filter, handle, create_job, fate, priority_for_user,
  is_premium,
}
use estate_flow.Notifications.Ready.{is_urgent, list_ready_lem}
use estate_flow.Notifications.Index.{IsIndexed, single-IsIndexed}
use estate_flow.Notifications.Kept.{Holds, marked}
use estate_flow.Notifications.Settled.{one, batch, run, call, run-Holds}
use estate_flow.Notifications.Batch.{IsTally, process_batch-counts}
use estate_flow.Notifications.Outcomes.{process_job-sends}
use estate_flow.Notifications.Account.{IsAccounted, match_announcement-IsAccounted}
use estate_flow.Notifications.Once.{match_announcement-once}
use estate_flow.Notifications.Spacing.{retry_after-spacing, retry_after-wait}

abbrev two_rooms : SearchCriteria
two_rooms = record {
  min_price = none;
  max_price = some 6000000;
  include_per_person = false;
  selected_districts = [];
  rooms = some 2;
  renovation_level = none;
  audience_tag = none;
}

abbrev filters : List UserFilter
filters =
    record {
      filter_id = "f1";
      user_id = 7;
      criteria = two_rooms;
      enabled = true;
      name = "two rooms";
      created_at = 1;
      updated_at = 1;
    }
    ∷ record {
      filter_id = "f2";
      user_id = 8;
      criteria = two_rooms;
      enabled = false;
      name = "two rooms";
      created_at = 1;
      updated_at = 1;
    }
    ∷ record {
      filter_id = "f3";
      user_id = 7;
      criteria = record two_rooms { rooms = some 4 };
      enabled = true;
      name = "two rooms";
      created_at = 1;
      updated_at = 1;
    }
    ∷ []

abbrev users : ℕ → Option NotificationUser
users user_id = some (record {
  user_id = user_id;
  notifications_enabled = true;
  premium_until = some 100;
  status = "active";
})

abbrev test : StructuredAnnouncement → SearchCriteria → Result Bool
test a criteria = ok (announcement_matches (λ s. s) a criteria)

abbrev fresh_id : JobRepository → String
fresh_id s = "n1"

abbrev other_id : JobRepository → String
other_id s = "n2"

abbrev engine : NotificationMatchingEngine
engine = record {
  repository = record { jobs = []; announcements = []; filter_names = []; attempts = [] };
  published = [];
  ops = [];
}

abbrev job : NotificationJob
job = new_job 7 "f1" "a1" 10 high_priority "n1" 5

program : Unit {0}
unfolding process_batch process_jobs add incremented notification_idempotency_key create_pending
    list_ready before mark_sending mark_sent mark_retryable_failure mark_permanent_failure
    get_by_notification_id get_delivery_context retry_after remaining process_job deliver settle
    send_message run call match_announcement match_filters match_filter handle create_job fate
    priority_for_user is_premium get put sort_by str announcement_matches
program = tt

one_job :
    (match_announcement users test fresh_id announcement 5 filters engine).1.published ≡ job ∷ []
unfolding program
one_job = refl

match_announcement-IsAccounted_example :
    (r : NotificationMatchResult) × ((match_announcement users test fresh_id announcement 5 filters
        engine).0
      ≡ ok r)
    × IsAccounted 3 [] r (match_announcement users test fresh_id announcement 5 filters engine).1
match_announcement-IsAccounted_example =
    match_announcement-IsAccounted users test fresh_id announcement 5 filters engine refl refl

match_announcement-once_example :
    let first = (match_announcement users test fresh_id announcement 5 filters engine).1 in
    let second = match_announcement users test other_id announcement 8 filters first in
    (r : NotificationMatchResult) × (second.0 ≡ ok r)
    × (r.jobs ≡ [])
    × (second.1.repository ≡ first.repository)
    × (second.1.published ≡ first.published)
match_announcement-once_example =
    match_announcement-once users test fresh_id other_id announcement 5 8 filters engine

abbrev repository : JobRepository
repository = record {
  jobs = (idempotency_key job, job) ∷ [];
  announcements = ("a1", announcement) ∷ [];
  filter_names = ("f1", "two rooms") ∷ [];
  attempts = [];
}

list_ready_example :
    (length (list_ready 1 9 repository) ≤ 1)
    × All (λ j. is_ready 9 j ≡ true) (list_ready 1 9 repository)
    × IsSorted is_urgent (list_ready 1 9 repository)
    × ((rest : List NotificationJob) × Perm
          (list_ready 1 9 repository ++ rest)
          (keep_if (is_ready 9) (values repository.jobs))
        × All (λ a. All (λ b. is_urgent a b ≡ true) rest) (list_ready 1 9 repository)
        × ((rest ≡ []) ⊎ (length (list_ready 1 9 repository) ≡ 1)))
list_ready_example = list_ready_lem 1 9 repository

abbrev worker : NotificationDeliveryWorker
worker = record {
  repository = repository;
  limiter = record {
    per_user_interval = 0;
    global_interval = 10;
    last_user_send = [];
    last_global_send = none;
  };
  messages = [];
  technical = [];
  recorded = [];
  warnings = [];
  bulk_failure_threshold = 5;
  retry_backoff = 300;
}

-- The client that the feature gate disables.
abbrev gated : List Message → SendOutcome
gated messages = other_error (runtime_error "notifications_disabled")

abbrev text_of : NotificationDeliveryContext → String
text_of context = context.filter_name

repository-IsIndexed : IsIndexed repository.jobs
repository-IsIndexed = single-IsIndexed job

process_job-sends_example :
    ((process_job text_of gated job 6 worker).1.messages ≡ (7, "two rooms") ∷ [])
    × Holds "n1" (marked job) (process_job text_of gated job 6 worker).1.repository
unfolding program
process_job-sends_example =
    process_job-sends text_of gated job job
      (record { job = marked job; announcement = announcement; filter_name = "two rooms" }) 6 worker
      (repository-IsIndexed, refl) refl refl refl

-- The job whose send was disabled is marked as sending, and is never delivered again.
run-Holds_example :
    Holds "n1"
      (marked job)
      (run text_of
        (λ messages. delivered "m1")
        (process_job text_of gated job 6 worker).1
        (batch 50 1000 ∷ one job 2000 ∷ [])).repository
run-Holds_example =
    run-Holds text_of (λ messages. delivered "m1") "n1" (marked job)
      (process_job text_of gated job 6 worker).1 (batch 50 1000 ∷ one job 2000 ∷ []) refl
      process_job-sends_example.1

retry_after-spacing_example :
    ((leb 10 0 || leb (6 + 10) 16) ≡ true)
    × ((not (nat_eq 7 8) || leb 0 0 || leb (6 + 0) 16) ≡ true)
unfolding program
retry_after-spacing_example = retry_after-spacing 7 8 6 16 worker.limiter refl refl

abbrev busy : NotificationRateLimiter
busy = record worker.limiter { last_global_send = some 6 }

retry_after-wait_example :
    ((retry_after 8 9 busy).1 ≡ busy) × ((retry_after 8 (9 + 7) busy).0 ≡ ok none)
unfolding program
retry_after-wait_example = retry_after-wait 8 9 7 busy refl

-- What a batch of one job that is sent returns.
abbrev done : NotificationDeliveryMetrics × List NotificationDeliveryAttempt
done = (
  record {
    picked = 1;
    sent = 1;
    retryable_failures = 0;
    permanent_failures = 0;
    rate_limited = 0;
    skipped = 0;
  },
  record {
    notification_id = "n1";
    attempt_no = 1;
    result = NotificationAttemptResult.sent;
    error_type = none;
    retryable = false;
    telegram_message_id = some "m1";
    created_at = some 9;
  }
      ∷ [],
)

process_batch-counts_example : IsTally (list_ready 5 9 repository) done
unfolding program
process_batch-counts_example =
    process_batch-counts text_of (λ messages. delivered "m1") 5 9 done worker refl

notification_action_callback_iff_example :
    (notification_action_callback "7:a" "open" ≡ ok "n:v1:open:7:a")
    ↔ (parse_notification_action_callback "n:v1:open:7:a" ≡ ok ("open", "7:a"))
notification_action_callback_iff_example =
    notification_action_callback_iff "n:v1:open:7:a" "open" "7:a"
