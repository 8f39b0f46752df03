-- ===== src/Notifications/Matching.antt =====
-- src/estateflow/services/notifications.py: `NotificationMatchingEngine`. The stored filters, the
-- users and the test of a filter (`announcement_matches` of src/estateflow/services/search.py, or
-- the exception that it raises) are parameters, and so is the generator of UUIDs.
use Prim.Native.String.{◌++◌}
use estate_flow.Base.{
  ℕ, ◌+◌, String, Bool, true, false, not, ◌||◌, Option, none, some, List, [], ◌∷◌, ltb, ◌==◌,
  String_eq, if◌then◌else◌, is_some, on_option, Result, ok, err, Error, Exec, pure, gets, modify,
  ◌>>=◌, ◌>>◌,
}
use estate_flow.Base as B
use estate_flow.Announcements.{StructuredAnnouncement, SearchCriteria, is_active}
use estate_flow.Notifications.Jobs.{
  JobRepository, NotificationJob, NotificationQueueName, standard, high_priority, create_pending,
}

pub record NotificationUser : Type 0 where
  pub user_id : ℕ
  pub notifications_enabled : Bool
  pub premium_until : Option ℕ
  pub status : String

unfoldable pub is_premium : ℕ → NotificationUser → Bool
is_premium now user = elim user.premium_until [ none ↦ false | some until ↦ ltb now until ]

unfoldable pub priority_for_user : ℕ → NotificationUser → NotificationQueueName × ℕ
priority_for_user now user = if is_premium now user then (high_priority, 10) else (standard, 0)

-- `UserFilter` of src/estateflow/services/saved_filters.py
pub record UserFilter : Type 0 where
  pub filter_id : String
  pub user_id : ℕ
  pub name : String
  pub criteria : SearchCriteria
  pub enabled : Bool
  pub created_at : ℕ
  pub updated_at : ℕ

pub record NotificationMatchMetrics : Type 0 where
  pub matched_filters : ℕ
  pub jobs_created : ℕ
  pub duplicate_jobs : ℕ
  pub skipped_disabled_filters : ℕ
  pub skipped_non_canonical : ℕ
  pub skipped_inactive_user : ℕ
  pub skipped_notifications_disabled : ℕ
  pub skipped_no_match : ℕ
  pub matching_errors : ℕ

abbrev pub no_metrics : NotificationMatchMetrics
no_metrics = record {
  matched_filters = 0;
  jobs_created = 0;
  duplicate_jobs = 0;
  skipped_disabled_filters = 0;
  skipped_non_canonical = 0;
  skipped_inactive_user = 0;
  skipped_notifications_disabled = 0;
  skipped_no_match = 0;
  matching_errors = 0;
}

pub record NotificationMatchResult : Type 0 where
  pub jobs : List NotificationJob
  pub metrics : NotificationMatchMetrics
  pub skipped_reasons : List String

-- The engine with its repository; `published` are the jobs given to the queue publisher, and `ops`
-- the filters whose error was reported to operations.
pub record NotificationMatchingEngine : Type 0 where
  pub repository : JobRepository
  pub published : List NotificationJob
  pub ops : List String

abbrev is_active_user : NotificationUser → Bool
is_active_user user = user.status == "active"

abbrev pub in_repository : {A : Type 0} → Exec JobRepository A → Exec NotificationMatchingEngine A
in_repository m w = let r = m w.repository in (r.0, record w { repository = r.1 })

-- What becomes of one filter.
pub data Fate : Type 0 where
  disabled no_match error inactive_user notifications_disabled : Fate
  wanted : NotificationUser → Fate

module _ (users : ℕ → Option NotificationUser)
    (test : StructuredAnnouncement → SearchCriteria → Result Bool)
    (fresh_id : JobRepository → String) (announcement : StructuredAnnouncement) (now : ℕ) where
  abbrev user_fate : Option NotificationUser → Fate
  user_fate none = inactive_user
  user_fate (some user) =
      if not (is_active_user user)
      then inactive_user
      else if not user.notifications_enabled
      then notifications_disabled
      else wanted user

  abbrev test_fate : Result Bool → Fate → Fate
  test_fate (ok true) rest = rest
  test_fate (ok false) rest = no_match
  test_fate (err e) rest = error

  -- The tests of the loop's body, in their order.
  unfoldable pub fate : UserFilter → Fate
  fate saved_filter =
      if not saved_filter.enabled
      then disabled
      else test_fate (test announcement saved_filter.criteria)
          (user_fate (users saved_filter.user_id))

  abbrev with_metrics : NotificationMatchMetrics → NotificationMatchResult → NotificationMatchResult
  with_metrics m r = record r { metrics = m }

  unfoldable pub create_job :
      UserFilter
      → NotificationUser
      → NotificationMatchResult
      → Exec NotificationMatchingEngine NotificationMatchResult
  create_job saved_filter user r = do
    id ← gets (λ e. fresh_id e.repository)
    let (queue, priority) = priority_for_user now user
    made ← in_repository (
        create_pending saved_filter.user_id saved_filter.filter_id announcement.announcement_id
          priority queue id now)
    let m = r.metrics
    if made.1
        then (do
          modify (λ e. record e { published = B.◌++◌ e.published (made.0 ∷ []) })
          pure (record r {
            jobs = B.◌++◌ r.jobs (made.0 ∷ []);
            metrics = record m {
              matched_filters = m.matched_filters + 1;
              jobs_created = m.jobs_created + 1;
            };
          }))
        else pure (
            with_metrics
              (record m {
                matched_filters = m.matched_filters + 1;
                duplicate_jobs = m.duplicate_jobs + 1;
              })
              r)

  -- What the loop's body does with a filter of each fate.
  unfoldable pub handle :
      Fate
      → UserFilter
      → NotificationMatchResult
      → Exec NotificationMatchingEngine NotificationMatchResult
  handle disabled saved_filter r =
      let m = r.metrics in
      pure (with_metrics (record m { skipped_disabled_filters = m.skipped_disabled_filters + 1 }) r)
  handle no_match saved_filter r =
      let m = r.metrics in
      pure (with_metrics (record m { skipped_no_match = m.skipped_no_match + 1 }) r)
  handle error saved_filter r = do
    modify (λ e. record e { ops = B.◌++◌ e.ops (saved_filter.filter_id ∷ []) })
    let m = r.metrics
    pure (record r {
      metrics = record m { matching_errors = m.matching_errors + 1 };
      skipped_reasons =
          B.◌++◌ r.skipped_reasons (("filter_match_error:" ++ saved_filter.filter_id) ∷ []);
    })
  handle inactive_user saved_filter r =
      let m = r.metrics in
      pure (with_metrics (record m { skipped_inactive_user = m.skipped_inactive_user + 1 }) r)
  handle notifications_disabled saved_filter r =
      let m = r.metrics in
      pure (
        with_metrics
          (record m { skipped_notifications_disabled = m.skipped_notifications_disabled + 1 }) r)
  handle (wanted user) saved_filter r = create_job saved_filter user r

  unfoldable pub match_filter :
      UserFilter → NotificationMatchResult → Exec NotificationMatchingEngine NotificationMatchResult
  match_filter saved_filter r = handle (fate saved_filter) saved_filter r

  unfoldable pub match_filters :
      List UserFilter
      → NotificationMatchResult
      → Exec NotificationMatchingEngine NotificationMatchResult
  match_filters [] r = pure r
  match_filters (saved_filter ∷ filters) r = do
    next ← match_filter saved_filter r
    match_filters filters next

  unfoldable pub match_announcement :
      List UserFilter → Exec NotificationMatchingEngine NotificationMatchResult
  match_announcement filters =
      if not (is_active announcement.status) || is_some announcement.parent_id
      then pure (record {
        jobs = [];
        metrics = record no_metrics { skipped_non_canonical = 1 };
        skipped_reasons = "announcement_not_active_canonical_parent" ∷ [];
      })
      else match_filters filters (record { jobs = []; metrics = no_metrics; skipped_reasons = [] })
