-- ===== src/Notifications/Account.antt =====
-- src/estateflow/services/notifications.py: `NotificationMatchingEngine` and its counters.
use estate_flow.Base.{
  ℕ, suc, ◌+◌, String, ◌≡◌, refl, sym, inl, inr, Bool, true, false, Option, List, [], ◌∷◌, ◌++◌,
  arith, String_eq, is_some, Option-cases, Result, ok, length, length-append,
}
use mathlib.Core.Path.{subst}
use mathlib.Core.List.{append_assoc, append-nil}
use estate_flow.Base.Dict.{get}
use estate_flow.Announcements.{StructuredAnnouncement, SearchCriteria, is_active}
use estate_flow.Notifications.{
  JobRepository, NotificationJob, create_pending, notification_idempotency_key,
}
use estate_flow.Notifications.Matching.{
  NotificationUser, UserFilter, NotificationMatchMetrics, NotificationMatchResult,
  NotificationMatchingEngine, Fate, wanted, fate, create_job, handle, match_filter, match_filters,
  match_announcement, no_metrics,
}

-- All filters that were looked at.
abbrev pub looked_at : NotificationMatchMetrics → ℕ
looked_at m =
    m.matched_filters + m.skipped_disabled_filters + m.skipped_inactive_user
    + m.skipped_notifications_disabled + m.skipped_no_match + m.matching_errors

-- The account of a result, when `count` filters were looked at and `before` was published before.
pub record IsAccounted (count : ℕ) (before : List NotificationJob) (r : NotificationMatchResult)
    (e : NotificationMatchingEngine) : Type 0 where
  pub filters : looked_at r.metrics ≡ count
  pub matched : r.metrics.matched_filters ≡ r.metrics.jobs_created + r.metrics.duplicate_jobs
  pub created : r.metrics.jobs_created ≡ length r.jobs
  pub published : e.published ≡ before ++ r.jobs

add_zero : (n : ℕ) → n + 0 ≡ n
add_zero n = omega arith

zero_add : (n : ℕ) → 0 + n ≡ n
zero_add n = omega arith

add_suc : (m n : ℕ) → m + suc n ≡ m + 1 + n
add_suc m n = omega arith

module _ (users : ℕ → Option NotificationUser)
    (test : StructuredAnnouncement → SearchCriteria → Result Bool)
    (fresh_id : JobRepository → String) (announcement : StructuredAnnouncement) (now : ℕ) where
  abbrev pub key : UserFilter → String
  key f = notification_idempotency_key f.user_id f.filter_id announcement.announcement_id

  abbrev Step :
      Result NotificationMatchResult × NotificationMatchingEngine
      → ℕ
      → List NotificationJob
      → Type 0
  Step o count before =
      (r' : NotificationMatchResult) × (o.0 ≡ ok r') × IsAccounted count before r' o.1

  create_job-IsAccounted :
      (f : UserFilter) (user : NotificationUser) (count : ℕ) (before : List NotificationJob)
      (r : NotificationMatchResult) (e : NotificationMatchingEngine)
      → IsAccounted count before r e
      → Step (create_job users test fresh_id announcement now f user r e) (count + 1) before
  unfolding create_job create_pending
  create_job-IsAccounted f user count before r e h =
      elim (Option-cases (get (key f) e.repository.jobs)) [
        | inl free ↦ rw free (
          _,
          refl,
          record {
            filters = omega (arith, h.filters);
            matched = omega (arith, h.matched);
            created = omega (arith, h.created, length-append r.jobs);
            published = rw h.published (append_assoc before r.jobs _);
          },
        )
        | inr (job, taken) ↦ rw taken (
          _,
          refl,
          record {
            filters = omega (arith, h.filters);
            matched = omega (arith, h.matched);
            created = h.created;
            published = h.published;
          },
        )
      ]

  handle-IsAccounted :
      (x : Fate) (f : UserFilter) (count : ℕ) (before : List NotificationJob)
      (r : NotificationMatchResult) (e : NotificationMatchingEngine)
      → IsAccounted count before r e
      → Step (handle users test fresh_id announcement now x f r e) (count + 1) before
  unfolding handle
  handle-IsAccounted (wanted user) f count before r e h =
      create_job-IsAccounted f user count before r e h
  handle-IsAccounted _ f count before r e h = (
    _,
    refl,
    record {
      filters = omega (arith, h.filters);
      matched = h.matched;
      created = h.created;
      published = h.published;
    },
  )

  match_filters-IsAccounted :
      (filters : List UserFilter) (count : ℕ) (before : List NotificationJob)
      (r : NotificationMatchResult) (e : NotificationMatchingEngine)
      → IsAccounted count before r e
      → Step
          (match_filters users test fresh_id announcement now filters r e)
          (count + length filters)
          before
  unfolding match_filters match_filter
  match_filters-IsAccounted [] count before r e h = (r, refl, rw (add_zero count) h)
  match_filters-IsAccounted (f ∷ filters) count before r e h =
      let (r', done, h') =
        handle-IsAccounted (fate users test fresh_id announcement now f) f count before r e h in
      rw (done, add_suc count (length filters))
        (match_filters-IsAccounted filters (count + 1) before r' _ h')

  -- Matching an active announcement that is nobody's child always returns, and accounts for every
  -- filter: each was matched or skipped for one counted reason, a matched filter made a job or had
  -- one, and the jobs that were made are those returned and those published, in that order.
  pub match_announcement-IsAccounted :
      (filters : List UserFilter) (e : NotificationMatchingEngine)
      → is_active announcement.status ≡ true
      → is_some announcement.parent_id ≡ false
      → (r : NotificationMatchResult) × ((match_announcement users test fresh_id announcement now
            filters e).0
          ≡ ok r)
        × IsAccounted
            (length filters)
            e.published
            r
            (match_announcement users test fresh_id announcement now filters e).1
  unfolding match_announcement
  match_announcement-IsAccounted filters e on top =
      rw (on, top)
        (subst
          (λ n.
            Step
              (match_filters users test fresh_id announcement now filters
                (record { jobs = []; metrics = no_metrics; skipped_reasons = [] }) e)
              n e.published)
          (zero_add (length filters))
          (match_filters-IsAccounted filters 0 e.published _ e (record {
            filters = refl;
            matched = refl;
            created = refl;
            published = sym (append-nil e.published);
          })))
