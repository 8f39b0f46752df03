-- ===== src/Notifications/Once.antt =====
-- src/estateflow/services/notifications.py: `NotificationMatchingEngine`, an announcement that is matched again.
use estate_flow.Base.{
  ℕ, String, ◌≡◌, refl, sym, ◌∙◌, inl, inr, Bool, true, false, not, ◌||◌, Option, some, List, [],
  ◌∷◌, arith, ◌==◌, String_eq, str_eq_iff, beq_refl, is_some, Bool-cases, Option-cases, Result, ok,
  All,
}
use mathlib.Core.Path.{subst}
use estate_flow.Base.Dict.{get, get-put}
use estate_flow.Announcements.{StructuredAnnouncement, SearchCriteria, is_active}
use estate_flow.Notifications.{JobRepository, create_pending}
use estate_flow.Notifications.Matching.{
  NotificationUser, UserFilter, NotificationMatchResult, NotificationMatchingEngine, Fate, wanted,
  fate, create_job, handle, match_filter, match_filters, match_announcement,
}
use estate_flow.Notifications.Account.{key}

-- Matching again.
abbrev is_wanted : Fate → Bool
is_wanted (wanted user) = true
is_wanted _ = false

module _ (users : ℕ → Option NotificationUser)
    (test : StructuredAnnouncement → SearchCriteria → Result Bool)
    (fresh_id : JobRepository → String) (announcement : StructuredAnnouncement) (now : ℕ) where
  abbrev has_job : UserFilter → JobRepository → Bool
  has_job f s = is_some (get (key users test fresh_id announcement now f) s.jobs)

  -- The filter wants no job, or has one.
  abbrev covered : UserFilter → JobRepository → Bool
  covered f s = not (is_wanted (fate users test fresh_id announcement now f)) || has_job f s

  handle-ok :
      (x : Fate) (f : UserFilter) (r : NotificationMatchResult) (e : NotificationMatchingEngine)
      → (r' : NotificationMatchResult) × ((handle users test fresh_id announcement now x f r e).0
          ≡ ok r')
  unfolding handle create_job create_pending
  handle-ok (wanted user) f r e =
      elim (Option-cases (get (key users test fresh_id announcement now f) e.repository.jobs)) [
        | inl free ↦ rw free (_, refl)
        | inr (job, taken) ↦ rw taken (_, refl)
      ]
  handle-ok _ f r e = (_, refl)

  create_job-has_job :
      (f g : UserFilter) (user : NotificationUser) (r : NotificationMatchResult)
      (e : NotificationMatchingEngine)
      → has_job f (create_job users test fresh_id announcement now g user r e).1.repository ≡ (
          has_job f e.repository
          || key users test fresh_id announcement now g
            == key users test fresh_id announcement now f)
  unfolding create_job create_pending
  create_job-has_job f g user r e =
      let k = key users test fresh_id announcement now g in
      let j = key users test fresh_id announcement now f in
      elim (Option-cases (get k e.repository.jobs)) [
        | inl free ↦ rw free (rw (get-put k j) (ground arith))
        | inr (job, taken) ↦
            let same : (k == j) ≡ true → get j e.repository.jobs ≡ some job =
              λ b. subst (λ i. get i e.repository.jobs ≡ some job) ((str_eq_iff k j).0 b) taken in
            rw taken (elim (Bool-cases (k == j)) [
              | inl b ↦ rw (b, same b) refl
              | inr b ↦ rw b (ground arith)
            ])
      ]

  handle-covered :
      (x : Fate) (f g : UserFilter) (r : NotificationMatchResult) (e : NotificationMatchingEngine)
      → has_job f e.repository ≡ true
      → has_job f (handle users test fresh_id announcement now x g r e).1.repository ≡ true
  unfolding handle
  handle-covered (wanted user) f g r e h = create_job-has_job f g user r e ∙ rw h refl
  handle-covered _ f g r e h = h

  handle-covers :
      (x : Fate) (f : UserFilter) (r : NotificationMatchResult) (e : NotificationMatchingEngine)
      → (not (is_wanted x)
          || has_job f (handle users test fresh_id announcement now x f r e).1.repository)
        ≡ true
  unfolding handle
  handle-covers (wanted user) f r e =
      create_job-has_job f f user r e
      ∙ rw (beq_refl (key users test fresh_id announcement now f)) (ground arith)
  handle-covers _ f r e = refl

  match_filters-step :
      (g : UserFilter) (filters : List UserFilter) (r r' : NotificationMatchResult)
      (e : NotificationMatchingEngine)
      → (handle users test fresh_id announcement now
          (fate users test fresh_id announcement now g)
          g
          r
          e).0
        ≡ ok r'
      → match_filters users test fresh_id announcement now (g ∷ filters) r e
        ≡ match_filters users test fresh_id announcement now filters r'
            (handle users test fresh_id announcement now
              (fate users test fresh_id announcement now g)
              g
              r
              e).1
  unfolding match_filters match_filter
  match_filters-step g filters r r' e done = rw done refl

  handle-idle :
      (x : Fate) (f : UserFilter) (r : NotificationMatchResult) (e : NotificationMatchingEngine)
      → (not (is_wanted x) || has_job f e.repository) ≡ true
      → (r' : NotificationMatchResult) × ((handle users test fresh_id announcement now x f r e).0
          ≡ ok r')
        × (r'.jobs ≡ r.jobs)
        × ((handle users test fresh_id announcement now x f r e).1.repository ≡ e.repository)
        × ((handle users test fresh_id announcement now x f r e).1.published ≡ e.published)
  unfolding handle create_job create_pending
  handle-idle (wanted user) f r e h =
      elim (Option-cases (get (key users test fresh_id announcement now f) e.repository.jobs)) [
        | inl free ↦ cc (rw free at h)
        | inr (job, taken) ↦ rw taken (_, refl, refl, refl, refl)
      ]
  handle-idle _ f r e h = (_, refl, refl, refl, refl)

  -- A filter that has a job keeps it.
  match_filters-keeps :
      (f : UserFilter) (filters : List UserFilter) (r : NotificationMatchResult)
      (e : NotificationMatchingEngine)
      → has_job f e.repository ≡ true
      → has_job f (match_filters users test fresh_id announcement now filters r e).1.repository
        ≡ true
  unfolding match_filters match_filter
  match_filters-keeps f [] r e h = h
  match_filters-keeps f (g ∷ filters) r e h =
      let x = fate users test fresh_id announcement now g in
      let (r', done) = handle-ok x g r e in
      rw done (
        match_filters-keeps f filters r' (handle users test fresh_id announcement now x g r e).1
          (handle-covered x f g r e h))

  match_filters-covers :
      (filters : List UserFilter) (r : NotificationMatchResult) (e : NotificationMatchingEngine)
      → All
          (λ f.
            covered f (match_filters users test fresh_id announcement now filters r e).1.repository
            ≡ true)
          filters
  unfolding match_filters match_filter
  match_filters-covers [] r e = tt
  match_filters-covers (g ∷ filters) r e =
      let x = fate users test fresh_id announcement now g in
      let e1 = (handle users test fresh_id announcement now x g r e).1 in
      let (r', done) = handle-ok x g r e in
      subst (λ o. All (λ f. covered f o.1.repository ≡ true) (g ∷ filters))
        (sym (match_filters-step g filters r r' e done))
        (
          elim (Bool-cases (is_wanted x)) [
            | inl wants ↦
                rw wants (
                  match_filters-keeps g filters r' e1
                    (ground (arith, wants, handle-covers x g r e)))
            | inr unwanted ↦ rw unwanted refl
          ],
          match_filters-covers filters r' e1,
        )

  -- With every filter covered, nothing is created and nothing published.
  match_filters-idle :
      (filters : List UserFilter) (r : NotificationMatchResult) (e : NotificationMatchingEngine)
      → All (λ f. covered f e.repository ≡ true) filters
      → (r' : NotificationMatchResult) × ((match_filters users test fresh_id announcement now
            filters r e).0
          ≡ ok r')
        × (r'.jobs ≡ r.jobs)
        × ((match_filters users test fresh_id announcement now filters r e).1.repository
            ≡ e.repository)
        × ((match_filters users test fresh_id announcement now filters r e).1.published
            ≡ e.published)
  unfolding match_filters match_filter
  match_filters-idle [] r e h = (r, refl, refl, refl, refl)
  match_filters-idle (g ∷ filters) r e h =
      let x = fate users test fresh_id announcement now g in
      let e1 = (handle users test fresh_id announcement now x g r e).1 in
      let (r', done, same_jobs, same_repository, same_published) = handle-idle x g r e h.0 in
      let (r'', finished, jobs, repository, published) =
        match_filters-idle filters r' e1
          (subst (λ s. All (λ f. covered f s ≡ true) filters) (sym same_repository) h.1) in
      subst
        (λ o.
          (r3 : NotificationMatchResult) × (o.0 ≡ ok r3)
          × (r3.jobs ≡ r.jobs)
          × (o.1.repository ≡ e.repository)
          × (o.1.published ≡ e.published))
        (sym (match_filters-step g filters r r' e done))
        (r'', finished, jobs ∙ same_jobs, repository ∙ same_repository, published ∙ same_published)

-- Matching an announcement again, at any other time and with any other fresh ids, but with the same
-- filters, users and criteria, creates no job and publishes none: the repository and the published
-- jobs stay as the first matching left them.
pub match_announcement-once :
    (users : ℕ → Option NotificationUser)
    (test : StructuredAnnouncement → SearchCriteria → Result Bool)
    (fresh_id other_id : JobRepository → String) (announcement : StructuredAnnouncement)
    (now later : ℕ) (filters : List UserFilter) (e : NotificationMatchingEngine)
    → let first = (match_announcement users test fresh_id announcement now filters e).1 in
      let second = match_announcement users test other_id announcement later filters first in
      (r : NotificationMatchResult) × (second.0 ≡ ok r)
      × (r.jobs ≡ [])
      × (second.1.repository ≡ first.repository)
      × (second.1.published ≡ first.published)
unfolding match_announcement fate
match_announcement-once users test fresh_id other_id announcement now later filters e =
    elim (Bool-cases (not (is_active announcement.status) || is_some announcement.parent_id)) [
      | inl other ↦ rw other (_, refl, refl, refl, refl)
      | inr canonical ↦ rw canonical (
          match_filters-idle users test other_id announcement later filters _ _
            (match_filters-covers users test fresh_id announcement now filters _ e))
    ]
