-- ===== src/Dedup/Replay.antt =====
-- src/estateflow/services/post_ai_dedup.py: the actions of `ManualReviewQueueService` and their
-- idempotency keys.
use estate_flow.Base.{
  ℕ, String, ◌≡◌, refl, sym, ap, ◌∙◌, ◌⊎◌, inl, inr, Bool, false, Option, none, some, String_eq, ok,
  err, Error, Exec, ◌>>=◌, ◌>>◌, value_error, key_error, or_raise,
}
use mathlib.Core.Path.{subst}
use estate_flow.Base.Dict.{get}
use estate_flow.Announcements.{StructuredAnnouncement}
use estate_flow.Dedup.{
  ManualReviewQueueService, ManualReviewItem, approved, merged, rejected, Arguments, approve_merge,
  approve_as_new, approve_canonical_update, reject, merge_related_duplicate, finish, same_status,
  activate_announcement, update_canonical, link_child, manual_review_decision,
}
use estate_flow.Dedup.Review.{in_repository}
use estate_flow.Dedup.Actions.{
  Action, merge, as_new, related, rejection, update, perform, activates_again, at_time, guarded,
  guarded-cases, perform-replayed, finished, finish-items, finish-replayed, Finished, Outcome,
  work-cases,
}

module _ (a : Action) (id : String) (args : Arguments) (old : ManualReviewItem)
    (s : ManualReviewQueueService) (stop : ManualReviewItem → Bool)
    (work : Arguments → ManualReviewItem → Exec ManualReviewQueueService ManualReviewItem)
    (shape : (t : ℕ) → perform a id (at_time t args) s ≡ guarded stop work id (at_time t args) s)
    (works : ((e : Error) × ((work args old s).0 ≡ err e))
      ⊎ Finished a args old (work args old s)) where
  guarded-Outcome : get id s.items ≡ some old → Outcome a id args old s
  guarded-Outcome e =
      let now : perform a id args s ≡ guarded stop work id args s = shape args.now in
      elim (guarded-cases stop work id args s old e) [
        | inl (x, failed) ↦ inl (x, ap (λ r. r.0) now ∙ failed)
        | inr (inl same) ↦ inr (inl (λ t. shape t ∙ same t))
        | inr (inr on) ↦ elim works [
          | inl (x, failed) ↦ inl (x, ap (λ r. r.0) (now ∙ on) ∙ failed)
          | inr (action, status, s1, n, done) ↦ inr (inr (action, status, s1, n, now ∙ on ∙ done))
        ]
      ]

perform-cases :
    (a : Action) (id : String) (args : Arguments) (s : ManualReviewQueueService)
    (old : ManualReviewItem)
    → get id s.items ≡ some old
    → activates_again a old ≡ false
    → Outcome a id args old s
unfolding perform approve_merge approve_as_new merge_related_duplicate reject
    approve_canonical_update
perform-cases (merge child parent_id decision) id args s old e n =
    guarded-Outcome (merge child parent_id decision) id args old s
      (λ i. same_status i.status merged)
      (λ args' item.
        in_repository (link_child child parent_id decision "manual_review" args'.now) >>= λ _.
        finish "approve_merge" merged item args')
      (λ t. rw (e, n) refl)
      (work-cases (link_child child parent_id decision "manual_review" args.now)
        (merge child parent_id decision) "approve_merge" merged args old s refl)
      e
perform-cases as_new id args s old e n =
    guarded-Outcome as_new id args old s (λ i. same_status i.status approved)
      (λ args' item. in_repository (activate_announcement item.announcement_id args'.now) >>= λ _.
        finish "approve_as_new" approved item args')
      (λ t. refl)
      (work-cases (activate_announcement old.announcement_id args.now) as_new "approve_as_new"
        approved args old s refl)
      e
perform-cases (update announcement_id canonical) id args s old e n =
    guarded-Outcome (update announcement_id canonical) id args old s
      (λ i. same_status i.status approved)
      (λ args' item. in_repository (update_canonical announcement_id canonical args'.now) >>= λ _.
        finish "approve_canonical_update" approved item args')
      (λ t. refl)
      (work-cases (update_canonical announcement_id canonical args.now)
        (update announcement_id canonical) "approve_canonical_update" approved args old s refl)
      e
perform-cases rejection id args s old e n =
    guarded-Outcome rejection id args old s (λ i. same_status i.status rejected)
      (λ args' item. finish "reject" rejected item args') (λ t. refl)
      (inr ("reject", rejected, s, refl, refl)) e
perform-cases related id args s old e n =
    guarded-Outcome related id args old s (λ i. false) related_work (λ t. refl) related_works e
  where
    related_work : Arguments → ManualReviewItem → Exec ManualReviewQueueService ManualReviewItem
    related_work args' item = do
      candidate ← (λ s.
          or_raise (value_error "manual_review_missing_duplicate_candidate")
            item.related_candidate_id s)
      child ← (λ s.
          or_raise (key_error item.announcement_id)
            (get item.announcement_id s.repository.announcements) s)
      in_repository (
          link_child child candidate
            (manual_review_decision item.reason (some candidate) item.score_breakdown)
            "manual_review" args'.now)
      finish "approve_merge" merged item args'

    from :
        Option String
        → Option StructuredAnnouncement
        → Exec ManualReviewQueueService ManualReviewItem
    from c k = do
      candidate ← (λ s. or_raise (value_error "manual_review_missing_duplicate_candidate") c s)
      child ← (λ s. or_raise (key_error old.announcement_id) k s)
      in_repository (
          link_child child candidate
            (manual_review_decision old.reason (some candidate) old.score_breakdown) "manual_review"
            args.now)
      finish "approve_merge" merged old args

    from_works :
        (c : Option String) (k : Option StructuredAnnouncement)
        → ((x : Error) × ((from c k s).0 ≡ err x)) ⊎ Finished related args old (from c k s)
    from_works none k = inl (_, refl)
    from_works (some candidate) none = inl (_, refl)
    from_works (some candidate) (some child) =
        work-cases
          (link_child child candidate
            (manual_review_decision old.reason (some candidate) old.score_breakdown) "manual_review"
            args.now)
          related "approve_merge" merged args old s refl

    same_work :
        (c : Option String)
        → (◌>>=◌
            (λ t. or_raise (value_error "manual_review_missing_duplicate_candidate") c t)
            (λ candidate.
              (λ t.
                or_raise
                  (key_error old.announcement_id)
                  (get old.announcement_id t.repository.announcements)
                  t)
              >>= λ child.
                  in_repository (
                    link_child child candidate
                      (manual_review_decision old.reason (some candidate) old.score_breakdown)
                      "manual_review"
                      args.now)
                  >>= λ _. finish "approve_merge" merged old args)
            s)
          ≡ from c (get old.announcement_id s.repository.announcements) s
    same_work none = refl
    same_work (some candidate) = refl

    related_works :
        ((x : Error) × ((related_work args old s).0 ≡ err x))
        ⊎ Finished related args old (related_work args old s)
    related_works =
        subst (λ r. ((x : Error) × (r.0 ≡ err x)) ⊎ Finished related args old r)
          (sym (same_work old.related_candidate_id))
          (from_works old.related_candidate_id (get old.announcement_id s.repository.announcements))

-- An action that returned, and had an idempotency key, is done: the same call again, at any later
-- time, returns the same item and changes nothing. The one exception is a merge into an item that is
-- already approved, which is excluded here.
pub perform-twice :
    (a : Action) (id key : String) (args : Arguments) (s : ManualReviewQueueService)
    (old item : ManualReviewItem) (later : ℕ)
    → args.idempotency_key ≡ some key
    → get id s.items ≡ some old
    → old.review_id ≡ id
    → activates_again a old ≡ false
    → (perform a id args s).0 ≡ ok item
    → perform a id (at_time later args) (perform a id args s).1 ≡ (ok item, (perform a id args s).1)
perform-twice a id key args s old item later k e own n returned =
    elim (perform-cases a id args s old e n) [
      | inl (x, failed) ↦ cc (returned, failed)
      | inr (inl same) ↦
          let first : perform a id args s ≡ (ok old, s) = same args.now in
          let is_old : ok old ≡ ok item = ap (λ r. r.0) (sym first) ∙ returned in
          subst (λ r. perform a id (at_time later args) r.1 ≡ (ok item, r.1)) (sym first)
            (same later ∙ ap (λ r. (r, s)) is_old)
      | inr (inr (action, status, s1, m, first)) ↦
          let new = finished status old args in
          let (returns, found) = finish-items action status old args s1 in
          let is_new : ok new ≡ ok item = sym returns ∙ ap (λ r. r.0) (sym first) ∙ returned in
          subst (λ r. perform a id (at_time later args) r.1 ≡ (ok item, r.1)) (sym first)
            (perform-replayed a id (at_time later args) (finish action status old args s1).1 new
                (subst (λ i. get i (finish action status old args s1).1.items ≡ some new) own found)
                (finish-replayed action key status old args s1 k) m
              ∙ ap (λ r. (r, (finish action status old args s1).1)) is_new)
    ]
