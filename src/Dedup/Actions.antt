-- ===== src/Dedup/Actions.antt =====
-- src/estateflow/services/post_ai_dedup.py: the actions of `ManualReviewQueueService` and the
-- shape that they share.
use estate_flow.Base.{
  ℕ, String, ◌≡◌, refl, ◌∙◌, ◌⊎◌, inl, inr, Bool, true, false, some, String_eq, beq_refl,
  if◌then◌else◌, Bool-cases, Result-cases, Result, ok, err, Error, Exec, pure, gets, ◌>>=◌, ◌>>◌,
  value_error, permission_error,
}
use estate_flow.Base.Dict.{get, get-put}
use estate_flow.Announcements.{StructuredAnnouncement, CanonicalListing}
use estate_flow.Dedup.{
  DedupDecision, ManualReviewQueueService, ManualReviewItem, ReviewStatus, approved, Arguments,
  AnnouncementRepository, approve_merge, approve_as_new, approve_canonical_update, reject,
  merge_related_duplicate, finish, validate_action, action_replayed, require_item, same_status,
  not_positive, conflicts,
}
use estate_flow.Dedup.Review.{in_repository}

-- The five actions, with what they are given besides the common arguments.
pub data Action : Type 0 where
  merge : (child : StructuredAnnouncement) (parent_id : String) (decision : DedupDecision) → Action
  as_new related rejection : Action
  update : (announcement_id : String) (canonical : CanonicalListing) → Action

unfoldable pub perform :
    Action → String → Arguments → Exec ManualReviewQueueService ManualReviewItem
perform (merge child parent_id decision) id args = approve_merge id child parent_id decision args
perform as_new id args = approve_as_new id args
perform related id args = merge_related_duplicate id args
perform rejection id args = reject id args
perform (update announcement_id canonical) id args =
    approve_canonical_update id announcement_id canonical args

-- `approve_merge` of an approved item activates its announcement once more, before it looks at the
-- key.
abbrev pub activates_again : Action → ManualReviewItem → Bool
activates_again (merge child parent_id decision) item = same_status item.status approved
activates_again _ item = false

abbrev pub at_time : ℕ → Arguments → Arguments
at_time t args = record args { now = t }

-- The common shape of the actions.
abbrev pub guarded :
    (ManualReviewItem → Bool)
    → (Arguments → ManualReviewItem → Exec ManualReviewQueueService ManualReviewItem)
    → String
    → Arguments
    → Exec ManualReviewQueueService ManualReviewItem
guarded stop work id args = do
  item ← require_item id
  replayed ← gets (action_replayed args.idempotency_key)
  if replayed
      then pure item
      else (do validate_action item args; if stop item then pure item else work args item)

module _ (stop : ManualReviewItem → Bool)
    (work : Arguments → ManualReviewItem → Exec ManualReviewQueueService ManualReviewItem) where
  pub guarded-cases :
      (id : String) (args : Arguments) (s : ManualReviewQueueService) (old : ManualReviewItem)
      → get id s.items ≡ some old
      → ((e : Error) × ((guarded stop work id args s).0 ≡ err e))
        ⊎ (((t : ℕ) → guarded stop work id (at_time t args) s ≡ (ok old, s))
            ⊎ (guarded stop work id args s ≡ work args old s))
  unfolding validate_action
  guarded-cases id args s old e = elim (Bool-cases (action_replayed args.idempotency_key s)) [
    | inl replayed ↦ inr (inl (λ t. rw (e, replayed) refl))
    | inr fresh ↦ elim (Bool-cases (not_positive args.admin_user_id)) [
      | inl bad ↦ inl (permission_error "Admin reviewer id is required.", rw (e, fresh, bad) refl)
      | inr good ↦ elim (Bool-cases (conflicts args.expected_status old.status)) [
        | inl clash ↦
            inl (value_error "manual_review_state_conflict", rw (e, fresh, good, clash) refl)
        | inr fits ↦ elim (Bool-cases (stop old)) [
          | inl done ↦ inr (inl (λ t. rw (e, fresh, good, fits, done) refl))
          | inr free ↦ inr (inr (rw (e, fresh, good, fits, free) refl))
        ]
      ]
    ]
  ]

pub perform-replayed :
    (a : Action) (id : String) (args : Arguments) (s : ManualReviewQueueService)
    (item : ManualReviewItem)
    → get id s.items ≡ some item
    → action_replayed args.idempotency_key s ≡ true
    → activates_again a item ≡ false
    → perform a id args s ≡ (ok item, s)
unfolding perform approve_merge approve_as_new merge_related_duplicate reject
    approve_canonical_update
perform-replayed (merge child parent_id decision) id args s item e r n = rw (e, n, r) refl
perform-replayed as_new id args s item e r n = rw (e, r) refl
perform-replayed related id args s item e r n = rw (e, r) refl
perform-replayed rejection id args s item e r n = rw (e, r) refl
perform-replayed (update announcement_id canonical) id args s item e r n = rw (e, r) refl

abbrev pub finished : ReviewStatus → ManualReviewItem → Arguments → ManualReviewItem
finished status item args = record item { status = status; decided_at = some args.now }

pub finish-items :
    (action : String) (status : ReviewStatus) (item : ManualReviewItem) (args : Arguments)
    (s : ManualReviewQueueService)
    → ((finish action status item args s).0 ≡ ok (finished status item args))
      × (get item.review_id (finish action status item args s).1.items
          ≡ some (finished status item args))
unfolding finish
finish-items action status item args s = (
  refl,
  get-put item.review_id item.review_id (finished status item args) s.items
      ∙ rw (beq_refl item.review_id) refl,
)

pub finish-replayed :
    (action key : String) (status : ReviewStatus) (item : ManualReviewItem) (args : Arguments)
    (s : ManualReviewQueueService)
    → args.idempotency_key ≡ some key
    → action_replayed args.idempotency_key (finish action status item args s).1 ≡ true
unfolding finish action_replayed
finish-replayed action key status item args s k = rw k (rw (get-put key key, beq_refl key) refl)

-- How an action ends.
abbrev pub Finished :
    Action
    → Arguments
    → ManualReviewItem
    → Result ManualReviewItem × ManualReviewQueueService
    → Type 0
Finished a args old r =
    (action : String) × (status : ReviewStatus) × (s : ManualReviewQueueService) × (activates_again
        a (finished status old args)
      ≡ false)
    × (r ≡ finish action status old args s)

abbrev pub Outcome :
    Action → String → Arguments → ManualReviewItem → ManualReviewQueueService → Type 0
Outcome a id args old s =
    ((e : Error) × ((perform a id args s).0 ≡ err e))
    ⊎ (((t : ℕ) → perform a id (at_time t args) s ≡ (ok old, s))
        ⊎ Finished a args old (perform a id args s))

-- The work of an action that calls the repository first.
module _ {A : Type 0} (m : Exec AnnouncementRepository A) (a : Action) (action : String)
    (status : ReviewStatus) (args : Arguments) (old : ManualReviewItem)
    (s : ManualReviewQueueService) (n : activates_again a (finished status old args) ≡ false) where
  abbrev worked : Result ManualReviewItem × ManualReviewQueueService
  worked = (in_repository m >>= λ _. finish action status old args) s

  pub work-cases : ((e : Error) × (worked.0 ≡ err e)) ⊎ Finished a args old worked
  work-cases = elim (Result-cases (m s.repository).0) [
    | inl (x, done) ↦
        inr (action, status, record s { repository = (m s.repository).1 }, n, rw done refl)
    | inr (e, failed) ↦ inl (e, rw failed refl)
  ]
