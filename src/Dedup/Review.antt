-- ===== src/Dedup/Review.antt =====
-- src/estateflow/services/post_ai_dedup.py: `ManualReviewQueueService` over the in-memory repository,
-- with which it keeps its items itself. Its lock makes each method one step.
use Prim.Native.String.{◌++◌}
use estate_flow.Base.{
  ℕ, suc, ◌+◌, String, Bool, true, false, not, ◌&&◌, ◌||◌, Option, none, some, List, [], ◌∷◌, ltb,
  leb, nat_eq, ◌==◌, String_eq, if◌then◌else◌, str_leb, keep_if, take, drop, length, on_option,
  is_some, Result, ok, err, Error, key_error, value_error, permission_error, Exec, pure, raise,
  raise_if, or_raise, gets, modify, ◌>>=◌, ◌>>◌,
}
use estate_flow.Base as B
use estate_flow.Base.Dict.{Dict, get, put, values}
use estate_flow.Base.Sort.{sort_by}
use estate_flow.Announcements.{
  StructuredAnnouncement, CanonicalListing, ReviewReason, possible_duplicate, low_confidence,
  business_quality,
}
use estate_flow.Dedup.Scoring.{DedupDecisionType, new, DedupDecision, ScoreSignal}
use estate_flow.Dedup.Repository.{
  AnnouncementRepository, activate_announcement, link_child, update_canonical,
}

pub data ReviewStatus : Type 0 where
  pending approved rejected merged : ReviewStatus

abbrev pub same_status : ReviewStatus → ReviewStatus → Bool
same_status pending pending = true
same_status approved approved = true
same_status rejected rejected = true
same_status merged merged = true
same_status _ _ = false

pub record ManualReviewItem : Type 0 where
  pub review_id : String
  pub announcement_id : String
  pub reason : ReviewReason
  pub score_breakdown : List ScoreSignal
  pub related_candidate_id : Option String
  pub status : ReviewStatus
  pub created_at : ℕ
  pub decided_at : Option ℕ

-- An entry of `audit_log`; that of `enqueue` has no status, and its reason and candidate, which are
-- those of the item, are left out, as is the announcement's id of a canonical update.
pub record ReviewEntry : Type 0 where
  pub action : String
  pub review_id : String
  pub admin_user_id : Option ℕ
  pub idempotency_key : Option String
  pub note : Option String
  pub decided_at : Option ℕ
  pub status : Option ReviewStatus

pub record ManualReviewQueueService : Type 0 where
  pub repository : AnnouncementRepository
  pub items : Dict String ManualReviewItem
  pub audit_log : List ReviewEntry
  pub action_audit : Dict String ReviewEntry

abbrev pub in_repository :
    {A : Type 0} → Exec AnnouncementRepository A → Exec ManualReviewQueueService A
in_repository m s = let r = m s.repository in (r.0, record s { repository = r.1 })

abbrev pub reason_text : ReviewReason → String
reason_text possible_duplicate = "possible_duplicate"
reason_text low_confidence = "low_confidence"
reason_text business_quality = "business_quality"

unfoldable pub enqueue :
    (announcement : StructuredAnnouncement) (reason : ReviewReason) (decision : DedupDecision)
    (now : ℕ)
    → Exec ManualReviewQueueService ManualReviewItem
enqueue announcement reason decision now = do
  let review_id = reason_text reason ++ (":" ++ announcement.idempotency_key)
  existing ← gets (λ s. get review_id s.items)
  on_option existing
      (do
        let item : ManualReviewItem = record {
          review_id = review_id;
          announcement_id = announcement.announcement_id;
          reason = reason;
          score_breakdown = decision.breakdown;
          related_candidate_id = decision.candidate_id;
          status = pending;
          created_at = now;
          decided_at = none;
        }
        modify (λ s. record s { items = put review_id item s.items })
        modify (λ s. record s {
          audit_log = B.◌++◌ s.audit_log (
              record {
                action = "enqueue";
                review_id = review_id;
                admin_user_id = none;
                idempotency_key = none;
                note = none;
                decided_at = none;
                status = none;
              }
              ∷ []);
        })
        pure item)
      pure

-- The keyword arguments that the five actions share.
pub record Arguments : Type 0 where
  pub admin_user_id : Option ℕ
  pub idempotency_key : Option String
  pub expected_status : Option ReviewStatus
  pub note : Option String
  pub now : ℕ

abbrev pub require_item : String → Exec ManualReviewQueueService ManualReviewItem
require_item id s = or_raise (key_error id) (get id s.items) s

unfoldable pub action_replayed : Option String → ManualReviewQueueService → Bool
action_replayed none s = false
action_replayed (some key) s = is_some (get key s.action_audit)

abbrev pub not_positive : Option ℕ → Bool
not_positive none = false
not_positive (some id) = leb id 0

abbrev pub conflicts : Option ReviewStatus → ReviewStatus → Bool
conflicts none status = false
conflicts (some expected) status = not (same_status status expected)

unfoldable pub validate_action :
    ManualReviewItem → Arguments → Exec ManualReviewQueueService (Unit {0})
validate_action item args = do
  raise_if (not_positive args.admin_user_id) (permission_error "Admin reviewer id is required.")
  raise_if (conflicts args.expected_status item.status) (value_error "manual_review_state_conflict")

abbrev with_key : Option String → ReviewEntry → Dict String ReviewEntry → Dict String ReviewEntry
with_key none entry audit = audit
with_key (some key) entry audit = put key entry audit

-- The end of an action: `_store_updated_item` and `_append_action_audit`.
unfoldable pub finish :
    String
    → ReviewStatus
    → ManualReviewItem
    → Arguments
    → Exec ManualReviewQueueService ManualReviewItem
finish action status item args = do
  let updated = record item { status = status; decided_at = some args.now }
  modify (λ s. record s { items = put updated.review_id updated s.items })
  let entry : ReviewEntry = record {
    action = action;
    review_id = updated.review_id;
    admin_user_id = args.admin_user_id;
    idempotency_key = args.idempotency_key;
    note = args.note;
    decided_at = updated.decided_at;
    status = some updated.status;
  }
  modify (λ s. record s { audit_log = B.◌++◌ s.audit_log (entry ∷ []) })
  modify (λ s. record s { action_audit = with_key args.idempotency_key entry s.action_audit })
  pure updated

unfoldable pub approve_merge :
    (review_id : String) (child : StructuredAnnouncement) (parent_id : String)
    (decision : DedupDecision) (args : Arguments)
    → Exec ManualReviewQueueService ManualReviewItem
approve_merge review_id child parent_id decision args = do
  item ← require_item review_id
  replayed ← gets (action_replayed args.idempotency_key)
  if same_status item.status approved
      then (do in_repository (activate_announcement item.announcement_id args.now); pure item)
      else if replayed
      then pure item
      else (do
        validate_action item args
        if same_status item.status merged then pure item else (do
          in_repository (link_child child parent_id decision "manual_review" args.now)
          finish "approve_merge" merged item args))

unfoldable pub approve_as_new :
    (review_id : String) (args : Arguments) → Exec ManualReviewQueueService ManualReviewItem
approve_as_new review_id args = do
  item ← require_item review_id
  replayed ← gets (action_replayed args.idempotency_key)
  if replayed then pure item else (do
    validate_action item args
    if same_status item.status approved then pure item else (do
      in_repository (activate_announcement item.announcement_id args.now)
      finish "approve_as_new" approved item args))

unfoldable pub approve_canonical_update :
    (review_id announcement_id : String) (canonical : CanonicalListing) (args : Arguments)
    → Exec ManualReviewQueueService ManualReviewItem
approve_canonical_update review_id announcement_id canonical args = do
  item ← require_item review_id
  replayed ← gets (action_replayed args.idempotency_key)
  if replayed then pure item else (do
    validate_action item args
    if same_status item.status approved then pure item else (do
      in_repository (update_canonical announcement_id canonical args.now)
      finish "approve_canonical_update" approved item args))

unfoldable pub reject :
    (review_id : String) (args : Arguments) → Exec ManualReviewQueueService ManualReviewItem
reject review_id args = do
  item ← require_item review_id
  replayed ← gets (action_replayed args.idempotency_key)
  if replayed then pure item else (do
    validate_action item args
    if same_status item.status rejected then pure item else finish "reject" rejected item args)

unfoldable pub manual_review_decision :
    ReviewReason → (candidate_id : Option String) → List ScoreSignal → DedupDecision
manual_review_decision reason candidate_id score_breakdown = record {
  decision = elim reason [ possible_duplicate ↦ DedupDecisionType.possible_duplicate | _ ↦ new ];
  score = 0;
  threshold = 0;
  candidate_id = candidate_id;
  config_version = "manual_review";
  breakdown = score_breakdown;
}

unfoldable pub merge_related_duplicate :
    (review_id : String) (args : Arguments) → Exec ManualReviewQueueService ManualReviewItem
merge_related_duplicate review_id args = do
  item ← require_item review_id
  replayed ← gets (action_replayed args.idempotency_key)
  if replayed then pure item else (do
    validate_action item args
    candidate ← (λ s.
        or_raise (value_error "manual_review_missing_duplicate_candidate") item.related_candidate_id
          s)
    child ← (λ s.
        or_raise (key_error item.announcement_id)
          (get item.announcement_id s.repository.announcements) s)
    in_repository (
        link_child child candidate
          (manual_review_decision item.reason (some candidate) item.score_breakdown) "manual_review"
          args.now)
    finish "approve_merge" merged item args)

abbrev fits_filter : {A : Type 0} → (A → A → Bool) → Option A → A → Bool
fits_filter same none value = true
fits_filter same (some wanted) value = same value wanted

abbrev same_reason : ReviewReason → ReviewReason → Bool
same_reason possible_duplicate possible_duplicate = true
same_reason low_confidence low_confidence = true
same_reason business_quality business_quality = true
same_reason _ _ = false

abbrev older : ManualReviewItem → ManualReviewItem → Bool
older a b =
    if ltb a.created_at b.created_at
    then true
    else if ltb b.created_at a.created_at
    then false
    else str_leb a.review_id b.review_id

abbrev selected :
    Option ReviewStatus → Option ReviewReason → ManualReviewQueueService → List ManualReviewItem
selected status reason s =
    keep_if
      (λ i. fits_filter same_status status i.status && fits_filter same_reason reason i.reason)
      (values s.items)

unfoldable pub list_items :
    Option ReviewStatus
    → Option ReviewReason
    → (limit offset : ℕ) → ManualReviewQueueService
    → List ManualReviewItem
list_items status reason limit offset s =
    take limit (drop offset (sort_by older (selected status reason s)))

unfoldable pub count_items :
    Option ReviewStatus → Option ReviewReason → ManualReviewQueueService → ℕ
count_items status reason s = length (selected status reason s)
