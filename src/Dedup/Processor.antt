-- ===== src/Dedup/Processor.antt =====
-- src/estateflow/services/post_ai_dedup.py: `PostAiDedupProcessor`. The cheap test of
-- `list_candidates` and the matchers are parameters; `published` are the announcements whose
-- event was given to the queue, and `technical` the keys of the recorded metrics.
use Prim.Native.String.{◌++◌}
use estate_flow.Base.{
  ℕ, String, Bool, true, false, not, ◌&&◌, ◌||◌, Option, none, some, List, [], ◌∷◌, leb, ◌==◌,
  String_eq, if◌then◌else◌, keep_if, take, on_option, Result, ok, err, Exec, pure, gets, modify,
  ◌>>=◌, ◌>>◌,
}
use estate_flow.Base as B
use estate_flow.Base.Dict.{get, values}
use estate_flow.Base.Sort.{sort_by}
use estate_flow.Announcements.{
  StructuredAnnouncement, AnnouncementStatus, ReviewReason, manual_review, is_active,
  possible_duplicate, business_quality,
}
use estate_flow.Dedup.Scoring.{
  DedupDecision, DedupDecisionType, DedupScoringConfig, ScoreSignal, new, exact_duplicate,
  high_confidence_duplicate, evaluate,
}
use estate_flow.Dedup.Repository.{
  AnnouncementRepository, save_parent, link_child, record_decision, select_parent, is_parent,
}
use estate_flow.Dedup.Review.{
  manual_review_decision, ManualReviewQueueService, in_repository, enqueue,
}

pub record PostAiDedupProcessor : Type 0 where
  pub queue : ManualReviewQueueService
  pub published : List StructuredAnnouncement
  pub technical : List String

abbrev pub in_queue : {A : Type 0} → Exec ManualReviewQueueService A → Exec PostAiDedupProcessor A
in_queue m s = let r = m s.queue in (r.0, record s { queue = r.1 })

abbrev pub stored : {A : Type 0} → Exec AnnouncementRepository A → Exec PostAiDedupProcessor A
stored m = in_queue (in_repository m)

abbrev or_quality : Option ReviewReason → ReviewReason
or_quality none = business_quality
or_quality (some reason) = reason

abbrev is_manual : AnnouncementStatus → Bool
is_manual manual_review = true
is_manual _ = false

unfoldable pub publish_persisted : StructuredAnnouncement → Exec PostAiDedupProcessor (Unit {0})
publish_persisted announcement =
    if is_active announcement.status
    then modify (λ s. record s { published = B.◌++◌ s.published (announcement ∷ []) })
    else pure tt

-- `save_parent`, `_publish_persisted` and `record_decision`
unfoldable pub save_new :
    StructuredAnnouncement → DedupDecision → Exec PostAiDedupProcessor DedupDecision
save_new announcement decision = do
  persisted ← stored (save_parent announcement)
  publish_persisted persisted
  stored (record_decision decision)
  pure decision

abbrev policy : String
policy = "completeness_trust_first_seen"

-- A duplicate of a candidate that is stored.
unfoldable pub merge_duplicate :
    (announcement candidate : StructuredAnnouncement) (decision : DedupDecision) (now : ℕ)
    → Exec PostAiDedupProcessor DedupDecision
merge_duplicate announcement candidate decision now = do
  let (parent, child) = select_parent announcement candidate
  if parent.announcement_id == announcement.announcement_id
      then (do
        persisted ← stored (save_parent parent)
        publish_persisted persisted
        if child.announcement_id == persisted.announcement_id then pure tt else (do
          stored (link_child child persisted.announcement_id decision policy now)
          pure tt))
      else (do stored (link_child child parent.announcement_id decision policy now); pure tt)
  stored (record_decision decision)
  pure decision

-- What `process` does with the decision of the engine.
unfoldable pub act_on :
    DedupDecisionType
    → StructuredAnnouncement
    → DedupDecision
    → Option StructuredAnnouncement
    → (now : ℕ) → Exec PostAiDedupProcessor DedupDecision
act_on exact_duplicate announcement decision candidate now =
    on_option candidate (save_new announcement decision)
      λ c. merge_duplicate announcement c decision now
act_on high_confidence_duplicate announcement decision candidate now =
    on_option candidate (save_new announcement decision)
      λ c. merge_duplicate announcement c decision now
act_on DedupDecisionType.possible_duplicate announcement decision candidate now = do
  persisted ← stored (save_parent (record announcement { status = manual_review }))
  in_queue (enqueue persisted possible_duplicate decision now)
  stored (record_decision decision)
  pure decision
act_on new announcement decision candidate now = save_new announcement decision

module _ (cheap_match : StructuredAnnouncement → StructuredAnnouncement → Bool)
    (config : DedupScoringConfig)
    (matchers : List
      (StructuredAnnouncement → StructuredAnnouncement → DedupScoringConfig → ScoreSignal)) where
  abbrev is_candidate : StructuredAnnouncement → StructuredAnnouncement → Bool
  is_candidate announcement item =
      not (item.announcement_id == announcement.announcement_id)
      && (is_active item.status && (is_parent item && cheap_match announcement item))

  unfoldable pub list_candidates :
      StructuredAnnouncement → AnnouncementRepository → List StructuredAnnouncement
  list_candidates announcement s = take config.candidate_limit (
      sort_by (λ a b. leb b.created_at a.created_at)
        (keep_if (is_candidate announcement) (values s.announcements)))

  unfoldable pub process :
      StructuredAnnouncement → (now : ℕ) → Exec PostAiDedupProcessor DedupDecision
  process announcement now =
      if is_manual announcement.status
      then (do
        let reason = or_quality announcement.review_reason
        let decision = manual_review_decision reason none []
        persisted ← stored (save_parent announcement)
        in_queue (enqueue persisted reason decision now)
        pure decision)
      else (do
        decision ← gets (λ s.
            evaluate config matchers announcement (list_candidates announcement s.queue.repository))
        modify (λ s. record s {
          technical = B.◌++◌ s.technical (("dedup_decision:" ++ announcement.announcement_id) ∷ []);
        })
        candidate ← gets (λ s.
            on_option decision.candidate_id none (λ id. get id s.queue.repository.announcements))
        act_on decision.decision announcement decision candidate now)
