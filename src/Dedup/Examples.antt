-- ===== src/Dedup/Examples.antt =====
-- Runs of src/estateflow/services/post_ai_dedup.py, and the theorems at concrete inputs.
use estate_flow.Base.{
  ℕ, ◌≤◌, String, ◌≡◌, refl, Bool, true, false, ◌||◌, Option, none, some, List, [], ◌∷◌, leb,
  any_of, ok, ◌==◌, String_eq,
}
use estate_flow.Base.Dict.{get, put}
use estate_flow.Base.Sort.{sort_by}
use estate_flow.Announcements.{CanonicalListing, StructuredAnnouncement, low_confidence}
use estate_flow.Samples.{announcement, listing}
use estate_flow.Dedup.{
  DedupDecision, DedupScoringConfig, ScoreSignal, AnnouncementRepository, ManualReviewQueueService,
  ManualReviewItem, pending, approved, Arguments, PostAiDedupProcessor, decide, decision_from_score,
  score_candidate, best_of, evaluate, has_strong_anchor, has_structured_identity,
  has_manual_review_anchor, is_exact_identity, link_child, merged_parent, linked_child,
  merge_canonical, canonical_completeness, process, act_on, merge_duplicate, save_new, save_parent,
  publish_persisted, record_decision, select_parent, list_candidates, activate_announcement,
  approve_as_new, finish, validate_action, action_replayed,
}
use estate_flow.Dedup.Anchors.{decide-anchored}
use estate_flow.Dedup.Best.{IsFirstBest, evaluate-IsFirstBest}
use estate_flow.Dedup.Links.{IsLinked, process_all, process_all-IsLinked}
use estate_flow.Dedup.Relink.{link_child-once}
use estate_flow.Dedup.Complete.{IsMerge, merge_canonical-IsMerge}
use estate_flow.Dedup.Actions.{as_new, perform, at_time}
use estate_flow.Dedup.Replay.{perform-twice}

abbrev config : DedupScoringConfig
config = record {
  version = "estateflow.dedup.v2";
  exact_threshold = 100;
  high_confidence_threshold = 80;
  possible_threshold = 60;
  candidate_limit = 50;
}

-- The matcher of the source URL, without its test for siblings.
abbrev same_url : Option String → Option String → Bool
same_url (some a) (some b) = a == b
same_url _ _ = false

abbrev url_matcher :
    StructuredAnnouncement → StructuredAnnouncement → DedupScoringConfig → ScoreSignal
url_matcher incoming candidate c = record {
  name = "source_url";
  weight = 100;
  matched = same_url incoming.source_url candidate.source_url;
  exact = same_url incoming.source_url candidate.source_url;
  reason = "";
  independent = true;
}

abbrev first : StructuredAnnouncement
first = record announcement { source_url = some "t.me/1" }

abbrev second : StructuredAnnouncement
second = record first { announcement_id = "a2"; idempotency_key = "k2"; source_id = "s2" }

abbrev other : StructuredAnnouncement
other = record announcement { announcement_id = "a3"; idempotency_key = "k3" }

abbrev empty : PostAiDedupProcessor
empty = record {
  queue = record {
    repository = record { announcements = []; merge_audit = []; decision_audit = [] };
    items = [];
    audit_log = [];
    action_audit = [];
  };
  published = [];
  technical = [];
}

program : Unit {0}
unfolding get put sort_by decide decision_from_score score_candidate best_of evaluate
    has_strong_anchor has_structured_identity has_manual_review_anchor link_child merge_canonical
    canonical_completeness process act_on merge_duplicate save_new save_parent publish_persisted
    record_decision select_parent list_candidates activate_announcement approve_as_new finish
    validate_action action_replayed process_all perform
program = tt

abbrev incoming : List (StructuredAnnouncement × ℕ)
incoming = (first, 10) ∷ (second, 20) ∷ (other, 30) ∷ []

abbrev after : PostAiDedupProcessor
after = process_all (λ a b. true) config (url_matcher ∷ []) empty incoming

two_parents :
    after.published
    ≡ record first { latest_source_id = some "s1" }
      ∷ record other { latest_source_id = some "s1" }
      ∷ []
unfolding program
two_parents = refl

empty-IsLinked : IsLinked empty.queue.repository.announcements
unfolding program
empty-IsLinked = record { keyed = λ id a h. cc; parents = λ id a h. cc }

process_all-IsLinked_example : IsLinked after.queue.repository.announcements
process_all-IsLinked_example =
    process_all-IsLinked (λ a b. true) config (url_matcher ∷ []) empty incoming empty-IsLinked

abbrev url_signal : ScoreSignal
url_signal = record {
  name = "source_url";
  weight = 100;
  matched = true;
  exact = true;
  reason = "";
  independent = true;
}

decide-anchored_example :
    (has_strong_anchor (url_signal ∷ []) ≡ true)
    × ((any_of is_exact_identity (url_signal ∷ [])
          || has_structured_identity (url_signal ∷ [])
          || leb 100 100
          || leb 80 100)
        ≡ true)
unfolding program
decide-anchored_example = decide-anchored config 100 (url_signal ∷ []) refl

evaluate-IsFirstBest_example :
    (b : StructuredAnnouncement) × IsFirstBest config
      (url_matcher ∷ [])
      second
      (other ∷ first ∷ [])
      b
    × (evaluate config (url_matcher ∷ []) second (other ∷ first ∷ [])
        ≡ decision_from_score config (score_candidate config (url_matcher ∷ []) second b))
evaluate-IsFirstBest_example =
    evaluate-IsFirstBest config (url_matcher ∷ []) second other (first ∷ [])

abbrev merge_decision : DedupDecision
merge_decision = decision_from_score config (score_candidate config (url_matcher ∷ []) second first)

abbrev one_parent : AnnouncementRepository
one_parent = record { announcements = ("a1", first) ∷ []; merge_audit = []; decision_audit = [] }

link_child-once_example :
    let linked = link_child second "a1" merge_decision "manual_review" 5 one_parent in
    (get "a1" linked.1.announcements ≡ some (merged_parent first second 5))
    × (get "a2" linked.1.announcements ≡ some (linked_child first second 5))
    × (link_child second "a1" merge_decision "manual_review" 9 linked.1 ≡ linked)
unfolding program
link_child-once_example =
    link_child-once second first merge_decision "manual_review" 5 9 one_parent refl refl refl

-- a child without a price and with an address
abbrev addressed : CanonicalListing
addressed = record listing { price = none; address = some "Amir Temur 1" }

merge_canonical-IsMerge_example :
    IsMerge listing addressed (merge_canonical listing addressed)
    × (canonical_completeness listing ≤ canonical_completeness (merge_canonical listing addressed))
    × (canonical_completeness addressed
        ≤ canonical_completeness (merge_canonical listing addressed))
merge_canonical-IsMerge_example = merge_canonical-IsMerge listing addressed

abbrev item : ManualReviewItem
item = record {
  review_id = "low_confidence:k1";
  announcement_id = "a1";
  reason = low_confidence;
  score_breakdown = [];
  related_candidate_id = none;
  status = pending;
  created_at = 3;
  decided_at = none;
}

abbrev reviews : ManualReviewQueueService
reviews = record {
  repository = one_parent;
  items = ("low_confidence:k1", item) ∷ [];
  audit_log = [];
  action_audit = [];
}

abbrev arguments : Arguments
arguments = record {
  admin_user_id = some 1;
  idempotency_key = some "admin-1";
  expected_status = some pending;
  note = none;
  now = 7;
}

perform-twice_example :
    perform as_new "low_confidence:k1"
      (at_time 8 arguments)
      (perform as_new "low_confidence:k1" arguments reviews).1
    ≡ (
      ok (record item { status = approved; decided_at = some 7 }),
      (perform as_new "low_confidence:k1" arguments reviews).1,
    )
unfolding program
perform-twice_example =
    perform-twice as_new "low_confidence:k1" "admin-1" arguments reviews item
      (record item { status = approved; decided_at = some 7 }) 8 refl refl refl refl refl
