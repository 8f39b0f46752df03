-- ===== src/Dedup/Repository.antt =====
-- src/estateflow/services/post_ai_dedup.py: `InMemoryAnnouncementRepository`, `merge_parent_fields`
-- and `ParentSelectionPolicy`. Its lock makes each method one step.
use estate_flow.Base.{
  ℕ, suc, ◌+◌, String, Bool, true, false, not, ◌&&◌, ◌||◌, Option, none, some, List, [], ◌∷◌, map,
  ltb, nat_eq, ◌==◌, String_eq, if◌then◌else◌, str_leb, keep_if, length, on_option, is_some, Result,
  ok, err, Error, key_error, Exec, pure, raise, or_raise, gets, modify, ◌>>=◌, ◌>>◌,
}
use estate_flow.Base as B
use estate_flow.Base.Dict.{Dict, get, put, values}
use estate_flow.Announcements.{StructuredAnnouncement, CanonicalListing, active, is_active}
use estate_flow.Dedup.Scoring.{
  DedupDecision, DedupDecisionType, exact_duplicate, high_confidence_duplicate, possible_duplicate,
  new,
}

-- An entry of `merge_audit`, without its list of conflicts.
pub record MergeEntry : Type 0 where
  pub parent_id : String
  pub child_id : Option String
  pub decision : String
  pub score : ℕ
  pub config_version : String
  pub merge_policy : String

pub record AnnouncementRepository : Type 0 where
  pub announcements : Dict String StructuredAnnouncement
  pub merge_audit : List MergeEntry
  pub decision_audit : List DedupDecision

abbrev pub is_parent : StructuredAnnouncement → Bool
is_parent a = not (is_some a.parent_id)

unfoldable pub search_user_facing : AnnouncementRepository → List StructuredAnnouncement
search_user_facing s = keep_if (λ a. is_active a.status && is_parent a) (values s.announcements)

unfoldable pub save_parent :
    StructuredAnnouncement → Exec AnnouncementRepository StructuredAnnouncement
save_parent announcement = do
  existing ← gets (λ s. get announcement.announcement_id s.announcements)
  on_option existing
      (do
        let parent = record announcement {
          parent_id = none;
          latest_source_id = some announcement.source_id;
        }
        modify (λ s. record s { announcements = put parent.announcement_id parent s.announcements })
        pure parent)
      pure

abbrev pub require : String → Exec AnnouncementRepository StructuredAnnouncement
require id s = or_raise (key_error id) (get id s.announcements) s

unfoldable pub activate_announcement :
    String → ℕ → Exec AnnouncementRepository StructuredAnnouncement
activate_announcement id now = do
  announcement ← require id
  let updated = record announcement { status = active; updated_at = now }
  modify (λ s. record s { announcements = put id updated s.announcements })
  pure updated

-- `_is_empty` of each kind of field
abbrev pub empty_text : String → Bool
empty_text text = text == ""

abbrev pub empty_list {ℓ} : {A : Type ℓ} → List A → Bool
empty_list [] = true
empty_list _ = false

abbrev pub empty_option {ℓ} : {A : Type ℓ} → Option A → Bool
empty_option none = true
empty_option _ = false

abbrev pub empty_option_text : Option String → Bool
empty_option_text none = true
empty_option_text (some text) = text == ""

-- One field of the merge: the parent's value, unless it is empty and the child's is not.
abbrev pub fill {ℓ} : {A : Type ℓ} → (A → Bool) → A → A → A
fill is_empty parent child = if is_empty parent && not (is_empty child) then child else parent

unfoldable pub merge_canonical : CanonicalListing → CanonicalListing → CanonicalListing
merge_canonical p c = record {
  schema_version = fill empty_text p.schema_version c.schema_version;
  prompt_version = fill empty_text p.prompt_version c.prompt_version;
  price = fill empty_option p.price c.price;
  currency = fill empty_option_text p.currency c.currency;
  price_period = p.price_period;
  price_basis = p.price_basis;
  price_normalized_monthly =
      fill empty_option p.price_normalized_monthly c.price_normalized_monthly;
  listing_type = fill empty_option_text p.listing_type c.listing_type;
  rooms = fill empty_option p.rooms c.rooms;
  area_sqm = fill empty_option p.area_sqm c.area_sqm;
  floor = fill empty_option p.floor c.floor;
  total_floors = fill empty_option p.total_floors c.total_floors;
  district = fill empty_option_text p.district c.district;
  address = fill empty_option_text p.address c.address;
  phone_numbers = fill empty_list p.phone_numbers c.phone_numbers;
  owner_type = fill empty_text p.owner_type c.owner_type;
  renovation_level = fill empty_option_text p.renovation_level c.renovation_level;
  renovation_source = fill empty_text p.renovation_source c.renovation_source;
  furniture = fill empty_option p.furniture c.furniture;
  description = fill empty_text p.description c.description;
  audience_tags = fill empty_list p.audience_tags c.audience_tags;
  audience_excluded_tags = fill empty_list p.audience_excluded_tags c.audience_excluded_tags;
  confidence = p.confidence;
  field_confidence = fill empty_list p.field_confidence c.field_confidence;
  assumptions = fill empty_list p.assumptions c.assumptions;
}

-- `existing_child is not None and existing_child.parent_id == parent_id`
abbrev pub linked_to : String → Option StructuredAnnouncement → Bool
linked_to parent_id none = false
linked_to parent_id (some child) = elim child.parent_id [ none ↦ false | some id ↦ id == parent_id ]

abbrev pub merged_parent :
    StructuredAnnouncement → StructuredAnnouncement → ℕ → StructuredAnnouncement
merged_parent parent child now = record parent {
  canonical = merge_canonical parent.canonical child.canonical;
  source_count = parent.source_count + 1;
  latest_source_id = some child.source_id;
  updated_at = now;
}

abbrev pub linked_child :
    StructuredAnnouncement → StructuredAnnouncement → ℕ → StructuredAnnouncement
linked_child parent child now = record child {
  parent_id = some parent.announcement_id;
  status = active;
  updated_at = now;
}

abbrev pub decision_text : DedupDecisionType → String
decision_text exact_duplicate = "exact_duplicate"
decision_text high_confidence_duplicate = "high_confidence_duplicate"
decision_text possible_duplicate = "possible_duplicate"
decision_text new = "new"

unfoldable pub link_child :
    (child : StructuredAnnouncement) (parent_id : String) (decision : DedupDecision)
    (policy : String) (now : ℕ)
    → Exec AnnouncementRepository StructuredAnnouncement
link_child child parent_id decision policy now = do
  parent ← require parent_id
  existing ← gets (λ s. get child.announcement_id s.announcements)
  if linked_to parent_id existing
      then (λ s. or_raise (key_error child.announcement_id) existing s)
      else (do
        let updated = merged_parent parent child now
        let linked = linked_child updated child now
        modify (λ s. record s {
          announcements =
              put linked.announcement_id linked
                (put updated.announcement_id updated s.announcements);
        })
        modify (λ s. record s {
          merge_audit = B.◌++◌ s.merge_audit (
              record {
                parent_id = updated.announcement_id;
                child_id = some linked.announcement_id;
                decision = decision_text decision.decision;
                score = decision.score;
                config_version = decision.config_version;
                merge_policy = policy;
              }
              ∷ []);
        })
        pure linked)

unfoldable pub record_decision : DedupDecision → Exec AnnouncementRepository (Unit {0})
record_decision decision =
    modify (λ s. record s { decision_audit = B.◌++◌ s.decision_audit (decision ∷ []) })

unfoldable pub update_canonical :
    (id : String) (canonical : CanonicalListing) (now : ℕ)
    → Exec AnnouncementRepository StructuredAnnouncement
update_canonical id canonical now = do
  announcement ← require id
  let updated = record announcement { canonical = canonical; updated_at = now }
  modify (λ s. record s { announcements = put id updated s.announcements })
  modify (λ s. record s {
    merge_audit = B.◌++◌ s.merge_audit (
        record {
          parent_id = id;
          child_id = none;
          decision = "manual_canonical_update";
          score = 0;
          config_version = "";
          merge_policy = "manual_review";
        }
        ∷ []);
  })
  pure updated

abbrev pub present : Bool → ℕ
present is_empty = if is_empty then 0 else 1

-- `_canonical_completeness`: the fields that are not empty; three of them never are.
unfoldable pub canonical_completeness : CanonicalListing → ℕ
canonical_completeness c =
    present (empty_text c.schema_version)
    + present (empty_text c.prompt_version)
    + present (empty_option c.price)
    + present (empty_option_text c.currency)
    + 3
    + present (empty_option c.price_normalized_monthly)
    + present (empty_option_text c.listing_type)
    + present (empty_option c.rooms)
    + present (empty_option c.area_sqm)
    + present (empty_option c.floor)
    + present (empty_option c.total_floors)
    + present (empty_option_text c.district)
    + present (empty_option_text c.address)
    + present (empty_list c.phone_numbers)
    + present (empty_text c.owner_type)
    + present (empty_option_text c.renovation_level)
    + present (empty_text c.renovation_source)
    + present (empty_option c.furniture)
    + present (empty_text c.description)
    + present (empty_list c.audience_tags)
    + present (empty_list c.audience_excluded_tags)
    + present (empty_list c.field_confidence)
    + present (empty_list c.assumptions)

-- `select_parent`: the parent first. The tie goes to the candidate, whose tie-break is 0.
unfoldable pub select_parent :
    (incoming candidate : StructuredAnnouncement) → StructuredAnnouncement × StructuredAnnouncement
select_parent incoming candidate =
    let complete_i = canonical_completeness incoming.canonical in
    let complete_c = canonical_completeness candidate.canonical in
    if ltb complete_c complete_i
    then (incoming, candidate)
    else if ltb complete_i complete_c
    then (candidate, incoming)
    else if ltb candidate.trusted_source_score incoming.trusted_source_score
    then (incoming, candidate)
    else if ltb incoming.trusted_source_score candidate.trusted_source_score
    then (candidate, incoming)
    else if ltb incoming.created_at candidate.created_at
    then (incoming, candidate)
    else (candidate, incoming)
