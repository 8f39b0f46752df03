-- ===== src/Tags/Service.antt =====
-- src/estateflow/services/audience_tags.py: `AudienceTagService`. The ratio of
-- `difflib.SequenceMatcher`, in parts of 10000, and `str.title` and `str.casefold` are parameters.
use Prim.Native.String.{◌++◌ as join}
use estate_flow.Base.{
  ℕ, String, Bool, true, false, not, List, [], ◌∷◌, ◌++◌, Option, none, some, map, if◌then◌else◌,
  on_option, ltb, leb, ◌==◌, String_eq, pure, raise, or_raise, gets, raise_if, ◌>>=◌, ◌>>◌,
  value_error, key_error,
}
use estate_flow.Base.Dict.{get}
use estate_flow.Tags.Keys.{normalize_tag_key, spaced}
use estate_flow.Tags.Stored.{
  AudienceTagStatus, AudienceTagStatus_eq, approved, pending, rejected, AudienceTagAction, approve,
  merge, reject, AudienceTagType, AudienceTagAuditEvent, TagState, Tags, list_approved,
  upsert_pending, increment_usage, set_tag_status, audit_tag_once, remap_references, has_tag,
}

pub record AudienceTagResolveResult : Type 0 where
  pub input_tag : String
  pub tag_key : String
  pub status : AudienceTagStatus
  pub created : Bool
  pub matched_existing : Bool

pub record ResolvedAudienceTags : Type 0 where
  pub approved_tags : List String
  pub audit_assumptions : List String

-- a call of `approve`, `reject` or `merge`, without its tags
pub record TagReview : Type 0 where
  pub admin_user_id : ℕ
  pub idempotency_key : String
  pub note : Option String
  pub expected_status : Option AudienceTagStatus
  pub now : ℕ

abbrev pub tag_event :
    AudienceTagAction → TagReview → String → Option String → AudienceTagAuditEvent
tag_event action r tag_key target = record {
  admin_user_id = r.admin_user_id;
  action = action;
  idempotency_key = r.idempotency_key;
  tag_key = tag_key;
  target_tag_key = target;
  note = r.note;
  created_at = r.now;
}

-- `expected_status is not None and tag.status != expected_status`
abbrev pub is_unexpected : Option AudienceTagStatus → AudienceTagStatus → Bool
is_unexpected none status = false
is_unexpected (some expected) status = not (status == expected)

-- the loop of `_fuzzy_match`: the first tag with the highest score
unfoldable pub best_tag :
    (String → ℕ)
    → List AudienceTagType
    → Option (ℕ × AudienceTagType)
    → Option (ℕ × AudienceTagType)
best_tag score [] best = best
best_tag score (tag ∷ tags) none = best_tag score tags (some (score tag.tag_key, tag))
best_tag score (tag ∷ tags) (some (n, best)) =
    best_tag score tags
      (if ltb n (score tag.tag_key) then some (score tag.tag_key, tag) else some (n, best))

abbrev pub over : ℕ → Option (ℕ × AudienceTagType) → Option AudienceTagType
over threshold none = none
over threshold (some (n, tag)) = if leb threshold n then some tag else none

-- the approved tags and the remarks of `resolve_for_canonical`, with one more result
unfoldable pub with_result : ResolvedAudienceTags → AudienceTagResolveResult → ResolvedAudienceTags
with_result tags r =
    if r.status == approved
    then record {
      approved_tags =
          if has_tag r.tag_key tags.approved_tags
          then tags.approved_tags
          else tags.approved_tags ++ r.tag_key ∷ [];
      audit_assumptions =
          if r.input_tag == r.tag_key
          then tags.audit_assumptions
          else tags.audit_assumptions
            ++ join "audience_tag_mapped:" (join r.input_tag (join "->" r.tag_key)) ∷ [];
    }
    else if r.status == pending
    then record tags {
      audit_assumptions = tags.audit_assumptions ++ join "pending_audience_tag:" r.tag_key ∷ [];
    }
    else record tags {
      audit_assumptions = tags.audit_assumptions ++ join "rejected_audience_tag:" r.tag_key ∷ [];
    }

unfoldable pub with_results :
    ResolvedAudienceTags → List AudienceTagResolveResult → ResolvedAudienceTags
with_results tags [] = tags
with_results tags (r ∷ rs) = with_results (with_result tags r) rs

-- `target is None or target.status != "approved"`
unfoldable pub as_target : Option AudienceTagType → Option AudienceTagType
as_target none = none
as_target (some tag) = if tag.status == approved then some tag else none

module _ (casefold title : String → String) (ratio : String → String → ℕ)
    (fuzzy_threshold : ℕ) where
  abbrev pub normalized : String → Tags String
  normalized value s = (normalize_tag_key casefold value, s)

  abbrev pub prompt_tags : ℕ → TagState → List String
  prompt_tags limit s = map (λ t. t.tag_key) (list_approved (some limit) s)

  abbrev pub fuzzy_match : String → TagState → Option AudienceTagType
  fuzzy_match key s = over fuzzy_threshold (best_tag (ratio key) (list_approved none s) none)

  -- a tag that is stored counts one more use
  abbrev pub matched_tag : String → ℕ → AudienceTagType → Tags AudienceTagResolveResult
  matched_tag value now tag = do
    increment_usage tag.tag_key now
    pure (record {
      input_tag = value;
      tag_key = tag.tag_key;
      status = tag.status;
      created = false;
      matched_existing = true;
    })

  abbrev pub proposed : String → String → ℕ → Tags AudienceTagResolveResult
  proposed value key now = do
    (tag, created) ← upsert_pending key (title (spaced key)) now
    pure (record {
      input_tag = value;
      tag_key = tag.tag_key;
      status = tag.status;
      created = created;
      matched_existing = false;
    })

  abbrev pub by_fuzzy : String → String → ℕ → Tags AudienceTagResolveResult
  by_fuzzy value key now = do
    fuzzy ← gets (fuzzy_match key)
    on_option fuzzy (proposed value key now) (matched_tag value now)

  unfoldable pub resolve_tag : String → ℕ → Tags AudienceTagResolveResult
  resolve_tag value now = do
    key ← normalized value
    existing ← gets λ s. get key s.tags
    on_option existing (by_fuzzy value key now)
        λ tag. if tag.status == rejected then by_fuzzy value key now else matched_tag value now tag

  -- the loop of `resolve_tags`
  unfoldable pub resolve_each : List String → List String → ℕ → Tags (List AudienceTagResolveResult)
  unfolding resolve_tag
  resolve_each seen [] now = pure []
  resolve_each seen (value ∷ rest) now = do
    key ← normalized value
    if has_tag key seen then resolve_each seen rest now else (do
      r ← resolve_tag key now
      rs ← resolve_each (seen ++ key ∷ []) rest now
      pure (r ∷ rs))

  abbrev pub resolve_tags : List String → ℕ → Tags (List AudienceTagResolveResult)
  resolve_tags = resolve_each []

  unfoldable pub resolve_for_canonical : List String → ℕ → Tags ResolvedAudienceTags
  resolve_for_canonical tags now = do
    rs ← resolve_tags tags now
    pure (with_results (record { approved_tags = []; audit_assumptions = [] }) rs)

  -- what `approve` and `reject` share
  unfoldable pub decide_tag :
      AudienceTagAction
      → AudienceTagStatus
      → Option String
      → TagReview
      → String
      → Tags AudienceTagType
  decide_tag action status name r tag_key = do
    key ← normalized tag_key
    (event, created) ← audit_tag_once (tag_event action r key none)
    found ← gets λ s. get event.tag_key s.tags
    tag ← or_raise (key_error event.tag_key) found
    if not created
        then pure tag
        else if is_unexpected r.expected_status tag.status
        then raise (value_error "audience_tag_state_conflict")
        else set_tag_status event.tag_key status name r.now

  unfoldable pub approve_tag : Option String → TagReview → String → Tags AudienceTagType
  approve_tag name r = decide_tag approve approved name (record r { note = none })

  unfoldable pub reject_tag : TagReview → String → Tags AudienceTagType
  reject_tag r = decide_tag reject rejected none r

  unfoldable pub merge_tag : TagReview → String → String → Tags AudienceTagType
  merge_tag r tag_key target_tag_key = do
    source_key ← normalized tag_key
    target_key ← normalized target_tag_key
    raise_if (source_key == target_key) (value_error "Cannot merge a tag into itself.")
    (event, created) ← audit_tag_once (tag_event merge r source_key (some target_key))
    found ← gets λ s. get event.tag_key s.tags
    source ← or_raise (key_error "source_or_target_tag") found
    target ← gets λ s. as_target (get target_key s.tags)
    or_raise (key_error "source_or_target_tag") target
    if not created
        then pure source
        else if is_unexpected r.expected_status source.status
        then raise (value_error "audience_tag_state_conflict")
        else (do
          remap_references event.tag_key target_key
          increment_usage target_key r.now
          set_tag_status event.tag_key rejected none r.now)
