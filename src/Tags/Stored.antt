-- ===== src/Tags/Stored.antt =====
-- src/estateflow/services/audience_tags.py: tags, their audit events, and
-- `InMemoryAudienceTagRepository`. A set of tags is a list without repetitions.
use estate_flow.Base.{
  ℕ, ◌+◌, String, Bool, true, false, not, ◌≡◌, ◌↔◌, List, [], ◌∷◌, ◌++◌, Option, none, some, map,
  if◌then◌else◌, on_option, nat_eq, ltb, ◌==◌, Eq, ℕ_eq, String_eq, str_leb, arith, any_of, keep_if,
  count_if, take, Exec, pure, or_raise, gets, modify, ◌>>=◌, ◌>>◌, ok, key_error,
}
use estate_flow.Base.Dict.{Dict, get, put, values}
use estate_flow.Base.Sort.{sort_by, then_by}

pub data AudienceTagStatus : Type 0 where
  approved pending rejected : AudienceTagStatus

abbrev index : AudienceTagStatus → ℕ
index approved = 0
index pending = 1
index rejected = 2

pub same_status_iff : (a b : AudienceTagStatus) → (nat_eq (index a) (index b) ≡ true) ↔ (a ≡ b)
same_status_iff a b = ground arith

instance abbrev pub AudienceTagStatus_eq : Eq AudienceTagStatus
AudienceTagStatus_eq = record { same = λ a b. nat_eq (index a) (index b); agrees = same_status_iff }

pub data AudienceTagAction : Type 0 where
  approve merge reject : AudienceTagAction

pub record AudienceTagType : Type 0 where
  pub tag_key : String
  pub display_name_uz : String
  pub status : AudienceTagStatus
  pub usage_count : ℕ
  pub created_at : ℕ
  pub updated_at : ℕ

pub record AudienceTagAuditEvent : Type 0 where
  pub admin_user_id : ℕ
  pub action : AudienceTagAction
  pub idempotency_key : String
  pub tag_key : String
  pub target_tag_key : Option String
  pub note : Option String
  pub created_at : ℕ

pub record AudienceTagReferenceRemapResult : Type 0 where
  pub announcements_updated : ℕ
  pub filters_updated : ℕ

pub record TagState : Type 0 where
  pub tags : Dict String AudienceTagType
  pub audit_events : Dict String AudienceTagAuditEvent
  pub announcement_refs : Dict String (List String)
  pub announcement_excluded_refs : Dict String (List String)
  pub filter_refs : Dict String String

abbrev pub Tags : Type 0 → Type 0
Tags A = Exec TagState A

abbrev pub new_tag : AudienceTagStatus → ℕ → String → String → AudienceTagType
new_tag status now tag_key display_name_uz = record {
  tag_key = tag_key;
  display_name_uz = display_name_uz;
  status = status;
  usage_count = 0;
  created_at = now;
  updated_at = now;
}

-- SEED_AUDIENCE_TAGS
abbrev pub seed_audience_tags : Dict String String
seed_audience_tags =
    ("family", "Oila")
    ∷ ("family_with_children", "Bolali oila")
    ∷ ("students", "Talabalar")
    ∷ ("single_male", "Yolg'iz erkak")
    ∷ ("single_female", "Yolg'iz ayol")
    ∷ ("group_of_girls", "Qizlar guruhi")
    ∷ ("group_of_boys", "Yigitlar guruhi")
    ∷ ("foreigners", "Chet elliklar")
    ∷ []

-- `tags or SEED_AUDIENCE_TAGS`
abbrev or_seed : Dict String String → Dict String String
or_seed [] = seed_audience_tags
or_seed (tag ∷ tags) = tag ∷ tags

abbrev pub init_tags : Dict String String → ℕ → TagState
init_tags tags now = record {
  tags = map (λ e. (e.0, new_tag approved now e.0 e.1)) (or_seed tags);
  audit_events = [];
  announcement_refs = [];
  announcement_excluded_refs = [];
  filter_refs = [];
}

-- `approved[:limit] if limit is not None else approved`
abbrev limited : Option ℕ → List AudienceTagType → List AudienceTagType
limited none tags = tags
limited (some limit) tags = take limit tags

unfoldable pub list_approved : Option ℕ → TagState → List AudienceTagType
list_approved limit s = limited limit (
    sort_by
      (λ a b.
        then_by (ltb b.usage_count a.usage_count) (a.usage_count == b.usage_count)
          (str_leb a.tag_key b.tag_key))
      (keep_if (λ t. t.status == approved) (values s.tags)))

unfoldable pub list_pending_tags : TagState → List AudienceTagType
list_pending_tags s =
    sort_by
      (λ a b.
        then_by (ltb a.created_at b.created_at) (a.created_at == b.created_at)
          (str_leb a.tag_key b.tag_key))
      (keep_if (λ t. t.status == pending) (values s.tags))

abbrev pub store_tag : AudienceTagType → String → Tags Unit
store_tag tag key = modify λ s. record s { tags = put key tag s.tags }

-- `self.tags[tag_key]`
abbrev pub require_tag : String → Tags AudienceTagType
require_tag key = do found ← gets λ s. get key s.tags; or_raise (key_error key) found

abbrev pub upsert_pending : String → String → ℕ → Tags (AudienceTagType × Bool)
upsert_pending tag_key display_name_uz now = do
  existing ← gets λ s. get tag_key s.tags
  on_option existing
      (do
        store_tag (new_tag pending now tag_key display_name_uz) tag_key
        pure (new_tag pending now tag_key display_name_uz, true))
      λ tag. pure (tag, false)

abbrev pub used_again : ℕ → AudienceTagType → AudienceTagType
used_again now tag = record tag { usage_count = tag.usage_count + 1; updated_at = now }

abbrev pub increment_usage : String → ℕ → Tags AudienceTagType
increment_usage tag_key now = do
  tag ← require_tag tag_key
  store_tag (used_again now tag) tag_key
  pure (used_again now tag)

-- `display_name_uz or tag.display_name_uz`
abbrev name_or : Option String → String → String
name_or none kept = kept
name_or (some name) kept = if name == "" then kept else name

abbrev pub with_status : AudienceTagStatus → Option String → ℕ → AudienceTagType → AudienceTagType
with_status status name now tag = record tag {
  status = status;
  display_name_uz = name_or name tag.display_name_uz;
  updated_at = now;
}

abbrev pub set_tag_status : String → AudienceTagStatus → Option String → ℕ → Tags AudienceTagType
set_tag_status tag_key status name now = do
  tag ← require_tag tag_key
  store_tag (with_status status name now tag) tag_key
  pure (with_status status name now tag)

abbrev pub audit_tag_once : AudienceTagAuditEvent → Tags (AudienceTagAuditEvent × Bool)
audit_tag_once event = do
  existing ← gets λ s. get event.idempotency_key s.audit_events
  on_option existing
      (do
        modify λ s. record s { audit_events = put event.idempotency_key event s.audit_events }
        pure (event, true))
      λ old. pure (old, false)

-- `tag in tags`
abbrev pub has_tag : String → List String → Bool
has_tag tag tags = any_of (λ t. t == tag) tags

-- `tags.discard(source)`, then `tags.add(target)`
unfoldable pub moved : String → String → List String → List String
moved source target tags =
    let rest = keep_if (λ t. not (t == source)) tags in
    if has_tag target rest then rest else rest ++ target ∷ []

abbrev pub remapped : String → String → List String → List String
remapped source target tags = if has_tag source tags then moved source target tags else tags

-- one of the two dicts of sets
abbrev pub remap_sets : String → String → Dict String (List String) → Dict String (List String)
remap_sets source target refs = map (λ e. (e.0, remapped source target e.1)) refs

abbrev pub remap_filters : String → String → Dict String String → Dict String String
remap_filters source target refs = map (λ e. (e.0, if e.1 == source then target else e.1)) refs

unfoldable pub remap_references : String → String → Tags AudienceTagReferenceRemapResult
remap_references source target s = (
  ok (record {
    announcements_updated =
        count_if (λ e. has_tag source e.1) s.announcement_refs
        + count_if (λ e. has_tag source e.1) s.announcement_excluded_refs;
    filters_updated = count_if (λ e. e.1 == source) s.filter_refs;
  }),
  record s {
    announcement_refs = remap_sets source target s.announcement_refs;
    announcement_excluded_refs = remap_sets source target s.announcement_excluded_refs;
    filter_refs = remap_filters source target s.filter_refs;
  },
)
