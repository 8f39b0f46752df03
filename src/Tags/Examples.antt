-- ===== src/Tags/Examples.antt =====
-- Concrete runs of the audience tags.
use estate_flow.Base.{ℕ, String, ◌≡◌, refl, none, some, [], ◌∷◌, ok, String_eq, strip, Result}
use estate_flow.Base.Dict.{get, put}
use estate_flow.Base.Sort.{sort_by, insert}
use estate_flow.Tags.Keys.{normalize_tag_key}
use estate_flow.Tags.Stored.{
  AudienceTagType, TagState, approved, pending, rejected, new_tag, list_approved, moved,
  remap_references, with_status,
}
use estate_flow.Tags.Service.{
  TagReview, merge_tag, as_target, resolve_for_canonical, resolve_each, resolve_tag, best_tag,
  with_results, with_result,
}
use estate_flow.Tags.Merged.{IsMerged, merge_tag-IsMerged}
use estate_flow.Tags.Single.{IsKeyed}
use estate_flow.Tags.Resolved.{IsAnswered, resolve_for_canonical-IsAnswered}

abbrev same : String → String
same s = s

abbrev no_ratio : String → String → ℕ
no_ratio a b = 0

abbrev known : AudienceTagType
known = new_tag approved 1 "students" "Talabalar"

abbrev unknown : AudienceTagType
unknown = new_tag pending 2 "young_people" "Young People"

-- an announcement and a filter refer to the tag that waits for a tag_review
abbrev before_merge : TagState
before_merge = record {
  tags = ("students", known) ∷ ("young_people", unknown) ∷ [];
  audit_events = [];
  announcement_refs = ("a1", "young_people" ∷ "students" ∷ []) ∷ ("a2", "young_people" ∷ []) ∷ [];
  announcement_excluded_refs = [];
  filter_refs = ("f1", "young_people") ∷ ("f2", "students") ∷ [];
}

abbrev tag_review : TagReview
tag_review = record {
  admin_user_id = 1;
  idempotency_key = "k";
  note = none;
  expected_status = some pending;
  now = 5;
}

abbrev merged : Result AudienceTagType × TagState
merged = merge_tag same same no_ratio 8200 tag_review "young_people" "students" before_merge

merges : merged.1.announcement_refs ≡ ("a1", "students" ∷ []) ∷ ("a2", "students" ∷ []) ∷ []
unfolding merge_tag normalize_tag_key strip remap_references moved as_target get put
merges = refl

merge_tag-IsMerged_example :
    (merged.0 ≡ ok (with_status rejected none 5 unknown))
    × IsMerged "young_people" "students" 5 unknown known before_merge merged.1
unfolding normalize_tag_key strip get
merge_tag-IsMerged_example =
    merge_tag-IsMerged same same no_ratio 8200 tag_review "young_people" "students" "young_people"
      "students" unknown known before_merge refl refl (λ e. cc) refl refl refl refl refl

before_merge-IsKeyed : IsKeyed before_merge
before_merge-IsKeyed = record { own = (refl, (refl, tt)); apart = (refl, (refl, tt)) }

resolve_for_canonical-IsAnswered_example :
    IsAnswered same no_ratio 8200 ("students" ∷ "Students" ∷ "pets" ∷ []) before_merge (
      resolve_for_canonical same same no_ratio 8200
        ("students" ∷ "Students" ∷ "pets" ∷ [])
        6
        before_merge)
resolve_for_canonical-IsAnswered_example =
    resolve_for_canonical-IsAnswered same same no_ratio 8200 ("students" ∷ "Students" ∷ "pets" ∷ [])
      6 before_merge before_merge-IsKeyed

resolves :
    (resolve_for_canonical same same no_ratio 8200
      ("students" ∷ "new pets" ∷ "students" ∷ [])
      6
      before_merge).0
    ≡ ok (record {
      approved_tags = "students" ∷ [];
      audit_assumptions = "pending_audience_tag:new_pets" ∷ [];
    })
unfolding resolve_for_canonical resolve_each resolve_tag normalize_tag_key strip best_tag
    list_approved with_results with_result sort_by insert get put
resolves = refl
