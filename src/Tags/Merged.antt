-- ===== src/Tags/Merged.antt =====
-- src/estateflow/services/audience_tags.py: what a merge does to the references of the two tags.
use estate_flow.Base.{
  ℕ, String, false, not, ◌||◌, ◌≡◌, refl, sym, ◌∙◌, ◌≢◌, inl, inr, List, [], ◌∷◌, Option, none,
  some, if◌then◌else◌, ◌==◌, String_eq, str_eq_iff, arith, keep_if, Bool-cases, ok,
}
use estate_flow.Base.Dict.{Dict, get, put, get-put}
use estate_flow.Base.Members.{any_of-append}
use estate_flow.Tags.Keys.{normalize_tag_key}
use estate_flow.Tags.Stored.{
  AudienceTagStatus_eq, approved, rejected, AudienceTagType, TagState, has_tag, moved, remapped,
  remap_sets, remap_filters, remap_references, used_again, with_status, same_status_iff,
}
use estate_flow.Tags.Service.{TagReview, as_target, is_unexpected, merge_tag}

-- One set of tags, before and after a merge.
pub record IsMoved (source target : String) (old new : List String) : Type 0 where
  pub gone : has_tag source new ≡ false
  pub arrived : has_tag target new ≡ (has_tag target old || has_tag source old)
  pub others : (tag : String) → tag ≢ source → tag ≢ target → has_tag tag new ≡ has_tag tag old

-- The tag of one filter, before and after a merge.
pub record IsMovedTag (source target old new : String) : Type 0 where
  pub gone : new ≢ source
  pub taken : old ≡ source → new ≡ target
  pub kept : old ≢ source → new ≡ old

-- Two dicts with the same keys, whose values are related in order.
abbrev pub IsPaired : {V W : Type 0} → (V → W → Type 0) → Dict String V → Dict String W → Type 0
IsPaired P [] [] = Unit
IsPaired P [] (e ∷ new) = ⊥
IsPaired P (e ∷ old) [] = ⊥
IsPaired P ((j, v) ∷ old) ((k, w) ∷ new) = (j ≡ k) × P v w × IsPaired P old new

has_tag-without :
    (source tag : String) (tags : List String)
    → has_tag tag (keep_if (λ t. not (t == source)) tags)
      ≡ (if tag == source then false else has_tag tag tags)
has_tag-without source tag [] = ground arith
has_tag-without source tag (t ∷ tags) = ground (
  arith,
  has_tag-without source tag tags,
  str_eq_iff t source,
  str_eq_iff t tag,
  str_eq_iff tag source,
)

has_tag-moved :
    (source target tag : String) (tags : List String)
    → has_tag tag (moved source target tags)
      ≡ ((if tag == source then false else has_tag tag tags) || target == tag)
unfolding moved
has_tag-moved source target tag tags =
    let kept = keep_if (λ t. not (t == source)) tags in
    let without = has_tag-without source tag tags in
    elim (Bool-cases (has_tag target kept)) [
      | inl e ↦ rw e (ground (arith, e, without, str_eq_iff target tag))
      | inr e ↦ rw e (any_of-append (λ t. t == tag) kept (target ∷ []) ∙ ground (arith, without))
    ]

remapped-IsMoved :
    (source target : String) (tags : List String)
    → source ≢ target
    → IsMoved source target tags (remapped source target tags)
remapped-IsMoved source target tags ne = elim (Bool-cases (has_tag source tags)) [
  | inl e ↦ rw e (record {
    gone =
        has_tag-moved source target source tags
        ∙ ground (arith, ne, str_eq_iff target source, str_eq_iff source source);
    arrived =
        has_tag-moved source target target tags
        ∙ ground (arith, e, str_eq_iff target target, str_eq_iff target source, ne);
    others = λ tag n m.
        has_tag-moved source target tag tags
        ∙ ground (arith, n, m, str_eq_iff tag source, str_eq_iff target tag);
  })
  | inr e ↦ rw e (record { gone = e; arrived = ground (arith, e); others = λ tag n m. refl })
]

remap_sets-IsPaired :
    (source target : String) (refs : Dict String (List String))
    → source ≢ target
    → IsPaired (IsMoved source target) refs (remap_sets source target refs)
remap_sets-IsPaired source target [] ne = tt
remap_sets-IsPaired source target ((k, tags) ∷ refs) ne =
    (refl, remapped-IsMoved source target tags ne, remap_sets-IsPaired source target refs ne)

moved_tag :
    (source target tag : String)
    → source ≢ target
    → IsMovedTag source target tag (if tag == source then target else tag)
moved_tag source target tag ne = elim (Bool-cases (tag == source)) [
  | inl e ↦ rw e (record {
    gone = λ same. ne (sym same);
    taken = λ _. refl;
    kept = λ other. absurd (other ((str_eq_iff tag source).0 e));
  })
  | inr e ↦ rw e (record {
    gone = λ same. absurd (ground (arith, e, same, str_eq_iff tag source));
    taken = λ same. absurd (ground (arith, e, same, str_eq_iff tag source));
    kept = λ _. refl;
  })
]

remap_filters-IsPaired :
    (source target : String) (refs : Dict String String)
    → source ≢ target
    → IsPaired (IsMovedTag source target) refs (remap_filters source target refs)
remap_filters-IsPaired source target [] ne = tt
remap_filters-IsPaired source target ((k, tag) ∷ refs) ne =
    (refl, moved_tag source target tag ne, remap_filters-IsPaired source target refs ne)

approved_target :
    (y : AudienceTagType) (o : Option AudienceTagType)
    → o ≡ some y
    → y.status ≡ approved
    → as_target o ≡ some y
unfolding as_target
approved_target y o e live = rw e (ground (arith, live, same_status_iff y.status approved))

-- What a merge leaves: every reference to the source is one to the target, and the source is rejected.
pub record IsMerged (source target : String) (now : ℕ) (x y : AudienceTagType) (s t : TagState)
    : Type 0 where
  pub announcements : IsPaired (IsMoved source target) s.announcement_refs t.announcement_refs
  pub excluded :
      IsPaired (IsMoved source target) s.announcement_excluded_refs t.announcement_excluded_refs
  pub filters : IsPaired (IsMovedTag source target) s.filter_refs t.filter_refs
  pub source_tag : get source t.tags ≡ some (with_status rejected none now x)
  pub target_tag : get target t.tags ≡ some (used_again now y)

-- Merging a stored tag that has the expected status into another one that is approved, under a fresh
-- idempotency key, returns the rejected tag; then every set of an announcement that had the source has
-- the target in its place, every filter on the source is one on the target, no other reference
-- changes, and the target counts one more use.
pub merge_tag-IsMerged :
    (casefold title : String → String) (ratio : String → String → ℕ) (threshold : ℕ) (r : TagReview)
    (a b source target : String) (x y : AudienceTagType) (s : TagState)
    → normalize_tag_key casefold a ≡ ok source
    → normalize_tag_key casefold b ≡ ok target
    → source ≢ target
    → get r.idempotency_key s.audit_events ≡ none
    → get source s.tags ≡ some x
    → get target s.tags ≡ some y
    → y.status ≡ approved
    → is_unexpected r.expected_status x.status ≡ false
    → ((merge_tag casefold title ratio threshold r a b s).0
        ≡ ok (with_status rejected none r.now x))
      × IsMerged source target r.now x y s (merge_tag casefold title ratio threshold r a b s).1
unfolding merge_tag remap_references
merge_tag-IsMerged casefold title ratio threshold r a b source target x y s na nb ne fresh fx fy
      live expected =
    let apart : (source == target) ≡ false = ground (arith, ne, str_eq_iff source target) in
    let back : (target == source) ≡ false = ground (arith, ne, str_eq_iff target source) in
    let still : get source (put target (used_again r.now y) s.tags) ≡ some x =
      get-put target source (used_again r.now y) s.tags ∙ (rw back fx) in
    let found : as_target (get target s.tags) ≡ some y =
      approved_target y (get target s.tags) fy live in
    rw (na, nb, apart, fresh, fx, found, expected, fy, still)
      (
        refl,
        record {
          announcements = remap_sets-IsPaired source target s.announcement_refs ne;
          excluded = remap_sets-IsPaired source target s.announcement_excluded_refs ne;
          filters = remap_filters-IsPaired source target s.filter_refs ne;
          source_tag = get-put source source _ _ ∙ (rw ((str_eq_iff source source).1 refl) refl);
          target_tag =
              rw
                (
                  get-put source target (with_status rejected none r.now x)
                      (put target (used_again r.now y) s.tags),
                  apart,
                  get-put target target (used_again r.now y) s.tags,
                  (str_eq_iff target target).1 refl,
                )
                refl;
        },
      )
