-- ===== src/Tags/Given.antt =====
-- src/estateflow/services/audience_tags.py: what `resolve_for_canonical` makes of the results.
use mathlib.Core.List.{Memᴰ}
use mathlib.Core.List.Memᴰ
use Prim.Native.String.{◌++◌ as join}
use estate_flow.Base.{
  String, true, false, ◌≡◌, refl, ◌∙◌, ap, ◌⊎◌, inl, inr, List, [], ◌∷◌, ◌++◌, some, ◌==◌,
  String_eq, beq_refl, arith, Bool-cases, All, All-append,
}
use estate_flow.Base.Members.{IsDistinct, append-IsDistinct, any_of-append}
use estate_flow.Tags.Stored.{
  AudienceTagStatus_eq, approved, pending, TagState, has_tag, same_status_iff,
}
use estate_flow.Tags.Service.{
  AudienceTagResolveResult, ResolvedAudienceTags, with_result, with_results,
}
use estate_flow.Tags.Single.{status_of}
use estate_flow.Tags.Reached.{AreRight}

-- The approved tags of an answer are distinct, and approved in the state.
pub record IsApproved (t : TagState) (tags : ResolvedAudienceTags) : Type 0 where
  pub distinct : IsDistinct (λ k. k) tags.approved_tags
  pub live : All (λ k. status_of k t ≡ some approved) tags.approved_tags

with_result-IsApproved :
    (t : TagState) (tags : ResolvedAudienceTags) (r : AudienceTagResolveResult)
    → IsApproved t tags
    → status_of r.tag_key t ≡ some r.status
    → IsApproved t (with_result tags r)
unfolding with_result
with_result-IsApproved t tags r h e = elim (Bool-cases (r.status == approved)) [
  | inr f ↦ elim (Bool-cases (r.status == pending)) [
    | inl g ↦ rw (f, g) (record { distinct = h.distinct; live = h.live })
    | inr g ↦ rw (f, g) (record { distinct = h.distinct; live = h.live })
  ]
  | inl f ↦
      let live : status_of r.tag_key t ≡ some approved =
        e ∙ ap some ((same_status_iff r.status approved).0 f) in
      elim (Bool-cases (has_tag r.tag_key tags.approved_tags)) [
        | inl g ↦ rw (f, g) (record { distinct = h.distinct; live = h.live })
        | inr g ↦
            rw (f, g)
              (record {
                distinct = append-IsDistinct (λ k. k) tags.approved_tags r.tag_key h.distinct g;
                live = All-append _ tags.approved_tags (r.tag_key ∷ []) h.live (live, tt);
              })
      ]
]

pub with_results-IsApproved :
    (t : TagState) (tags : ResolvedAudienceTags) (rs : List AudienceTagResolveResult)
    → IsApproved t tags
    → AreRight t rs
    → IsApproved t (with_results tags rs)
unfolding with_results
with_results-IsApproved t tags [] h a = h
with_results-IsApproved t tags (r ∷ rs) h a =
    with_results-IsApproved t (with_result tags r) rs (with_result-IsApproved t tags r h a.0) a.1

-- The result stands among the approved tags or the remarks.
abbrev pub HasRemark : String → ResolvedAudienceTags → Type 0
HasRemark key tags =
    (has_tag (join "pending_audience_tag:" key) tags.audit_assumptions ≡ true)
    ⊎ (has_tag (join "rejected_audience_tag:" key) tags.audit_assumptions ≡ true)

abbrev pub IsGiven : AudienceTagResolveResult → ResolvedAudienceTags → Type 0
IsGiven r tags =
    (((r.status == approved) ≡ true) × (has_tag r.tag_key tags.approved_tags ≡ true))
    ⊎ (((r.status == approved) ≡ false) × HasRemark r.tag_key tags)

has_tag-append :
    (k : String) (xs ys : List String) → has_tag k xs ≡ true → has_tag k (xs ++ ys) ≡ true
has_tag-append k xs ys h = any_of-append (λ t. t == k) xs ys ∙ ground (arith, h)

has_tag-last : (k : String) (xs : List String) → has_tag k (xs ++ k ∷ []) ≡ true
has_tag-last k xs = any_of-append (λ t. t == k) xs (k ∷ []) ∙ ground (arith, beq_refl k)

with_result-tags :
    (k : String) (tags : ResolvedAudienceTags) (r : AudienceTagResolveResult)
    → has_tag k tags.approved_tags ≡ true
    → has_tag k (with_result tags r).approved_tags ≡ true
unfolding with_result
with_result-tags k tags r h = elim (Bool-cases (r.status == approved)) [
  | inr f ↦ elim (Bool-cases (r.status == pending)) [ inl g ↦ rw (f, g) h | inr g ↦ rw (f, g) h ]
  | inl f ↦ elim (Bool-cases (has_tag r.tag_key tags.approved_tags)) [
    | inl g ↦ rw (f, g) h
    | inr g ↦ rw (f, g) (has_tag-append k tags.approved_tags (r.tag_key ∷ []) h)
  ]
]

with_result-remarks :
    (k : String) (tags : ResolvedAudienceTags) (r : AudienceTagResolveResult)
    → has_tag k tags.audit_assumptions ≡ true
    → has_tag k (with_result tags r).audit_assumptions ≡ true
unfolding with_result
with_result-remarks k tags r h = elim (Bool-cases (r.status == approved)) [
  | inr f ↦ elim (Bool-cases (r.status == pending)) [
    | inl g ↦ rw (f, g) (has_tag-append k tags.audit_assumptions _ h)
    | inr g ↦ rw (f, g) (has_tag-append k tags.audit_assumptions _ h)
  ]
  | inl f ↦ elim (Bool-cases (r.input_tag == r.tag_key)) [
    | inl g ↦ rw (f, g) h
    | inr g ↦ rw (f, g) (has_tag-append k tags.audit_assumptions _ h)
  ]
]

with_result-IsGiven :
    (tags : ResolvedAudienceTags) (r : AudienceTagResolveResult) → IsGiven r (with_result tags r)
unfolding with_result
with_result-IsGiven tags r = elim (Bool-cases (r.status == approved)) [
  | inr f ↦ elim (Bool-cases (r.status == pending)) [
    | inl g ↦ rw (f, g) (inr (refl, inl (has_tag-last _ tags.audit_assumptions)))
    | inr g ↦ rw (f, g) (inr (refl, inr (has_tag-last _ tags.audit_assumptions)))
  ]
  | inl f ↦ elim (Bool-cases (has_tag r.tag_key tags.approved_tags)) [
    | inl g ↦ rw (f, g) (inl (refl, g))
    | inr g ↦ rw (f, g) (inl (refl, has_tag-last r.tag_key tags.approved_tags))
  ]
]

with_results-keeps :
    (q : AudienceTagResolveResult) (tags : ResolvedAudienceTags)
    (rs : List AudienceTagResolveResult)
    → IsGiven q tags
    → IsGiven q (with_results tags rs)
unfolding with_results
with_results-keeps q tags [] h = h
with_results-keeps q tags (r ∷ rs) h = with_results-keeps q (with_result tags r) rs (elim h [
  | inl (f, g) ↦ inl (f, with_result-tags q.tag_key tags r g)
  | inr (f, inl g) ↦ inr (f, inl (with_result-remarks _ tags r g))
  | inr (f, inr g) ↦ inr (f, inr (with_result-remarks _ tags r g))
])

pub with_results-IsGiven :
    (q : AudienceTagResolveResult) (tags : ResolvedAudienceTags)
    (rs : List AudienceTagResolveResult)
    → Memᴰ q rs
    → IsGiven q (with_results tags rs)
unfolding with_results
with_results-IsGiven q tags [] m = absurd (Memᴰ.not-nil m)
with_results-IsGiven q tags (r ∷ rs) (Memᴰ.head e) =
    with_results-keeps q (with_result tags r) rs (rw e (with_result-IsGiven tags r))
with_results-IsGiven q tags (r ∷ rs) (Memᴰ.tail m) =
    with_results-IsGiven q (with_result tags r) rs m

with_result-All :
    (P : String → Type 0) (tags : ResolvedAudienceTags) (r : AudienceTagResolveResult)
    → All P tags.approved_tags
    → P r.tag_key
    → All P (with_result tags r).approved_tags
unfolding with_result
with_result-All P tags r h p = elim (Bool-cases (r.status == approved)) [
  | inr f ↦ elim (Bool-cases (r.status == pending)) [ inl g ↦ rw (f, g) h | inr g ↦ rw (f, g) h ]
  | inl f ↦ elim (Bool-cases (has_tag r.tag_key tags.approved_tags)) [
    | inl g ↦ rw (f, g) h
    | inr g ↦ rw (f, g) (All-append P tags.approved_tags (r.tag_key ∷ []) h (p, tt))
  ]
]

pub with_results-All :
    (P : String → Type 0) (tags : ResolvedAudienceTags) (rs : List AudienceTagResolveResult)
    → All P tags.approved_tags
    → All (λ r. P r.tag_key) rs
    → All P (with_results tags rs).approved_tags
unfolding with_results
with_results-All P tags [] h hs = h
with_results-All P tags (r ∷ rs) h hs =
    with_results-All P (with_result tags r) rs (with_result-All P tags r h hs.0) hs.1
