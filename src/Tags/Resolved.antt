-- ===== src/Tags/Resolved.antt =====
-- src/estateflow/services/audience_tags.py: what the resolution of proposed tags gives and keeps.
use mathlib.Core.List.{Memᴰ}
use mathlib.Core.List.Memᴰ
use mathlib.Core.Path.{subst}
use estate_flow.Base.{
  ℕ, String, true, false, ◌≡◌, refl, ◌⊎◌, inl, inr, List, [], ◌∷◌, some, ◌==◌, String_eq, arith,
  Bool-cases, Result-cases, Result, ok, err, Error, All, leb,
}
use estate_flow.Tags.Keys.{normalize_tag_key}
use estate_flow.Tags.Stored.{AudienceTagStatus_eq, approved, TagState, has_tag, same_status_iff}
use estate_flow.Tags.Service.{
  AudienceTagResolveResult, ResolvedAudienceTags, resolve_each, with_results, resolve_for_canonical,
}
use estate_flow.Tags.Single.{IsKeyed, status_of, IsKept}
use estate_flow.Tags.Answer.{is_approved, IsAnswer}
use estate_flow.Tags.Reached.{AreRight, All-map, IsRefused, IsReached, IsAsked, is_approved_iff}
use estate_flow.Tags.Each.{resolve_each-IsResolvedAll}
use estate_flow.Tags.Given.{
  IsApproved, HasRemark, IsGiven, with_results-IsApproved, with_results-IsGiven, with_results-All,
}

member-right :
    (t : TagState) (r : AudienceTagResolveResult) (rs : List AudienceTagResolveResult)
    → AreRight t rs
    → Memᴰ r rs
    → status_of r.tag_key t ≡ some r.status
member-right t r [] h m = absurd (Memᴰ.not-nil m)
member-right t r (q ∷ rs) h (Memᴰ.head e) = rw e h.0
member-right t r (q ∷ rs) h (Memᴰ.tail m) = member-right t r rs h.1 m

module _ (casefold : String → String) (ratio : String → String → ℕ) (threshold : ℕ) where
  -- What is said of a proposed value: its key is an approved tag of the answer; or its key is not
  -- approved, and a similar approved tag is in the answer, or a remark says that the key is pending
  -- or rejected.
  abbrev pub IsTold : TagState → ResolvedAudienceTags → String → Type 0
  IsTold s tags v =
      (text : String) × (normalize_tag_key casefold v ≡ ok text)
      × (key : String) × (normalize_tag_key casefold text ≡ ok key)
      × ((has_tag key tags.approved_tags ≡ true)
          ⊎ ((is_approved key s ≡ false)
              × (((tag : String) × (has_tag tag tags.approved_tags ≡ true)
                    × (leb threshold (ratio key tag) ≡ true))
                  ⊎ HasRemark key tags)))

  -- Where an approved tag of the answer comes from: it is the key of a proposed value, or similar to
  -- one that is not approved.
  abbrev pub IsFrom : List String → TagState → String → Type 0
  IsFrom values s tag =
      (v : String) × Memᴰ v values
      × (text : String) × (normalize_tag_key casefold v ≡ ok text)
      × (key : String) × (normalize_tag_key casefold text ≡ ok key)
      × ((tag ≡ key) ⊎ ((leb threshold (ratio key tag) ≡ true) × (is_approved key s ≡ false)))

  IsAsked-IsFrom :
      (values : List String) (s : TagState) (r : AudienceTagResolveResult)
      → IsAsked casefold ratio threshold values s r
      → IsFrom values s r.tag_key
  IsAsked-IsFrom values s r (v, m, text, f, a) = (
    v,
    m,
    text,
    f,
    a.key,
    a.norm,
    elim a.how [ inl e ↦ inl e | inr (status, high, fresh) ↦ inr (high, fresh) ],
  )

  not_approved :
      (key : String) (s t : TagState) (r : AudienceTagResolveResult)
      → IsKept s t
      → status_of key t ≡ some r.status
      → (r.status == approved) ≡ false
      → is_approved key s ≡ false
  not_approved key s t r kept e f = elim (Bool-cases (is_approved key s)) [
    | inr g ↦ g
    | inl g ↦
        let live = kept.status key approved ((is_approved_iff key s).0 g) in
        absurd (ground (arith, live, e, f, same_status_iff r.status approved))
  ]

  answer-IsTold :
      (s t : TagState) (tags : ResolvedAudienceTags) (v text : String)
      (r : AudienceTagResolveResult)
      → IsKept s t
      → normalize_tag_key casefold v ≡ ok text
      → IsAnswer casefold ratio threshold text s r
      → status_of r.tag_key t ≡ some r.status
      → IsGiven r tags
      → IsTold s tags v
  answer-IsTold s t tags v text r kept f a right given = (
    text,
    f,
    a.key,
    a.norm,
    elim a.how [
      | inl e ↦ elim given [
        | inl (g, has) ↦ inl (subst (λ k. has_tag k tags.approved_tags ≡ true) e has)
        | inr (g, remark) ↦ inr (
          subst (λ k. is_approved k s ≡ false) e (not_approved r.tag_key s t r kept right g),
          inr (subst (λ k. HasRemark k tags) e remark),
        )
      ]
      | inr (status, high, fresh) ↦ elim given [
        | inl (g, has) ↦ inr (fresh, inl (r.tag_key, has, high))
        | inr (g, remark) ↦ absurd (ground (arith, g, same_status_iff r.status approved, status))
      ]
    ],
  )

  reached-IsTold :
      (s t : TagState) (rs : List AudienceTagResolveResult) (tags : ResolvedAudienceTags)
      → IsKept s t
      → AreRight t rs
      → ((r : AudienceTagResolveResult) → Memᴰ r rs → IsGiven r tags)
      → (v : String) → IsReached casefold ratio threshold [] s rs v
      → IsTold s tags v
  reached-IsTold s t rs tags kept right given v (text, f, how) = elim how [
    | inl seen ↦ cc
    | inr (r, m, a) ↦
        answer-IsTold s t tags v text r kept f a (member-right t r rs right m) (given r m)
  ]

-- A resolution returned, or refused a proposed value.
pub record IsAnswered (casefold : String → String) (ratio : String → String → ℕ) (threshold : ℕ)
    (values : List String) (s : TagState) (o : Result ResolvedAudienceTags × TagState)
    : Type 0 where
  pub kept : IsKept s o.1
  pub answer :
      ((tags : ResolvedAudienceTags) × (o.0 ≡ ok tags)
        × IsApproved o.1 tags
        × All (IsTold casefold ratio threshold s tags) values
        × All (IsFrom casefold ratio threshold values s) tags.approved_tags)
      ⊎ ((e : Error) × (o.0 ≡ err e) × IsRefused casefold values e)

-- Where each tag stands under its own key, the resolution of proposed values changes the status of no
-- stored tag. It returns distinct tags that are stored as approved, each of them the key of a proposed
-- value or similar enough to one that is not approved; and of each proposed value it returns the key,
-- or, where the key is not approved, a similar approved tag or a remark that the key is pending or
-- rejected. Otherwise it raises the error that `normalize_tag_key` raises for a proposed value or for
-- the key of one.
pub resolve_for_canonical-IsAnswered :
    (casefold title : String → String) (ratio : String → String → ℕ) (threshold : ℕ)
    (values : List String) (now : ℕ) (s : TagState)
    → IsKeyed s
    → IsAnswered casefold ratio threshold values s
        (resolve_for_canonical casefold title ratio threshold values now s)
unfolding resolve_for_canonical
resolve_for_canonical-IsAnswered casefold title ratio threshold values now s k =
    let all = resolve_each-IsResolvedAll casefold title ratio threshold [] values now s k in
    let none_yet : ResolvedAudienceTags = record { approved_tags = []; audit_assumptions = [] } in
    elim (Result-cases (resolve_each casefold title ratio threshold [] values now s).0) [
      | inl (rs, e) ↦
          let t = (resolve_each casefold title ratio threshold [] values now s).1 in
          let right = all.right rs e in
          rw e (record {
            kept = all.kept;
            answer = inl (
              _,
              refl,
              with_results-IsApproved t none_yet rs (record { distinct = tt; live = tt }) right,
              All-map
                  (reached-IsTold casefold ratio threshold s t rs (with_results none_yet rs)
                    all.kept right (λ r m. with_results-IsGiven r none_yet rs m))
                  values (all.reached rs e),
              with_results-All (IsFrom casefold ratio threshold values s) none_yet rs tt
                  (All-map (IsAsked-IsFrom casefold ratio threshold values s) rs (all.asked rs e)),
            );
          })
      | inr (e, h) ↦ rw h (record { kept = all.kept; answer = inr (e, refl, all.fails e h) })
    ]
