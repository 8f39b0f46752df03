-- ===== src/Tags/Answer.antt =====
-- src/estateflow/services/audience_tags.py: which tag answers a proposed one.
use mathlib.Core.List.{Memᴰ}
use mathlib.Core.Path.{subst}
use estate_flow.Base.{
  ℕ, String, Bool, true, false, ◌≡◌, refl, sym, ap, ◌∙◌, ◌⊎◌, inl, inr, List, [], ◌∷◌, Option, none,
  some, on_option, ◌==◌, String_eq, arith, Bool-cases, Option-cases, Result-cases, ok, leb, ltb,
}
use estate_flow.Base.Dict.{get, values}
use estate_flow.Base.Members.{get-member, sort_by-member, keep_if-member}
use estate_flow.Tags.Keys.{normalize_tag_key}
use estate_flow.Tags.Stored.{
  AudienceTagStatus_eq, approved, rejected, AudienceTagType, TagState, list_approved,
  same_status_iff,
}
use estate_flow.Tags.Service.{
  AudienceTagResolveResult, best_tag, over, fuzzy_match, matched_tag, proposed, by_fuzzy,
  resolve_tag,
}
use estate_flow.Tags.Single.{IsKeyed, stored_own, best_tag-member, fuzzy-stored}

abbrev pub is_approved : String → TagState → Bool
is_approved key s = on_option (get key s.tags) false λ tag. tag.status == approved

-- The result is about the key of the text, or about an approved tag that is similar enough to a key
-- that is not itself approved.
pub record IsAnswer (casefold : String → String) (ratio : String → String → ℕ) (threshold : ℕ)
    (value : String) (s : TagState) (r : AudienceTagResolveResult) : Type 0 where
  pub key : String
  pub norm : normalize_tag_key casefold value ≡ ok key
  pub how :
      (r.tag_key ≡ key)
      ⊎ ((r.status ≡ approved)
          × (leb threshold (ratio key r.tag_key) ≡ true)
          × (is_approved key s ≡ false))

ok_inj : {a b : AudienceTagResolveResult} → ok a ≡ ok b → a ≡ b
ok_inj h = ground (arith, h)

best_tag-score :
    (score : String → ℕ) (tags : List AudienceTagType) (best : AudienceTagType) (n : ℕ)
    (tag : AudienceTagType)
    → best_tag score tags (some (score best.tag_key, best)) ≡ some (n, tag)
    → n ≡ score tag.tag_key
unfolding best_tag
best_tag-score score [] best n tag h = ground (arith, h)
best_tag-score score (t ∷ tags) best n tag h =
    elim (Bool-cases (ltb (score best.tag_key) (score t.tag_key))) [
      | inl f ↦ best_tag-score score tags t n tag (rw f at h)
      | inr f ↦ best_tag-score score tags best n tag (rw f at h)
    ]

best_tag-scored :
    (score : String → ℕ) (tags : List AudienceTagType) (n : ℕ) (tag : AudienceTagType)
    → best_tag score tags none ≡ some (n, tag)
    → n ≡ score tag.tag_key
unfolding best_tag
best_tag-scored score [] n tag h = cc
best_tag-scored score (t ∷ tags) n tag h = best_tag-score score tags t n tag h

over-cases :
    (threshold : ℕ) (o : Option (ℕ × AudienceTagType)) (tag : AudienceTagType)
    → over threshold o ≡ some tag
    → (n : ℕ) × (o ≡ some (n, tag)) × (leb threshold n ≡ true)
over-cases threshold none tag h = cc
over-cases threshold (some (n, t)) tag h = elim (Bool-cases (leb threshold n)) [
  | inl e ↦ (n, ground (arith, h, e), e)
  | inr e ↦ absurd (ground (arith, h, e))
]

approved-status :
    (tag : AudienceTagType) (s : TagState) → Memᴰ tag (list_approved none s) → tag.status ≡ approved
unfolding list_approved
approved-status tag s m =
    let (n, live) = keep_if-member _ tag (values s.tags) (sort_by-member _ tag _ m) in
    (same_status_iff tag.status approved).0 live

module _ (casefold title : String → String) (ratio : String → String → ℕ) (threshold : ℕ) where
  matched_tag-result :
      (value : String) (now : ℕ) (tag : AudienceTagType) (s : TagState)
      → get tag.tag_key s.tags ≡ some tag
      → (matched_tag casefold title ratio threshold value now tag s).0
        ≡ ok (record {
          input_tag = value;
          tag_key = tag.tag_key;
          status = tag.status;
          created = false;
          matched_existing = true;
        })
  matched_tag-result value now tag s e = rw e refl

  proposed-key :
      (value key : String) (now : ℕ) (s : TagState) (r : AudienceTagResolveResult)
      → IsKeyed s
      → (proposed casefold title ratio threshold value key now s).0 ≡ ok r
      → r.tag_key ≡ key
  proposed-key value key now s r k h = elim (Option-cases (get key s.tags)) [
    | inl e ↦ sym (ap (λ q. q.tag_key) (ok_inj (rw e at h)))
    | inr (tag, e) ↦
        sym (ap (λ q. q.tag_key) (ok_inj (rw e at h)))
        ∙ sym (stored_own key tag s.tags k.own (get-member key tag s.tags e))
  ]

  fuzzy-similar :
      (key : String) (tag : AudienceTagType) (s : TagState)
      → fuzzy_match casefold title ratio threshold key s ≡ some tag
      → (tag.status ≡ approved) × (leb threshold (ratio key tag.tag_key) ≡ true)
  fuzzy-similar key tag s h =
      let (n, e, high) = over-cases threshold _ tag h in
      let score = best_tag-scored (ratio key) (list_approved none s) n tag e in
      (
        elim (best_tag-member (ratio key) (list_approved none s) none n tag e) [
          | inl m ↦ approved-status tag s m
          | inr (m, f) ↦ absurd (ground (arith, f))
        ],
        subst (λ m. leb threshold m ≡ true) score high,
      )

  by_fuzzy-IsAnswer :
      (value key : String) (now : ℕ) (s : TagState) (r : AudienceTagResolveResult)
      → IsKeyed s
      → normalize_tag_key casefold value ≡ ok key
      → is_approved key s ≡ false
      → (by_fuzzy casefold title ratio threshold value key now s).0 ≡ ok r
      → IsAnswer casefold ratio threshold value s r
  by_fuzzy-IsAnswer value key now s r k f a h =
      elim (Option-cases (fuzzy_match casefold title ratio threshold key s)) [
        | inl e ↦ record {
          key = key;
          norm = f;
          how = inl (proposed-key value key now s r k (rw e at h));
        }
        | inr (tag, e) ↦
            let (status, high) = fuzzy-similar key tag s e in
            let found = fuzzy-stored casefold title ratio threshold key tag s k e in
            let same = ok_inj (sym (matched_tag-result value now tag s found) ∙ (rw e at h)) in
            record {
              key = key;
              norm = f;
              how = inr (
                sym (ap (λ q. q.status) same) ∙ status,
                subst (λ q. leb threshold (ratio key q.tag_key) ≡ true) same high,
                a,
              );
            }
      ]

  pub resolve_tag-IsAnswer :
      (value : String) (now : ℕ) (s : TagState) (r : AudienceTagResolveResult)
      → IsKeyed s
      → (resolve_tag casefold title ratio threshold value now s).0 ≡ ok r
      → IsAnswer casefold ratio threshold value s r
  unfolding resolve_tag
  resolve_tag-IsAnswer value now s r k h = elim (Result-cases (normalize_tag_key casefold value)) [
    | inr (e, f) ↦ cc (rw f at h)
    | inl (key, f) ↦ elim (Option-cases (get key s.tags)) [
      | inl e ↦ by_fuzzy-IsAnswer value key now s r k f (rw e refl) (rw (f, e) at h)
      | inr (tag, e) ↦ elim (Bool-cases (tag.status == rejected)) [
        | inl d ↦
            by_fuzzy-IsAnswer value key now s r k f (rw e (ground (arith, d))) (rw (f, e, d) at h)
        | inr d ↦
            let own = stored_own key tag s.tags k.own (get-member key tag s.tags e) in
            let same = ok_inj (
              sym (matched_tag-result value now tag s (subst (λ j. get j s.tags ≡ some tag) own e))
              ∙ (rw (f, e, d) at h)) in
            record { key = key; norm = f; how = inl (sym (ap (λ q. q.tag_key) same) ∙ sym own) }
      ]
    ]
  ]
