-- ===== src/Tags/Single.antt =====
-- src/estateflow/services/audience_tags.py: what the resolution of proposed tags gives and keeps, one tag at a time.
use mathlib.Core.List.{Memᴰ}
use mathlib.Core.List.Memᴰ
use mathlib.Core.Path.{subst}
use estate_flow.Base.{
  ℕ, String, ◌≡◌, refl, sym, ap, ◌∙◌, ◌⊎◌, inl, inr, List, [], ◌∷◌, Option, none, some, on_option,
  ◌==◌, String_eq, str_eq_iff, arith, Bool-cases, Option-cases, Result-cases, Error, Result, ok,
  err, leb, All, ltb,
}
use estate_flow.Base.Dict.{Dict, get, put, get-put, values}
use estate_flow.Base.Members.{
  IsDistinct, get-member, member-get, values-member, sort_by-member, keep_if-member, put-IsDistinct,
}
use estate_flow.Tags.Keys.{normalize_tag_key, spaced}
use estate_flow.Tags.Stored.{
  AudienceTagStatus, AudienceTagStatus_eq, pending, rejected, AudienceTagType, TagState, new_tag,
  list_approved, used_again,
}
use estate_flow.Tags.Service.{
  AudienceTagResolveResult, best_tag, over, fuzzy_match, matched_tag, proposed, by_fuzzy,
  resolve_tag,
}

-- Each tag stands under its own key, and the keys differ.
pub record IsKeyed (s : TagState) : Type 0 where
  pub own : All (λ e. e.0 ≡ e.1.tag_key) s.tags
  pub apart : IsDistinct (λ e. e.0) s.tags

-- the status of a tag that is stored
abbrev pub status_of : String → TagState → Option AudienceTagStatus
status_of key s = on_option (get key s.tags) none λ tag. some tag.status

-- From one state to another no stored tag changes its status.
pub record IsKept (s t : TagState) : Type 0 where
  pub keyed : IsKeyed t
  pub status :
      (key : String) (status : AudienceTagStatus)
      → status_of key s ≡ some status
      → status_of key t ≡ some status

put-own :
    (tag : AudienceTagType) (tags : Dict String AudienceTagType)
    → All (λ e. e.0 ≡ e.1.tag_key) tags
    → All (λ e. e.0 ≡ e.1.tag_key) (put tag.tag_key tag tags)
unfolding put
put-own tag [] h = (refl, tt)
put-own tag ((k, t) ∷ rest) h = elim (Bool-cases (k == tag.tag_key)) [
  | inl e ↦ rw e ((str_eq_iff k tag.tag_key).0 e, h.1)
  | inr e ↦ rw e (h.0, put-own tag rest h.1)
]

pub IsKept-refl : (s : TagState) → IsKeyed s → IsKept s s
IsKept-refl s k = record { keyed = k; status = λ key status h. h }

pub IsKept-trans : (s t u : TagState) → IsKept s t → IsKept t u → IsKept s u
IsKept-trans s t u h k = record {
  keyed = k.keyed;
  status = λ key status e. k.status key status (h.status key status e);
}

-- A stored tag is replaced by one of the same key and status, or a tag is stored under a new key.
IsKept-put :
    (tag : AudienceTagType) (s : TagState)
    → IsKeyed s
    → ((status : AudienceTagStatus) → status_of tag.tag_key s ≡ some status → tag.status ≡ status)
    → IsKept s (record s { tags = put tag.tag_key tag s.tags })
IsKept-put tag s k h = record {
  keyed = record {
    own = put-own tag s.tags k.own;
    apart = put-IsDistinct tag.tag_key tag s.tags k.apart;
  };
  status = λ key status e. elim (Bool-cases (tag.tag_key == key)) [
    | inl f ↦
        let same : tag.tag_key ≡ key = (str_eq_iff tag.tag_key key).0 f in
        rw (get-put tag.tag_key key tag s.tags, f)
          (ap some (h status (subst (λ j. status_of j s ≡ some status) (sym same) e)))
    | inr f ↦ rw (get-put tag.tag_key key tag s.tags, f) e
  ];
}

ok_inj : {a b : AudienceTagResolveResult} → ok a ≡ ok b → a ≡ b
ok_inj h = ground (arith, h)

err_eq :
    {e f : Error}
    → ◌≡◌ {A = Result AudienceTagResolveResult} (err e) (err f)
    → ◌≡◌ {A = Result String} (err e) (err f)
err_eq h = ground (arith, h)

-- What the resolution of one proposed tag gives; only a text that is no key is refused.
pub record IsResolved (casefold : String → String) (value : String) (s : TagState)
    (o : Result AudienceTagResolveResult × TagState) : Type 0 where
  pub kept : IsKept s o.1
  pub right : (r : AudienceTagResolveResult) → o.0 ≡ ok r → status_of r.tag_key o.1 ≡ some r.status
  pub fails : (e : Error) → o.0 ≡ err e → normalize_tag_key casefold value ≡ err e

pub stored_own :
    (key : String) (tag : AudienceTagType) (tags : Dict String AudienceTagType)
    → All (λ e. e.0 ≡ e.1.tag_key) tags
    → Memᴰ (key, tag) tags
    → key ≡ tag.tag_key
stored_own key tag [] h m = absurd (Memᴰ.not-nil m)
stored_own key tag (e ∷ rest) h (Memᴰ.head f) =
    ap (λ p. p.0) f ∙ (h.0 ∙ sym (ap (λ p. p.1.tag_key) f))
stored_own key tag (e ∷ rest) h (Memᴰ.tail m) = stored_own key tag rest h.1 m

pub best_tag-member :
    (score : String → ℕ) (tags : List AudienceTagType) (best : Option (ℕ × AudienceTagType)) (n : ℕ)
    (tag : AudienceTagType)
    → best_tag score tags best ≡ some (n, tag)
    → Memᴰ tag tags ⊎ ((m : ℕ) × (best ≡ some (m, tag)))
unfolding best_tag
best_tag-member score [] best n tag h = inr (n, h)
best_tag-member score (t ∷ tags) none n tag h =
    elim (best_tag-member score tags (some (score t.tag_key, t)) n tag h) [
      | inl m ↦ inl (Memᴰ.tail m)
      | inr (m, e) ↦ inl (Memᴰ.head (ground (arith, e)))
    ]
best_tag-member score (t ∷ tags) (some (m, b)) n tag h =
    elim (Bool-cases (ltb m (score t.tag_key))) [
      | inl f ↦ elim (best_tag-member score tags (some (score t.tag_key, t)) n tag (rw f at h)) [
        | inl i ↦ inl (Memᴰ.tail i)
        | inr (i, e) ↦ inl (Memᴰ.head (ground (arith, e)))
      ]
      | inr f ↦ elim (best_tag-member score tags (some (m, b)) n tag (rw f at h)) [
        | inl i ↦ inl (Memᴰ.tail i)
        | inr e ↦ inr e
      ]
    ]

module _ (casefold title : String → String) (ratio : String → String → ℕ) (threshold : ℕ) where
  matched_tag-IsResolved :
      (value : String) (now : ℕ) (tag : AudienceTagType) (s : TagState)
      → IsKeyed s
      → get tag.tag_key s.tags ≡ some tag
      → IsResolved casefold value s (matched_tag casefold title ratio threshold value now tag s)
  matched_tag-IsResolved value now tag s k e =
      let kept =
        IsKept-put (used_again now tag) s k
          (λ status h. ground (arith, h, ap (λ o. on_option o none λ t. some t.status) e)) in
      rw e (record {
        kept = kept;
        right = λ r h.
            subst
              (λ q.
                status_of q.tag_key
                  (record s { tags = put tag.tag_key (used_again now tag) s.tags })
                ≡ some q.status)
              (ok_inj h) (kept.status tag.tag_key tag.status (rw e refl));
        fails = λ f h. cc;
      })

  proposed-IsResolved :
      (value key : String) (now : ℕ) (s : TagState)
      → IsKeyed s
      → IsResolved casefold value s (proposed casefold title ratio threshold value key now s)
  proposed-IsResolved value key now s k = elim (Option-cases (get key s.tags)) [
    | inr (tag, e) ↦
        let own : key ≡ tag.tag_key =
          stored_own key tag s.tags k.own (get-member key tag s.tags e) in
        rw e (record {
          kept = IsKept-refl s k;
          right = λ r h.
              subst (λ q. status_of q.tag_key s ≡ some q.status) (ok_inj h) (rw (← own, e) refl);
          fails = λ f h. cc;
        })
    | inl e ↦
        let new = new_tag pending now key (title (spaced key)) in
        let kept = IsKept-put new s k (λ status h. absurd (ground (arith, h, e))) in
        rw e (record {
          kept = kept;
          right = λ r h.
              subst
                (λ q. status_of q.tag_key (record s { tags = put key new s.tags }) ≡ some q.status)
                (ok_inj h) (rw (get-put key key new s.tags, (str_eq_iff key key).1 refl) refl);
          fails = λ f h. cc;
        })
  ]

  pub approved-stored :
      (tag : AudienceTagType) (s : TagState)
      → IsKeyed s
      → Memᴰ tag (list_approved none s)
      → get tag.tag_key s.tags ≡ some tag
  unfolding list_approved
  approved-stored tag s k m =
      let (n, live) = keep_if-member _ tag (values s.tags) (sort_by-member _ tag _ m) in
      let (key, i) = values-member tag s.tags n in
      subst (λ j. get j s.tags ≡ some tag) (stored_own key tag s.tags k.own i)
        (member-get key tag s.tags k.apart i)

  pub over-some :
      (n : Option (ℕ × AudienceTagType)) (tag : AudienceTagType)
      → over threshold n ≡ some tag
      → (m : ℕ) × (n ≡ some (m, tag))
  over-some none tag h = cc
  over-some (some (m, t)) tag h = elim (Bool-cases (leb threshold m)) [
    | inl e ↦ (m, ground (arith, h, e))
    | inr e ↦ absurd (ground (arith, h, e))
  ]

  pub fuzzy-stored :
      (key : String) (tag : AudienceTagType) (s : TagState)
      → IsKeyed s
      → fuzzy_match casefold title ratio threshold key s ≡ some tag
      → get tag.tag_key s.tags ≡ some tag
  fuzzy-stored key tag s k h =
      let (m, e) = over-some _ tag h in
      elim (best_tag-member (ratio key) (list_approved none s) none m tag e) [
        | inl i ↦ approved-stored tag s k i
        | inr (i, f) ↦ absurd (ground (arith, f))
      ]

  by_fuzzy-IsResolved :
      (value key : String) (now : ℕ) (s : TagState)
      → IsKeyed s
      → IsResolved casefold value s (by_fuzzy casefold title ratio threshold value key now s)
  by_fuzzy-IsResolved value key now s k =
      elim (Option-cases (fuzzy_match casefold title ratio threshold key s)) [
        | inl e ↦ rw e (proposed-IsResolved value key now s k)
        | inr (tag, e) ↦
            rw e (matched_tag-IsResolved value now tag s k (fuzzy-stored key tag s k e))
      ]

  refused-IsResolved :
      (value : String) (e : Error) (s : TagState)
      → IsKeyed s
      → normalize_tag_key casefold value ≡ err e
      → IsResolved casefold value s (err e, s)
  refused-IsResolved value e s k f = record {
    kept = IsKept-refl s k;
    right = λ r h. cc;
    fails = λ g h. f ∙ err_eq h;
  }

  pub resolve_tag-IsResolved :
      (value : String) (now : ℕ) (s : TagState)
      → IsKeyed s
      → IsResolved casefold value s (resolve_tag casefold title ratio threshold value now s)
  unfolding resolve_tag
  resolve_tag-IsResolved value now s k = elim (Result-cases (normalize_tag_key casefold value)) [
    | inr (e, f) ↦ rw f (refused-IsResolved value e s k f)
    | inl (key, f) ↦ elim (Option-cases (get key s.tags)) [
      | inl e ↦ rw (f, e) (by_fuzzy-IsResolved value key now s k)
      | inr (tag, e) ↦ elim (Bool-cases (tag.status == rejected)) [
        | inl d ↦ rw (f, e, d) (by_fuzzy-IsResolved value key now s k)
        | inr d ↦
            let own : key ≡ tag.tag_key =
              stored_own key tag s.tags k.own (get-member key tag s.tags e) in
            rw (f, e, d)
              (matched_tag-IsResolved value now tag s k
                (subst (λ j. get j s.tags ≡ some tag) own e))
      ]
    ]
  ]
