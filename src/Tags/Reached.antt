-- ===== src/Tags/Reached.antt =====
-- src/estateflow/services/audience_tags.py: what the results of `resolve_tags` say of the proposed tags.
use mathlib.Core.List.{Memᴰ}
use mathlib.Core.Path.{subst}
use estate_flow.Base.{
  ℕ, String, true, ◌≡◌, ◌↔◌, refl, ◌⊎◌, inl, inr, List, [], ◌∷◌, ◌++◌, some, ◌==◌, String_eq,
  str_eq_iff, arith, Bool-cases, Option-cases, Result, ok, err, Error, All,
}
use estate_flow.Base.Dict.{get}
use estate_flow.Base.Members.{any_of-append}
use estate_flow.Tags.Keys.{normalize_tag_key}
use estate_flow.Tags.Stored.{AudienceTagStatus_eq, approved, TagState, has_tag, same_status_iff}
use estate_flow.Tags.Service.{AudienceTagResolveResult}
use estate_flow.Tags.Single.{status_of, IsKept}
use estate_flow.Tags.Answer.{is_approved, IsAnswer}

-- The results carry the statuses that are stored in the end.
abbrev pub AreRight : TagState → List AudienceTagResolveResult → Type 0
AreRight t rs = All (λ r. status_of r.tag_key t ≡ some r.status) rs

module _ (casefold : String → String) (ratio : String → String → ℕ) (threshold : ℕ) where
  -- The value has a key, and a result answers it, or the key is one of `seen`.
  abbrev pub IsReached : List String → TagState → List AudienceTagResolveResult → String → Type 0
  IsReached seen s rs v =
      (key : String) × (normalize_tag_key casefold v ≡ ok key)
      × ((has_tag key seen ≡ true)
          ⊎ ((r : AudienceTagResolveResult) × Memᴰ r rs
              × IsAnswer casefold ratio threshold key s r))

  -- The result answers one of the values.
  abbrev pub IsAsked : List String → TagState → AudienceTagResolveResult → Type 0
  IsAsked values s r =
      (v : String) × Memᴰ v values
      × (key : String) × (normalize_tag_key casefold v ≡ ok key)
      × IsAnswer casefold ratio threshold key s r

-- The error is that of one of the values, or of the key of one.
abbrev pub IsRefused : (String → String) → List String → Error → Type 0
IsRefused casefold values e =
    (v : String) × Memᴰ v values
    × ((normalize_tag_key casefold v ≡ err e)
        ⊎ ((key : String) × (normalize_tag_key casefold v ≡ ok key)
            × (normalize_tag_key casefold key ≡ err e)))

pub record IsResolvedAll (casefold : String → String) (ratio : String → String → ℕ) (threshold : ℕ)
    (seen values : List String) (s : TagState)
    (o : Result (List AudienceTagResolveResult) × TagState) : Type 0 where
  pub kept : IsKept s o.1
  pub right : (rs : List AudienceTagResolveResult) → o.0 ≡ ok rs → AreRight o.1 rs
  pub fails : (e : Error) → o.0 ≡ err e → IsRefused casefold values e
  pub reached :
      (rs : List AudienceTagResolveResult)
      → o.0 ≡ ok rs
      → All (IsReached casefold ratio threshold seen s rs) values
  pub asked :
      (rs : List AudienceTagResolveResult)
      → o.0 ≡ ok rs
      → All (IsAsked casefold ratio threshold values s) rs

pub All-map {ℓ κ μ} :
    {A : Type ℓ} {P : A → Type κ} {Q : A → Type μ} (f : (x : A) → P x → Q x) (xs : List A)
    → All P xs
    → All Q xs
All-map f [] h = tt
All-map f (x ∷ xs) h = (f x h.0, All-map f xs h.1)

pub ok_inj : {a b : List AudienceTagResolveResult} → ok a ≡ ok b → a ≡ b
ok_inj h = ground (arith, h)

pub err_eq :
    {A B : Type 0} {e f : Error}
    → ◌≡◌ {A = Result A} (err e) (err f)
    → ◌≡◌ {A = Result B} (err e) (err f)
err_eq h = ground (arith, h)

pub IsRefused-tail :
    (casefold : String → String) (value : String) (values : List String) (e : Error)
    → IsRefused casefold values e
    → IsRefused casefold (value ∷ values) e
IsRefused-tail casefold value values e (v, m, why) = (v, Memᴰ.tail m, why)

pub err_inj :
    {e f : Error} → ◌≡◌ {A = Result (List AudienceTagResolveResult)} (err e) (err f) → e ≡ f
err_inj h = ground (arith, h)

pub is_approved_iff :
    (key : String) (s : TagState) → (is_approved key s ≡ true) ↔ (status_of key s ≡ some approved)
is_approved_iff key s = elim (Option-cases (get key s.tags)) [
  | inl e ↦ rw e (ground arith)
  | inr (tag, e) ↦ rw e (ground (arith, same_status_iff tag.status approved))
]

module _ (casefold : String → String) (ratio : String → String → ℕ) (threshold : ℕ) where
  -- an answer after some tags were resolved is one before
  pub IsAnswer-back :
      (value : String) (s t : TagState) (r : AudienceTagResolveResult)
      → IsKept s t
      → IsAnswer casefold ratio threshold value t r
      → IsAnswer casefold ratio threshold value s r
  IsAnswer-back value s t r kept a = record {
    key = a.key;
    norm = a.norm;
    how = elim a.how [
      | inl e ↦ inl e
      | inr (status, high, fresh) ↦ inr (
        status,
        high,
        elim (Bool-cases (is_approved a.key s)) [
          | inr f ↦ f
          | inl f ↦
              let later : is_approved a.key t ≡ true =
                (is_approved_iff a.key t).1
                  (kept.status a.key approved ((is_approved_iff a.key s).0 f)) in
              absurd (ground (arith, later, fresh))
        ],
      )
    ];
  }

  pub IsAsked-tail :
      (value : String) (values : List String) (s t : TagState) (r : AudienceTagResolveResult)
      → IsKept s t
      → IsAsked casefold ratio threshold values t r
      → IsAsked casefold ratio threshold (value ∷ values) s r
  IsAsked-tail value values s t r kept (v, m, key, f, a) =
      (v, Memᴰ.tail m, key, f, IsAnswer-back key s t r kept a)

  pub IsReached-tail :
      (seen : List String) (key : String) (s t : TagState) (r : AudienceTagResolveResult)
      (rs : List AudienceTagResolveResult) (v : String)
      → IsKept s t
      → IsAnswer casefold ratio threshold key s r
      → IsReached casefold ratio threshold (seen ++ key ∷ []) t rs v
      → IsReached casefold ratio threshold seen s (r ∷ rs) v
  IsReached-tail seen key s t r rs v kept a (k, f, how) = (
    k,
    f,
    elim how [
      | inr (q, m, b) ↦ inr (q, Memᴰ.tail m, IsAnswer-back k s t q kept b)
      | inl old ↦ elim (Bool-cases (has_tag k seen)) [
        | inl g ↦ inl g
        | inr g ↦
            let same : key ≡ k =
              (str_eq_iff key k).0
                (ground (arith, g, old, any_of-append (λ t. t == k) seen (key ∷ []))) in
            inr (r, Memᴰ.head refl, subst (λ j. IsAnswer casefold ratio threshold j s r) same a)
      ]
    ],
  )
