-- ===== src/Suggestions/Rewarded.antt =====
-- src/estateflow/services/source_suggestions.py: the reward for a suggestion is granted once.
use estate_flow.Base.{
  ℕ, String, Bool, true, false, ◌≡◌, refl, inl, inr, Option, none, some, String_eq, ℕ_eq, List, [],
  ◌∷◌, Result, ok, err, or_raise, Error, after, pure,
}
use estate_flow.Base.Invariants.{
  Preserves, preserves_rules, Preserves-pure, Preserves-bind, Preserves-on_option,
}
use estate_flow.Base.Dict.{Dict}
use estate_flow.Sources.{SourceType}
use estate_flow.Suggestions.Stored.{
  SuggestionStatus, SuggestionStatus_eq, approved, rejected, approve, reject, SourceSuggestion,
  SourceSuggestionAuditEvent, SuggestionState, store, set_status, grant_premium,
}
use estate_flow.Suggestions.Service.{
  SourceRegistry, Review, decision, suggestion_event, refuse, register, reward, grant,
  submit_suggestion, approve_suggestion, reject_suggestion,
}
use estate_flow.Suggestions.Outcomes.{Outcome, IsUndecided, audited, review-cases}
use estate_flow.Suggestions.Keys.{Call, submits, approves, rejects, step, run}
use estate_flow.Suggestions.Granted.{
  IsRewarded, same_granted, same_dicts, same_state, submit_stored-Preserves, frame-IsRewarded,
  audit_once-IsRewarded, notify_if-IsRewarded, set_status-IsRewarded, set_granted-Preserves,
}

module _ {Reg : Type 0} (id : String) where
  after_status :
      (r : Review) (x : SourceSuggestion) (o : Result SourceSuggestion × SuggestionState Reg)
      → IsRewarded id o.1
      → IsRewarded id (after o.0 o.1 λ u. pure (decision u true)).1
  after_status r x (ok u, t) h = h
  after_status r x (err e, t) h = h

  module _ (registry : Option (SourceRegistry Reg)) (is_digit : ℕ → Bool) (extension : ℕ) where
    submit_suggestion-IsRewarded :
        (user : ℕ) (identifier : String) (type : SourceType) (now : ℕ)
        → Preserves
            (IsRewarded id)
            (submit_suggestion registry is_digit extension user identifier type now)
    unfolding submit_suggestion
    submit_suggestion-IsRewarded user identifier type now =
        search
          (
            preserves_rules,
            same_state id,
            submit_stored-Preserves id,
            audit_once-IsRewarded id,
            notify_if-IsRewarded id,
          )
          depth 16

    grant_premium-IsRewarded :
        (user now : ℕ) → Preserves (IsRewarded {Reg = Reg} id) (grant_premium user extension now)
    grant_premium-IsRewarded user now = frame-IsRewarded id _ (λ t. refl) (λ t. refl)

    reward-IsRewarded :
        (user : Option ℕ) (granted : Bool) (now : ℕ)
        → Preserves (IsRewarded id) (reward registry is_digit extension user granted now)
    reward-IsRewarded none granted now = Preserves-pure none
    reward-IsRewarded (some user) true now = Preserves-pure none
    reward-IsRewarded (some user) false now =
        search (preserves_rules, grant_premium-IsRewarded) depth 12

    register-IsRewarded :
        (s : SourceSuggestion) → Preserves (IsRewarded id) (register registry is_digit extension s)
    register-IsRewarded s = Preserves-on_option registry _ _ (Preserves-pure none) (λ r.
        Preserves-bind _ _ (frame-IsRewarded id _ (λ t. refl) (λ t. refl))
          λ source. Preserves-pure (some source))

    grant-IsRewarded :
        (r : Review) (event : SourceSuggestionAuditEvent) (s : SourceSuggestion)
        → Preserves (IsRewarded id) (grant registry is_digit extension r event s)
    grant-IsRewarded r event s =
        search (preserves_rules, register-IsRewarded, reward-IsRewarded, set_granted-Preserves id)
          depth 14

    undecided :
        (r : Review) (s : SuggestionState Reg) (o : Outcome Reg)
        → IsUndecided r s o
        → IsRewarded id s
        → IsRewarded id o.1
    undecided r s o u h = same_dicts id s o.1 u.suggestions u.by_identifier h

    approve_suggestion-IsRewarded :
        (r : Review) (s : SuggestionState Reg)
        → IsRewarded id s
        → IsRewarded id (approve_suggestion registry is_digit extension r s).1
    unfolding approve_suggestion
    approve_suggestion-IsRewarded r s h =
        elim (review-cases approve approved (grant registry is_digit extension r) r s) [
          | inl u ↦ undecided r s _ u h
          | inr t ↦ rw t.result (
              (grant-IsRewarded r
                  (suggestion_event approve r.idempotency_key r.suggestion_id r.admin_user_id r.note
                    r.now)
                  t.suggestion).holds
                _ (same_dicts id s _ refl refl h))
        ]

    reject_suggestion-IsRewarded :
        (r : Review) (s : SuggestionState Reg)
        → IsRewarded id s
        → IsRewarded id (reject_suggestion registry is_digit extension r s).1
    unfolding reject_suggestion
    reject_suggestion-IsRewarded r s h = elim (review-cases reject rejected (refuse r) r s) [
      | inl u ↦ undecided r s _ u h
      | inr t ↦
          let kept =
            set_status-IsRewarded id r.suggestion_id rejected r.note t.suggestion.reward_granted
              t.suggestion.source_id r.now (audited reject r s)
              (same_granted id s r.suggestion_id t.suggestion h t.stored)
              (same_dicts id s (audited reject r s) refl refl h) in
          rw t.result (
            after_status r t.suggestion
              (set_status r.suggestion_id rejected r.note t.suggestion.reward_granted
                t.suggestion.source_id r.now (audited reject r s))
              kept)
    ]

    pub run-IsRewarded :
        (cs : List Call) (s : SuggestionState Reg)
        → IsRewarded id s
        → IsRewarded id (run registry is_digit extension s cs)
    unfolding run step
    run-IsRewarded [] s h = h
    run-IsRewarded (submits user identifier type now ∷ cs) s h =
        run-IsRewarded cs _ ((submit_suggestion-IsRewarded user identifier type now).holds s h)
    run-IsRewarded (approves r ∷ cs) s h = run-IsRewarded cs _ (approve_suggestion-IsRewarded r s h)
    run-IsRewarded (rejects r ∷ cs) s h = run-IsRewarded cs _ (reject_suggestion-IsRewarded r s h)

module _ {Reg : Type 0} (premium : Dict ℕ ℕ) where
  -- the premium of every user is as it was
  abbrev IsSame : SuggestionState Reg → Type 0
  IsSame s = s.premium_until ≡ premium

  store-IsSame : (s : SourceSuggestion) (name : String) → Preserves IsSame (store s name)
  store-IsSame s name = record { holds = λ t h. h }

  raise-IsSame : {A : Type 0} (e : Error) (o : Option A) → Preserves IsSame (or_raise e o)
  raise-IsSame e none = record { holds = λ s h. h }
  raise-IsSame e (some a) = record { holds = λ s h. h }

  set_status-IsSame :
      (name : String) (status : SuggestionStatus) (remark : Option String) (granted : Bool)
      (source_id : Option String) (now : ℕ)
      → Preserves IsSame (set_status name status remark granted source_id now)
  set_status-IsSame name status remark granted source_id now =
      search (preserves_rules, store-IsSame, raise-IsSame) depth 14

  module _ (registry : Option (SourceRegistry Reg)) (is_digit : ℕ → Bool) (extension : ℕ) where
    register-IsSame :
        (s : SourceSuggestion) → Preserves IsSame (register registry is_digit extension s)
    register-IsSame s = Preserves-on_option registry _ _ (Preserves-pure none) (λ r.
        Preserves-bind _ _ (record { holds = λ t h. h }) λ source. Preserves-pure (some source))

    reward-IsSame :
        (user : Option ℕ) (granted : Bool) (now : ℕ)
        → granted ≡ true
        → Preserves IsSame (reward registry is_digit extension user granted now)
    reward-IsSame none granted now h = Preserves-pure none
    reward-IsSame (some user) true now h = Preserves-pure none
    reward-IsSame (some user) false now h = cc

    grant-IsSame :
        (r : Review) (event : SourceSuggestionAuditEvent) (s : SourceSuggestion)
        → s.reward_granted ≡ true
        → Preserves IsSame (grant registry is_digit extension r event s)
    grant-IsSame r event s g =
        search (preserves_rules, register-IsSame, reward-IsSame, set_status-IsSame) depth 14

module _ {Reg : Type 0} (registry : Option (SourceRegistry Reg)) (is_digit : ℕ → Bool)
    (extension : ℕ) where
  approve_suggestion-premium :
      (id : String) (r : Review) (s : SuggestionState Reg)
      → IsRewarded id s
      → r.suggestion_id ≡ id
      → (approve_suggestion registry is_digit extension r s).1.premium_until ≡ s.premium_until
  unfolding approve_suggestion
  approve_suggestion-premium id r s h same =
      elim (review-cases approve approved (grant registry is_digit extension r) r s) [
        | inl u ↦ u.premium_until
        | inr t ↦ rw t.result (
            (grant-IsSame s.premium_until registry is_digit extension r
                (suggestion_event approve r.idempotency_key r.suggestion_id r.admin_user_id r.note
                  r.now)
                t.suggestion (same_granted id s r.suggestion_id t.suggestion h t.stored same)).holds
              (audited approve r s) refl)
      ]

  -- Once the reward for a suggestion is granted, then after any calls, a rejection and a new
  -- submission among them, its reward is still granted, and no approval of it changes the premium of
  -- any user.
  pub run-rewards_once :
      (id : String) (s : SuggestionState Reg) (cs : List Call) (r : Review)
      → IsRewarded id s
      → r.suggestion_id ≡ id
      → let t = run registry is_digit extension s cs in
        IsRewarded id t
        × ((approve_suggestion registry is_digit extension r t).1.premium_until ≡ t.premium_until)
  run-rewards_once id s cs r h same =
      let kept = run-IsRewarded id registry is_digit extension cs s h in
      (kept, approve_suggestion-premium id r _ kept same)
