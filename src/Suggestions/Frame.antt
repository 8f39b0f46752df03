-- ===== src/Suggestions/Frame.antt =====
-- src/estateflow/services/source_suggestions.py: what the calls keep of the audit events.
use estate_flow.Base.{
  ℕ, String, Bool, true, false, ◌≡◌, refl, inl, inr, Option, none, some, nat_eq, ◌==◌, String_eq,
  is_some, str_eq_iff, Option-cases, Result, ok, err, Exec, if◌then◌else◌, or_raise, Error, modify,
  after,
}
use estate_flow.Base.Invariants.{
  Preserves, preserves_rules, Preserves-modify, Preserves-pure, Preserves-bind, Preserves-on_option,
}
use estate_flow.Base.Dict.{get, get-put}
use estate_flow.Sources.{SourceType}
use estate_flow.Suggestions.Stored.{
  SuggestionStatus, SuggestionStatus_eq, approved, rejected, approve, reject, SuggestionAction,
  SourceSuggestion, SourceSuggestionAuditEvent, SuggestionState, store, submit_known, submit_new,
  submit_stored, set_status, audit_once, grant_premium,
}
use estate_flow.Suggestions.Service.{
  SourceRegistry, Review, SourceSuggestionDecision, suggestion_event, notify_if, refuse,
  checked_review, review, register, reward, grant, submit_suggestion, approve_suggestion,
  reject_suggestion,
}

-- The audit events have an event of the key.
pub record HasKey {Reg : Type 0} (key : String) (s : SuggestionState Reg) : Type 0 where
  pub used : is_some (get key s.audit_events) ≡ true

added :
    (b : Bool) (o : Option SourceSuggestionAuditEvent) (event : SourceSuggestionAuditEvent)
    → is_some o ≡ true
    → is_some (if b then some event else o) ≡ true
added true o event i = refl
added false o event i = i

module _ {Reg : Type 0} (key : String) where
  same_events :
      (s t : SuggestionState Reg) → t.audit_events ≡ s.audit_events → HasKey key s → HasKey key t
  same_events s t e h = record { used = rw e h.used }

  audit_once-HasKey :
      (event : SourceSuggestionAuditEvent) → Preserves (HasKey {Reg = Reg} key) (audit_once event)
  audit_once-HasKey event = record {
    holds = λ s h. elim (Option-cases (get event.idempotency_key s.audit_events)) [
      | inr (old, e) ↦ rw e h
      | inl e ↦ rw e (record {
        used =
            rw get-put (added (event.idempotency_key == key) (get key s.audit_events) event h.used);
      })
    ];
  }

  -- The key of an event is used once the event was audited.
  audit_once-used :
      (event : SourceSuggestionAuditEvent) (s : SuggestionState Reg)
      → event.idempotency_key ≡ key
      → HasKey key (audit_once event s).1
  audit_once-used event s same = elim (Option-cases (get event.idempotency_key s.audit_events)) [
    | inr (old, e) ↦ rw e (record { used = rw (← same, e) refl })
    | inl e ↦
        rw e (record { used = rw (get-put, (str_eq_iff event.idempotency_key key).1 same) refl })
  ]

  modify-HasKey :
      (f : SuggestionState Reg → SuggestionState Reg)
      → ((s : SuggestionState Reg) → (f s).audit_events ≡ s.audit_events)
      → Preserves (HasKey key) (modify f)
  modify-HasKey f e = Preserves-modify f λ s. same_events s (f s) (e s)

  store-HasKey :
      (s : SourceSuggestion) (id : String) → Preserves (HasKey {Reg = Reg} key) (store s id)
  store-HasKey s id = modify-HasKey _ λ t. refl

  or_raise-HasKey :
      {A : Type 0} (e : Error) (o : Option A) → Preserves (HasKey {Reg = Reg} key) (or_raise e o)
  or_raise-HasKey e none = record { holds = λ s h. h }
  or_raise-HasKey e (some a) = record { holds = λ s h. h }

  submit_known-HasKey :
      (user : ℕ) (type : SourceType) (now : ℕ) (id : String) (s : SourceSuggestion)
      → Preserves (HasKey {Reg = Reg} key) (submit_known user type now id s)
  unfolding submit_known
  submit_known-HasKey user type now id s = search (preserves_rules, store-HasKey) depth 14

  submit_new-HasKey :
      (user : ℕ) (identifier : String) (type : SourceType) (now : ℕ)
      → Preserves (HasKey {Reg = Reg} key) (submit_new user identifier type now)
  unfolding submit_new
  submit_new-HasKey user identifier type now = record { holds = λ s. same_events s _ refl }

  set_status-HasKey :
      (id : String) (status : SuggestionStatus) (remark : Option String) (granted : Bool)
      (source_id : Option String) (now : ℕ)
      → Preserves (HasKey {Reg = Reg} key) (set_status id status remark granted source_id now)
  set_status-HasKey id status remark granted source_id now =
      search (preserves_rules, store-HasKey, or_raise-HasKey) depth 14

  notify_if-HasKey :
      (created : Bool) (s : SourceSuggestion)
      → Preserves (HasKey {Reg = Reg} key) (notify_if created s)
  notify_if-HasKey true s = modify-HasKey _ λ t. refl
  notify_if-HasKey false s = Preserves-pure tt

  checked_review-HasKey :
      (done : SuggestionStatus)
      (decide : SourceSuggestionAuditEvent
        → SourceSuggestion
        → Exec (SuggestionState Reg) SourceSuggestionDecision)
      (r : Review) (event : SourceSuggestionAuditEvent) (created : Bool)
      → ((e : SourceSuggestionAuditEvent) (s : SourceSuggestion)
          → Preserves (HasKey key) (decide e s))
      → Preserves (HasKey key) (checked_review done decide r event created)
  unfolding checked_review
  checked_review-HasKey done decide r event created h =
      search (preserves_rules, or_raise-HasKey, h) depth 14

  module _ (registry : Option (SourceRegistry Reg)) (is_digit : ℕ → Bool) (extension : ℕ) where
    grant_premium-HasKey :
        (user now : ℕ) → Preserves (HasKey {Reg = Reg} key) (grant_premium user extension now)
    grant_premium-HasKey user now = record { holds = λ s. same_events s _ refl }

    reward-HasKey :
        (user : Option ℕ) (granted : Bool) (now : ℕ)
        → Preserves (HasKey key) (reward registry is_digit extension user granted now)
    reward-HasKey none granted now = Preserves-pure none
    reward-HasKey (some user) true now = Preserves-pure none
    reward-HasKey (some user) false now = search (preserves_rules, grant_premium-HasKey) depth 12

    register-HasKey :
        (s : SourceSuggestion) → Preserves (HasKey key) (register registry is_digit extension s)
    register-HasKey s = Preserves-on_option registry _ _ (Preserves-pure none) (λ r.
        Preserves-bind _ _ (record { holds = λ t. same_events t _ refl })
          λ source. Preserves-pure (some source))

    grant-HasKey :
        (r : Review) (event : SourceSuggestionAuditEvent) (s : SourceSuggestion)
        → Preserves (HasKey key) (grant registry is_digit extension r event s)
    grant-HasKey r event s =
        search (preserves_rules, register-HasKey, reward-HasKey, set_status-HasKey) depth 14

    refuse-HasKey :
        (r : Review) (event : SourceSuggestionAuditEvent) (s : SourceSuggestion)
        → Preserves (HasKey {Reg = Reg} key) (refuse r event s)
    refuse-HasKey r event s = search (preserves_rules, set_status-HasKey) depth 12

    pub approve_suggestion-HasKey :
        (r : Review) → Preserves (HasKey key) (approve_suggestion registry is_digit extension r)
    unfolding approve_suggestion review
    approve_suggestion-HasKey r =
        search (preserves_rules, audit_once-HasKey, checked_review-HasKey, grant-HasKey) depth 14

    pub reject_suggestion-HasKey :
        (r : Review) → Preserves (HasKey key) (reject_suggestion registry is_digit extension r)
    unfolding reject_suggestion review
    reject_suggestion-HasKey r =
        search (preserves_rules, audit_once-HasKey, checked_review-HasKey, refuse-HasKey) depth 14

    submit_stored-HasKey :
        (user : ℕ) (identifier : String) (type : SourceType) (now : ℕ)
        → Preserves (HasKey {Reg = Reg} key) (submit_stored user identifier type now)
    submit_stored-HasKey user identifier type now =
        search (preserves_rules, or_raise-HasKey, submit_known-HasKey, submit_new-HasKey) depth 14

    same_state : {A : Type 0} (r : Result A) → Preserves (HasKey {Reg = Reg} key) (λ t. (r, t))
    same_state r = record { holds = λ s h. h }

    pub submit_suggestion-HasKey :
        (user : ℕ) (identifier : String) (type : SourceType) (now : ℕ)
        → Preserves
            (HasKey key)
            (submit_suggestion registry is_digit extension user identifier type now)
    unfolding submit_suggestion
    submit_suggestion-HasKey user identifier type now =
        search
          (preserves_rules, same_state, submit_stored-HasKey, audit_once-HasKey, notify_if-HasKey)
          depth 16

  after_audit :
      (done : SuggestionStatus)
      (decide : SourceSuggestionAuditEvent
        → SourceSuggestion
        → Exec (SuggestionState Reg) SourceSuggestionDecision)
      (r : Review) (o : Result (SourceSuggestionAuditEvent × Bool) × SuggestionState Reg)
      → ((e : SourceSuggestionAuditEvent) (s : SourceSuggestion)
          → Preserves (HasKey key) (decide e s))
      → HasKey key o.1
      → HasKey key (after o.0 o.1 λ e. checked_review done decide r e.0 e.1).1
  after_audit done decide r (ok e, t) k h =
      (checked_review-HasKey done decide r e.0 e.1 k).holds t h
  after_audit done decide r (err e, t) k h = h

  pub review-HasKey :
      (action : SuggestionAction) (done : SuggestionStatus)
      (decide : SourceSuggestionAuditEvent
        → SourceSuggestion
        → Exec (SuggestionState Reg) SourceSuggestionDecision)
      (r : Review) (s : SuggestionState Reg)
      → ((e : SourceSuggestionAuditEvent) (s : SourceSuggestion)
          → Preserves (HasKey key) (decide e s))
      → nat_eq r.admin_user_id 0 ≡ false
      → r.idempotency_key ≡ key
      → HasKey key (review action done decide r s).1
  unfolding review
  review-HasKey action done decide r s k admin same =
      let event =
        suggestion_event action r.idempotency_key r.suggestion_id r.admin_user_id r.note r.now in
      rw admin (after_audit done decide r (audit_once event s) k (audit_once-used event s same))

-- The key of a review is used after it, whether it returned or raised.
module _ {Reg : Type 0} (registry : Option (SourceRegistry Reg)) (is_digit : ℕ → Bool)
    (extension : ℕ) (r : Review) (s : SuggestionState Reg)
    (admin : nat_eq r.admin_user_id 0 ≡ false) where
  pub approve_suggestion-used :
      HasKey r.idempotency_key (approve_suggestion registry is_digit extension r s).1
  unfolding approve_suggestion
  approve_suggestion-used =
      review-HasKey r.idempotency_key approve approved (grant registry is_digit extension r) r s
        (grant-HasKey r.idempotency_key registry is_digit extension r) admin refl

  pub reject_suggestion-used :
      HasKey r.idempotency_key (reject_suggestion registry is_digit extension r s).1
  unfolding reject_suggestion
  reject_suggestion-used =
      review-HasKey r.idempotency_key reject rejected (refuse r) r s
        (refuse-HasKey r.idempotency_key registry is_digit extension r) admin refl
