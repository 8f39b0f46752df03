-- ===== src/Suggestions/Outcomes.antt =====
-- src/estateflow/services/source_suggestions.py: how a review ends, before its decision or with it.
use estate_flow.Base.{
  String, true, false, ◌≡◌, refl, ◌⊎◌, inl, inr, none, some, nat_eq, ◌==◌, String_eq, is_some,
  Bool-cases, Option-cases, Result, ok, Exec, arith,
}
use estate_flow.Base.Dict.{Dict, get, put}
use estate_flow.Suggestions.Stored.{
  SuggestionStatus, SuggestionStatus_eq, SuggestionAction, SourceSuggestion,
  SourceSuggestionAuditEvent, SuggestionState,
}
use estate_flow.Suggestions.Service.{
  Review, SourceSuggestionDecision, decision, suggestion_event, has_status_conflict, checked_review,
  review,
}

abbrev pub Outcome : Type 0 → Type 0
Outcome Reg = Result SourceSuggestionDecision × SuggestionState Reg

module _ {Reg : Type 0} where
  -- Nothing is decided: at most the audit event of the call is new.
  pub record IsUndecided (r : Review) (s : SuggestionState Reg) (o : Outcome Reg) : Type 0 where
    pub suggestions : o.1.suggestions ≡ s.suggestions
    pub by_identifier : o.1.by_identifier ≡ s.by_identifier
    pub premium_until : o.1.premium_until ≡ s.premium_until

  abbrev pub audited : SuggestionAction → Review → SuggestionState Reg → SuggestionState Reg
  audited action r s = record s {
    audit_events =
        put r.idempotency_key
          (suggestion_event action r.idempotency_key r.suggestion_id r.admin_user_id r.note r.now)
          s.audit_events;
  }

  module _ (action : SuggestionAction) (done : SuggestionStatus)
      (decide : SourceSuggestionAuditEvent
        → SourceSuggestion
        → Exec (SuggestionState Reg) SourceSuggestionDecision)
      (r : Review) (s : SuggestionState Reg) where
    abbrev outcome : Outcome Reg
    outcome = review action done decide r s

    -- The decision is taken about the stored suggestion, under a key that is new.
    pub record IsTaken : Type 0 where
      pub suggestion : SourceSuggestion
      pub stored : get r.suggestion_id s.suggestions ≡ some suggestion
      pub fresh : get r.idempotency_key s.audit_events ≡ none
      pub status : (suggestion.status == done) ≡ false
      pub expected : has_status_conflict r.expected_status suggestion.status ≡ false
      pub result :
          outcome
          ≡ decide
              (suggestion_event action r.idempotency_key r.suggestion_id r.admin_user_id r.note
                r.now)
              suggestion
              (audited action r s)

    -- A call under a used key changes nothing.
    pub review-used :
        is_some (get r.idempotency_key s.audit_events) ≡ true
        → nat_eq r.admin_user_id 0 ≡ false
        → (sug : SourceSuggestion) → get r.suggestion_id s.suggestions ≡ some sug
        → outcome ≡ (ok (decision sug false), s)
    unfolding review checked_review
    review-used h admin sug e = elim (Option-cases (get r.idempotency_key s.audit_events)) [
      | inl f ↦ absurd (ground (arith, h, f))
      | inr (event, f) ↦ rw (admin, f, e) refl
    ]

    pub review-cases : IsUndecided r s outcome ⊎ IsTaken
    unfolding review checked_review
    review-cases = elim (Bool-cases (nat_eq r.admin_user_id 0)) [
      | inl a ↦ rw a (inl undecided)
      | inr a ↦ elim (Option-cases (get r.suggestion_id s.suggestions)) [
        | inl f ↦ elim (Option-cases (get r.idempotency_key s.audit_events)) [
          | inl e ↦ rw (a, e, f) (inl undecided)
          | inr (event, e) ↦ rw (a, e, f) (inl undecided)
        ]
        | inr (sug, f) ↦ elim (Option-cases (get r.idempotency_key s.audit_events)) [
          | inr (event, e) ↦ rw (a, e, f) (inl undecided)
          | inl e ↦ elim (Bool-cases (has_status_conflict r.expected_status sug.status)) [
            | inl c ↦ rw (a, e, f, c) (inl undecided)
            | inr c ↦ elim (Bool-cases (sug.status == done)) [
              | inl d ↦ rw (a, e, f, c, d) (inl undecided)
              | inr d ↦ inr (record {
                suggestion = sug;
                stored = f;
                fresh = e;
                status = d;
                expected = c;
                result = rw (a, e, f, c, d) refl;
              })
            ]
          ]
        ]
      ]
    ]
      where
        undecided :
            {x : Result SourceSuggestionDecision} {audit : Dict String SourceSuggestionAuditEvent}
            → IsUndecided r s (x, record s { audit_events = audit })
        undecided = record { suggestions = refl; by_identifier = refl; premium_until = refl }
