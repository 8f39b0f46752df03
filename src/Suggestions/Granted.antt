-- ===== src/Suggestions/Granted.antt =====
-- src/estateflow/services/source_suggestions.py: what keeps a suggestion whose
-- reward is granted.
use Prim.Native.String.{◌∷◌ as cons, [] as empty, ◌++◌ as join}
use Prim.Native.String.append
use estate_flow.Base.{
  ℕ, String, Bool, true, false, ◌≡◌, refl, sym, ap, ◌∙◌, ◌≢◌, inl, inr, Option, none, some, ◌==◌,
  String_eq, ℕ_eq, str_eq_iff, Bool-cases, Option-cases, Result, Exec, arith, or_raise, Error,
}
use estate_flow.Base.Invariants.{Preserves, Preserves-pure}
use estate_flow.Base.Dict.{get, get-put}
use estate_flow.Sources.{SourceType}
use estate_flow.Suggestions.Stored.{
  SuggestionStatus, SuggestionStatus_eq, rejected, SourceSuggestion, SourceSuggestionAuditEvent,
  SuggestionState, store, submit_known, submit_new, submit_stored, is_other, reopened, set_status,
  audit_once, decided,
}
use estate_flow.Suggestions.Service.{notify_if}

tail_of : String → String
tail_of empty = empty
tail_of (cons c s) = s

join_inj : (p s t : String) → join p s ≡ join p t → s ≡ t
join_inj empty s t h = sym (append.nil s) ∙ (h ∙ append.nil t)
join_inj (cons c p) s t h =
    join_inj p s t
      (unfold tail_of in ap tail_of (sym (append.cons c p s) ∙ (h ∙ append.cons c p t)))

-- The suggestion of that id is stored under it, found by its identifier, and its reward is granted.
pub record IsRewarded {Reg : Type 0} (id : String) (s : SuggestionState Reg) : Type 0 where
  pub identifier : String
  pub known : get identifier s.by_identifier ≡ some id
  pub named : id ≡ join "source:" identifier
  pub suggestion : SourceSuggestion
  pub stored : get id s.suggestions ≡ some suggestion
  pub granted : suggestion.reward_granted ≡ true

module _ {Reg : Type 0} (id : String) where
  pub same_dicts :
      (s t : SuggestionState Reg)
      → t.suggestions ≡ s.suggestions
      → t.by_identifier ≡ s.by_identifier
      → IsRewarded id s
      → IsRewarded id t
  same_dicts s t e f h = record {
    identifier = h.identifier;
    known = rw f h.known;
    named = h.named;
    suggestion = h.suggestion;
    stored = rw e h.stored;
    granted = h.granted;
  }

  pub store-IsRewarded :
      (x : SourceSuggestion) (name : String) (s : SuggestionState Reg)
      → (name ≡ id → x.reward_granted ≡ true)
      → IsRewarded id s
      → IsRewarded id (store x name s).1
  store-IsRewarded x name s g h = elim (Bool-cases (name == id)) [
    | inl e ↦ record {
      identifier = h.identifier;
      known = h.known;
      named = h.named;
      suggestion = x;
      stored = get-put name id x s.suggestions ∙ (rw e refl);
      granted = g ((str_eq_iff name id).0 e);
    }
    | inr e ↦ record {
      identifier = h.identifier;
      known = h.known;
      named = h.named;
      suggestion = h.suggestion;
      stored = get-put name id x s.suggestions ∙ (rw e h.stored);
      granted = h.granted;
    }
  ]

  pub same_granted :
      (s : SuggestionState Reg) (name : String) (x : SourceSuggestion)
      → IsRewarded id s
      → get name s.suggestions ≡ some x
      → name ≡ id
      → x.reward_granted ≡ true
  same_granted s name x h e same =
      let both : some h.suggestion ≡ some x = sym h.stored ∙ (rw (← same) e) in
      ground (arith, both, h.granted)

  pub submit_known-IsRewarded :
      (user : ℕ) (type : SourceType) (now : ℕ) (name : String) (x : SourceSuggestion)
      (s : SuggestionState Reg)
      → get name s.suggestions ≡ some x
      → IsRewarded id s
      → IsRewarded id (submit_known user type now name x s).1
  unfolding submit_known
  submit_known-IsRewarded user type now name x s e h =
      let kept = store-IsRewarded (reopened user type now x) name s (same_granted s name x h e) h in
      elim (Bool-cases (x.status == rejected)) [
        | inr f ↦ rw f h
        | inl f ↦ elim (Bool-cases (is_other user x.user_id)) [
          | inl g ↦ rw (f, g) h
          | inr g ↦ rw (f, g) kept
        ]
      ]

  pub submit_new-IsRewarded :
      (user : ℕ) (identifier : String) (type : SourceType) (now : ℕ) (s : SuggestionState Reg)
      → get identifier s.by_identifier ≡ none
      → IsRewarded id s
      → IsRewarded id (submit_new user identifier type now s).1
  unfolding submit_new
  submit_new-IsRewarded user identifier type now s e h =
      let fresh : identifier ≢ h.identifier =
        λ same. absurd (ground (arith, e, h.known, ap (λ i. get i s.by_identifier) same)) in
      let other : join "source:" identifier ≢ id =
        λ same. fresh (join_inj "source:" identifier h.identifier (same ∙ h.named)) in
      record {
        identifier = h.identifier;
        known =
            get-put identifier h.identifier _ s.by_identifier
            ∙ ground (arith, fresh, h.known, str_eq_iff identifier h.identifier);
        named = h.named;
        suggestion = h.suggestion;
        stored =
            get-put (join "source:" identifier) id _ s.suggestions
            ∙ ground (arith, other, h.stored, str_eq_iff (join "source:" identifier) id);
        granted = h.granted;
      }

  pub submit_stored-IsRewarded :
      (user : ℕ) (identifier : String) (type : SourceType) (now : ℕ) (s : SuggestionState Reg)
      → IsRewarded id s
      → IsRewarded id (submit_stored user identifier type now s).1
  submit_stored-IsRewarded user identifier type now s h =
      elim (Option-cases (get identifier s.by_identifier)) [
        | inl e ↦ rw e (submit_new-IsRewarded user identifier type now s e h)
        | inr (name, e) ↦ elim (Option-cases (get name s.suggestions)) [
          | inl f ↦ rw (e, f) h
          | inr (x, f) ↦ rw (e, f) (submit_known-IsRewarded user type now name x s f h)
        ]
      ]

  -- what does not touch the suggestions
  pub frame-IsRewarded :
      {A : Type 0} (m : Exec (SuggestionState Reg) A)
      → ((s : SuggestionState Reg) → (m s).1.suggestions ≡ s.suggestions)
      → ((s : SuggestionState Reg) → (m s).1.by_identifier ≡ s.by_identifier)
      → Preserves (IsRewarded id) m
  frame-IsRewarded m e f = record { holds = λ s. same_dicts s (m s).1 (e s) (f s) }

  pub audit_once-IsRewarded :
      (event : SourceSuggestionAuditEvent)
      → Preserves (IsRewarded {Reg = Reg} id) (audit_once event)
  audit_once-IsRewarded event = record {
    holds = λ s h. elim (Option-cases (get event.idempotency_key s.audit_events)) [
      | inl e ↦ rw e (same_dicts s _ refl refl h)
      | inr (old, e) ↦ rw e h
    ];
  }

  pub notify_if-IsRewarded :
      (created : Bool) (s : SourceSuggestion)
      → Preserves (IsRewarded {Reg = Reg} id) (notify_if created s)
  notify_if-IsRewarded true s = frame-IsRewarded _ (λ t. refl) (λ t. refl)
  notify_if-IsRewarded false s = Preserves-pure tt

  pub or_raise-IsRewarded :
      {A : Type 0} (e : Error) (o : Option A) → Preserves (IsRewarded {Reg = Reg} id) (or_raise e o)
  or_raise-IsRewarded e none = record { holds = λ s h. h }
  or_raise-IsRewarded e (some a) = record { holds = λ s h. h }

  -- a decision on a stored suggestion that keeps its reward, or that grants it
  pub set_status-IsRewarded :
      (name : String) (status : SuggestionStatus) (remark : Option String) (granted : Bool)
      (source_id : Option String) (now : ℕ) (s : SuggestionState Reg)
      → (name ≡ id → granted ≡ true)
      → IsRewarded id s
      → IsRewarded id (set_status name status remark granted source_id now s).1
  set_status-IsRewarded name status remark granted source_id now s g h =
      elim (Option-cases (get name s.suggestions)) [
        | inl e ↦ rw e h
        | inr (x, e) ↦
            let kept =
              store-IsRewarded (decided status remark granted source_id now x) name s g h in
            rw e kept
      ]

  pub submit_stored-Preserves :
      (user : ℕ) (identifier : String) (type : SourceType) (now : ℕ)
      → Preserves (IsRewarded {Reg = Reg} id) (submit_stored user identifier type now)
  submit_stored-Preserves user identifier type now = record {
    holds = submit_stored-IsRewarded user identifier type now;
  }

  pub same_state : {A : Type 0} (r : Result A) → Preserves (IsRewarded {Reg = Reg} id) (λ t. (r, t))
  same_state r = record { holds = λ s h. h }

  pub set_granted-Preserves :
      (name : String) (status : SuggestionStatus) (remark source_id : Option String) (now : ℕ)
      → Preserves (IsRewarded {Reg = Reg} id) (set_status name status remark true source_id now)
  set_granted-Preserves name status remark source_id now = record {
    holds = λ s. set_status-IsRewarded name status remark true source_id now s λ _. refl;
  }
