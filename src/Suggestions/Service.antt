-- ===== src/Suggestions/Service.antt =====
-- src/estateflow/services/source_suggestions.py: `SourceSuggestionService`. The registry of sources is
-- the protocol `SourceRegistry`, which the service may be without; a time is a parameter of each call.
use Prim.Native.String.{◌++◌ as join}
use estate_flow.Base.{
  ℕ, String, Bool, true, false, not, Option, none, some, if◌then◌else◌, on_option, nat_eq, str,
  ◌==◌, String_eq, [], ◌∷◌, ◌++◌, Result, Exec, pure, raise, or_raise, gets, modify, raise_if,
  ◌>>=◌, ◌>>◌, value_error, permission_error, key_error,
}
use estate_flow.Base.Dict.{get}
use estate_flow.Sources.{SourceType, SourceConfig}
use estate_flow.Suggestions.Identifier.{normalize_source_identifier}
use estate_flow.Suggestions.Stored.{
  SuggestionStatus, SuggestionStatus_eq, approved, rejected, SuggestionAction, submit, approve,
  reject, SourceSuggestion, SourceSuggestionAuditEvent, SuggestionState, submit_stored, set_status,
  audit_once, grant_premium,
}

pub record SourceRegistry (Reg : Type 0) : Type 0 where
  pub create_or_enable_source :
      SourceType → String → String → String → Exec Reg (SourceConfig × Bool)

pub record SourceSuggestionDecision : Type 0 where
  pub suggestion : SourceSuggestion
  pub created : Bool
  pub reward_until : Option ℕ
  pub source : Option SourceConfig
  pub source_created : Bool

-- `SourceSuggestionDecision(suggestion=suggestion, created=created)`
abbrev pub decision : SourceSuggestion → Bool → SourceSuggestionDecision
decision suggestion created = record {
  suggestion = suggestion;
  created = created;
  reward_until = none;
  source = none;
  source_created = false;
}

abbrev pub suggestion_event :
    SuggestionAction → String → String → ℕ → Option String → ℕ → SourceSuggestionAuditEvent
suggestion_event action key id actor note now = record {
  action = action;
  idempotency_key = key;
  suggestion_id = id;
  actor_user_id = some actor;
  note = note;
  created_at = now;
}

-- a call of `approve` or `reject`
pub record Review : Type 0 where
  pub suggestion_id : String
  pub admin_user_id : ℕ
  pub idempotency_key : String
  pub note : Option String
  pub expected_status : Option SuggestionStatus
  pub now : ℕ

-- `expected_status is not None and suggestion.status != expected_status`
abbrev pub has_status_conflict : Option SuggestionStatus → SuggestionStatus → Bool
has_status_conflict none status = false
has_status_conflict (some expected) status = not (status == expected)

abbrev pub submit_key : ℕ → String → String
submit_key user_id normalized = join "submit:" (join (str user_id) (join ":" normalized))

-- `source.source_id if source is not None else suggestion.source_id`
abbrev source_id_of : Option SourceConfig → Option String → Option String
source_id_of none kept = kept
source_id_of (some source) kept = some source.source_id

abbrev is_created : Option (SourceConfig × Bool) → Bool
is_created none = false
is_created (some (source, created)) = created

abbrev config_of : Option (SourceConfig × Bool) → Option SourceConfig
config_of none = none
config_of (some (source, created)) = some source

module _ {Reg : Type 0} where
  -- the admin notifier is told of a suggestion that is new
  abbrev pub notify_if : Bool → SourceSuggestion → Exec (SuggestionState Reg) Unit
  notify_if false suggestion = pure tt
  notify_if true suggestion =
      modify λ t. record t { notifications = t.notifications ++ suggestion ∷ [] }

  abbrev pub refuse :
      Review
      → SourceSuggestionAuditEvent
      → SourceSuggestion
      → Exec (SuggestionState Reg) SourceSuggestionDecision
  refuse r event s = do
    updated ← set_status event.suggestion_id rejected r.note s.reward_granted s.source_id r.now
    pure (decision updated true)

  -- the checks that `approve` and `reject` share, in their order, behind the audit event
  unfoldable pub checked_review :
      SuggestionStatus
      → (SourceSuggestionAuditEvent
          → SourceSuggestion
          → Exec (SuggestionState Reg) SourceSuggestionDecision)
      → Review
      → SourceSuggestionAuditEvent
      → Bool
      → Exec (SuggestionState Reg) SourceSuggestionDecision
  checked_review done decide r event created = do
    found ← gets λ t. get r.suggestion_id t.suggestions
    s ← or_raise (key_error r.suggestion_id) found
    if not created
        then pure (decision s false)
        else if has_status_conflict r.expected_status s.status
        then raise (value_error "source_suggestion_state_conflict")
        else if s.status == done
        then pure (decision s false)
        else decide event s

  unfoldable pub review :
      SuggestionAction
      → SuggestionStatus
      → (SourceSuggestionAuditEvent
          → SourceSuggestion
          → Exec (SuggestionState Reg) SourceSuggestionDecision)
      → Review
      → Exec (SuggestionState Reg) SourceSuggestionDecision
  unfolding checked_review
  review action done decide r = do
    raise_if (nat_eq r.admin_user_id 0) (permission_error "Admin reviewer id is required.")
    (event, created) ←
        audit_once
          (suggestion_event action r.idempotency_key r.suggestion_id r.admin_user_id r.note r.now)
    checked_review done decide r event created

module _ {Reg : Type 0} (registry : Option (SourceRegistry Reg)) (is_digit : ℕ → Bool)
    (premium_extension : ℕ) where
  unfoldable pub submit_suggestion :
      ℕ → String → SourceType → ℕ → Exec (SuggestionState Reg) SourceSuggestionDecision
  submit_suggestion user_id source_identifier source_type now = do
    raise_if (nat_eq user_id 0) (value_error "user_id must be positive.")
    normalized ← λ t. (normalize_source_identifier is_digit source_identifier, t)
    (suggestion, created) ← submit_stored user_id normalized source_type now
    audit_once (
        suggestion_event submit (submit_key user_id normalized) suggestion.suggestion_id user_id
          none now)
    notify_if created suggestion
    pure (decision suggestion created)

  -- a call of the registry, on its part of the state
  abbrev pub with_registry :
      Result (SourceConfig × Bool) × Reg
      → SuggestionState Reg
      → Result (SourceConfig × Bool) × SuggestionState Reg
  with_registry (r, reg) t = (r, record t { registry = reg })

  abbrev pub register : SourceSuggestion → Exec (SuggestionState Reg) (Option (SourceConfig × Bool))
  register s = on_option registry (pure none) λ r. do
    source ← λ t.
        with_registry
          (r.create_or_enable_source s.source_type s.source_identifier s.source_identifier
            "telegram_telethon" t.registry)
          t
    pure (some source)

  -- `reward_until` of `approve`
  abbrev pub reward : Option ℕ → Bool → ℕ → Exec (SuggestionState Reg) (Option ℕ)
  reward none granted now = pure none
  reward (some user_id) true now = pure none
  reward (some user_id) false now = do
    until ← grant_premium user_id premium_extension now
    pure (some until)

  -- `approve` of a suggestion that is not approved yet
  abbrev pub grant :
      Review
      → SourceSuggestionAuditEvent
      → SourceSuggestion
      → Exec (SuggestionState Reg) SourceSuggestionDecision
  grant r event s = do
    source ← register s
    until ← reward s.user_id s.reward_granted r.now
    updated ←
        set_status event.suggestion_id approved r.note true
          (source_id_of (config_of source) s.source_id) r.now
    pure (record {
      suggestion = updated;
      created = true;
      reward_until = until;
      source = config_of source;
      source_created = is_created source;
    })

  unfoldable pub approve_suggestion : Review → Exec (SuggestionState Reg) SourceSuggestionDecision
  unfolding review
  approve_suggestion r = review approve approved (grant r) r

  unfoldable pub reject_suggestion : Review → Exec (SuggestionState Reg) SourceSuggestionDecision
  unfolding review
  reject_suggestion r = review reject rejected (refuse r) r
