-- ===== src/Suggestions/Stored.antt =====
-- src/estateflow/services/source_suggestions.py: suggestions, their audit events, and
-- `InMemorySourceSuggestionRepository`. The notifications of the reviewers, and the registry of the
-- sources that approvals write to, stand beside the repository in the state.
use Prim.Native.String.{◌++◌ as join}
use estate_flow.Base.{
  ℕ, ◌+◌, String, Bool, true, false, not, List, Option, none, some, if◌then◌else◌, on_option,
  nat_eq, leb, ltb, ◌==◌, String_eq, ℕ_eq, str_leb, keep_if, Eq, ◌≡◌, ◌↔◌, arith, Exec, pure,
  or_raise, gets, modify, ◌>>=◌, ◌>>◌, key_error,
}
use estate_flow.Base.Dict.{Dict, get, put, values}
use estate_flow.Base.Sort.{sort_by, then_by}
use estate_flow.Sources.{SourceType}

pub data SuggestionStatus : Type 0 where
  pending approved rejected : SuggestionStatus

abbrev index : SuggestionStatus → ℕ
index pending = 0
index approved = 1
index rejected = 2

pub same_status_iff : (a b : SuggestionStatus) → (nat_eq (index a) (index b) ≡ true) ↔ (a ≡ b)
same_status_iff a b = ground arith

instance abbrev pub SuggestionStatus_eq : Eq SuggestionStatus
SuggestionStatus_eq = record { same = λ a b. nat_eq (index a) (index b); agrees = same_status_iff }

pub data SuggestionAction : Type 0 where
  submit approve reject : SuggestionAction

pub record SourceSuggestion : Type 0 where
  pub suggestion_id : String
  pub source_identifier : String
  pub user_id : Option ℕ
  pub source_type : SourceType
  pub status : SuggestionStatus
  pub admin_note : Option String
  pub reward_granted : Bool
  pub source_id : Option String
  pub created_at : ℕ
  pub updated_at : ℕ
  pub decided_at : Option ℕ

pub record SourceSuggestionAuditEvent : Type 0 where
  pub action : SuggestionAction
  pub idempotency_key : String
  pub suggestion_id : String
  pub actor_user_id : Option ℕ
  pub note : Option String
  pub created_at : ℕ

pub record SuggestionState (Reg : Type 0) : Type 0 where
  pub suggestions : Dict String SourceSuggestion
  pub by_identifier : Dict String String
  pub audit_events : Dict String SourceSuggestionAuditEvent
  pub premium_until : Dict ℕ ℕ
  pub notifications : List SourceSuggestion
  pub registry : Reg

abbrev pub new_suggestion : String → ℕ → SourceType → ℕ → SourceSuggestion
new_suggestion source_identifier user_id source_type now = record {
  suggestion_id = join "source:" source_identifier;
  source_identifier = source_identifier;
  user_id = some user_id;
  source_type = source_type;
  status = pending;
  admin_note = none;
  reward_granted = false;
  source_id = none;
  created_at = now;
  updated_at = now;
  decided_at = none;
}

abbrev pub reopened : ℕ → SourceType → ℕ → SourceSuggestion → SourceSuggestion
reopened user_id source_type now s = record s {
  user_id = some user_id;
  source_type = source_type;
  status = pending;
  admin_note = none;
  updated_at = now;
  decided_at = none;
}

-- `existing.user_id is not None and existing.user_id != user_id`
abbrev pub is_other : ℕ → Option ℕ → Bool
is_other user_id none = false
is_other user_id (some owner) = not (owner == user_id)

abbrev or_kept : Option String → Option String → Option String
or_kept none kept = kept
or_kept (some id) kept = some id

abbrev pub decided :
    SuggestionStatus
    → Option String
    → Bool
    → Option String
    → ℕ
    → SourceSuggestion
    → SourceSuggestion
decided status note granted source_id now s = record s {
  status = status;
  admin_note = note;
  reward_granted = granted;
  source_id = or_kept source_id s.source_id;
  updated_at = now;
  decided_at = some now;
}

-- `base` of `grant_premium`
abbrev base_of : Option ℕ → ℕ → ℕ
base_of none now = now
base_of (some until) now = if leb until now then now else until

abbrev pub list_pending : {Reg : Type 0} → SuggestionState Reg → List SourceSuggestion
list_pending t =
    sort_by
      (λ a b.
        then_by (ltb a.created_at b.created_at) (a.created_at == b.created_at)
          (str_leb a.source_identifier b.source_identifier))
      (keep_if (λ s. s.status == pending) (values t.suggestions))

module _ {Reg : Type 0} where
  abbrev pub store : SourceSuggestion → String → Exec (SuggestionState Reg) Unit
  store s id = modify λ t. record t { suggestions = put id s t.suggestions }

  -- the branch of `submit` for an identifier that is known
  unfoldable pub submit_known :
      ℕ
      → SourceType
      → ℕ
      → String
      → SourceSuggestion
      → Exec (SuggestionState Reg) (SourceSuggestion × Bool)
  submit_known user_id source_type now id existing =
      if existing.status == rejected
      then if is_other user_id existing.user_id then pure (existing, false) else (do
        store (reopened user_id source_type now existing) id
        pure (reopened user_id source_type now existing, true))
      else pure (existing, false)

  unfoldable pub submit_new :
      ℕ → String → SourceType → ℕ → Exec (SuggestionState Reg) (SourceSuggestion × Bool)
  submit_new user_id source_identifier source_type now = do
    store (new_suggestion source_identifier user_id source_type now)
        (join "source:" source_identifier)
    modify λ t. record t {
      by_identifier = put source_identifier (join "source:" source_identifier) t.by_identifier;
    }
    pure (new_suggestion source_identifier user_id source_type now, true)

  -- `self.suggestions[suggestion_id]`
  abbrev pub require : String → Exec (SuggestionState Reg) SourceSuggestion
  require id = do found ← gets λ t. get id t.suggestions; or_raise (key_error id) found

  abbrev pub submit_stored :
      ℕ → String → SourceType → ℕ → Exec (SuggestionState Reg) (SourceSuggestion × Bool)
  submit_stored user_id source_identifier source_type now = do
    known ← gets λ t. get source_identifier t.by_identifier
    on_option known (submit_new user_id source_identifier source_type now)
        λ id. require id >>= submit_known user_id source_type now id

  abbrev pub set_status :
      String
      → SuggestionStatus
      → Option String
      → Bool
      → Option String
      → ℕ
      → Exec (SuggestionState Reg) SourceSuggestion
  set_status id status note granted source_id now = do
    s ← require id
    store (decided status note granted source_id now s) id
    pure (decided status note granted source_id now s)

  -- whether the event is the first one of its key
  abbrev pub audit_once :
      SourceSuggestionAuditEvent → Exec (SuggestionState Reg) (SourceSuggestionAuditEvent × Bool)
  audit_once event = do
    existing ← gets λ t. get event.idempotency_key t.audit_events
    on_option existing
        (do
          modify λ t. record t { audit_events = put event.idempotency_key event t.audit_events }
          pure (event, true))
        λ old. pure (old, false)

  abbrev pub grant_premium : ℕ → ℕ → ℕ → Exec (SuggestionState Reg) ℕ
  grant_premium user_id extension now = do
    base ← gets λ t. base_of (get user_id t.premium_until) now
    modify λ t. record t { premium_until = put user_id (base + extension) t.premium_until }
    pure (base + extension)
