-- ===== src/Flags.antt =====
-- src/estateflow/services/release_controls.py: feature flags with versions, their audit log, the
-- beta allowlist and the gates that read the flags. A datetime is a number of microseconds, and
-- the reading of the clock is an argument. The proofs are in the modules below.
mod Names
pub mod Gates
pub mod Runs
pub mod Replay
pub mod Conflicts
pub mod Policy
pub mod Examples
pub use Names.*
use Prim.Native.String.{count}
use estate_flow.Base.{
  ℕ, suc, ◌+◌, String, Bool, true, false, not, ◌&&◌, Option, none, some, List, [], ◌∷◌, ◌++◌, map,
  ◌==◌, String_eq, ltb, nat_eq, leb, if◌then◌else◌, strip, length, any_of, is_some, Result, ok, err,
  Error, value_error, key_error, Exec, pure, raise, or_raise, gets, modify, raise_if, ◌>>=◌, ◌>>◌,
}
use estate_flow.Base.Dict.{Dict, get, put}

pub record FeatureFlagState : Type 0 where
  pub flag_name : FlagName
  pub enabled : Bool
  pub version : ℕ
  pub updated_at : ℕ

abbrev pub FeatureFlagSnapshot : Type 0
FeatureFlagSnapshot = Dict FlagName FeatureFlagState

pub record FeatureFlagAuditEvent : Type 0 where
  pub flag_name : FlagName
  pub previous_enabled : Bool
  pub new_enabled : Bool
  pub previous_version : ℕ
  pub new_version : ℕ
  pub actor : String
  pub reason : String
  pub occurred_at : ℕ

abbrev default_flag_state : FlagName → FeatureFlagState
default_flag_state name = record { flag_name = name; enabled = false; version = 0; updated_at = 0 }

-- `self.states.get(name, _default_flag_state(name))`
abbrev pub or_default : FlagName → Option FeatureFlagState → FeatureFlagState
or_default name none = default_flag_state name
or_default name (some s) = s

abbrev pub state_of : FeatureFlagSnapshot → FlagName → FeatureFlagState
state_of states name = or_default name (get name states)

abbrev pub version_of : FeatureFlagSnapshot → FlagName → ℕ
version_of states name = (state_of states name).version

pub as_set : FeatureFlagSnapshot → FeatureFlagSet
as_set states = record {
  bot_access = (state_of states bot_access).enabled;
  listener_sources = (state_of states listener_sources).enabled;
  ai_processing = (state_of states ai_processing).enabled;
  notifications = (state_of states notifications).enabled;
  nlp = (state_of states nlp).enabled;
  content_publishing = (state_of states content_publishing).enabled;
  ai_vision = (state_of states ai_vision).enabled;
}

-- The in-memory store. `get_snapshot` copies the dict, which is a value here.
pub record FeatureFlagStore : Type 0 where
  pub states : FeatureFlagSnapshot
  pub audit : List FeatureFlagAuditEvent

unfoldable pub init_store : FeatureFlagSet → ℕ → FeatureFlagStore
init_store flags now = record {
  states =
      map
        (λ name. (
          name,
          record {
            flag_name = name;
            enabled = is_enabled flags name;
            version = 1;
            updated_at = now;
          },
        ))
        flag_names;
  audit = [];
}

-- `expected_version is not None and current.version != expected_version`
pub has_conflict : Option ℕ → FeatureFlagState → Bool
has_conflict none current = false
has_conflict (some expected) current = not (nat_eq current.version expected)

abbrev occurred : Option ℕ → ℕ → ℕ
occurred none now = now
occurred (some t) now = t

abbrev pub event_for :
    FeatureFlagState → FlagName → Bool → String → String → ℕ → FeatureFlagAuditEvent
event_for current name enabled actor reason at = record {
  flag_name = name;
  previous_enabled = current.enabled;
  new_enabled = enabled;
  previous_version = current.version;
  new_version = current.version + 1;
  actor = actor;
  reason = reason;
  occurred_at = at;
}

-- The store's `set_flag`.
pub store_set_flag :
    (name : FlagName) (enabled : Bool) (expected_version : Option ℕ) (actor reason : String)
    (occurred_at : Option ℕ) (now : ℕ)
    → Exec FeatureFlagStore FeatureFlagAuditEvent
unfolding has_conflict
store_set_flag name enabled expected_version actor reason occurred_at now = do
  current ← (λ s. or_raise (key_error (flag_text name)) (get name s.states) s)
  raise_if (has_conflict expected_version current) (value_error "feature_flag_version_conflict")
  let updated_at = occurred occurred_at now
  modify (λ s. record s {
    states =
        put name
          (record {
            flag_name = name;
            enabled = enabled;
            version = current.version + 1;
            updated_at = updated_at;
          })
          s.states;
  })
  let event = event_for current name enabled actor reason updated_at
  modify (λ s. record s { audit = s.audit ++ event ∷ [] })
  pure event

abbrev no_actor : String
no_actor = "actor is required for feature flag changes."

abbrev no_reason : String
no_reason = "reason is required for feature flag changes."

-- `ReleaseControlService.set_flag`
pub set_flag :
    (name : FlagName) (enabled : Bool) (expected_version : ℕ) (actor reason : String) (now : ℕ)
    → Exec FeatureFlagStore FeatureFlagAuditEvent
set_flag name enabled expected_version actor reason now = do
  raise_if (strip actor == "") (value_error no_actor)
  raise_if (ltb (count (strip reason)) 5) (value_error no_reason)
  store_set_flag name enabled (some expected_version) (strip actor) (strip reason) none now
