-- ===== src/Flags/Names.antt =====
-- src/estateflow/services/release_controls.py: the names of the feature flags, and a set of values.
use estate_flow.Base.{ℕ, String, Bool, true, ◌≡◌, ◌↔◌, List, [], ◌∷◌, arith, nat_eq, Eq}

pub data FlagName : Type 0 where
  bot_access listener_sources ai_processing notifications nlp content_publishing ai_vision :
      FlagName

abbrev pub index : FlagName → ℕ
index bot_access = 0
index listener_sources = 1
index ai_processing = 2
index notifications = 3
index nlp = 4
index content_publishing = 5
index ai_vision = 6

pub same_name_iff : (a b : FlagName) → (nat_eq (index a) (index b) ≡ true) ↔ (a ≡ b)
same_name_iff a b = ground arith

instance abbrev pub FlagName_eq : Eq FlagName
FlagName_eq = record { same = λ a b. nat_eq (index a) (index b); agrees = same_name_iff }

-- FEATURE_FLAG_NAMES
abbrev pub flag_names : List FlagName
flag_names =
    bot_access ∷ listener_sources ∷ ai_processing ∷ notifications ∷ nlp ∷ content_publishing
    ∷ ai_vision ∷ []

pub flag_text : FlagName → String
flag_text bot_access = "bot_access"
flag_text listener_sources = "listener_sources"
flag_text ai_processing = "ai_processing"
flag_text notifications = "notifications"
flag_text nlp = "nlp"
flag_text content_publishing = "content_publishing"
flag_text ai_vision = "ai_vision"

pub record FeatureFlagSet : Type 0 where
  pub bot_access : Bool
  pub listener_sources : Bool
  pub ai_processing : Bool
  pub notifications : Bool
  pub nlp : Bool
  pub content_publishing : Bool
  pub ai_vision : Bool

-- `getattr(self, name)`
abbrev pub is_enabled : FeatureFlagSet → FlagName → Bool
is_enabled flags bot_access = flags.bot_access
is_enabled flags listener_sources = flags.listener_sources
is_enabled flags ai_processing = flags.ai_processing
is_enabled flags notifications = flags.notifications
is_enabled flags nlp = flags.nlp
is_enabled flags content_publishing = flags.content_publishing
is_enabled flags ai_vision = flags.ai_vision

-- `replace(self, **{name: enabled})`
abbrev pub with_update : FeatureFlagSet → FlagName → Bool → FeatureFlagSet
with_update flags bot_access b = record flags { bot_access = b }
with_update flags listener_sources b = record flags { listener_sources = b }
with_update flags ai_processing b = record flags { ai_processing = b }
with_update flags notifications b = record flags { notifications = b }
with_update flags nlp b = record flags { nlp = b }
with_update flags content_publishing b = record flags { content_publishing = b }
with_update flags ai_vision b = record flags { ai_vision = b }
