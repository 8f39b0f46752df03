-- ===== src/Sources.antt =====
-- src/estateflow/services/source_config.py: the sources that announcements are read from.
use estate_flow.Base.{String, Bool, true, false, Option}

pub data SourceType : Type 0 where
  telegram_channel telegram_group website : SourceType

-- `parser_config` is kept as its JSON text.
pub record SourceConfig : Type 0 where
  pub source_id : String
  pub name : String
  pub source_type : SourceType
  pub identifier : String
  pub enabled : Bool
  pub adapter_name : Option String
  pub source_profile : Option String
  pub listener_account_key : Option String
  pub parser_key : Option String
  pub parser_version : Option String
  pub parser_config : String
  pub parser_mode : String

-- `source.source_type in TELEGRAM_SOURCE_TYPES`
abbrev pub is_telegram : SourceType → Bool
is_telegram telegram_channel = true
is_telegram telegram_group = true
is_telegram website = false
