-- ===== src/Listeners/Health.antt =====
-- src/estateflow/services/listener_pool.py: the listener accounts, their health and their storage.
use estate_flow.Base.{
  ℕ, String, Bool, true, ◌&&◌, ◌≡◌, ◌↔◌, List, [], ◌∷◌, Option, none, arith, Eq, ◌==◌, String_eq,
  str_leb, nat_eq, any_of,
}
use estate_flow.Base.Dict.{Dict, put, values}
use estate_flow.Base.Sort.{sort_by}
use estate_flow.Base.Members.{index_by}

pub data ListenerHealthStatus : Type 0 where
  online reconnecting flood_wait disabled banned : ListenerHealthStatus

abbrev index : ListenerHealthStatus → ℕ
index online = 0
index reconnecting = 1
index flood_wait = 2
index disabled = 3
index banned = 4

pub same_status_iff : (a b : ListenerHealthStatus) → (nat_eq (index a) (index b) ≡ true) ↔ (a ≡ b)
same_status_iff a b = ground arith

instance abbrev pub ListenerHealthStatus_eq : Eq ListenerHealthStatus
ListenerHealthStatus_eq = record {
  same = λ a b. nat_eq (index a) (index b);
  agrees = same_status_iff;
}

unfoldable pub status_text : ListenerHealthStatus → String
status_text online = "online"
status_text reconnecting = "reconnecting"
status_text flood_wait = "flood_wait"
status_text disabled = "disabled"
status_text banned = "banned"

-- ASSIGNABLE_HEALTH_STATUSES
abbrev pub assignable_health_statuses : List ListenerHealthStatus
assignable_health_statuses = online ∷ []

abbrev all_statuses : List ListenerHealthStatus
all_statuses = online ∷ reconnecting ∷ flood_wait ∷ disabled ∷ banned ∷ []

-- ALLOWED_HEALTH_TRANSITIONS
abbrev pub allowed_health_transitions : ListenerHealthStatus → List ListenerHealthStatus
allowed_health_transitions online = all_statuses
allowed_health_transitions reconnecting = all_statuses
allowed_health_transitions flood_wait = all_statuses
allowed_health_transitions disabled = online ∷ disabled ∷ []
allowed_health_transitions banned = banned ∷ []

-- `status in statuses`
abbrev pub is_among : ListenerHealthStatus → List ListenerHealthStatus → Bool
is_among status statuses = any_of (λ other. other == status) statuses

pub record ListenerAccountMetadata : Type 0 where
  pub account_key : String
  pub enabled : Bool
  pub health_status : ListenerHealthStatus
  pub last_successful_event_at : Option ℕ
  pub flood_wait_count : ℕ

-- `ListenerAccountMetadata(account_key=account_key)`
abbrev pub new_account : String → ListenerAccountMetadata
new_account account_key = record {
  account_key = account_key;
  enabled = true;
  health_status = online;
  last_successful_event_at = none;
  flood_wait_count = 0;
}

abbrev pub is_assignable : ListenerAccountMetadata → Bool
is_assignable account = account.enabled && is_among account.health_status assignable_health_statuses

-- `InMemoryListenerAccountRepository._accounts`
abbrev pub Accounts : Type 0
Accounts = Dict String ListenerAccountMetadata

abbrev pub init_accounts : List ListenerAccountMetadata → Accounts
init_accounts accounts = index_by (λ account. account.account_key) accounts []

unfoldable pub list_accounts : Accounts → List ListenerAccountMetadata
list_accounts accounts = sort_by (λ a b. str_leb a.account_key b.account_key) (values accounts)

abbrev pub save_account : ListenerAccountMetadata → Accounts → Accounts
save_account account accounts = put account.account_key account accounts
