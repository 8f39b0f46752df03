-- ===== src/Listeners/Monitor.antt =====
-- src/estateflow/services/listener_pool.py: `ListenerAssignmentService`, its methods on the health
-- of the accounts.
use Prim.Native.String.{◌++◌ as join}
use estate_flow.Base.{
  ℕ, ◌+◌, String, false, not, List, [], ◌∷◌, ◌++◌, some, map, if◌then◌else◌, ◌==◌, String_eq,
  str_leb, any_of, keep_if, strip, pure, or_raise, gets, modify, raise_if, ◌>>=◌, ◌>>◌, value_error,
  key_error,
}
use estate_flow.Base.Dict.{get}
use estate_flow.Base.Sort.{sort_by}
use estate_flow.Base.Members.{index_by}
use estate_flow.Listeners.Health.{
  ListenerHealthStatus, ListenerHealthStatus_eq, online, reconnecting, flood_wait, disabled, banned,
  ListenerAccountMetadata, new_account, is_among, allowed_health_transitions, list_accounts,
  save_account, status_text,
}
use estate_flow.Listeners.Pool.{Pool, notify, by_account}

-- `sorted({key.strip() for key in account_keys if key.strip()})`
abbrev pub requested_keys : List String → List String
requested_keys account_keys =
    sort_by str_leb (
      map (λ e. e.0) (index_by (λ k. k) (keep_if (λ k. not (k == "")) (map strip account_keys)) []))

abbrev pub save : ListenerAccountMetadata → Pool Unit
save account = modify λ s. record s { accounts = save_account account s.accounts }

-- the loop of `ensure_accounts` over the requested keys
unfoldable pub add_accounts : List String → List String → Pool Unit
add_accounts existing [] = pure tt
add_accounts existing (key ∷ keys) =
    if any_of (λ other. other == key) existing
    then add_accounts existing keys
    else (do save (new_account key); add_accounts (existing ++ key ∷ []) keys)

unfoldable pub ensure_accounts : List String → Pool (List ListenerAccountMetadata)
ensure_accounts account_keys = do
  accounts ← gets λ s. list_accounts s.accounts
  add_accounts (map (λ a. a.account_key) accounts) (requested_keys account_keys)
  gets λ s. list_accounts s.accounts

abbrev pub transition_text : ListenerHealthStatus → ListenerHealthStatus → String
transition_text current next =
    join "Cannot transition listener account from "
      (join (status_text current) (join " to " (join (status_text next) ".")))

-- `_validate_health_transition`
abbrev pub validate_health_transition : ListenerHealthStatus → ListenerHealthStatus → Pool Unit
validate_health_transition current next =
    raise_if (not (is_among next (allowed_health_transitions current)))
      (value_error (transition_text current next))

-- `account_by_key[account_key]`
abbrev pub find_account : String → Pool ListenerAccountMetadata
find_account account_key = do
  accounts ← gets λ s. list_accounts s.accounts
  or_raise (key_error account_key) (get account_key (by_account accounts))

-- `_record_listener_health`
abbrev pub record_listener_health : ListenerAccountMetadata → ℕ → Pool Unit
record_listener_health account now = modify λ s. record s {
  metrics =
      s.metrics
      ++ record {
        subject_id = account.account_key;
        status = account.health_status;
        enabled = account.enabled;
        flood_wait_count = account.flood_wait_count;
        occurred_at = now;
      }
        ∷ [];
}

abbrev pub with_health :
    ListenerHealthStatus → ℕ → ListenerAccountMetadata → ListenerAccountMetadata
with_health status increment account = record account {
  health_status = status;
  enabled = if is_among status (disabled ∷ banned ∷ []) then false else account.enabled;
  flood_wait_count = account.flood_wait_count + increment;
}

abbrev alert_of : String → ListenerHealthStatus → Pool Unit
alert_of account_key status =
    if is_among status (flood_wait ∷ banned ∷ [])
    then notify "critical" (
        join "Listener account "
          (join account_key (join " health changed to " (status_text status))))
    else pure tt

unfoldable pub transition_health :
    String → ListenerHealthStatus → ℕ → ℕ → Pool ListenerAccountMetadata
transition_health account_key status increment now = do
  account ← find_account account_key
  validate_health_transition account.health_status status
  save (with_health status increment account)
  record_listener_health (with_health status increment account) now
  alert_of account_key status
  pure (with_health status increment account)

abbrev pub with_event : ℕ → ListenerAccountMetadata → ListenerAccountMetadata
with_event now account = record account {
  health_status = online;
  last_successful_event_at = some now;
}

unfoldable pub record_successful_event : String → ℕ → Pool ListenerAccountMetadata
record_successful_event account_key now = do
  account ← find_account account_key
  validate_health_transition account.health_status online
  save (with_event now account)
  record_listener_health (with_event now account) now
  pure (with_event now account)

unfoldable pub mark_long_silence : String → ℕ → Pool ListenerAccountMetadata
mark_long_silence account_key now = do
  updated ← transition_health account_key reconnecting 0 now
  notify "warning" (join "Listener account " (join account_key " has no recent successful events"))
  pure updated
