-- ===== src/Listeners/Examples.antt =====
-- Concrete runs of the listener pool.
use estate_flow.Base.{
  String, true, false, ◌≡◌, refl, none, List, [], ◌∷◌, String_eq, err, runtime_error, value_error,
}
use estate_flow.Base.Sort.{sort_by, insert}
use estate_flow.Base.Dict.{get, put}
use estate_flow.Base.Members.{index_by}
use estate_flow.Sources.{SourceConfig, telegram_channel}
use estate_flow.Listeners.Health.{
  ListenerHealthStatus_eq, ListenerAccountMetadata, banned, reconnecting, new_account,
  list_accounts,
}
use estate_flow.Listeners.Assignments.{list_active_assignments, release_assignment, released_of}
use estate_flow.Listeners.Pool.{
  PoolState, check_assignment, check_assignments, calculate_loads, assign_sources, select_account,
  min_by, load_of, reconcile, no_healthy_account, new_assignment,
}
use estate_flow.Listeners.Monitor.{record_successful_event}
use estate_flow.Listeners.Assign.{IsSelected, select_account-IsSelected, calculate_loads-counts}
use estate_flow.Listeners.Release.{IsExclusive}
use estate_flow.Listeners.Served.{IsServed, reconcile-IsServed}
use estate_flow.Listeners.Stranded.{reconcile-stranded}
use estate_flow.Listeners.Runs.{run, records, reconciles, run-IsExclusive}
use estate_flow.Listeners.Banned.{IsBanned, run-refuses}

abbrev channel : String → SourceConfig
channel id = record {
  source_id = id;
  name = id;
  source_type = telegram_channel;
  identifier = id;
  enabled = true;
  adapter_name = none;
  source_profile = none;
  listener_account_key = none;
  parser_key = none;
  parser_version = none;
  parser_config = "{}";
  parser_mode = "active";
}

abbrev banned_account : ListenerAccountMetadata
banned_account = record (new_account "a") { health_status = banned; enabled = false }

-- the account "a" is banned, and still has the source "x"; "y" has no account
abbrev pool_of : List ListenerAccountMetadata → PoolState
pool_of accounts = record {
  accounts = map_of accounts;
  assignments = new_assignment "x" "a" 1 ∷ [];
  audit_events = [];
  notices = [];
  metrics = [];
}
  where
    map_of : List ListenerAccountMetadata → List (String × ListenerAccountMetadata)
    map_of [] = []
    map_of (a ∷ rest) = (a.account_key, a) ∷ map_of rest

abbrev two_accounts : PoolState
two_accounts = pool_of (banned_account ∷ new_account "b" ∷ [])

abbrev stuck : PoolState
stuck = pool_of (banned_account ∷ [])

pool_of-IsExclusive :
    (accounts : List ListenerAccountMetadata) → IsExclusive (pool_of accounts).assignments
unfolding list_active_assignments
pool_of-IsExclusive accounts = (refl, tt)

-- both sources go to the account "b"
moves :
    list_active_assignments
      (reconcile (channel "y" ∷ channel "x" ∷ []) 7 two_accounts).1.assignments
    ≡ new_assignment "x" "b" 7 ∷ new_assignment "y" "b" 7 ∷ []
unfolding reconcile check_assignments check_assignment assign_sources select_account min_by
    calculate_loads list_active_assignments release_assignment released_of list_accounts index_by
    sort_by insert get put
moves = refl

reconcile-IsServed_example :
    IsServed
      (channel "y" ∷ channel "x" ∷ [])
      two_accounts
      (reconcile (channel "y" ∷ channel "x" ∷ []) 7 two_accounts)
unfolding list_accounts sort_by insert
reconcile-IsServed_example =
    reconcile-IsServed (channel "y" ∷ channel "x" ∷ []) 7 two_accounts
      (pool_of-IsExclusive (banned_account ∷ new_account "b" ∷ [])) refl

reconcile-stranded_example :
    ((reconcile (channel "x" ∷ []) 7 stuck).0 ≡ err (runtime_error no_healthy_account))
    × (list_active_assignments (reconcile (channel "x" ∷ []) 7 stuck).1.assignments ≡ [])
unfolding list_accounts sort_by insert
reconcile-stranded_example =
    reconcile-stranded (channel "x" ∷ []) 7 stuck "x" (pool_of-IsExclusive (banned_account ∷ []))
      refl refl

run-IsExclusive_example :
    IsExclusive (run stuck (reconciles (channel "x" ∷ []) 7 ∷ records "a" 8 ∷ [])).assignments
run-IsExclusive_example =
    run-IsExclusive stuck (reconciles (channel "x" ∷ []) 7 ∷ records "a" 8 ∷ [])
      (pool_of-IsExclusive (banned_account ∷ []))

stuck-IsBanned : IsBanned "a" stuck
unfolding get
stuck-IsBanned = record {
  keyed = record { own = (refl, tt); apart = (refl, tt) };
  account = banned_account;
  stored = refl;
  status = refl;
}

run-refuses_example :
    (record_successful_event "a" 9 (run stuck (records "a" 8 ∷ [])) ≡ (
      err (value_error "Cannot transition listener account from banned to online."),
      run stuck (records "a" 8 ∷ []),
    ))
run-refuses_example =
    (run-refuses "a" stuck (records "a" 8 ∷ []) reconnecting 0 9 stuck-IsBanned (λ e. cc)).0

select_account-IsSelected_example :
    (a : ListenerAccountMetadata) × IsSelected [] (banned_account ∷ new_account "b" ∷ []) a
select_account-IsSelected_example =
    select_account-IsSelected [] (banned_account ∷ new_account "b" ∷ []) refl

calculate_loads-counts_example :
    load_of "b" (calculate_loads (new_assignment "x" "b" 1 ∷ new_assignment "y" "b" 2 ∷ []) []) ≡ 2
calculate_loads-counts_example =
    calculate_loads-counts "b" (new_assignment "x" "b" 1 ∷ new_assignment "y" "b" 2 ∷ [])
