-- ===== src/Listeners/Pool.antt =====
-- src/estateflow/services/listener_pool.py: `ListenerAssignmentService`. The calls of the
-- operators' notifier and of the metric recorder, which cannot fail it, are kept as logs.
use Prim.Native.String.{◌++◌ as join}
use estate_flow.Base.{
  ℕ, ◌+◌, ◌-◌, String, Bool, true, false, not, ◌&&◌, List, [], ◌∷◌, ◌++◌, Option, none, some,
  if◌then◌else◌, ◌==◌, String_eq, ℕ_eq, str_leb, ltb, is_some, on_option, keep_if, Exec, pure,
  or_raise, gets, modify, ◌>>=◌, ◌>>◌, runtime_error,
}
use estate_flow.Base.Dict.{Dict, get, put, values}
use estate_flow.Base.Sort.{sort_by, then_by}
use estate_flow.Base.Members.{index_by}
use estate_flow.Sources.{SourceConfig, is_telegram}
use estate_flow.Listeners.Health.{
  ListenerHealthStatus, ListenerHealthStatus_eq, ListenerAccountMetadata, Accounts, is_assignable,
  list_accounts, status_text,
}
use estate_flow.Listeners.Assignments.{
  AssignmentReason, initial, failover, source_disabled, ChannelAssignment, AssignmentAuditEvent,
  list_active_assignments, save_assignment, released_of, release_assignment,
}

pub record Notice : Type 0 where
  pub severity : String
  pub reason : String

pub record HealthMetric : Type 0 where
  pub subject_id : String
  pub status : ListenerHealthStatus
  pub enabled : Bool
  pub flood_wait_count : ℕ
  pub occurred_at : ℕ

pub record PoolState : Type 0 where
  pub accounts : Accounts
  pub assignments : List ChannelAssignment
  pub audit_events : List AssignmentAuditEvent
  pub notices : List Notice
  pub metrics : List HealthMetric

abbrev pub Pool : Type 0 → Type 0
Pool A = Exec PoolState A

abbrev pub Loads : Type 0
Loads = Dict String ℕ

-- `load_by_account.get(account_key, 0)`
abbrev pub load_of : String → Loads → ℕ
load_of account_key loads = on_option (get account_key loads) 0 (λ n. n)

unfoldable pub calculate_loads : List ChannelAssignment → Loads → Loads
calculate_loads [] loads = loads
calculate_loads (a ∷ assignments) loads =
    calculate_loads assignments (put a.account_key (load_of a.account_key loads + 1) loads)

abbrev pub append_audit_event : AssignmentAuditEvent → Pool Unit
append_audit_event event = modify λ s. record s { audit_events = s.audit_events ++ event ∷ [] }

abbrev pub notify : String → String → Pool Unit
notify severity reason =
    modify
      λ s. record s { notices = s.notices ++ record { severity = severity; reason = reason } ∷ [] }

-- `self._assignment_repository.release_assignment(...)`
abbrev pub release_stored : String → AssignmentReason → ℕ → Pool (Option ChannelAssignment)
release_stored source_id reason now = do
  found ← gets λ s. released_of source_id reason now s.assignments
  modify λ s. record s { assignments = release_assignment source_id reason now s.assignments }
  pure found

-- `_release_assignment` returns the loads that it updates; ℕ subtracts as `max(0, load - 1)` does.
abbrev pub release : ChannelAssignment → AssignmentReason → ℕ → Loads → Pool Loads
release a reason now loads = do
  found ← release_stored a.source_id reason now
  on_option found (pure loads) λ _. do
    append_audit_event (record {
      source_id = a.source_id;
      previous_account_key = some a.account_key;
      new_account_key = none;
      reason = reason;
      occurred_at = now;
    })
    pure (put a.account_key (load_of a.account_key loads - 1) loads)

abbrev status_or_missing : Option ListenerAccountMetadata → String
status_or_missing account = on_option account "missing" λ a. status_text a.health_status

-- `_notify_failover`
abbrev pub notify_failover : ChannelAssignment → Option ListenerAccountMetadata → Pool Unit
notify_failover a account = notify "warning" (
    join "Listener account " (
      join a.account_key (
        join " is " (
          join (status_or_missing account)
            (join "; source " (join a.source_id " will be reassigned"))))))

abbrev pub can_serve : Option ListenerAccountMetadata → Bool
can_serve account = on_option account false is_assignable

-- one round of the loop over `active_assignments`
unfoldable pub check_assignment :
    Accounts → Dict String SourceConfig → ℕ → String × ChannelAssignment → Loads → Pool Loads
check_assignment accounts sources now (source_id, a) loads =
    let account = get a.account_key accounts in
    if not (is_some (get source_id sources))
    then release a source_disabled now loads
    else if not (can_serve account)
    then (do updated ← release a failover now loads; notify_failover a account; pure updated)
    else pure loads

unfoldable pub check_assignments :
    Accounts → Dict String SourceConfig → ℕ → List (String × ChannelAssignment) → Loads → Pool Loads
unfolding check_assignment
check_assignments accounts sources now [] loads = pure loads
check_assignments accounts sources now (entry ∷ entries) loads = do
  updated ← check_assignment accounts sources now entry loads
  check_assignments accounts sources now entries updated

-- the order of `min(candidates, key=...)`
abbrev pub is_less : Loads → ListenerAccountMetadata → ListenerAccountMetadata → Bool
is_less loads a b =
    let m = load_of a.account_key loads in
    let n = load_of b.account_key loads in
    then_by (ltb m n) (m == n) (not (str_leb b.account_key a.account_key))

unfoldable pub min_by {ℓ} : {A : Type ℓ} → (A → A → Bool) → A → List A → A
min_by less best [] = best
min_by less best (x ∷ xs) = min_by less (if less x best then x else best) xs

abbrev least : Loads → List ListenerAccountMetadata → Option ListenerAccountMetadata
least loads [] = none
least loads (c ∷ candidates) = some (min_by (is_less loads) c candidates)

-- `_select_account`, with the error of an empty choice
unfoldable pub select_account :
    List ListenerAccountMetadata → Loads → Option ListenerAccountMetadata
select_account accounts loads = least loads (keep_if is_assignable accounts)

abbrev pub no_healthy_account : String
no_healthy_account = "No enabled healthy listener account is available."

abbrev pub new_assignment : String → String → ℕ → ChannelAssignment
new_assignment source_id account_key now = record {
  source_id = source_id;
  account_key = account_key;
  assigned_at = now;
  active = true;
  released_at = none;
  reason = initial;
}

-- what the loop does for a source that no account reads
abbrev pub assign : String → String → ℕ → Pool Unit
assign source_id account_key now = do
  modify λ s. record s {
    assignments = save_assignment (new_assignment source_id account_key now) s.assignments;
  }
  append_audit_event (record {
    source_id = source_id;
    previous_account_key = none;
    new_account_key = some account_key;
    reason = initial;
    occurred_at = now;
  })

-- the loop over `active_sources`
unfoldable pub assign_sources :
    List ListenerAccountMetadata
    → Dict String ChannelAssignment
    → ℕ
    → List SourceConfig
    → Loads
    → Pool Unit
unfolding select_account
assign_sources accounts held now [] loads = pure tt
assign_sources accounts held now (source ∷ sources) loads =
    if is_some (get source.source_id held)
    then assign_sources accounts held now sources loads
    else (do
      account ← or_raise (runtime_error no_healthy_account) (select_account accounts loads)
      assign source.source_id account.account_key now
      assign_sources accounts held now sources
          (put account.account_key (load_of account.account_key loads + 1) loads))

abbrev pub by_source : List ChannelAssignment → Dict String ChannelAssignment
by_source assignments = index_by (λ a. a.source_id) assignments []

abbrev pub held_of : PoolState → Dict String ChannelAssignment
held_of s = by_source (list_active_assignments s.assignments)

abbrev pub by_account : List ListenerAccountMetadata → Accounts
by_account accounts = index_by (λ a. a.account_key) accounts []

-- `{source.source_id: source for source in sources if ...}`
abbrev pub active_sources_of : List SourceConfig → Dict String SourceConfig
active_sources_of sources =
    index_by (λ c. c.source_id) (keep_if (λ c. c.enabled && is_telegram c.source_type) sources) []

abbrev pub entries_of : Dict String ChannelAssignment → List (String × ChannelAssignment)
entries_of held = sort_by (λ a b. str_leb a.0 b.0) held

abbrev pub sources_of : Dict String SourceConfig → List SourceConfig
sources_of sources = sort_by (λ a b. str_leb a.source_id b.source_id) (values sources)

unfoldable pub reconcile : List SourceConfig → ℕ → Pool (List ChannelAssignment)
reconcile sources now = do
  accounts ← gets λ s. list_accounts s.accounts
  held ← gets held_of
  check_assignments (by_account accounts) (active_sources_of sources) now (entries_of held)
      (calculate_loads (values held) [])
  kept ← gets held_of
  assign_sources accounts kept now (sources_of (active_sources_of sources))
      (calculate_loads (values kept) [])
  gets λ s. list_active_assignments s.assignments
