-- ===== src/Listeners/Runs.antt =====
-- src/estateflow/services/listener_pool.py: histories of calls of the service, accepted or refused.
use estate_flow.Base.{
  ℕ, String, List, [], ◌∷◌, ◌++◌, Option, none, some, or_raise, key_error, String_eq,
}
use estate_flow.Base.Invariants.{
  Preserves, Preserves-modify, preserves_rules, Preserves-pure, Preserves-bind, Preserves-if,
}
use estate_flow.Base.Dict.{get}
use estate_flow.Sources.{SourceConfig}
use estate_flow.Listeners.Health.{
  ListenerHealthStatus, ListenerAccountMetadata, list_accounts, new_account,
}
use estate_flow.Listeners.Pool.{PoolState, notify, by_account, reconcile}
use estate_flow.Listeners.Monitor.{
  save, find_account, record_listener_health, add_accounts, ensure_accounts, transition_health,
  record_successful_event, mark_long_silence,
}
use estate_flow.Listeners.Release.{IsExclusive}
use estate_flow.Listeners.Stranded.{reconcile-IsExclusive}

pub data Call : Type 0 where
  ensures : List String → Call
  reconciles : List SourceConfig → ℕ → Call
  transitions : String → ListenerHealthStatus → ℕ → ℕ → Call
  records : String → ℕ → Call
  marks : String → ℕ → Call

unfoldable pub step : PoolState → Call → PoolState
step s (ensures keys) = (ensure_accounts keys s).1
step s (reconciles sources now) = (reconcile sources now s).1
step s (transitions key status increment now) = (transition_health key status increment now s).1
step s (records key now) = (record_successful_event key now s).1
step s (marks key now) = (mark_long_silence key now s).1

unfoldable pub run : PoolState → List Call → PoolState
unfolding step
run s [] = s
run s (c ∷ cs) = run (step s c) cs

-- A predicate on the assignments alone is kept by all that works on the accounts.
module _ (R : PoolState → Type 0) (saves : (a : ListenerAccountMetadata) → Preserves R (save a))
    (measures : (a : ListenerAccountMetadata) (now : ℕ)
      → Preserves R (record_listener_health a now))
    (tells : (severity reason : String) → Preserves R (notify severity reason)) where
  find_account-Preserves : (key : String) → Preserves R (find_account key)
  find_account-Preserves key = record {
    holds = λ s r. found_same s r (get key (by_account (list_accounts s.accounts)));
  }
    where
      found_same :
          (s : PoolState)
          → R s
          → (o : Option ListenerAccountMetadata) → R (or_raise (key_error key) o s).1
      found_same s r none = r
      found_same s r (some a) = r

  add_accounts-Preserves : (existing keys : List String) → Preserves R (add_accounts existing keys)
  unfolding add_accounts
  add_accounts-Preserves existing [] = Preserves-pure tt
  add_accounts-Preserves existing (k ∷ keys) =
      let same = add_accounts-Preserves existing keys in
      let more = add_accounts-Preserves (existing ++ k ∷ []) keys in
      Preserves-if _ _ _ same (Preserves-bind _ _ (saves (new_account k)) λ u. more)

  ensure_accounts-Preserves : (keys : List String) → Preserves R (ensure_accounts keys)
  unfolding ensure_accounts
  ensure_accounts-Preserves keys = search (preserves_rules, add_accounts-Preserves) depth 12

  transition_health-Preserves :
      (key : String) (status : ListenerHealthStatus) (increment now : ℕ)
      → Preserves R (transition_health key status increment now)
  unfolding transition_health
  transition_health-Preserves key status increment now =
      search (preserves_rules, saves, measures, tells, find_account-Preserves) depth 14

  record_successful_event-Preserves :
      (key : String) (now : ℕ) → Preserves R (record_successful_event key now)
  unfolding record_successful_event
  record_successful_event-Preserves key now =
      search (preserves_rules, saves, measures, find_account-Preserves) depth 14

  mark_long_silence-Preserves : (key : String) (now : ℕ) → Preserves R (mark_long_silence key now)
  unfolding mark_long_silence
  mark_long_silence-Preserves key now =
      search (preserves_rules, tells, transition_health-Preserves) depth 12

  -- A predicate that `reconcile` keeps too is kept by every history.
  pub run-Preserves :
      ((sources : List SourceConfig) (now : ℕ) (s : PoolState)
        → R s
        → R (reconcile sources now s).1)
      → (cs : List Call) (s : PoolState) → R s
      → R (run s cs)
  unfolding run step
  run-Preserves h [] s r = r
  run-Preserves h (ensures keys ∷ cs) s r =
      run-Preserves h cs _ ((ensure_accounts-Preserves keys).holds s r)
  run-Preserves h (reconciles sources now ∷ cs) s r = run-Preserves h cs _ (h sources now s r)
  run-Preserves h (transitions key status increment now ∷ cs) s r =
      run-Preserves h cs _ ((transition_health-Preserves key status increment now).holds s r)
  run-Preserves h (records key now ∷ cs) s r =
      run-Preserves h cs _ ((record_successful_event-Preserves key now).holds s r)
  run-Preserves h (marks key now ∷ cs) s r =
      run-Preserves h cs _ ((mark_long_silence-Preserves key now).holds s r)

-- If no source has two active assignments, none has after any history of calls, accepted or
-- refused.
pub run-IsExclusive :
    (s : PoolState) (cs : List Call)
    → IsExclusive s.assignments
    → IsExclusive (run s cs).assignments
run-IsExclusive s cs x =
    run-Preserves (λ t. IsExclusive t.assignments) (λ a. Preserves-modify _ λ t p. p)
      (λ a now. Preserves-modify _ λ t p. p) (λ severity reason. Preserves-modify _ λ t p. p)
      reconcile-IsExclusive cs s x
