-- ===== src/Listeners/Frame.antt =====
-- src/estateflow/services/listener_pool.py: `reconcile` does not change the accounts.
use estate_flow.Base.{
  ℕ, ◌+◌, String, ◌≡◌, refl, List, [], ◌∷◌, Option, none, some, String_eq, or_raise, Error,
}
use estate_flow.Base.Invariants.{
  Preserves, Preserves-modify, preserves_rules, Preserves-pure, Preserves-bind, Preserves-if,
}
use estate_flow.Base.Dict.{Dict, put}
use estate_flow.Sources.{SourceConfig}
use estate_flow.Listeners.Health.{ListenerAccountMetadata, Accounts}
use estate_flow.Listeners.Assignments.{AssignmentReason, AssignmentAuditEvent, ChannelAssignment}
use estate_flow.Listeners.Pool.{
  PoolState, Loads, load_of, append_audit_event, notify, release_stored, release, check_assignment,
  check_assignments, assign, assign_sources, select_account, reconcile,
}

-- A predicate on the accounts alone.
module _ (R : PoolState → Type 0)
    (same : (s t : PoolState) → t.accounts ≡ s.accounts → R s → R t) where
  append_audit_event-Preserves :
      (event : AssignmentAuditEvent) → Preserves R (append_audit_event event)
  append_audit_event-Preserves event = Preserves-modify _ λ s. same s _ refl

  notify-Preserves : (severity reason : String) → Preserves R (notify severity reason)
  notify-Preserves severity reason = Preserves-modify _ λ s. same s _ refl

  release_stored-Preserves :
      (id : String) (reason : AssignmentReason) (now : ℕ)
      → Preserves R (release_stored id reason now)
  release_stored-Preserves id reason now = record { holds = λ s. same s _ refl }

  release-Preserves :
      (a : ChannelAssignment) (reason : AssignmentReason) (now : ℕ) (loads : Loads)
      → Preserves R (release a reason now loads)
  release-Preserves a reason now loads =
      search (preserves_rules, release_stored-Preserves, append_audit_event-Preserves) depth 12

  check_assignment-Preserves :
      (accounts : Accounts) (sources : Dict String SourceConfig) (now : ℕ)
      (entry : String × ChannelAssignment) (loads : Loads)
      → Preserves R (check_assignment accounts sources now entry loads)
  unfolding check_assignment
  check_assignment-Preserves accounts sources now (id, a) loads =
      search (preserves_rules, release-Preserves, notify-Preserves) depth 12

  check_assignments-Preserves :
      (accounts : Accounts) (sources : Dict String SourceConfig) (now : ℕ)
      (entries : List (String × ChannelAssignment)) (loads : Loads)
      → Preserves R (check_assignments accounts sources now entries loads)
  unfolding check_assignments
  check_assignments-Preserves accounts sources now [] loads = Preserves-pure loads
  check_assignments-Preserves accounts sources now (entry ∷ entries) loads =
      Preserves-bind _ _ (check_assignment-Preserves accounts sources now entry loads)
        (check_assignments-Preserves accounts sources now entries)

  assign-Preserves : (id key : String) (now : ℕ) → Preserves R (assign id key now)
  assign-Preserves id key now = record { holds = λ s. same s _ refl }

  or_raise-Preserves : {A : Type 0} (e : Error) (o : Option A) → Preserves R (or_raise e o)
  or_raise-Preserves e none = record { holds = λ s r. r }
  or_raise-Preserves e (some a) = record { holds = λ s r. r }

  assign_sources-Preserves :
      (accounts : List ListenerAccountMetadata) (held : Dict String ChannelAssignment) (now : ℕ)
      (sources : List SourceConfig) (loads : Loads)
      → Preserves R (assign_sources accounts held now sources loads)
  unfolding assign_sources
  assign_sources-Preserves accounts held now [] loads = Preserves-pure tt
  assign_sources-Preserves accounts held now (c ∷ cs) loads =
      let rest = assign_sources-Preserves accounts held now cs in
      Preserves-if _ _ _ (rest loads) (
        Preserves-bind _ _ (or_raise-Preserves _ (select_account accounts loads)) λ a.
          Preserves-bind _ _ (assign-Preserves c.source_id a.account_key now)
            λ u. rest (put a.account_key (load_of a.account_key loads + 1) loads))

  pub reconcile-Preserves :
      (sources : List SourceConfig) (now : ℕ) → Preserves R (reconcile sources now)
  unfolding reconcile
  reconcile-Preserves sources now =
      search (preserves_rules, check_assignments-Preserves, assign_sources-Preserves) depth 14
