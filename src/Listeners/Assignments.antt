-- ===== src/Listeners/Assignments.antt =====
-- src/estateflow/services/listener_pool.py: the assignments of sources to accounts, and their storage.
use estate_flow.Base.{
  ℕ, String, Bool, false, ◌&&◌, List, [], ◌∷◌, ◌++◌, Option, none, some, if◌then◌else◌, ◌==◌,
  String_eq, keep_if,
}

pub data AssignmentReason : Type 0 where
  initial rebalance failover source_disabled : AssignmentReason

pub record ChannelAssignment : Type 0 where
  pub source_id : String
  pub account_key : String
  pub assigned_at : ℕ
  pub active : Bool
  pub released_at : Option ℕ
  pub reason : AssignmentReason

pub record AssignmentAuditEvent : Type 0 where
  pub source_id : String
  pub previous_account_key : Option String
  pub new_account_key : Option String
  pub reason : AssignmentReason
  pub occurred_at : ℕ

unfoldable pub list_active_assignments : List ChannelAssignment → List ChannelAssignment
list_active_assignments assignments = keep_if (λ a. a.active) assignments

abbrev pub save_assignment : ChannelAssignment → List ChannelAssignment → List ChannelAssignment
save_assignment assignment assignments = assignments ++ assignment ∷ []

-- `replace(assignment, active=False, released_at=released_at, reason=reason)`
abbrev pub released : AssignmentReason → ℕ → ChannelAssignment → ChannelAssignment
released reason now a = record a { active = false; released_at = some now; reason = reason }

abbrev pub holds_source : String → ChannelAssignment → Bool
holds_source source_id a = a.source_id == source_id && a.active

-- `release_assignment`: the assignment that it returns, and the list that it leaves
unfoldable pub released_of :
    String → AssignmentReason → ℕ → List ChannelAssignment → Option ChannelAssignment
released_of source_id reason now [] = none
released_of source_id reason now (a ∷ assignments) =
    if holds_source source_id a
    then some (released reason now a)
    else released_of source_id reason now assignments

unfoldable pub release_assignment :
    String → AssignmentReason → ℕ → List ChannelAssignment → List ChannelAssignment
release_assignment source_id reason now [] = []
release_assignment source_id reason now (a ∷ assignments) =
    if holds_source source_id a
    then released reason now a ∷ assignments
    else a ∷ release_assignment source_id reason now assignments
