-- ===== src/Listeners/Served.antt =====
-- src/estateflow/services/listener_pool.py: what `reconcile` achieves when an account can be used, and
-- what it leaves when none can.
use estate_flow.Base.{
  ℕ, String, true, ◌&&◌, ◌≡◌, refl, sym, ◌∙◌, List, [], arith, ◌==◌, String_eq, str_eq_iff, any_of,
  is_some, Result, ok, All,
}
use estate_flow.Base.Dict.{get, values}
use estate_flow.Base.Members.{member-any_of, is_some-index_by, All-of}
use estate_flow.Sources.{SourceConfig}
use estate_flow.Listeners.Health.{is_assignable, list_accounts}
use estate_flow.Listeners.Assignments.{ChannelAssignment, list_active_assignments}
use estate_flow.Listeners.Pool.{
  PoolState, by_account, held_of, active_sources_of, sources_of, calculate_loads, reconcile,
}
use estate_flow.Listeners.Release.{IsExclusive, IsSettled}
use estate_flow.Listeners.Wanted.{
  is_wanted, is_served, sources_of-IsDistinct, sources_of-wanted, wanted-sources_of, good-served,
  checked, checked-IsSettled,
}
use estate_flow.Listeners.Assign.{IsReady, assign_sources-IsCovered}

abbrev Outcome : Type 0
Outcome = Result (List ChannelAssignment) × PoolState

-- Each wanted source has exactly one assignment among the returned ones, which are the stored active
-- ones, and each of these is of a wanted source to an account that can be used.
pub record IsServed (sources : List SourceConfig) (s : PoolState) (o : Outcome) : Type 0 where
  pub assignments : List ChannelAssignment
  pub returned : o.0 ≡ ok assignments
  pub stored : list_active_assignments o.1.assignments ≡ assignments
  pub exclusive : IsExclusive o.1.assignments
  pub covered :
      (id : String)
      → is_wanted sources id ≡ true
      → any_of (λ a. a.source_id == id) assignments ≡ true
  pub served :
      All
        (λ a.
          (is_wanted sources a.source_id ≡ true) × (is_served (list_accounts s.accounts) a ≡ true))
        assignments

held_of-agrees :
    (t : PoolState) (id : String)
    → any_of (λ a. a.source_id == id) (list_active_assignments t.assignments)
      ≡ is_some (get id (held_of t))
unfolding get
held_of-agrees t id = sym (
    is_some-index_by (λ a. a.source_id) id (list_active_assignments t.assignments) []
    ∙ ground arith)

module _ (sources : List SourceConfig) (now : ℕ) (s : PoolState)
    (x : IsExclusive s.assignments) where
  abbrev IsFit : ChannelAssignment → Type 0
  IsFit a = (is_wanted sources a.source_id ≡ true) × (is_served (list_accounts s.accounts) a ≡ true)

  abbrev pub settled :
      IsSettled
        (by_account (list_accounts s.accounts))
        (active_sources_of sources)
        now
        s
        (checked sources now s x)
  settled = checked-IsSettled sources now s x

  abbrev pub middle : PoolState
  middle = (checked sources now s x).1

  middle-IsReady :
      (usable : any_of is_assignable (list_accounts s.accounts) ≡ true)
      → IsReady
          (list_accounts s.accounts)
          usable
          (held_of middle)
          now
          IsFit
          middle
          (sources_of (active_sources_of sources))
  middle-IsReady usable = record {
    exclusive = settled.exclusive;
    served = λ a m. good-served (list_accounts s.accounts) sources a (settled.good a m);
    apart = sources_of-IsDistinct sources;
    agrees = λ c m. held_of-agrees middle c.source_id;
    good = λ c a m n p. (
      sources_of-wanted sources c m,
      member-any_of (λ b. b.account_key == a.account_key && is_assignable b) a
          (list_accounts s.accounts) n (ground (arith, p, str_eq_iff a.account_key a.account_key)),
    );
  }

-- When an account is enabled and healthy and no source has two active assignments, `reconcile`
-- returns the stored active assignments: exactly one for each enabled Telegram source, none for
-- another source, and each to an enabled and healthy account.
pub reconcile-IsServed :
    (sources : List SourceConfig) (now : ℕ) (s : PoolState)
    → IsExclusive s.assignments
    → any_of is_assignable (list_accounts s.accounts) ≡ true
    → IsServed sources s (reconcile sources now s)
unfolding reconcile
reconcile-IsServed sources now s x usable =
    let r = settled sources now s x in
    let c =
      assign_sources-IsCovered (list_accounts s.accounts) usable (held_of (middle sources now s x))
        now (IsFit sources now s x) (sources_of (active_sources_of sources))
        (calculate_loads (values (held_of (middle sources now s x))) []) (middle sources now s x)
        (middle-IsReady sources now s x usable) in
    rw (r.returned, c.returned)
      (record {
        assignments = _;
        returned = refl;
        stored = refl;
        exclusive = c.exclusive;
        covered =
            λ id w. let (d, m, e) = wanted-sources_of sources id w in rw (← e) (c.covered d m);
        served = All-of _ _ c.served;
      })
