-- ===== src/Listeners/Wanted.antt =====
-- src/estateflow/services/listener_pool.py: the sources and accounts that `reconcile` works with, and its
-- first loop.
use mathlib.Core.List.{Memᴰ}
use estate_flow.Base.{
  ℕ, String, Bool, true, false, ◌&&◌, ◌||◌, ◌≡◌, sym, ◌∙◌, inl, inr, List, [], arith, ◌==◌,
  String_eq, str_eq_iff, any_of, is_some, Option-cases, Result, keep_if,
}
use estate_flow.Base.Dict.{get, values}
use estate_flow.Base.Sort.{All-sort_by}
use estate_flow.Base.Members.{
  IsDistinct, member-any_of, any_of-keep_if, get-member, get-index_by, is_some-index_by,
  index_by-IsDistinct, indexed-member, index_by-keyed, sort_by-IsDistinct, sort_by-member,
  member-sort_by, values-member, member-values, values-IsDistinct, keep_if-member,
}
use estate_flow.Sources.{SourceConfig, is_telegram}
use estate_flow.Listeners.Health.{ListenerAccountMetadata, is_assignable, list_accounts}
use estate_flow.Listeners.Assignments.{ChannelAssignment, list_active_assignments}
use estate_flow.Listeners.Pool.{
  PoolState, Loads, by_account, held_of, active_sources_of, entries_of, sources_of, calculate_loads,
  check_assignments,
}
use estate_flow.Listeners.Release.{IsExclusive, IsGood, IsSettled, check_assignments-IsSettled}

abbrev reads : SourceConfig → Bool
reads c = c.enabled && is_telegram c.source_type

-- The sources have an enabled Telegram source of that id.
abbrev pub is_wanted : List SourceConfig → String → Bool
is_wanted sources id = any_of (λ c. c.source_id == id && reads c) sources

-- The assignment's account is one of the accounts, enabled and healthy.
abbrev pub is_served : List ListenerAccountMetadata → ChannelAssignment → Bool
is_served accounts x = any_of (λ a. a.account_key == x.account_key && is_assignable a) accounts

pub active_sources-wanted :
    (sources : List SourceConfig) (id : String)
    → is_some (get id (active_sources_of sources)) ≡ is_wanted sources id
unfolding get
active_sources-wanted sources id =
    is_some-index_by (λ c. c.source_id) id (keep_if reads sources) []
    ∙ (or_false _ ∙ any_of-keep_if (λ c. c.source_id == id) reads sources)
  where
    or_false : (b : Bool) → (b || false) ≡ b
    or_false b = ground arith

pub sources_of-IsDistinct :
    (sources : List SourceConfig)
    → IsDistinct (λ c. c.source_id) (sources_of (active_sources_of sources))
sources_of-IsDistinct sources =
    sort_by-IsDistinct (λ c. c.source_id) _ (values (active_sources_of sources))
      (values-IsDistinct (λ c. c.source_id) (active_sources_of sources)
        (index_by-keyed (λ c. c.source_id) (keep_if reads sources))
        (index_by-IsDistinct (λ c. c.source_id) (keep_if reads sources) [] tt))

-- the sources that the second loop visits
pub sources_of-wanted :
    (sources : List SourceConfig) (c : SourceConfig)
    → Memᴰ c (sources_of (active_sources_of sources))
    → is_wanted sources c.source_id ≡ true
sources_of-wanted sources c m =
    let (k, n) = values-member c (active_sources_of sources) (sort_by-member _ c _ m) in
    let (i, f) = indexed-member (λ d. d.source_id) (k, c) (keep_if reads sources) n in
    let (j, r) = keep_if-member reads c sources i in
    member-any_of (λ d. d.source_id == c.source_id && reads d) c sources j
      (ground (arith, r, str_eq_iff c.source_id c.source_id))

pub wanted-sources_of :
    (sources : List SourceConfig) (id : String)
    → is_wanted sources id ≡ true
    → (c : SourceConfig) × Memᴰ c (sources_of (active_sources_of sources)) × (c.source_id ≡ id)
wanted-sources_of sources id h = elim (Option-cases (get id (active_sources_of sources))) [
  | inl e ↦ absurd (ground (arith, h, e, active_sources-wanted sources id))
  | inr (c, e) ↦
      let m = get-member id c (active_sources_of sources) e in
      let (i, f) = indexed-member (λ d. d.source_id) (id, c) (keep_if reads sources) m in
      (c, member-sort_by _ c _ (member-values id c (active_sources_of sources) m), sym f)
]

pub good-served :
    (accounts : List ListenerAccountMetadata) (sources : List SourceConfig) (x : ChannelAssignment)
    → IsGood (by_account accounts) (active_sources_of sources) x
    → (is_wanted sources x.source_id ≡ true) × (is_served accounts x ≡ true)
good-served accounts sources x (g, h) = (
  sym (active_sources-wanted sources x.source_id) ∙ g,
  elim (Option-cases (get x.account_key (by_account accounts))) [
    | inl e ↦ absurd (ground (arith, h, e))
    | inr (a, e) ↦
        let (i, f) =
          indexed-member (λ b. b.account_key) (x.account_key, a) accounts
            (get-member x.account_key a (by_account accounts) e) in
        member-any_of (λ b. b.account_key == x.account_key && is_assignable b) a accounts i
          (ground (arith, h, e, f, str_eq_iff a.account_key x.account_key))
  ],
)

module _ (sources : List SourceConfig) (now : ℕ) (s : PoolState)
    (x : IsExclusive s.assignments) where
  abbrev accounts : List ListenerAccountMetadata
  accounts = list_accounts s.accounts

  -- the first loop of `reconcile`
  abbrev pub checked : Result Loads × PoolState
  checked =
      check_assignments (by_account accounts) (active_sources_of sources) now
        (entries_of (held_of s)) (calculate_loads (values (held_of s)) []) s

  pub checked-IsSettled : IsSettled (by_account accounts) (active_sources_of sources) now s checked
  checked-IsSettled =
      check_assignments-IsSettled (by_account accounts) (active_sources_of sources) now
        (entries_of (held_of s)) (calculate_loads (values (held_of s)) []) s
        (All-sort_by _ _ (held_of s)
          (index_by-keyed (λ a. a.source_id) (list_active_assignments s.assignments)))
        x
        (λ a m. inr (
          member-sort_by _ (a.source_id, a) (held_of s)
            (get-member a.source_id a (held_of s)
              (get-index_by (λ b. b.source_id) a (list_active_assignments s.assignments) [] x m))))
