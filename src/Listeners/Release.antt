-- ===== src/Listeners/Release.antt =====
-- src/estateflow/services/listener_pool.py: what a release keeps of the stored assignments, and what
-- the loop of `reconcile` over the active ones leaves.
use mathlib.Core.List.{Memᴰ}
use mathlib.Core.List.Memᴰ
use mathlib.Core.Path.{subst}
use estate_flow.Base.{
  ℕ, String, true, false, ◌≡◌, refl, sym, ap, ◌∙◌, ◌⊎◌, inl, inr, List, [], ◌∷◌, arith, ◌==◌,
  String_eq, str_eq_iff, any_of, Bool-cases, Option-cases, is_some, Result, ok, All, if◌then◌else◌,
}
use estate_flow.Base.Dict.{Dict, get}
use estate_flow.Base.Members.{IsDistinct, none_of-member}
use estate_flow.Sources.{SourceConfig}
use estate_flow.Listeners.Health.{Accounts}
use estate_flow.Listeners.Assignments.{
  AssignmentReason, failover, source_disabled, ChannelAssignment, list_active_assignments,
  released_of, release_assignment,
}
use estate_flow.Listeners.Pool.{
  PoolState, Loads, release, can_serve, check_assignment, check_assignments,
}

-- a list of assignments without the first one of a source
abbrev pub without : String → List ChannelAssignment → List ChannelAssignment
without id [] = []
without id (a ∷ xs) = if a.source_id == id then xs else a ∷ without id xs

pub active-release :
    (id : String) (reason : AssignmentReason) (now : ℕ) (xs : List ChannelAssignment)
    → list_active_assignments (release_assignment id reason now xs)
      ≡ without id (list_active_assignments xs)
unfolding list_active_assignments release_assignment
active-release id reason now [] = refl
active-release id reason now (a ∷ xs) = ground (arith, active-release id reason now xs)

without-keys :
    (id other : String) (xs : List ChannelAssignment)
    → any_of (λ a. a.source_id == other) xs ≡ false
    → any_of (λ a. a.source_id == other) (without id xs) ≡ false
without-keys id other [] h = refl
without-keys id other (a ∷ xs) h = ground (arith, h, without-keys id other xs)

without-IsDistinct :
    (id : String) (xs : List ChannelAssignment)
    → IsDistinct (λ a. a.source_id) xs
    → IsDistinct (λ a. a.source_id) (without id xs)
without-IsDistinct id [] h = tt
without-IsDistinct id (a ∷ xs) h = elim (Bool-cases (a.source_id == id)) [
  | inl e ↦ rw e h.1
  | inr e ↦ rw e (without-keys id a.source_id xs h.0, without-IsDistinct id xs h.1)
]

without-member :
    (id : String) (x : ChannelAssignment) (xs : List ChannelAssignment)
    → IsDistinct (λ a. a.source_id) xs
    → Memᴰ x (without id xs)
    → Memᴰ x xs × ((x.source_id == id) ≡ false)
without-member id x [] h m = absurd (Memᴰ.not-nil m)
without-member id x (a ∷ xs) h m = elim (Bool-cases (a.source_id == id)) [
  | inl e ↦
      let n : Memᴰ x xs = rw e at m in
      (
        Memᴰ.tail n,
        ground (
          arith,
          e,
          str_eq_iff a.source_id id,
          str_eq_iff x.source_id id,
          none_of-member (λ y. y.source_id == a.source_id) x xs h.0 n,
          str_eq_iff x.source_id a.source_id,
        ),
      )
  | inr e ↦ elim (Memᴰ.cases_cons (rw e at m)) [
    | inl f ↦ (Memᴰ.head f, rw f e)
    | inr n ↦ let (i, o) = without-member id x xs h.1 n in (Memᴰ.tail i, o)
  ]
]

-- No source has two active assignments.
abbrev pub IsExclusive : List ChannelAssignment → Type 0
IsExclusive assignments = IsDistinct (λ a. a.source_id) (list_active_assignments assignments)

-- A release returns, and only takes the source's assignment out of the active ones.
record IsReleased (a : ChannelAssignment) (s : PoolState) (o : Result Loads × PoolState)
    : Type 0 where
  loads : Loads
  returned : o.0 ≡ ok loads
  accounts : o.1.accounts ≡ s.accounts
  active :
      list_active_assignments o.1.assignments
      ≡ without a.source_id (list_active_assignments s.assignments)

release-IsReleased :
    (a : ChannelAssignment) (reason : AssignmentReason) (now : ℕ) (loads : Loads) (s : PoolState)
    → IsReleased a s (release a reason now loads s)
release-IsReleased a reason now loads s =
    elim (Option-cases (released_of a.source_id reason now s.assignments)) [
      | inl e ↦ rw e (record {
        loads = _;
        returned = refl;
        accounts = refl;
        active = active-release a.source_id reason now s.assignments;
      })
      | inr (b, e) ↦ rw e (record {
        loads = _;
        returned = refl;
        accounts = refl;
        active = active-release a.source_id reason now s.assignments;
      })
    ]

-- The source is still to be read, and the account can read it.
abbrev pub IsGood : Accounts → Dict String SourceConfig → ChannelAssignment → Type 0
IsGood accounts sources a =
    (is_some (get a.source_id sources) ≡ true) × (can_serve (get a.account_key accounts) ≡ true)

module _ (accounts : Accounts) (sources : Dict String SourceConfig) (now : ℕ) where
  record IsChecked (a : ChannelAssignment) (s : PoolState) (o : Result Loads × PoolState)
      : Type 0 where
    loads : Loads
    returned : o.0 ≡ ok loads
    kept_accounts : o.1.accounts ≡ s.accounts
    active :
        (IsGood accounts sources a × (o.1 ≡ s))
        ⊎ (list_active_assignments o.1.assignments
            ≡ without a.source_id (list_active_assignments s.assignments))

  checked :
      (a : ChannelAssignment) (s : PoolState) (o : Result Loads × PoolState)
      → IsReleased a s o
      → IsChecked a s o
  checked a s o r = record {
    loads = r.loads;
    returned = r.returned;
    kept_accounts = r.accounts;
    active = inr r.active;
  }

  check_assignment-IsChecked :
      (a : ChannelAssignment) (loads : Loads) (s : PoolState)
      → IsChecked a s (check_assignment accounts sources now (a.source_id, a) loads s)
  unfolding check_assignment
  check_assignment-IsChecked a loads s = elim (Bool-cases (is_some (get a.source_id sources))) [
    | inr e ↦ rw e (checked a s _ (release-IsReleased a source_disabled now loads s))
    | inl e ↦ elim (Bool-cases (can_serve (get a.account_key accounts))) [
      | inl f ↦
          rw (e, f)
            (record {
              loads = loads;
              returned = refl;
              kept_accounts = refl;
              active = inl ((e, f), refl);
            })
      | inr f ↦
          let r = release-IsReleased a failover now loads s in
          rw (e, f, r.returned)
            (record {
              loads = r.loads;
              returned = refl;
              kept_accounts = r.accounts;
              active = inr r.active;
            })
    ]
  ]

  -- What the loop leaves: every active assignment is good.
  pub record IsSettled (s : PoolState) (o : Result Loads × PoolState) : Type 0 where
    pub loads : Loads
    pub returned : o.0 ≡ ok loads
    pub kept_accounts : o.1.accounts ≡ s.accounts
    pub exclusive : IsExclusive o.1.assignments
    pub good :
        (x : ChannelAssignment)
        → Memᴰ x (list_active_assignments o.1.assignments)
        → IsGood accounts sources x

  behind :
      (s t : PoolState) (o : Result Loads × PoolState)
      → t.accounts ≡ s.accounts
      → IsSettled t o
      → IsSettled s o
  behind s t o e h = record {
    loads = h.loads;
    returned = h.returned;
    kept_accounts = h.kept_accounts ∙ e;
    exclusive = h.exclusive;
    good = h.good;
  }

  -- Each active assignment is good, or the loop still comes to it.
  abbrev IsPending : List (String × ChannelAssignment) → PoolState → Type 0
  IsPending entries s =
      (x : ChannelAssignment)
      → Memᴰ x (list_active_assignments s.assignments)
      → IsGood accounts sources x ⊎ Memᴰ (x.source_id, x) entries

  step-IsExclusive :
      (a : ChannelAssignment) (s : PoolState) (o : Result Loads × PoolState)
      → IsChecked a s o
      → IsExclusive s.assignments
      → IsExclusive o.1.assignments
  step-IsExclusive a s o c h = elim c.active [
    | inl (g, e) ↦ rw e h
    | inr e ↦ rw e (without-IsDistinct a.source_id _ h)
  ]

  step-IsPending :
      (k : String) (a : ChannelAssignment) (entries : List (String × ChannelAssignment))
      (s : PoolState) (o : Result Loads × PoolState)
      → IsChecked a s o
      → IsExclusive s.assignments
      → IsPending ((k, a) ∷ entries) s
      → IsPending entries o.1
  step-IsPending k a entries s o c h p x m = elim c.active [
    | inl (g, e) ↦ elim (p x (rw e at m)) [
      | inl i ↦ inl i
      | inr n ↦ elim (Memᴰ.cases_cons n) [
        | inl f ↦ inl (subst (IsGood accounts sources) (sym (ap (λ q. q.1) f)) g)
        | inr r ↦ inr r
      ]
    ]
    | inr e ↦
        let (n, other) = without-member a.source_id x _ h (rw e at m) in
        elim (p x n) [
          | inl i ↦ inl i
          | inr q ↦ elim (Memᴰ.cases_cons q) [
            | inl f ↦
                let same : x.source_id ≡ a.source_id = ap (λ r. r.1.source_id) f in
                absurd (ground (arith, same, other, str_eq_iff x.source_id a.source_id))
            | inr r ↦ inr r
          ]
        ]
  ]

  pub check_assignments-IsSettled :
      (entries : List (String × ChannelAssignment)) (loads : Loads) (s : PoolState)
      → All (λ e. e.0 ≡ e.1.source_id) entries
      → IsExclusive s.assignments
      → IsPending entries s
      → IsSettled s (check_assignments accounts sources now entries loads s)
  unfolding check_assignments
  check_assignments-IsSettled [] loads s keyed h p = record {
    loads = loads;
    returned = refl;
    kept_accounts = refl;
    exclusive = h;
    good = λ x m. elim (p x m) [ inl g ↦ g | inr n ↦ absurd (Memᴰ.not-nil n) ];
  }
  check_assignments-IsSettled ((k, a) ∷ entries) loads s keyed h p =
      let c = check_assignment-IsChecked a loads s in
      rw (keyed.0, c.returned)
        (behind s _ _ c.kept_accounts (
          check_assignments-IsSettled entries c.loads _ keyed.1 (step-IsExclusive a s _ c h)
            (step-IsPending k a entries s _ c h p)))
