-- ===== src/Listeners/Stranded.antt =====
-- src/estateflow/services/listener_pool.py: what `reconcile` leaves when no account can be used.
use mathlib.Core.List.{Memᴰ}
use mathlib.Core.List.Memᴰ
use estate_flow.Base.{
  ℕ, String, true, false, ◌≡◌, refl, ap, ◌∙◌, inl, inr, List, [], ◌∷◌, arith, none, String_eq,
  any_of, is_some, Bool-cases, Result, ok, err, runtime_error, keep_if, after, gets,
}
use estate_flow.Base.Dict.{Dict, get, values}
use estate_flow.Base.Members.{any_of-member, none_of-member, index_by}
use estate_flow.Sources.{SourceConfig}
use estate_flow.Listeners.Health.{ListenerAccountMetadata, is_assignable, list_accounts}
use estate_flow.Listeners.Assignments.{ChannelAssignment, list_active_assignments}
use estate_flow.Listeners.Pool.{
  PoolState, Loads, held_of, by_source, active_sources_of, sources_of, calculate_loads,
  select_account, no_healthy_account, assign_sources, reconcile,
}
use estate_flow.Listeners.Release.{IsExclusive}
use estate_flow.Listeners.Wanted.{is_wanted, wanted-sources_of, good-served}
use estate_flow.Listeners.Served.{settled, middle, reconcile-IsServed}

no_members {ℓ} : {A : Type ℓ} (xs : List A) → ((x : A) → Memᴰ x xs → ⊥) → xs ≡ []
no_members [] h = refl
no_members (x ∷ xs) h = absurd (h x (Memᴰ.head refl))

none_kept :
    (xs : List ListenerAccountMetadata)
    → any_of is_assignable xs ≡ false
    → keep_if is_assignable xs ≡ []
none_kept [] h = refl
none_kept (a ∷ xs) h = ground (arith, h, none_kept xs)

select_account-none :
    (accounts : List ListenerAccountMetadata) (loads : Loads)
    → any_of is_assignable accounts ≡ false
    → select_account accounts loads ≡ none
unfolding select_account
select_account-none accounts loads h = rw (none_kept accounts h) refl

module _ (accounts : List ListenerAccountMetadata)
    (unusable : any_of is_assignable accounts ≡ false) (now : ℕ) where
  -- the loop over the sources changes nothing
  assign_sources-same :
      (held : Dict String ChannelAssignment) (sources : List SourceConfig) (loads : Loads)
      (s : PoolState)
      → (assign_sources accounts held now sources loads s).1 ≡ s
  unfolding assign_sources
  assign_sources-same held [] loads s = refl
  assign_sources-same held (c ∷ cs) loads s = elim (Bool-cases (is_some (get c.source_id held))) [
    | inl e ↦ rw e (assign_sources-same held cs loads s)
    | inr e ↦ rw (e, select_account-none accounts loads unusable) refl
  ]

  assign_sources-raises :
      (held : Dict String ChannelAssignment) (sources : List SourceConfig) (loads : Loads)
      (s : PoolState) (c : SourceConfig)
      → held ≡ []
      → Memᴰ c sources
      → assign_sources accounts held now sources loads s
        ≡ (err (runtime_error no_healthy_account), s)
  unfolding assign_sources get
  assign_sources-raises held [] loads s c e m = absurd (Memᴰ.not-nil m)
  assign_sources-raises held (d ∷ ds) loads s c e m =
      rw (e, select_account-none accounts loads unusable) refl

module _ (sources : List SourceConfig) (now : ℕ) (s : PoolState) (x : IsExclusive s.assignments)
    (unusable : any_of is_assignable (list_accounts s.accounts) ≡ false) where
  middle-empty : list_active_assignments (middle sources now s x).assignments ≡ []
  middle-empty = no_members _ λ a m.
      let (w, v) =
        good-served (list_accounts s.accounts) sources a ((settled sources now s x).good a m) in
      let (b, n, p) = any_of-member _ (list_accounts s.accounts) v in
      absurd
        (ground (arith, p, none_of-member is_assignable b (list_accounts s.accounts) unusable n))

-- When no account is enabled and healthy and no source has two active assignments, `reconcile` for
-- at least one enabled Telegram source raises `NoHealthyListenerAccountError`, and leaves no active
-- assignment.
pub reconcile-stranded :
    (sources : List SourceConfig) (now : ℕ) (s : PoolState) (id : String)
    → IsExclusive s.assignments
    → any_of is_assignable (list_accounts s.accounts) ≡ false
    → is_wanted sources id ≡ true
    → ((reconcile sources now s).0 ≡ err (runtime_error no_healthy_account))
      × (list_active_assignments (reconcile sources now s).1.assignments ≡ [])
unfolding reconcile
reconcile-stranded sources now s id x unusable w =
    let r = settled sources now s x in
    let (c, m, e) = wanted-sources_of sources id w in
    let none_held : held_of (middle sources now s x) ≡ [] =
      ap by_source (middle-empty sources now s x unusable) ∙ (unfold index_by in refl) in
    let raised =
      assign_sources-raises (list_accounts s.accounts) unusable now
        (held_of (middle sources now s x)) (sources_of (active_sources_of sources))
        (calculate_loads (values (held_of (middle sources now s x))) []) (middle sources now s x) c
        none_held m in
    rw (r.returned, raised) (refl, middle-empty sources now s x unusable)

last_state :
    (o : Result Unit × PoolState)
    → (after o.0 o.1 λ _. gets λ t. list_active_assignments t.assignments).1 ≡ o.1
last_state (ok a, t) = refl
last_state (err e, t) = refl

-- Whether it returns or raises, no source has two active assignments after it.
pub reconcile-IsExclusive :
    (sources : List SourceConfig) (now : ℕ) (s : PoolState)
    → IsExclusive s.assignments
    → IsExclusive (reconcile sources now s).1.assignments
unfolding reconcile
reconcile-IsExclusive sources now s x =
    elim (Bool-cases (any_of is_assignable (list_accounts s.accounts))) [
      | inl usable ↦ (reconcile-IsServed sources now s x usable).exclusive
      | inr unusable ↦
          let r = settled sources now s x in
          let same =
            assign_sources-same (list_accounts s.accounts) unusable now
              (held_of (middle sources now s x)) (sources_of (active_sources_of sources))
              (calculate_loads (values (held_of (middle sources now s x))) [])
              (middle sources now s x) in
          rw (r.returned, last_state, same) r.exclusive
    ]
