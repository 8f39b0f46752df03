-- ===== src/Listeners/Assign.antt =====
-- src/estateflow/services/listener_pool.py: what `_select_account` picks, and what the loop of
-- `reconcile` over the sources adds.
use mathlib.Core.List.{Memᴰ}
use mathlib.Core.List.Memᴰ
use mathlib.Core.Path.{subst}
use estate_flow.Base.{
  ℕ, ◌+◌, ◌≤◌, String, Bool, true, false, ◌||◌, ◌≡◌, refl, sym, ◌∙◌, inl, inr, List, [], ◌∷◌, ◌++◌,
  arith, some, some, ◌==◌, String_eq, ℕ_eq, str_eq_iff, any_of, Bool-cases, is_some, Result, ok,
  keep_if, count_if,
}
use estate_flow.Base.Dict.{Dict, get, put, get-put}
use estate_flow.Base.Members.{
  IsDistinct, none_of-member, any_of-member, any_of-append, keep_if-append, keep_if-member,
  member-keep_if, append-IsDistinct,
}
use estate_flow.Sources.{SourceConfig}
use estate_flow.Listeners.Health.{ListenerAccountMetadata, is_assignable}
use estate_flow.Listeners.Assignments.{ChannelAssignment, list_active_assignments}
use estate_flow.Listeners.Pool.{
  PoolState, Loads, calculate_loads, load_of, is_less, min_by, select_account, new_assignment,
  assign, assign_sources,
}
use estate_flow.Listeners.Release.{IsExclusive}

-- The smallest element of a choice is one of it, and nothing in it has a smaller load.
module _ (loads : Loads) where
  abbrev load : ListenerAccountMetadata → ℕ
  load a = load_of a.account_key loads

  less_load : (a b : ListenerAccountMetadata) → is_less loads a b ≡ true → load a ≤ load b
  less_load a b h = ground (arith, h)

  not_less_load : (a b : ListenerAccountMetadata) → is_less loads a b ≡ false → load b ≤ load a
  not_less_load a b h = ground (arith, h)

  pub record IsLeast (xs : List ListenerAccountMetadata) (a : ListenerAccountMetadata)
      : Type 0 where
    pub member : Memᴰ a xs
    pub below : (b : ListenerAccountMetadata) → Memᴰ b xs → load a ≤ load b

  min_by-IsLeast :
      (best : ListenerAccountMetadata) (xs : List ListenerAccountMetadata)
      → IsLeast (best ∷ xs) (min_by (is_less loads) best xs)
  unfolding min_by
  min_by-IsLeast best [] = record {
    member = Memᴰ.head refl;
    below = λ b m. elim (Memᴰ.cases_cons m) [
      | inl f ↦ rw f (omega arith)
      | inr n ↦ absurd (Memᴰ.not-nil n)
    ];
  }
  min_by-IsLeast best (x ∷ xs) = elim (Bool-cases (is_less loads x best)) [
    | inl e ↦
        let r = min_by-IsLeast x xs in
        rw e (record {
          member = Memᴰ.tail r.member;
          below = λ b m. elim (Memᴰ.cases_cons m) [
            | inl f ↦ rw f (omega (arith, less_load x best e, r.below x (Memᴰ.head refl)))
            | inr n ↦ r.below b n
          ];
        })
    | inr e ↦
        let r = min_by-IsLeast best xs in
        rw e (record {
          member = elim (Memᴰ.cases_cons r.member) [
            | inl f ↦ Memᴰ.head f
            | inr n ↦ Memᴰ.tail (Memᴰ.tail n)
          ];
          below = λ b m. elim (Memᴰ.cases_cons m) [
            | inl f ↦ r.below b (Memᴰ.head f)
            | inr n ↦ elim (Memᴰ.cases_cons n) [
              | inl f ↦ rw f (omega (arith, not_less_load x best e, r.below best (Memᴰ.head refl)))
              | inr k ↦ r.below b (Memᴰ.tail k)
            ]
          ];
        })
  ]

  pub record IsSelected (accounts : List ListenerAccountMetadata) (a : ListenerAccountMetadata)
      : Type 0 where
    pub selected : select_account accounts loads ≡ some a
    pub least : IsLeast (keep_if is_assignable accounts) a

  least_of :
      (accounts cs : List ListenerAccountMetadata)
      → keep_if is_assignable accounts ≡ cs
      → (x : ListenerAccountMetadata) → Memᴰ x cs
      → (a : ListenerAccountMetadata) × IsSelected accounts a
  least_of accounts [] e x m = absurd (Memᴰ.not-nil m)
  least_of accounts (c ∷ cs) e x m = (
    min_by (is_less loads) c cs,
    record { selected = unfold select_account in rw e refl; least = rw e (min_by-IsLeast c cs) },
  )

  -- When one of the accounts is enabled and healthy, `_select_account` picks one that is, and no
  -- enabled and healthy account has a smaller load.
  pub select_account-IsSelected :
      (accounts : List ListenerAccountMetadata)
      → any_of is_assignable accounts ≡ true
      → (a : ListenerAccountMetadata) × IsSelected accounts a
  select_account-IsSelected accounts h =
      let (x, m, p) = any_of-member is_assignable accounts h in
      least_of accounts (keep_if is_assignable accounts) refl x
        (member-keep_if is_assignable x accounts m p)

load_of-calculate :
    (key : String) (xs : List ChannelAssignment) (loads : Loads)
    → load_of key (calculate_loads xs loads)
      ≡ count_if (λ a. a.account_key == key) xs + load_of key loads
unfolding calculate_loads
load_of-calculate key [] loads = omega arith
load_of-calculate key (a ∷ xs) loads =
    let counted =
      load_of-calculate key xs (put a.account_key (load_of a.account_key loads + 1) loads) in
    let put_here = get-put a.account_key key (load_of a.account_key loads + 1) loads in
    elim (Bool-cases (a.account_key == key)) [
      | inl e ↦
          let same : a.account_key ≡ key = (str_eq_iff a.account_key key).0 e in
          counted ∙ (rw (put_here, e, same) (omega arith))
      | inr e ↦ counted ∙ (rw (put_here, e) (omega arith))
    ]

-- The load of each account is the number of its assignments.
pub calculate_loads-counts :
    (key : String) (xs : List ChannelAssignment)
    → load_of key (calculate_loads xs []) ≡ count_if (λ a. a.account_key == key) xs
unfolding get
calculate_loads-counts key xs = load_of-calculate key xs [] ∙ omega arith

-- The loop over the sources, where an assignable account exists.
module _ (accounts : List ListenerAccountMetadata)
    (some_assignable : any_of is_assignable accounts ≡ true) (held : Dict String ChannelAssignment)
    (now : ℕ) (Q : ChannelAssignment → Type 0) where
  abbrev is_held : String → PoolState → Bool
  is_held id s = any_of (λ a. a.source_id == id) (list_active_assignments s.assignments)

  pub record IsCovered (s : PoolState) (sources : List SourceConfig)
      (o : Result (Unit {0}) × PoolState) : Type 0 where
    pub returned : o.0 ≡ ok tt
    pub exclusive : IsExclusive o.1.assignments
    pub served : (x : ChannelAssignment) → Memᴰ x (list_active_assignments o.1.assignments) → Q x
    pub grown : (id : String) → is_held id s ≡ true → is_held id o.1 ≡ true
    pub covered : (c : SourceConfig) → Memᴰ c sources → is_held c.source_id o.1 ≡ true

  -- what the loop needs of the state: its dict agrees with the assignments
  pub record IsReady (s : PoolState) (sources : List SourceConfig) : Type 0 where
    pub exclusive : IsExclusive s.assignments
    pub served : (x : ChannelAssignment) → Memᴰ x (list_active_assignments s.assignments) → Q x
    pub apart : IsDistinct (λ c. c.source_id) sources
    pub agrees :
        (c : SourceConfig) → Memᴰ c sources → is_held c.source_id s ≡ is_some (get c.source_id held)
    pub good :
        (c : SourceConfig) (a : ListenerAccountMetadata)
        → Memᴰ c sources
        → Memᴰ a accounts
        → is_assignable a ≡ true
        → Q (new_assignment c.source_id a.account_key now)

  active-assign :
      (id key : String) (s : PoolState)
      → list_active_assignments (assign id key now s).1.assignments
        ≡ list_active_assignments s.assignments ++ new_assignment id key now ∷ []
  unfolding list_active_assignments
  active-assign id key s =
      keep_if-append (λ a. a.active) s.assignments (new_assignment id key now ∷ [])

  is_held-assign :
      (id key other : String) (s : PoolState)
      → is_held other (assign id key now s).1 ≡ (is_held other s || id == other)
  is_held-assign id key other s = rw active-assign (
      any_of-append (λ a. a.source_id == other) (list_active_assignments s.assignments) _
      ∙ ground arith)

  IsReady-tail :
      (s : PoolState) (c : SourceConfig) (cs : List SourceConfig)
      → IsReady s (c ∷ cs)
      → IsReady s cs
  IsReady-tail s c cs r = record {
    exclusive = r.exclusive;
    served = r.served;
    apart = r.apart.1;
    agrees = λ d m. r.agrees d (Memᴰ.tail m);
    good = λ d a m. r.good d a (Memᴰ.tail m);
  }

  IsReady-assign :
      (s : PoolState) (c : SourceConfig) (cs : List SourceConfig) (a : ListenerAccountMetadata)
      → Memᴰ a accounts
      → is_assignable a ≡ true
      → is_some (get c.source_id held) ≡ false
      → IsReady s (c ∷ cs)
      → IsReady (assign c.source_id a.account_key now s).1 cs
  IsReady-assign s c cs a m p free r = record {
    exclusive = rw active-assign (
        append-IsDistinct (λ x. x.source_id) _ (new_assignment c.source_id a.account_key now)
          r.exclusive (r.agrees c (Memᴰ.head refl) ∙ free));
    served = λ x n. elim (Memᴰ.append_cases _ (rw active-assign at n)) [
      | inl i ↦ r.served x i
      | inr i ↦ subst Q (sym (Memᴰ.eq_of_singleton i)) (r.good c a (Memᴰ.head refl) m p)
    ];
    apart = r.apart.1;
    agrees = λ d n.
        is_held-assign c.source_id a.account_key d.source_id s
        ∙ ground (
          arith,
          r.agrees d (Memᴰ.tail n),
          str_eq_iff c.source_id d.source_id,
          str_eq_iff d.source_id c.source_id,
          none_of-member (λ e. e.source_id == c.source_id) d cs r.apart.0 n,
        );
    good = λ d b n. r.good d b (Memᴰ.tail n);
  }

  pub assign_sources-IsCovered :
      (sources : List SourceConfig) (loads : Loads) (s : PoolState)
      → IsReady s sources
      → IsCovered s sources (assign_sources accounts held now sources loads s)
  unfolding assign_sources
  assign_sources-IsCovered [] loads s r = record {
    returned = refl;
    exclusive = r.exclusive;
    served = r.served;
    grown = λ id h. h;
    covered = λ c m. absurd (Memᴰ.not-nil m);
  }
  assign_sources-IsCovered (c ∷ cs) loads s r = elim (Bool-cases (is_some (get c.source_id held))) [
    | inl e ↦
        let rest = assign_sources-IsCovered cs loads s (IsReady-tail s c cs r) in
        rw e (record {
          returned = rest.returned;
          exclusive = rest.exclusive;
          served = rest.served;
          grown = rest.grown;
          covered = λ d m. elim (Memᴰ.cases_cons m) [
            | inl f ↦ rw f (rest.grown c.source_id (r.agrees c (Memᴰ.head refl) ∙ e))
            | inr n ↦ rest.covered d n
          ];
        })
    | inr e ↦
        let (a, chosen) = select_account-IsSelected loads accounts some_assignable in
        let (m, p) = keep_if-member is_assignable a accounts chosen.least.member in
        let rest =
          assign_sources-IsCovered cs (put a.account_key (load_of a.account_key loads + 1) loads) _
            (IsReady-assign s c cs a m p e r) in
        rw (e, chosen.selected)
          (record {
            returned = rest.returned;
            exclusive = rest.exclusive;
            served = rest.served;
            grown = λ id h.
                rest.grown id (is_held-assign c.source_id a.account_key id s ∙ ground (arith, h));
            covered = λ d n. elim (Memᴰ.cases_cons n) [
              | inl f ↦ rw f (
                  rest.grown c.source_id (
                    is_held-assign c.source_id a.account_key c.source_id s
                    ∙ ground (arith, str_eq_iff c.source_id c.source_id)))
              | inr i ↦ rest.covered d i
            ];
          })
  ]
