-- ===== src/Referrals/Fuel.antt =====
-- src/estateflow/services/referrals.py: the rounds of the loop of `_would_create_cycle`.
use estate_flow.Base.{
  ℕ, zero, suc, ◌≤◌, ◌<◌, ◌≡◌, refl, inl, inr, Bool, true, false, not, some, List, [], ◌∷◌, arith,
  nat_eq, nat_eq_iff, Bool-cases, Option-cases, length, count_if, ℕ_eq,
}
use estate_flow.Base.Dict.{Dict, get}
use estate_flow.Referrals.{
  UserRepository, ReferralEvent, cycle_loop, get_pending_or_active_event, unless_rejected, seen,
}

-- The events whose key was not visited.
abbrev unvisited : Dict ℕ ReferralEvent → List ℕ → ℕ
unvisited events visited = count_if (λ p. not (seen p.0 visited)) events

unvisited-le :
    (events : Dict ℕ ReferralEvent) (k : ℕ) (visited : List ℕ)
    → unvisited events (k ∷ visited) ≤ unvisited events visited
unvisited-le [] k visited = omega arith
unvisited-le (e ∷ events) k visited = ground (arith, unvisited-le events k visited)

unvisited-cons :
    (events : Dict ℕ ReferralEvent) (k : ℕ) (visited : List ℕ) (event : ReferralEvent)
    → get k events ≡ some event
    → seen k visited ≡ false
    → unvisited events (k ∷ visited) < unvisited events visited
unfolding get
unvisited-cons [] k visited event h new = cc
unvisited-cons ((j, e) ∷ events) k visited event h new = elim (Bool-cases (nat_eq j k)) [
  | inl same ↦
      let here = (nat_eq_iff j k).0 same in
      rw here (ground (arith, unvisited-le events k visited, nat_eq_iff k k))
  | inr other ↦
      ground (arith, unvisited-cons events k visited event, nat_eq_iff j k, nat_eq_iff k j)
]

unvisited-le-length :
    (events : Dict ℕ ReferralEvent) (visited : List ℕ) → unvisited events visited ≤ length events
unvisited-le-length [] visited = omega arith
unvisited-le-length (e ∷ events) visited = ground (arith, unvisited-le-length events visited)

module _ (s : UserRepository) (user : ℕ) where
  cycle_loop-answers :
      (fuel current : ℕ) (visited : List ℕ)
      → unvisited s.referral_events visited < fuel
      → (answer : Bool) × (cycle_loop fuel s user current visited ≡ some answer)
  unfolding cycle_loop get_pending_or_active_event
  cycle_loop-answers zero current visited h = elim h [ ]
  cycle_loop-answers (suc fuel) current visited h = elim (Bool-cases (seen current visited)) [
    | inl old ↦ (true, rw (old, cycle_loop) refl)
    | inr new ↦ elim (Option-cases (get current s.referral_events)) [
      | inl e ↦ (false, rw (new, e, cycle_loop) refl)
      | inr (event, e) ↦ elim (Option-cases (unless_rejected (some event))) [
        | inl r ↦ (false, rw (new, e, r, cycle_loop) refl)
        | inr (event', r) ↦ elim (Bool-cases (nat_eq event'.referrer_user_id user)) [
          | inl loops ↦ (true, rw (new, e, r, loops, cycle_loop) refl)
          | inr on ↦
              let (answer, rest) =
                cycle_loop-answers fuel event'.referrer_user_id (current ∷ visited)
                  (omega (arith, unvisited-cons s.referral_events current visited event e new)) in
              (answer, rw (new, e, r, on, cycle_loop) rest)
        ]
      ]
    ]
  ]

-- With one round for each stored event and one more, the loop that looks for a circle of referrals
-- answers, from every user and for every content of the repository.
pub cycle_loop-total :
    (s : UserRepository) (user_id current_id : ℕ)
    → (answer : Bool) × (cycle_loop (suc (length s.referral_events)) s user_id current_id []
        ≡ some answer)
cycle_loop-total s user_id current_id =
    cycle_loop-answers s user_id (suc (length s.referral_events)) current_id []
      (omega (arith, unvisited-le-length s.referral_events []))
