-- ===== src/Referrals/Acyclic/Links.antt =====
-- src/estateflow/services/referrals.py: what `register_start` does to the referral links.
use Prim.Native.String.{◌++◌}
use estate_flow.Base.{
  ℕ, String, ◌≡◌, refl, ◌≢◌, ◌∙◌, ◌⊎◌, inl, inr, false, Option, nat_eq, nat_eq_iff, Bool-cases,
  Option-cases, ℕ_eq, str, Result-cases, Exec,
}
use estate_flow.Base.Dict.{Dict, get, put}
use estate_flow.Base.Invariants.{Preserves, preserves_rules}
use estate_flow.Referrals.{
  UserRepository, ReferralEvent, pending, TelegramUser, ReferralService, RateLimiter, in_limiter,
  in_repository, upsert_user, accept_code, register_start, parse_referral_start_parameter, audit,
  create_pending_event, create_link, would_create_cycle, get_pending_or_active_event, pending_event,
  get_user_by_referral_code, has_other_referrer,
}

abbrev events_of : ReferralService → Dict ℕ ReferralEvent
events_of s = s.repository.referral_events

-- A new link of `user`, which had no link that counts.
pub record Linked (user : ℕ) (s t : ReferralService) : Type 0 where
  pub link : ReferralEvent
  pub is_pending : link.status ≡ pending
  pub other : link.referrer_user_id ≢ user
  pub no_cycle : would_create_cycle link.referrer_user_id user s.repository ≡ false
  pub events : events_of t ≡ put user link (events_of s)

abbrev pub Keeps : ReferralService → ReferralService → Type 0
Keeps s t = events_of t ≡ events_of s

module _ (referrer user : ℕ) (key id : String) (now : ℕ) where
  create-cases :
      (r : UserRepository)
      → ((create_pending_event referrer user key id now r).1.referral_events ≡ r.referral_events)
        ⊎ ((create_pending_event referrer user key id now r).1.referral_events
            ≡ put user (pending_event referrer user key id now) r.referral_events)
  unfolding create_pending_event
  create-cases r = elim (Option-cases (get user r.referral_events)) [
    | inr (e, old) ↦ rw old (inl refl)
    | inl new ↦ elim (Option-cases (get user r.users)) [
      | inl missing ↦ rw (new, missing) (inl refl)
      | inr (u, there) ↦ elim (Bool-cases (has_other_referrer u.referred_by referrer)) [
        | inl bad ↦ rw (new, there, bad) (inl refl)
        | inr good ↦ rw (new, there, good) (inr refl)
      ]
    ]
  ]

module _ (user_id : ℕ) (user : TelegramUser) (referrer : ℕ) (id : String) (now : ℕ) where
  abbrev link_key : String
  link_key = "telegram_referral:" ++ str user_id

  events-create_link :
      (s : ReferralService)
      → events_of (create_link user_id user referrer id now s).1
        ≡ (create_pending_event referrer user_id link_key id now s.repository).1.referral_events
  unfolding create_link
  events-create_link s =
      elim (Result-cases (create_pending_event referrer user_id link_key id now s.repository).0) [
        | inl (made, e) ↦ rw e refl
        | inr (x, e) ↦ rw e refl
      ]

  create_link-cases :
      (s : ReferralService)
      → referrer ≢ user_id
      → would_create_cycle referrer user_id s.repository ≡ false
      → Keeps s (create_link user_id user referrer id now s).1
        ⊎ Linked user_id s (create_link user_id user referrer id now s).1
  create_link-cases s other ends =
      elim (create-cases referrer user_id link_key id now s.repository) [
        | inl same ↦ inl (events-create_link s ∙ same)
        | inr new ↦ inr (record {
          link = pending_event referrer user_id link_key id now;
          is_pending = refl;
          other = other;
          no_cycle = ends;
          events = events-create_link s ∙ new;
        })
      ]

module _ (user_id : ℕ) (user : TelegramUser) (code id : String) (now : ℕ) where
  pub accept_code-cases :
      (s : ReferralService)
      → Keeps s (accept_code user_id user code id now s).1
        ⊎ Linked user_id s (accept_code user_id user code id now s).1
  unfolding accept_code audit
  accept_code-cases s = elim (Option-cases (get_user_by_referral_code code s.repository)) [
    | inl e ↦ rw e (inl refl)
    | inr (r, e) ↦ elim (Bool-cases (nat_eq r.user_id user_id)) [
      | inl own ↦ rw (e, own) (inl refl)
      | inr other ↦ elim (Bool-cases (would_create_cycle r.user_id user_id s.repository)) [
        | inl loops ↦ rw (e, other, loops) (inl refl)
        | inr ends ↦ elim (Option-cases (get_pending_or_active_event user_id s.repository)) [
          | inr (v, old) ↦ rw (e, other, ends, old) (inl refl)
          | inl new ↦
              rw (e, other, ends, new)
                (create_link-cases user_id user r.user_id id now s
                  (λ same. cc (other, (nat_eq_iff r.user_id user_id).1 same)) ends)
        ]
      ]
    ]
  ]

-- A property of the links alone, kept by each link that the checks let through.
module _ (P : Dict ℕ ReferralEvent → Type 0)
    (step : (user : ℕ) (s t : ReferralService)
      → Linked user s t
      → P (events_of s)
      → P (events_of t)) where
  abbrev Holds : ReferralService → Type 0
  Holds s = P (events_of s)

  accept_code-Preserves :
      (user_id : ℕ) (user : TelegramUser) (code id : String) (now : ℕ)
      → Preserves Holds (accept_code user_id user code id now)
  accept_code-Preserves user_id user code id now = record {
    holds = λ s p. elim (accept_code-cases user_id user code id now s) [
      | inl same ↦ rw same p
      | inr linked ↦ step user_id s _ linked p
    ];
  }

  limiter-Preserves : {A : Type 0} (m : Exec RateLimiter A) → Preserves Holds (in_limiter m)
  limiter-Preserves m = record { holds = λ s p. p }

  audit-Preserves :
      (id : ℕ) (action reason : String) (now : ℕ)
      → Preserves Holds (in_repository (audit id action reason now))
  unfolding audit
  audit-Preserves id action reason now = record { holds = λ s p. p }

  upsert-Preserves : (id now : ℕ) → Preserves Holds (in_repository (upsert_user id now))
  unfolding upsert_user
  upsert-Preserves id now = record { holds = λ s p. p }

  parse-Preserves : (value : String) → Preserves Holds (parse_referral_start_parameter value)
  unfolding parse_referral_start_parameter
  parse-Preserves value = search preserves_rules

  pub register_start-Preserves :
      (user_id : ℕ) (start : Option String) (id : String) (now : ℕ)
      → Preserves Holds (register_start user_id start id now)
  unfolding register_start
  register_start-Preserves user_id start id now =
      search
        (
          preserves_rules, accept_code-Preserves, limiter-Preserves, audit-Preserves,
          upsert-Preserves, parse-Preserves,
        )
        depth 12
