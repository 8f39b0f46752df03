-- ===== src/Referrals/Activation.antt =====
-- src/estateflow/repositories/users.py: the cases of `activate_once`.
use estate_flow.Base.{
  ℕ, ◌+◌, String, ◌≡◌, refl, ◌⊎◌, inl, inr, Bool, true, false, none, some, arith, ◌∷◌, ℕ_eq,
  Option-cases, Result, ok, if◌then◌else◌,
}
use estate_flow.Base.Dict.{get, put}
use estate_flow.Referrals.{
  UserRepository, ReferralEvent, EventStatus, pending, active, rejected, TelegramUser,
  activate_once, ReferralActivationResult, extended, grants, award_for,
}

status-cases : (s : EventStatus) → (s ≡ pending) ⊎ ((s ≡ active) ⊎ (s ≡ rejected))
status-cases pending = inl refl
status-cases active = inr (inl refl)
status-cases rejected = inr (inr refl)

module _ (referred : ℕ) (key : String) (now threshold extension : ℕ) where
  abbrev pub activated_event : ReferralEvent → ReferralEvent
  activated_event event = record event {
    status = active;
    activation_event_key = key;
    activated_at = some now;
  }

  abbrev pub credited : TelegramUser → Bool → TelegramUser
  credited referrer granted = record referrer {
    active_referral_count = referrer.active_referral_count + 1;
    premium_until =
        if granted
        then some (extended referrer.premium_until now extension)
        else referrer.premium_until;
    updated_at = now;
  }

  -- A pending event became active, its referrer was credited, and an award was made if it was due.
  pub record Activated (s t : UserRepository) (result : ReferralActivationResult) : Type 0 where
    pub event : ReferralEvent
    pub found : get referred s.referral_events ≡ some event
    pub was_pending : event.status ≡ pending
    pub referrer : TelegramUser
    pub known : get event.referrer_user_id s.users ≡ some referrer
    pub granted : Bool
    pub due : granted ≡ grants referrer threshold s.premium_awards
    pub events : t.referral_events ≡ put referred (activated_event event) s.referral_events
    pub users : t.users ≡ put referrer.user_id (credited referrer granted) s.users
    pub awards :
        t.premium_awards
        ≡ (if granted then (referrer.user_id, threshold) ∷ s.premium_awards else s.premium_awards)
    pub activated : result.activated ≡ true
    pub award : result.premium_award ≡ award_for referrer now threshold extension s.premium_awards

  -- Nothing is changed, and no award is made.
  pub record Unchanged (s t : UserRepository) (r : Result ReferralActivationResult) : Type 0 where
    pub same : t ≡ s
    pub no_award :
        (result : ReferralActivationResult)
        → r ≡ ok result
        → (result.activated ≡ false) × (result.premium_award ≡ none)

  abbrev outcome : UserRepository → Result ReferralActivationResult × UserRepository
  outcome s = activate_once referred key now threshold extension s

  abbrev Cases : UserRepository → Result ReferralActivationResult × UserRepository → Type 0
  Cases s o =
      Unchanged s o.1 o.0
      ⊎ ((result : ReferralActivationResult) × (o.0 ≡ ok result) × Activated s o.1 result)

  pub activate_once-Cases : (s : UserRepository) → Cases s (outcome s)
  unfolding activate_once
  activate_once-Cases s = elim (Option-cases (get referred s.referral_events)) [
    | inl e ↦ rw e (inl (record { same = refl; no_award = λ r h. ground arith }))
    | inr (event, e) ↦ elim (status-cases event.status) [
      | inl p ↦ elim (Option-cases (get event.referrer_user_id s.users)) [
        | inl missing ↦ rw (e, p, missing) (inl (record { same = refl; no_award = λ r h. cc }))
        | inr (u, k) ↦
            rw (e, p, k)
              (inr (
                _,
                refl,
                record {
                  event = event;
                  found = e;
                  was_pending = p;
                  referrer = u;
                  known = k;
                  granted = grants u threshold s.premium_awards;
                  due = refl;
                  events = refl;
                  users = refl;
                  awards = refl;
                  activated = refl;
                  award = refl;
                },
              ))
      ]
      | inr (inl a) ↦ elim (Option-cases (get event.referrer_user_id s.users)) [
        | inl missing ↦ rw (e, a, missing) (inl (record { same = refl; no_award = λ r h. cc }))
        | inr (u, k) ↦ rw (e, a, k) (inl (record { same = refl; no_award = λ r h. ground arith }))
      ]
      | inr (inr r) ↦ rw (e, r) (inl (record { same = refl; no_award = λ r h. ground arith }))
    ]
  ]
