-- ===== src/Referrals/Acyclic/Activation.antt =====
-- src/estateflow/repositories/users.py: who referred whom, before and after `activate_once`.
use estate_flow.Base.{
  ℕ, String, ◌≡◌, refl, ap, ◌∙◌, inl, inr, Option, none, some, arith, nat_eq_iff, ℕ_eq,
}
use estate_flow.Base.Dict.{Dict, get, put, get-put}
use estate_flow.Referrals.{UserRepository, ReferralEvent, pending, activate_once, unless_rejected}
use estate_flow.Referrals.Activation.{activated_event, activate_once-Cases}

abbrev pub referrer_of : Option ReferralEvent → Option ℕ
referrer_of none = none
referrer_of (some event) = some event.referrer_user_id

-- The referrer of a user by a link that counts.
abbrev pub referrer_in : Dict ℕ ReferralEvent → ℕ → Option ℕ
referrer_in events u = referrer_of (unless_rejected (get u events))

module _ (referred : ℕ) (key : String) (now threshold extension : ℕ) where
  abbrev changed : ReferralEvent → ReferralEvent
  changed = activated_event referred key now threshold extension

  referrer_in-put :
      (events : Dict ℕ ReferralEvent) (event : ReferralEvent) (u : ℕ)
      → get referred events ≡ some event
      → event.status ≡ pending
      → referrer_in (put referred (changed event) events) u ≡ referrer_in events u
  referrer_in-put events event u found waits =
      ap (λ o. referrer_of (unless_rejected o)) (get-put referred u (changed event) events)
      ∙ ground (arith, found, waits, nat_eq_iff referred u)

  pub referrer_in-activate_once :
      (s : UserRepository) (u : ℕ)
      → referrer_in (activate_once referred key now threshold extension s).1.referral_events u
        ≡ referrer_in s.referral_events u
  referrer_in-activate_once s u =
      elim (activate_once-Cases referred key now threshold extension s) [
        | inl kept ↦ rw kept.same refl
        | inr (result, _, a) ↦
            rw a.events (referrer_in-put s.referral_events a.event u a.found a.was_pending)
      ]
