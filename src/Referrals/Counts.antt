-- ===== src/Referrals/Counts.antt =====
-- src/estateflow/repositories/users.py: the counters of the users, the active links and the awards.
use estate_flow.Base.{
  ℕ, ◌+◌, String, ◌≡◌, refl, sym, ap, ◌∙◌, inl, inr, Bool, true, false, not, ◌&&◌, ◌||◌, Option,
  none, some, arith, leb, nat_eq, nat_eq_iff, Bool-cases, Option-cases, count_if, if◌then◌else◌,
  ℕ_eq,
}
use estate_flow.Base.Dict.{Dict, get, put, get-put, count-put}
use estate_flow.Referrals.{
  UserRepository, TelegramUser, ReferralEvent, EventStatus, pending, active, has_award, touched,
  new_user, upsert_user, create_pending_event, activate_once, has_other_referrer, pending_event,
  ReferralActivationResult,
}
use estate_flow.Referrals.Activation.{Activated, activate_once-Cases, credited, activated_event}

abbrev counter : Option TelegramUser → ℕ
counter none = 0
counter (some user) = user.active_referral_count

-- The counter of a user; an unknown user has none.
abbrev pub count_of : ℕ → Dict ℕ TelegramUser → ℕ
count_of k users = counter (get k users)

abbrev is_active : EventStatus → Bool
is_active active = true
is_active _ = false

abbrev active_link_of : ℕ → ReferralEvent → Bool
active_link_of k event = is_active event.status && nat_eq event.referrer_user_id k

-- The number of active links with this referrer.
abbrev pub active_links : ℕ → Dict ℕ ReferralEvent → ℕ
active_links k events = count_if (λ e. active_link_of k e.1) events

abbrev IdFits : ℕ → Option TelegramUser → Type 0
IdFits k none = Unit
IdFits k (some user) = user.user_id ≡ k

pub record IsConsistent (threshold : ℕ) (s : UserRepository) : Type 0 where
  pub keyed : (k : ℕ) → IdFits k (get k s.users)
  pub counted : (k : ℕ) → count_of k s.users ≡ active_links k s.referral_events
  pub awarded :
      (k : ℕ) → has_award (k, threshold) s.premium_awards ≡ leb threshold (count_of k s.users)

-- A user who is stored with the same id and counter.
module _ (k : ℕ) (user : TelegramUser) (users : Dict ℕ TelegramUser) where
  count_of-put :
      (j : ℕ)
      → count_of j (put k user users)
        ≡ (if nat_eq k j then user.active_referral_count else count_of j users)
  count_of-put j = ap counter (get-put k j user users) ∙ pick (nat_eq k j)
    where
      pick :
          (b : Bool)
          → counter (if b then some user else get j users)
            ≡ (if b then user.active_referral_count else count_of j users)
      pick true = refl
      pick false = refl

  keyed-put :
      user.user_id ≡ k
      → ((j : ℕ) → IdFits j (get j users))
      → (j : ℕ) → IdFits j (get j (put k user users))
  keyed-put fits h j = rw get-put (pick (nat_eq k j) (nat_eq_iff k j).0)
    where
      pick : (b : Bool) → (b ≡ true → k ≡ j) → IdFits j (if b then some user else get j users)
      pick true same = fits ∙ same refl
      pick false same = h j

  same_count :
      user.active_referral_count ≡ count_of k users
      → (j : ℕ) → count_of j (put k user users) ≡ count_of j users
  same_count e j = ground (arith, count_of-put j, nat_eq_iff k j, e)

-- A pending link in a free place counts for nobody.
new_link :
    (k : ℕ) (event : ReferralEvent) (events : Dict ℕ ReferralEvent)
    → get event.referred_user_id events ≡ none
    → event.status ≡ pending
    → active_links k (put event.referred_user_id event events) ≡ active_links k events
new_link k event events free waits =
    ground (arith, free, waits, count-put (active_link_of k) event.referred_user_id event events)

module _ (threshold : ℕ) where
  -- The users may change as long as the ids and the counters stay.
  users-IsConsistent :
      (k : ℕ) (user : TelegramUser) (s : UserRepository)
      → user.user_id ≡ k
      → user.active_referral_count ≡ count_of k s.users
      → IsConsistent threshold s
      → IsConsistent threshold (record s { users = put k user s.users })
  users-IsConsistent k user s fits same h = record {
    keyed = keyed-put k user s.users fits h.keyed;
    counted = λ j. same_count k user s.users same j ∙ h.counted j;
    awarded = λ j. rw (same_count k user s.users same j) (h.awarded j);
  }

  pub upsert_user-IsConsistent :
      (id now : ℕ) (s : UserRepository)
      → IsConsistent threshold s
      → IsConsistent threshold (upsert_user id now s).1
  unfolding upsert_user touched new_user
  upsert_user-IsConsistent id now s h = elim (Option-cases (get id s.users)) [
    | inl e ↦ rw e (users-IsConsistent id _ s refl (rw e) h)
    | inr (u, e) ↦ rw e (users-IsConsistent id _ s (rw e at (h.keyed id)) (rw e) h)
  ]

  events-IsConsistent :
      (events : Dict ℕ ReferralEvent) (s : UserRepository)
      → ((k : ℕ) → active_links k events ≡ active_links k s.referral_events)
      → IsConsistent threshold s
      → IsConsistent threshold (record s { referral_events = events })
  events-IsConsistent events s same h = record {
    keyed = h.keyed;
    counted = λ j. h.counted j ∙ sym (same j);
    awarded = h.awarded;
  }

  pub create_pending_event-IsConsistent :
      (referrer referred : ℕ) (key id : String) (now : ℕ) (s : UserRepository)
      → IsConsistent threshold s
      → IsConsistent threshold (create_pending_event referrer referred key id now s).1
  unfolding create_pending_event
  create_pending_event-IsConsistent referrer referred key id now s h =
      elim (Option-cases (get referred s.referral_events)) [
        | inr (event, e) ↦ rw e h
        | inl new ↦ elim (Option-cases (get referred s.users)) [
          | inl e ↦ rw (new, e) h
          | inr (u, e) ↦ elim (Bool-cases (has_other_referrer u.referred_by referrer)) [
            | inl bad ↦ rw (new, e, bad) h
            | inr good ↦
                rw (new, e, good)
                  (events-IsConsistent
                    (put referred (pending_event referrer referred key id now) s.referral_events) _
                    (λ k.
                      new_link k (pending_event referrer referred key id now) s.referral_events new
                        refl)
                    (users-IsConsistent referred _ s (rw e at (h.keyed referred)) (rw e) h))
          ]
        ]
      ]

-- One activation, from a consistent repository.
module _ (referred : ℕ) (key : String) (now threshold extension : ℕ) {s t : UserRepository}
    {result : ReferralActivationResult}
    (a : Activated referred key now threshold extension s t result)
    (h : IsConsistent threshold s) where
  abbrev r : ℕ
  r = a.event.referrer_user_id

  own_id : a.referrer.user_id ≡ r
  own_id = rw a.known at (h.keyed r)

  abbrev rewarded : TelegramUser
  rewarded = credited referred key now threshold extension a.referrer a.granted

  users-Activated : t.users ≡ put r rewarded s.users
  users-Activated = a.users ∙ ap (λ k. put k rewarded s.users) own_id

  pub count_of-Activated :
      (j : ℕ)
      → count_of j t.users ≡ (if nat_eq r j then count_of r s.users + 1 else count_of j s.users)
  count_of-Activated j =
      ap (count_of j) users-Activated ∙ count_of-put r rewarded s.users j ∙ ground (arith, a.known)

  active_links-Activated :
      (j : ℕ)
      → active_links j t.referral_events
        ≡ active_links j s.referral_events + (if nat_eq r j then 1 else 0)
  active_links-Activated j = rw a.events (
      ground (
        arith,
        a.found,
        a.was_pending,
        count-put (active_link_of j) referred
            (activated_event referred key now threshold extension a.event) s.referral_events,
      ))

  pub has_award-Activated :
      (j : ℕ)
      → has_award (j, threshold) t.premium_awards
        ≡ (a.granted && nat_eq r j || has_award (j, threshold) s.premium_awards)
  has_award-Activated j = rw (a.awards, own_id) (ground arith)

  pub granted-Activated :
      a.granted
      ≡ (leb threshold (count_of r s.users + 1) && not (leb threshold (count_of r s.users)))
  granted-Activated = ground (arith, a.due, own_id, h.awarded r, a.known)

  activated-IsConsistent : IsConsistent threshold t
  activated-IsConsistent = record {
    keyed = λ j. rw users-Activated (keyed-put r rewarded s.users own_id h.keyed j);
    counted = λ j. ground (
      arith,
      count_of-Activated j,
      active_links-Activated j,
      h.counted j,
      h.counted r,
      nat_eq_iff r j,
    );
    awarded = λ j.
        rw (has_award-Activated j, count_of-Activated j)
          (ground (arith, h.awarded j, granted-Activated, nat_eq_iff r j));
  }

pub activate_once-IsConsistent :
    (referred : ℕ) (key : String) (now threshold extension : ℕ) (s : UserRepository)
    → IsConsistent threshold s
    → IsConsistent threshold (activate_once referred key now threshold extension s).1
activate_once-IsConsistent referred key now threshold extension s h =
    elim (activate_once-Cases referred key now threshold extension s) [
      | inl kept ↦ rw kept.same h
      | inr (result, _, a) ↦ activated-IsConsistent referred key now threshold extension a h
    ]
