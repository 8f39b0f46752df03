-- ===== src/Notifications/Spacing.antt =====
-- src/estateflow/services/notifications.py: `InMemoryNotificationRateLimiter.retry_after`, over two
-- requests.
use estate_flow.Base.{
  ℕ, ◌+◌, ◌≡◌, refl, inl, inr, Bool, true, not, ◌||◌, Option, none, some, arith, leb, nat_eq, ℕ_eq,
  ok, Option-cases, Bool-cases, ◌∙◌,
}
use mathlib.Core.Path.{subst}
use estate_flow.Base.Dict.{get, put, get-put}
use estate_flow.Notifications.{NotificationRateLimiter, remaining, later, retry_after}

-- What the two limits together demand.
abbrev demand : ℕ → ℕ → NotificationRateLimiter → Option ℕ
demand user now l =
    later (remaining l.last_global_send l.global_interval now)
      (remaining (get user l.last_user_send) l.per_user_interval now)

abbrev after_grant : ℕ → ℕ → NotificationRateLimiter → NotificationRateLimiter
after_grant user now l = record l {
  last_global_send = some now;
  last_user_send = put user now l.last_user_send;
}

retry_after-grants :
    (user now : ℕ) (l : NotificationRateLimiter)
    → (retry_after user now l).0 ≡ ok none
    → (demand user now l ≡ none) × ((retry_after user now l).1 ≡ after_grant user now l)
unfolding retry_after
retry_after-grants user now l h = elim (Option-cases (demand user now l)) [
  | inl e ↦ (e, rw e refl)
  | inr (wait, e) ↦ cc (rw e at h)
]

retry_after-waits :
    (user now wait : ℕ) (l : NotificationRateLimiter)
    → (retry_after user now l).0 ≡ ok (some wait)
    → (demand user now l ≡ some wait) × ((retry_after user now l).1 ≡ l)
unfolding retry_after
retry_after-waits user now wait l h = elim (Option-cases (demand user now l)) [
  | inl e ↦ cc (rw e at h)
  | inr (w, e) ↦ (e ∙ some_of w wait (rw e at h), rw e refl)
]
  where
    some_of : (w wait : ℕ) → ok (some w) ≡ ok (some wait) → some w ≡ some wait
    some_of w wait e = ground (arith, e)

later-none : (a b : Option ℕ) → later a b ≡ none → (a ≡ none) × (b ≡ none)
later-none none b h = (refl, h)
later-none (some a) none h = cc
later-none (some a) (some b) h = ground (arith, h)

-- The time that a wait leaves is enough for each of the two limits.
abbrev within : ℕ → Option ℕ → Bool
within wait none = true
within wait (some w) = leb w wait

later-within :
    (a b : Option ℕ) (wait : ℕ)
    → later a b ≡ some wait
    → (within wait a ≡ true) × (within wait b ≡ true)
later-within none none wait h = (refl, refl)
later-within none (some b) wait h = ground (arith, h)
later-within (some a) none wait h = ground (arith, h)
later-within (some a) (some b) wait h = ground (arith, h)

remaining-within :
    (last : Option ℕ) (interval now wait : ℕ)
    → within wait (remaining last interval now) ≡ true
    → remaining last interval (now + wait) ≡ none
unfolding remaining
remaining-within none interval now wait h = refl
remaining-within (some last) interval now wait h = ground (arith, h)

remaining-none :
    (last interval now : ℕ)
    → remaining (some last) interval now ≡ none
    → (leb interval 0 || leb (last + interval) now) ≡ true
unfolding remaining
remaining-none last interval now h = ground (arith, h)

-- Two sends that the limiter lets pass one after the other, to the same user or not, are at least
-- the global interval apart, and to the same user also at least the interval of a user. An interval
-- of zero asks for nothing.
pub retry_after-spacing :
    (user user' now now' : ℕ) (l : NotificationRateLimiter)
    → (retry_after user now l).0 ≡ ok none
    → (retry_after user' now' (retry_after user now l).1).0 ≡ ok none
    → ((leb l.global_interval 0 || leb (now + l.global_interval) now') ≡ true)
      × ((not (nat_eq user user')
            || leb l.per_user_interval 0
            || leb (now + l.per_user_interval) now')
          ≡ true)
retry_after-spacing user user' now now' l first second =
    let granted = retry_after-grants user now l first in
    let second' = subst (λ m. (retry_after user' now' m).0 ≡ ok none) granted.1 second in
    let free = (retry_after-grants user' now' (after_grant user now l) second').0 in
    let (global, own) =
      later-none (remaining (some now) l.global_interval now')
        (remaining (get user' (put user now l.last_user_send)) l.per_user_interval now') free in
    (
      remaining-none now l.global_interval now' global,
      elim (Bool-cases (nat_eq user user')) [
        | inl same ↦
            rw same
              (remaining-none now l.per_user_interval now' (rw (get-put user user', same) at own))
        | inr other ↦ rw other refl
      ],
    )

-- A request that has to wait the given time, and is made again when the time is over, passes.
pub retry_after-wait :
    (user now wait : ℕ) (l : NotificationRateLimiter)
    → (retry_after user now l).0 ≡ ok (some wait)
    → ((retry_after user now l).1 ≡ l) × ((retry_after user (now + wait) l).0 ≡ ok none)
unfolding retry_after
retry_after-wait user now wait l waits =
    let (e, same) = retry_after-waits user now wait l waits in
    let (global, own) =
      later-within (remaining l.last_global_send l.global_interval now)
        (remaining (get user l.last_user_send) l.per_user_interval now) wait e in
    (
      same,
      rw
          (
            remaining-within l.last_global_send l.global_interval now wait global,
            remaining-within (get user l.last_user_send) l.per_user_interval now wait own,
          )
          refl,
    )
