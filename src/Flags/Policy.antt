-- ===== src/Flags/Policy.antt =====
-- src/estateflow/services/release_controls.py: `BetaCohortPolicy` and the allowlist methods of
-- `ReleaseControlService`. The allowlist is a set of positive user ids.
use estate_flow.Base.{
  ℕ, ◌+◌, ◌<◌, ◌≡◌, refl, ◌↔◌, ◌⊎◌, inl, inr, Bool, true, false, not, ◌||◌, List, [], ◌∷◌, ◌++◌,
  arith, leb, nat_eq, if◌then◌else◌, any_of, length, length-append, ok, value_error, Exec, raise_if,
  ◌>>◌, modify, gets, Bool-cases,
}
use estate_flow.Flags.{FeatureFlagSet}

pub data BetaReason : Type 0 where
  bot_enabled allowlist_empty allowlisted not_allowlisted : BetaReason

pub record BetaAccessDecision : Type 0 where
  pub allowed : Bool
  pub reason : BetaReason

abbrev pub member : ℕ → List ℕ → Bool
member id ids = any_of (λ i. nat_eq i id) ids

abbrev is_empty : List ℕ → Bool
is_empty [] = true
is_empty (x ∷ xs) = false

pub decide_access : List ℕ → ℕ → FeatureFlagSet → BetaAccessDecision
decide_access allowlist user_id flags =
    if not flags.bot_access
    then (if member user_id allowlist
        then record { allowed = true; reason = allowlisted }
        else if is_empty allowlist
        then record { allowed = false; reason = allowlist_empty }
        else record { allowed = false; reason = not_allowlisted })
    else record { allowed = true; reason = bot_enabled }

-- `self.allowlist_user_ids | {user_id}`
pub with_allowlist_user_id : List ℕ → ℕ → List ℕ
with_allowlist_user_id allowlist user_id =
    if member user_id allowlist then allowlist else allowlist ++ user_id ∷ []

pub add_beta_allowlist_user_id : ℕ → Exec (List ℕ) ℕ
unfolding with_allowlist_user_id
add_beta_allowlist_user_id user_id = do
  raise_if (leb user_id 0) (value_error "user_id must be a positive integer")
  modify (λ allowlist. with_allowlist_user_id allowlist user_id)
  gets length

-- Access is given exactly to everyone while the bot is open, and to the allowlist otherwise.
decide_access_iff :
    (allowlist : List ℕ) (user_id : ℕ) (flags : FeatureFlagSet)
    → ((decide_access allowlist user_id flags).allowed ≡ true)
      ↔ ((flags.bot_access ≡ true) ⊎ (member user_id allowlist ≡ true))
unfolding decide_access
decide_access_iff allowlist user_id flags = (ground arith, ground arith)

member-append : (i j : ℕ) (ids : List ℕ) → member i (ids ++ j ∷ []) ≡ (member i ids || nat_eq j i)
member-append i j [] = ground arith
member-append i j (x ∷ ids) = ground (arith, member-append i j ids)

member-with_allowlist :
    (ids : List ℕ) (j other : ℕ)
    → member other (with_allowlist_user_id ids j) ≡ (member other ids || nat_eq j other)
unfolding with_allowlist_user_id
member-with_allowlist ids j other = elim (Bool-cases (member j ids)) [
  | inl old ↦ rw old (already ids old)
  | inr new ↦ rw new (member-append other j ids)
]
  where
    already : (l : List ℕ) → member j l ≡ true → member other l ≡ (member other l || nat_eq j other)
    already [] h = cc
    already (x ∷ l) h = ground (arith, already l)

length-with_allowlist :
    (ids : List ℕ) (j : ℕ)
    → length (with_allowlist_user_id ids j) ≡ length ids + (if member j ids then 0 else 1)
unfolding with_allowlist_user_id
length-with_allowlist ids j = ground (arith, length-append ids (j ∷ []))

add_beta_allowlist-pos :
    (allowlist : List ℕ) (user_id : ℕ)
    → 0 < user_id
    → add_beta_allowlist_user_id user_id allowlist ≡ (
      ok (length (with_allowlist_user_id allowlist user_id)),
      with_allowlist_user_id allowlist user_id,
    )
unfolding add_beta_allowlist_user_id
add_beta_allowlist-pos allowlist user_id pos = ground arith

-- Adding a user with a positive id to the allowlist succeeds with the size of the new list: after
-- it, another user has access exactly if that user had it before or is the one added, whatever the
-- flags are, and the list grew by one unless the user was on it.
pub add_beta_allowlist_lem :
    (allowlist : List ℕ) (user_id other : ℕ) (flags : FeatureFlagSet)
    → 0 < user_id
    → ((add_beta_allowlist_user_id user_id allowlist).0
        ≡ ok (length (add_beta_allowlist_user_id user_id allowlist).1))
      × ((decide_access (add_beta_allowlist_user_id user_id allowlist).1 other flags).allowed
          ≡ ((decide_access allowlist other flags).allowed || nat_eq user_id other))
      × (length (add_beta_allowlist_user_id user_id allowlist).1
          ≡ length allowlist + (if member user_id allowlist then 0 else 1))
add_beta_allowlist_lem allowlist user_id other flags pos =
    rw (add_beta_allowlist-pos allowlist user_id pos) (
      refl,
      unfold decide_access in ground (arith, member-with_allowlist allowlist user_id other),
      length-with_allowlist allowlist user_id,
    )
