-- ===== src/Referrals/Acyclic.antt =====
-- src/estateflow/services/referrals.py: the chains of referrers over histories of the service.
mod Links
mod Activation
use mathlib.Core.Path.{fun_ext, subst}
use estate_flow.Base.{
  ℕ, zero, suc, String, ◌≡◌, refl, ◌≢◌, sym, ap, ◌∙◌, inl, inr, Bool, true, false, Option, none,
  some, List, [], ◌∷◌, arith, nat_eq, nat_eq_iff, Bool-cases, Option-cases, length, if◌then◌else◌,
  ℕ_eq,
}
use estate_flow.Base.Dict.{Dict, get, put, get-put}
use estate_flow.Base.Invariants.{Preserves, preserves_rules, Preserves-modify}
use estate_flow.Referrals.{
  UserRepository, ReferralEvent, EventStatus, pending, ReferralService, Action, register_start,
  record_qualifying_action, cycle_loop, would_create_cycle, get_pending_or_active_event, seen,
  unless_rejected, activate_once, announce, record_activation, in_repository, PremiumAward,
  ReferralActivationResult,
}
use Links.{Linked, register_start-Preserves}
use Activation.{referrer_of, referrer_in, referrer_in-activate_once}

-- The chain of referrers of a user comes to an end.
pub data Ends (f : ℕ → Option ℕ) : ℕ → Type 0 where
  top : {u : ℕ} → f u ≡ none → Ends f u
  up : {u : ℕ} (v : ℕ) → f u ≡ some v → Ends f v → Ends f u

abbrev pub IsAcyclic : Dict ℕ ReferralEvent → Type 0
IsAcyclic events = (u : ℕ) → Ends (referrer_in events) u

-- The chain comes to an end, and `user` is not on it behind its first member.
data Avoids (f : ℕ → Option ℕ) (user : ℕ) : ℕ → Type 0 where
  top : {u : ℕ} → f u ≡ none → Avoids f user u
  up : {u : ℕ} (v : ℕ) → f u ≡ some v → v ≢ user → Avoids f user v → Avoids f user u

module _ (s : UserRepository) (user : ℕ) where
  -- The answer "no cycle" is a walk to the top of the chain that does not meet the user.
  cycle_loop-Avoids :
      (fuel current : ℕ) (visited : List ℕ)
      → cycle_loop fuel s user current visited ≡ some false
      → Avoids (referrer_in s.referral_events) user current
  unfolding cycle_loop get_pending_or_active_event
  cycle_loop-Avoids zero current visited h = cc
  cycle_loop-Avoids (suc fuel) current visited h = elim (Bool-cases (seen current visited)) [
    | inl old ↦ cc (rw (old, cycle_loop) at h)
    | inr new ↦ elim (Option-cases (unless_rejected (get current s.referral_events))) [
      | inl e ↦ Avoids.top (rw e)
      | inr (event, e) ↦ elim (Bool-cases (nat_eq event.referrer_user_id user)) [
        | inl loops ↦ cc (rw (new, e, loops, cycle_loop) at h)
        | inr other ↦
            Avoids.up event.referrer_user_id (rw e)
              (λ same. cc (other, (nat_eq_iff event.referrer_user_id user).1 same))
              (cycle_loop-Avoids fuel event.referrer_user_id (current ∷ visited)
                (rw (new, e, other, cycle_loop) at h))
      ]
    ]
  ]

  would_create_cycle-Avoids :
      (referrer : ℕ)
      → would_create_cycle referrer user s ≡ false
      → Avoids (referrer_in s.referral_events) user referrer
  unfolding would_create_cycle
  would_create_cycle-Avoids referrer h =
      cycle_loop-Avoids (suc (length s.referral_events)) referrer [] (ground (arith, h))

-- One more link, from `user` to a referrer whose chain avoids `user`.
module _ (f g : ℕ → Option ℕ) (user referrer : ℕ) (g_user : g user ≡ some referrer)
    (g_other : (u : ℕ) → u ≢ user → g u ≡ f u) where
  Avoids-Ends : {u : ℕ} → u ≢ user → Avoids f user u → Ends g u
  Avoids-Ends {u} ne (Avoids.top e) = Ends.top (g_other u ne ∙ e)
  Avoids-Ends {u} ne (Avoids.up v e nv a) = Ends.up v (g_other u ne ∙ e) (Avoids-Ends nv a)

  Ends-extend : {u : ℕ} → Ends g user → Ends f u → Ends g u
  Ends-extend {u} h (Ends.top e) = elim (Bool-cases (nat_eq u user)) [
    | inl same ↦ rw ((nat_eq_iff u user).0 same) h
    | inr ne ↦ Ends.top (g_other u (λ s. cc (ne, (nat_eq_iff u user).1 s)) ∙ e)
  ]
  Ends-extend {u} h (Ends.up v e r) = elim (Bool-cases (nat_eq u user)) [
    | inl same ↦ rw ((nat_eq_iff u user).0 same) h
    | inr ne ↦ Ends.up v (g_other u (λ s. cc (ne, (nat_eq_iff u user).1 s)) ∙ e) (Ends-extend h r)
  ]

module _ (user : ℕ) (s t : ReferralService) (l : Linked user s t) where
  referrer_in-put :
      (u : ℕ)
      → referrer_in (put user l.link s.repository.referral_events) u ≡ (
          if nat_eq user u
          then some l.link.referrer_user_id
          else referrer_in s.repository.referral_events u)
  referrer_in-put u =
      ap (λ o. referrer_of (unless_rejected o)) (get-put user u l.link s.repository.referral_events)
      ∙ pick (nat_eq user u)
    where
      pick :
          (b : Bool)
          → referrer_of
              (unless_rejected (if b then some l.link else get u s.repository.referral_events))
            ≡ (if b
                then some l.link.referrer_user_id
                else referrer_in s.repository.referral_events u)
      pick true = ground (arith, l.is_pending)
      pick false = refl

  Linked-IsAcyclic : IsAcyclic s.repository.referral_events → IsAcyclic t.repository.referral_events
  Linked-IsAcyclic h u =
      let g = referrer_in (put user l.link s.repository.referral_events) in
      let f = referrer_in s.repository.referral_events in
      let here : g user ≡ some l.link.referrer_user_id = ground (arith, referrer_in-put user) in
      let there : (v : ℕ) → v ≢ user → g v ≡ f v =
        λ v ne. ground (arith, referrer_in-put v, nat_eq_iff user v) in
      rw l.events (
        Ends-extend f g user l.link.referrer_user_id here there
          (Ends.up l.link.referrer_user_id here (
            Avoids-Ends f g user l.link.referrer_user_id here there l.other
              (would_create_cycle-Avoids s.repository user l.link.referrer_user_id l.no_cycle)))
          (h u))

abbrev pub IsTree : UserRepository → Type 0
IsTree s = IsAcyclic s.referral_events

abbrev HasNoCycle : ReferralService → Type 0
HasNoCycle s = IsAcyclic s.repository.referral_events

Ends-same : (f g : ℕ → Option ℕ) → ((u : ℕ) → g u ≡ f u) → {u : ℕ} → Ends f u → Ends g u
Ends-same f g same {u} (Ends.top e) = Ends.top (same u ∙ e)
Ends-same f g same {u} (Ends.up v e r) = Ends.up v (same u ∙ e) (Ends-same f g same r)

activate-Preserves :
    (referred : ℕ) (key : String) (now threshold extension : ℕ)
    → Preserves HasNoCycle (in_repository (activate_once referred key now threshold extension))
activate-Preserves referred key now threshold extension = record {
  holds = λ s h u.
      Ends-same _ _ (referrer_in-activate_once referred key now threshold extension s.repository)
        (h u);
}

announce-same :
    (result : ReferralActivationResult) (s : ReferralService)
    → (announce result s).1.repository ≡ s.repository
unfolding announce
announce-same result s = ground arith

record_activation-same :
    (result : ReferralActivationResult) (s : ReferralService)
    → (record_activation result s).1.repository ≡ s.repository
unfolding record_activation
record_activation-same result s = ground arith

-- Messages and analytics leave the repository alone.
module _ (P : UserRepository → Type 0) where
  pub announce-Preserves :
      (result : ReferralActivationResult) → Preserves (λ s. P s.repository) (announce result)
  announce-Preserves result = record { holds = λ s h. rw (announce-same result s) h }

  pub record_activation-Preserves :
      (result : ReferralActivationResult)
      → Preserves (λ s. P s.repository) (record_activation result)
  record_activation-Preserves result = record {
    holds = λ s h. rw (record_activation-same result s) h;
  }

qualifying-Preserves :
    (user_id : ℕ) (action : Action) (action_id : String) (now : ℕ)
    → Preserves HasNoCycle (record_qualifying_action user_id action action_id now)
unfolding record_qualifying_action
qualifying-Preserves user_id action action_id now =
    search
      (
        preserves_rules,
        activate-Preserves,
        announce-Preserves IsTree,
        record_activation-Preserves IsTree,
      )
      depth 14

-- A call of the service.
pub data Call : Type 0 where
  start : (user_id : ℕ) (start_parameter : Option String) (fresh_id : String) (now : ℕ) → Call
  qualify : (user_id : ℕ) (action : Action) (action_id : String) (now : ℕ) → Call

-- The state that a call leaves, whether it returns or raises.
unfoldable pub call : Call → ReferralService → ReferralService
call (start user_id start_parameter fresh_id now) s =
    (register_start user_id start_parameter fresh_id now s).1
call (qualify user_id action action_id now) s =
    (record_qualifying_action user_id action action_id now s).1

unfoldable pub run : ReferralService → List Call → ReferralService
run s [] = s
run s (c ∷ cs) = run (call c s) cs

call-HasNoCycle : (c : Call) (s : ReferralService) → HasNoCycle s → HasNoCycle (call c s)
unfolding call
call-HasNoCycle (start user_id start_parameter fresh_id now) s h =
    (register_start-Preserves IsAcyclic Linked-IsAcyclic user_id start_parameter fresh_id now).holds
      s h
call-HasNoCycle (qualify user_id action action_id now) s h =
    (qualifying-Preserves user_id action action_id now).holds s h

-- If no chain of referrals runs in a circle, none does after any sequence of calls of the service,
-- whether they return or raise: each user's chain of referrers comes to an end.
pub run-IsAcyclic :
    (s : ReferralService) (calls : List Call)
    → IsAcyclic s.repository.referral_events
    → IsAcyclic (run s calls).repository.referral_events
unfolding run
run-IsAcyclic s [] h = h
run-IsAcyclic s (c ∷ cs) h = run-IsAcyclic (call c s) cs (call-HasNoCycle c s h)
