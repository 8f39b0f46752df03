-- ===== src/Referrals/Awards.antt =====
-- src/estateflow/services/referrals.py: histories of the service, for the counters and the awards.
use estate_flow.Base.{
  ℕ, String, ◌≡◌, refl, Option, List, [], ◌∷◌, Exec, strip, arith, ◌>>=◌, ◌>>◌, gets, pure,
  String_eq,
}
use mathlib.Core.Path.{subst, sym, ◌∙◌}
use estate_flow.Base.Invariants.{Preserves, preserves_rules}
use estate_flow.Referrals.{
  UserRepository, TelegramUser, ReferralService, RateLimiter, register_start,
  record_qualifying_action, accept_code, create_link, audit, parse_referral_start_parameter,
  validate_referral_code, upsert_user, create_pending_event, in_repository, in_limiter,
  activate_once, announce, record_activation, record_event, Action, ReferralActivationResult,
}
use estate_flow.Referrals.Counts.{
  IsConsistent, activate_once-IsConsistent, upsert_user-IsConsistent,
  create_pending_event-IsConsistent,
}
use estate_flow.Referrals.Acyclic.{
  Call, start, qualify, call, run, announce-Preserves, record_activation-Preserves,
}

module _ (threshold : ℕ) where
  abbrev Sound : ReferralService → Type 0
  Sound s = (s.threshold ≡ threshold) × IsConsistent threshold s.repository

  in_repository-Sound :
      {A : Type 0} (m : Exec UserRepository A)
      → ((s : UserRepository) → IsConsistent threshold s → IsConsistent threshold (m s).1)
      → Preserves Sound (in_repository m)
  in_repository-Sound m keeps = record { holds = λ s h. (h.0, keeps s.repository h.1) }

  limiter-Sound : {A : Type 0} (m : Exec RateLimiter A) → Preserves Sound (in_limiter m)
  limiter-Sound m = record { holds = λ s h. h }

  record_event-Sound : (key : String) → Preserves Sound (record_event key)
  record_event-Sound key = record { holds = λ s h. h }

  audit-Sound :
      (user_id : ℕ) (action reason : String) (now : ℕ)
      → Preserves Sound (in_repository (audit user_id action reason now))
  unfolding audit
  audit-Sound user_id action reason now = record {
    holds =
        λ s h. (h.0, record { keyed = h.1.keyed; counted = h.1.counted; awarded = h.1.awarded });
  }

  upsert-Sound : (user_id now : ℕ) → Preserves Sound (in_repository (upsert_user user_id now))
  upsert-Sound user_id now =
      in_repository-Sound (upsert_user user_id now) (upsert_user-IsConsistent threshold user_id now)

  create-Sound :
      (referrer referred : ℕ) (key id : String) (now : ℕ)
      → Preserves Sound (in_repository (create_pending_event referrer referred key id now))
  create-Sound referrer referred key id now =
      in_repository-Sound (create_pending_event referrer referred key id now)
        (create_pending_event-IsConsistent threshold referrer referred key id now)

  validate-Sound : (value : String) → Preserves Sound (validate_referral_code value)
  unfolding validate_referral_code
  validate-Sound value = search preserves_rules depth 12

  parse-Sound : (value : String) → Preserves Sound (parse_referral_start_parameter value)
  unfolding parse_referral_start_parameter
  parse-Sound value = validate-Sound (strip value)

  link-Sound :
      (user_id : ℕ) (user : TelegramUser) (referrer : ℕ) (id : String) (now : ℕ)
      → Preserves Sound (create_link user_id user referrer id now)
  unfolding create_link
  link-Sound user_id user referrer id now =
      search (preserves_rules, create-Sound, record_event-Sound) depth 12

  accept-Sound :
      (user_id : ℕ) (user : TelegramUser) (code id : String) (now : ℕ)
      → Preserves Sound (accept_code user_id user code id now)
  unfolding accept_code
  accept-Sound user_id user code id now = search (preserves_rules, audit-Sound, link-Sound) depth 14

  start-Sound :
      (user_id : ℕ) (start_parameter : Option String) (id : String) (now : ℕ)
      → Preserves Sound (register_start user_id start_parameter id now)
  unfolding register_start
  start-Sound user_id start_parameter id now =
      search (preserves_rules, limiter-Sound, audit-Sound, upsert-Sound, parse-Sound, accept-Sound)
        depth 14

  activate-Sound :
      (referred : ℕ) (key : String) (now extension : ℕ)
      → Preserves Sound (in_repository (activate_once referred key now threshold extension))
  activate-Sound referred key now extension =
      in_repository-Sound (activate_once referred key now threshold extension)
        (activate_once-IsConsistent referred key now threshold extension)

  announce-threshold :
      (result : ReferralActivationResult) (s : ReferralService)
      → (announce result s).1.threshold ≡ s.threshold
  unfolding announce
  announce-threshold result s = ground arith

  record_activation-threshold :
      (result : ReferralActivationResult) (s : ReferralService)
      → (record_activation result s).1.threshold ≡ s.threshold
  unfolding record_activation
  record_activation-threshold result s = ground arith

  announce-Sound : (result : ReferralActivationResult) → Preserves Sound (announce result)
  announce-Sound result = record {
    holds = λ s h. (
      announce-threshold result s ∙ h.0,
      (announce-Preserves (IsConsistent threshold) result).holds s h.1,
    );
  }

  record_activation-Sound :
      (result : ReferralActivationResult) → Preserves Sound (record_activation result)
  record_activation-Sound result = record {
    holds = λ s h. (
      record_activation-threshold result s ∙ h.0,
      (record_activation-Preserves (IsConsistent threshold) result).holds s h.1,
    );
  }

  -- What follows the reading of the threshold.
  abbrev activation :
      (user_id : ℕ) (key : String) (now t : ℕ) → Exec ReferralService ReferralActivationResult
  activation user_id key now t = do
    extension ← gets (λ s. s.premium_extension)
    result ← in_repository (activate_once user_id key now t extension)
    announce result
    record_activation result
    pure result

  activation-Sound :
      (user_id : ℕ) (key : String) (now : ℕ)
      → Preserves Sound (activation user_id key now threshold)
  activation-Sound user_id key now =
      search (preserves_rules, activate-Sound, announce-Sound, record_activation-Sound) depth 12

  read-Sound :
      (user_id : ℕ) (key : String) (now : ℕ)
      → Preserves Sound (gets (λ s. s.threshold) >>= activation user_id key now)
  read-Sound user_id key now = record {
    holds = λ s h.
        subst (λ t. Sound (activation user_id key now t s).1) (sym h.0)
          ((activation-Sound user_id key now).holds s h);
  }

  qualifying-Sound :
      (user_id : ℕ) (action : Action) (action_id : String) (now : ℕ)
      → Preserves Sound (record_qualifying_action user_id action action_id now)
  unfolding record_qualifying_action
  qualifying-Sound user_id action action_id now = search (preserves_rules, read-Sound) depth 12

  call-Sound : (c : Call) (s : ReferralService) → Sound s → Sound (call c s)
  unfolding call
  call-Sound (start user_id start_parameter id now) s h =
      (start-Sound user_id start_parameter id now).holds s h
  call-Sound (qualify user_id action action_id now) s h =
      (qualifying-Sound user_id action action_id now).holds s h

  run-Sound : (s : ReferralService) (calls : List Call) → Sound s → Sound (run s calls)
  unfolding run
  run-Sound s [] h = h
  run-Sound s (c ∷ calls) h = run-Sound (call c s) calls (call-Sound c s h)

-- If the repository is consistent for the threshold of the service, it still is after any sequence
-- of calls, whether they return or raise: each user's counter is the number of the user's active
-- links, and a user has the award exactly if the counter has reached the threshold.
pub run-IsConsistent :
    (s : ReferralService) (calls : List Call)
    → IsConsistent s.threshold s.repository
    → IsConsistent s.threshold (run s calls).repository
run-IsConsistent s calls h = (run-Sound s.threshold s calls (refl, h)).1
