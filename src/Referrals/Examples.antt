-- ===== src/Referrals/Examples.antt =====
-- Runs of src/estateflow/services/referrals.py, and the theorems at concrete inputs.
use estate_flow.Base.{suc, ◌≡◌, refl, Bool, none, some, List, [], ◌∷◌, length, ℕ_eq, strip, str}
use estate_flow.Base.Dict.{get, put}
use estate_flow.Referrals.{
  ReferralService, empty_repository, search, allow, register_start, accept_code, create_link,
  record_qualifying_action, announce, record_activation, activate_once, upsert_user, new_user,
  touched, create_pending_event, get_user_by_referral_code, get_pending_or_active_event, cycle_loop,
  would_create_cycle, parse_referral_start_parameter, validate_referral_code, audit,
}
use estate_flow.Referrals.Acyclic.{Call, start, qualify, call, run, IsAcyclic, Ends, run-IsAcyclic}
use estate_flow.Referrals.Fuel.{cycle_loop-total}
use estate_flow.Referrals.Counts.{IsConsistent}
use estate_flow.Referrals.Awards.{run-IsConsistent}

abbrev service : ReferralService
service = record {
  repository = empty_repository;
  limiter = record { max_attempts = 10; window = 3600; attempts = [] };
  messages = [];
  recorded = [];
  threshold = 2;
  premium_extension = 100;
}

-- User 1 invites 2 and 3, who then search; 1 tries to become a referral of 2.
abbrev calls : List Call
calls =
    start 1 none "e0" 5
    ∷ start 2 (some "ef_1") "e1" 6
    ∷ start 3 (some " ef_1 ") "e2" 7
    ∷ start 1 (some "ef_2") "e3" 8
    ∷ qualify 2 search "a" 9
    ∷ qualify 3 search "b" 10
    ∷ qualify 3 search "c" 11
    ∷ []

program : Unit {0}
unfolding call run register_start accept_code create_link record_qualifying_action announce
    record_activation activate_once upsert_user new_user touched create_pending_event
    get_user_by_referral_code get_pending_or_active_event cycle_loop would_create_cycle
    parse_referral_start_parameter validate_referral_code audit allow get put strip str
program = tt

told_once :
    (run service calls).messages
    ≡ record { user_id = 1; premium_until = 110; active_referral_count = 2 } ∷ []
unfolding program
told_once = refl

two_links : length (run service calls).repository.referral_events ≡ 2
unfolding program
two_links = refl

no_links : IsAcyclic service.repository.referral_events
unfolding program
no_links user = Ends.top refl

fresh : IsConsistent 2 service.repository
unfolding program
fresh = record { keyed = λ k. tt; counted = λ k. refl; awarded = λ k. refl }

run-IsAcyclic_example : IsAcyclic (run service calls).repository.referral_events
run-IsAcyclic_example = run-IsAcyclic service calls no_links

run-IsConsistent_example : IsConsistent 2 (run service calls).repository
run-IsConsistent_example = run-IsConsistent service calls fresh

cycle_loop-total_example :
    (answer : Bool) × (cycle_loop
        (suc (length (run service calls).repository.referral_events))
        (run service calls).repository
        1
        3
        []
      ≡ some answer)
cycle_loop-total_example = cycle_loop-total (run service calls).repository 1 3
