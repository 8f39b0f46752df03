-- ===== src/Flags/Examples.antt =====
-- Runs of src/estateflow/services/release_controls.py, and the theorems at concrete inputs.
use estate_flow.Base.{
  ℕ, ◌+◌, String, ◌≡◌, refl, true, false, List, [], ◌∷◌, arith, Error, ok, err, value_error,
  runtime_error, Exec, length, if◌then◌else◌, ◌||◌, nat_eq, strip,
}
use estate_flow.Base.Dict.{get, put}
use estate_flow.Flags.{
  FeatureFlagSet, FeatureFlagStore, FeatureFlagAuditEvent, notifications, nlp, init_store, set_flag,
  store_set_flag, version_of,
}
use estate_flow.Flags.Runs.{Request, submit, serve}
use estate_flow.Flags.Replay.{replay, replay-serve, version-serve, changes_of}
use estate_flow.Flags.Conflicts.{set_flag-once}
use estate_flow.Flags.Gates.{gated_send_message, service_flags, gated_send-off}
use estate_flow.Flags.Policy.{
  member, decide_access, add_beta_allowlist_user_id, add_beta_allowlist_lem,
}

abbrev off : FeatureFlagSet
off = record {
  bot_access = false;
  listener_sources = false;
  ai_processing = false;
  notifications = false;
  nlp = false;
  content_publishing = false;
  ai_vision = true;
}

abbrev switch_on : Request
switch_on = record {
  name = notifications;
  enabled = true;
  expected_version = 1;
  actor = " admin ";
  reason = "release";
  now = 20;
}

abbrev switch_off : Request
switch_off = record switch_on { enabled = false; reason = "incident" }

abbrev other_flag : Request
other_flag = record switch_on { name = nlp }

abbrev start : FeatureFlagStore
start = init_store off 10

abbrev on_event : FeatureFlagAuditEvent
on_event = record {
  flag_name = notifications;
  previous_enabled = false;
  new_enabled = true;
  previous_version = 1;
  new_version = 2;
  actor = "admin";
  reason = "release";
  occurred_at = 20;
}

abbrev off_event : FeatureFlagAuditEvent
off_event = record on_event { new_enabled = false; reason = "incident" }

program : Unit {0}
unfolding set_flag store_set_flag init_store get put strip
program = tt

accepted : (submit switch_on start).0 ≡ ok on_event
unfolding program
accepted = refl

refused :
    (submit switch_off (submit switch_on start).1).0
    ≡ err (value_error "feature_flag_version_conflict")
unfolding program
refused = refl

set_flag-once_example :
    (e : Error) × (submit switch_off (serve (submit switch_on start).1 (other_flag ∷ []))
      ≡ (err e, serve (submit switch_on start).1 (other_flag ∷ [])))
set_flag-once_example =
    set_flag-once switch_on switch_off start on_event (other_flag ∷ []) refl refl accepted

replay-serve_example :
    replay start.states (serve start (switch_on ∷ switch_off ∷ other_flag ∷ [])).audit
    ≡ (serve start (switch_on ∷ switch_off ∷ other_flag ∷ [])).states
replay-serve_example = replay-serve off 10 (switch_on ∷ switch_off ∷ other_flag ∷ [])

version-serve_example :
    version_of (serve start (switch_on ∷ switch_off ∷ [])).states notifications
    ≡ 1 + changes_of notifications (serve start (switch_on ∷ switch_off ∷ []))
version-serve_example = version-serve off 10 (switch_on ∷ switch_off ∷ []) notifications

abbrev count_calls : ℕ → String → Exec (FeatureFlagStore × ℕ) ℕ
count_calls chat text (store, n) = (ok n, (store, n + 1))

switched_off : (submit switch_off start).0 ≡ ok off_event
unfolding program
switched_off = refl

gated_send-off_example :
    gated_send_message service_flags count_calls 7 "text"
      (serve (submit switch_off start).1 (other_flag ∷ []), 0)
    ≡ (
      err (runtime_error "notifications feature flag is disabled"),
      (serve (submit switch_off start).1 (other_flag ∷ []), 0),
    )
gated_send-off_example =
    gated_send-off count_calls 7 "text" switch_off start off_event (other_flag ∷ []) 0 refl refl
      switched_off ((λ e. grind (arith, e)), tt)

abbrev beta : List ℕ
beta = 3 ∷ []

add_beta_allowlist_example :
    ((add_beta_allowlist_user_id 5 beta).0 ≡ ok (length (add_beta_allowlist_user_id 5 beta).1))
    × ((decide_access (add_beta_allowlist_user_id 5 beta).1 5 off).allowed
        ≡ ((decide_access beta 5 off).allowed || nat_eq 5 5))
    × (length (add_beta_allowlist_user_id 5 beta).1
        ≡ length beta + (if member 5 beta then 0 else 1))
add_beta_allowlist_example = add_beta_allowlist_lem beta 5 5 off (omega arith)
