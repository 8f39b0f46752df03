-- ===== src/Flags/Runs.antt =====
-- src/estateflow/services/release_controls.py: runs of change requests, accepted or refused.
use Prim.Native.String.{count}
use estate_flow.Base.{
  ℕ, ◌+◌, String, ◌≡◌, refl, ◌⊎◌, inl, inr, Bool, none, some, List, [], ◌∷◌, ◌++◌, arith,
  Bool-cases, Option-cases, Result, ok, err, Error, strip, String_eq, ◌==◌, ltb,
}
use estate_flow.Base.Dict.{get, put}
use estate_flow.Flags.{
  FlagName, FlagName_eq, FeatureFlagState, FeatureFlagStore, FeatureFlagAuditEvent, set_flag,
  store_set_flag, event_for, has_conflict,
}

pub record Request : Type 0 where
  pub name : FlagName
  pub enabled : Bool
  pub expected_version : ℕ
  pub actor : String
  pub reason : String
  pub now : ℕ

abbrev pub submit : Request → FeatureFlagStore → Result FeatureFlagAuditEvent × FeatureFlagStore
submit r = set_flag r.name r.enabled r.expected_version r.actor r.reason r.now

unfoldable pub serve : FeatureFlagStore → List Request → FeatureFlagStore
serve s [] = s
serve s (r ∷ rs) = serve (submit r s).1 rs

-- What an accepted change does to the store.
pub record Accepted (r : Request) (s t : FeatureFlagStore) (event : FeatureFlagAuditEvent)
    : Type 0 where
  pub before : FeatureFlagState
  pub known : get r.name s.states ≡ some before
  pub same_version : before.version ≡ r.expected_version
  pub flag : event.flag_name ≡ r.name
  pub value : event.new_enabled ≡ r.enabled
  pub old_version : event.previous_version ≡ before.version
  pub next_version : event.new_version ≡ before.version + 1
  pub states :
      t.states
      ≡ put r.name
          (record {
            flag_name = r.name;
            enabled = event.new_enabled;
            version = event.new_version;
            updated_at = event.occurred_at;
          })
          s.states
  pub audit : t.audit ≡ s.audit ++ event ∷ []

abbrev Outcome : Type 0
Outcome = Result FeatureFlagAuditEvent × FeatureFlagStore

abbrev Refused : FeatureFlagStore → Outcome → Type 0
Refused s o = (e : Error) × (o ≡ (err e, s))

abbrev Done : Request → FeatureFlagStore → Outcome → Type 0
Done r s o = (event : FeatureFlagAuditEvent) × (o.0 ≡ ok event) × Accepted r s o.1 event

module _ (r : Request) (s : FeatureFlagStore) where
  abbrev stored : String → String → Outcome
  stored actor reason =
      store_set_flag r.name r.enabled (some r.expected_version) actor reason none r.now s

  store_cases :
      (actor reason : String) → Refused s (stored actor reason) ⊎ Done r s (stored actor reason)
  unfolding store_set_flag
  store_cases actor reason = elim (Option-cases (get r.name s.states)) [
    | inl e ↦ rw e (inl (_, refl))
    | inr (c, e) ↦ elim (Bool-cases (has_conflict (some r.expected_version) c)) [
      | inl f ↦ rw (e, f) (inl (_, refl))
      | inr f ↦ inr (
        event_for c r.name r.enabled actor reason r.now,
        rw (e, f) refl,
        rw (e, f)
            (record {
              before = c;
              known = e;
              same_version = unfold has_conflict in ground arith;
              flag = refl;
              value = refl;
              old_version = refl;
              next_version = refl;
              states = refl;
              audit = refl;
            }),
      )
    ]
  ]

  pub submit-cases : Refused s (submit r s) ⊎ Done r s (submit r s)
  unfolding set_flag
  submit-cases = elim (Bool-cases (strip r.actor == "")) [
    | inl e ↦ rw e (inl (_, refl))
    | inr e ↦ elim (Bool-cases (ltb (count (strip r.reason)) 5)) [
      | inl f ↦ rw (e, f) (inl (_, refl))
      | inr f ↦ rw (e, f) (store_cases (strip r.actor) (strip r.reason))
    ]
  ]
