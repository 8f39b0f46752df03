-- ===== src/Flags/Conflicts.antt =====
-- src/estateflow/services/release_controls.py: the expected version of a change request.
use estate_flow.Base.{
  ◌+◌, ◌≤◌, ◌<◌, ◌≡◌, refl, ap, ◌∙◌, Bool, true, false, if◌then◌else◌, inl, inr, List, [], ◌∷◌,
  arith, Error, err, ok, nat_eq, some,
}
use estate_flow.Base.Dict.{get, put, get-put}
use estate_flow.Flags.{
  FlagName, FlagName_eq, FeatureFlagSnapshot, FeatureFlagState, or_default, FeatureFlagStore,
  FeatureFlagAuditEvent, index, version_of, same_name_iff,
}
use estate_flow.Flags.Runs.{Request, submit, serve, Accepted, submit-cases}

version_of-put :
    (name other : FlagName) (new : FeatureFlagState) (states : FeatureFlagSnapshot)
    → version_of (put name new states) other
      ≡ (if nat_eq (index name) (index other) then new.version else version_of states other)
version_of-put name other new states =
    ap (λ o. (or_default other o).version) (get-put name other new states)
    ∙ pick (nat_eq (index name) (index other))
  where
    pick :
        (b : Bool)
        → (or_default other (if b then some new else get other states)).version
          ≡ (if b then new.version else version_of states other)
    pick true = refl
    pick false = refl

version-known :
    (name : FlagName) (c : FeatureFlagState) (states : FeatureFlagSnapshot)
    → get name states ≡ some c
    → version_of states name ≡ c.version
version-known name c states e = ap (λ o. (or_default name o).version) e

-- An accepted change raises its flag's version by one and leaves the others.
version-Accepted :
    (name : FlagName) (r : Request) (s t : FeatureFlagStore) (event : FeatureFlagAuditEvent)
    → Accepted r s t event
    → version_of t.states name ≡ (
        if nat_eq (index r.name) (index name)
        then version_of s.states r.name + 1
        else version_of s.states name)
version-Accepted name r s t event a =
    rw (a.states, version_of-put, a.next_version, version-known r.name a.before s.states a.known)
      refl

version-submit-le :
    (name : FlagName) (r : Request) (s : FeatureFlagStore)
    → version_of s.states name ≤ version_of (submit r s).1.states name
version-submit-le name r s = elim (submit-cases r s) [
  | inl (e, same) ↦ rw same (omega arith)
  | inr (event, _, a) ↦
      ground (arith, version-Accepted name r s (submit r s).1 event a, same_name_iff r.name name)
]

version-serve-le :
    (name : FlagName) (s : FeatureFlagStore) (rs : List Request)
    → version_of s.states name ≤ version_of (serve s rs).states name
unfolding serve
version-serve-le name s [] = omega arith
version-serve-le name s (r ∷ rs) =
    omega (arith, version-submit-le name r s, version-serve-le name (submit r s).1 rs)

-- A request with an outdated version is refused and changes nothing.
stale-refused :
    (r : Request) (s : FeatureFlagStore)
    → r.expected_version < version_of s.states r.name
    → (e : Error) × (submit r s ≡ (err e, s))
stale-refused r s h = elim (submit-cases r s) [
  | inl refused ↦ refused
  | inr (event, _, a) ↦
      absurd (omega (arith, version-known r.name a.before s.states a.known, a.same_version))
]

accepted-version :
    (r : Request) (s : FeatureFlagStore) (event : FeatureFlagAuditEvent)
    → (submit r s).0 ≡ ok event
    → version_of (submit r s).1.states r.name ≡ r.expected_version + 1
accepted-version r s event accepted = elim (submit-cases r s) [
  | inl (e, same) ↦ absurd (cc (same, ap (λ o. o.0) same))
  | inr (event', _, a) ↦ ground (
    arith,
    version-Accepted r.name r s (submit r s).1 event' a,
    version-known r.name a.before s.states a.known,
    a.same_version,
  )
]

-- Once a change of a flag was accepted, a second request for the same flag with the same expected
-- version is refused and changes nothing, whatever requests came in between.
pub set_flag-once :
    (first second : Request) (s : FeatureFlagStore) (event : FeatureFlagAuditEvent)
    (between : List Request)
    → second.name ≡ first.name
    → second.expected_version ≡ first.expected_version
    → (submit first s).0 ≡ ok event
    → (e : Error) × (submit second (serve (submit first s).1 between)
        ≡ (err e, serve (submit first s).1 between))
set_flag-once first second s event between same_name same_version accepted =
    stale-refused second (serve (submit first s).1 between) (
      rw (same_name, same_version)
        (omega (
          arith,
          accepted-version first s event accepted,
          version-serve-le first.name (submit first s).1 between,
        )))
