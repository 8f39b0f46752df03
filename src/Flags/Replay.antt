-- ===== src/Flags/Replay.antt =====
-- src/estateflow/services/release_controls.py: the audit log and the states of the flags.
use estate_flow.Base.{
  ℕ, ◌+◌, ◌≡◌, refl, ◌∙◌, ap, inl, inr, List, [], ◌∷◌, ◌++◌, arith, count_if, count_if-append, some,
  nat_eq, Bool-cases,
}
use estate_flow.Base.Dict.{get, put, get-put}
use estate_flow.Flags.{
  FlagName, FlagName_eq, FeatureFlagSet, FeatureFlagState, FeatureFlagSnapshot, FeatureFlagStore,
  bot_access, listener_sources, ai_processing, notifications, nlp, content_publishing, ai_vision,
  FeatureFlagAuditEvent, init_store, version_of, or_default, index, same_name_iff,
}
use estate_flow.Flags.Runs.{Request, submit, serve, submit-cases}

-- What one audit event says of the states.
abbrev pub apply_event : FeatureFlagSnapshot → FeatureFlagAuditEvent → FeatureFlagSnapshot
apply_event states event =
    put event.flag_name
      (record {
        flag_name = event.flag_name;
        enabled = event.new_enabled;
        version = event.new_version;
        updated_at = event.occurred_at;
      })
      states

unfoldable pub replay : FeatureFlagSnapshot → List FeatureFlagAuditEvent → FeatureFlagSnapshot
replay states [] = states
replay states (event ∷ log) = replay (apply_event states event) log

replay-append :
    (states : FeatureFlagSnapshot) (log : List FeatureFlagAuditEvent)
    (event : FeatureFlagAuditEvent)
    → replay states (log ++ event ∷ []) ≡ apply_event (replay states log) event
unfolding replay
replay-append states [] event = refl
replay-append states (e ∷ log) event = replay-append (apply_event states e) log event

abbrev IsReplay : FeatureFlagSnapshot → FeatureFlagStore → Type 0
IsReplay base s = replay base s.audit ≡ s.states

submit-IsReplay :
    (base : FeatureFlagSnapshot) (r : Request) (s : FeatureFlagStore)
    → IsReplay base s
    → IsReplay base (submit r s).1
submit-IsReplay base r s h = elim (submit-cases r s) [
  | inl (e, same) ↦ rw same h
  | inr (event, _, a) ↦ rw (a.audit, a.states, replay-append, h, a.flag) refl
]

serve-IsReplay :
    (base : FeatureFlagSnapshot) (s : FeatureFlagStore) (rs : List Request)
    → IsReplay base s
    → IsReplay base (serve s rs)
unfolding serve
serve-IsReplay base s [] h = h
serve-IsReplay base s (r ∷ rs) h =
    serve-IsReplay base (submit r s).1 rs (submit-IsReplay base r s h)

-- After any sequence of change requests, accepted or refused, replaying the audit log over the
-- initial states of the flags gives the current states.
pub replay-serve :
    (flags : FeatureFlagSet) (now : ℕ) (rs : List Request)
    → replay (init_store flags now).states (serve (init_store flags now) rs).audit
      ≡ (serve (init_store flags now) rs).states
replay-serve flags now rs =
    serve-IsReplay (init_store flags now).states (init_store flags now) rs
      (unfold replay init_store in refl)

abbrev pub changes_of : FlagName → FeatureFlagStore → ℕ
changes_of name s = count_if (λ e. nat_eq (index e.flag_name) (index name)) s.audit

abbrev IsCounted : FeatureFlagStore → FlagName → Type 0
IsCounted s name =
    (c : FeatureFlagState) × (get name s.states ≡ some c) × (c.version ≡ 1 + changes_of name s)

submit-IsCounted :
    (name : FlagName) (r : Request) (s : FeatureFlagStore)
    → IsCounted s r.name
    → IsCounted s name
    → IsCounted (submit r s).1 name
submit-IsCounted name r s (b, eb, vb) (c, ec, vc) = elim (submit-cases r s) [
  | inl (e, same) ↦ rw same (c, ec, vc)
  | inr (event, _, a) ↦ elim (Bool-cases (nat_eq (index r.name) (index name))) [
    | inl same ↦ (
      record {
        flag_name = r.name;
        enabled = event.new_enabled;
        version = event.new_version;
        updated_at = event.occurred_at;
      },
      rw (a.states, get-put, same) refl,
      rw (a.audit, count_if-append, a.flag, same)
          (ground (arith, a.next_version, a.known, eb, vb, (same_name_iff r.name name).0 same)),
    )
    | inr other ↦ (
      c,
      rw (a.states, get-put, other) ec,
      rw (a.audit, count_if-append, a.flag, other) (omega arith),
    )
  ]
]

serve-IsCounted :
    (s : FeatureFlagStore) (rs : List Request)
    → ((name : FlagName) → IsCounted s name)
    → (name : FlagName) → IsCounted (serve s rs) name
unfolding serve
serve-IsCounted s [] h = h
serve-IsCounted s (r ∷ rs) h =
    serve-IsCounted (submit r s).1 rs (λ name. submit-IsCounted name r s (h r.name) (h name))

init-IsCounted :
    (flags : FeatureFlagSet) (now : ℕ) (name : FlagName) → IsCounted (init_store flags now) name
unfolding init_store get
init-IsCounted flags now bot_access = (_, refl, refl)
init-IsCounted flags now listener_sources = (_, refl, refl)
init-IsCounted flags now ai_processing = (_, refl, refl)
init-IsCounted flags now notifications = (_, refl, refl)
init-IsCounted flags now nlp = (_, refl, refl)
init-IsCounted flags now content_publishing = (_, refl, refl)
init-IsCounted flags now ai_vision = (_, refl, refl)

-- After any sequence of change requests the version of each flag is one more than the number of
-- audit events of that flag.
pub version-serve :
    (flags : FeatureFlagSet) (now : ℕ) (rs : List Request) (name : FlagName)
    → version_of (serve (init_store flags now) rs).states name
      ≡ 1 + changes_of name (serve (init_store flags now) rs)
version-serve flags now rs name =
    let (c, e, v) = serve-IsCounted (init_store flags now) rs (init-IsCounted flags now) name in
    ap (λ o. (or_default name o).version) e ∙ v
