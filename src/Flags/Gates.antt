-- ===== src/Flags/Gates.antt =====
-- src/estateflow/services/release_controls.py: the wrappers that read the flags before they call
-- the wrapped provider, publisher or Telegram client, which are arguments here.
use Prim.Native.String.{◌++◌}
use estate_flow.Base.{
  ℕ, String, ◌≡◌, refl, ◌≢◌, ap, ◌∙◌, inl, inr, Bool, true, false, not, Option, some, List, [], ◌∷◌,
  arith, if◌then◌else◌, ok, err, runtime_error, Exec, pure, raise, ◌>>=◌, nat_eq,
}
use estate_flow.Base.Dict.{get, put, get-put}
use estate_flow.Flags.{
  FlagName, FlagName_eq, notifications, index, same_name_iff, FeatureFlagSet, FeatureFlagStore,
  FeatureFlagState, FeatureFlagAuditEvent, as_set, state_of, or_default,
}
use estate_flow.Flags.Runs.{Request, submit, serve, submit-cases}

pub record PublishResult : Type 0 where
  pub status : String
  pub message_id : Option String

module _ {S A : Type 0} (flags : Exec S FeatureFlagSet) where
  -- `FeatureGatedSourceProvider.list_active_sources`
  unfoldable pub gated_list_active_sources : Exec S (List A) → Exec S (List A)
  gated_list_active_sources provider = do
    now ← flags
    if not now.listener_sources then pure [] else provider

module _ {S : Type 0} (flags : Exec S FeatureFlagSet) where
  -- `FeatureGatedContentPublisher.publish`
  unfoldable pub gated_publish :
      (String → String → Exec S PublishResult) → String → String → Exec S PublishResult
  gated_publish publisher text idempotency_key = do
    now ← flags
    if not now.content_publishing
        then pure (record {
          status = "dry_run";
          message_id = some ("feature-disabled:" ++ idempotency_key);
        })
        else publisher text idempotency_key

module _ {S A : Type 0} (flags : Exec S FeatureFlagSet) where
  -- `FeatureGatedTelegramNotificationClient.send_message`
  pub gated_send_message : (ℕ → String → Exec S A) → ℕ → String → Exec S A
  gated_send_message client chat_id text = do
    now ← flags
    if not now.notifications
        then raise (runtime_error "notifications feature flag is disabled")
        else client chat_id text

-- `ReleaseControlService.flags`, where the state of the program is the store and something else.
pub service_flags : {W : Type 0} → Exec (FeatureFlagStore × W) FeatureFlagSet
service_flags (store, w) = (ok (as_set store.states), (store, w))

-- No request of the list names the notifications flag.
abbrev LeavesNotifications : List Request → Type 0
LeavesNotifications [] = Unit
LeavesNotifications (r ∷ rs) = (r.name ≢ notifications) × LeavesNotifications rs

abbrev IsOff : FeatureFlagStore → Type 0
IsOff s = (state_of s.states notifications).enabled ≡ false

enabled-put :
    (name : FlagName) (new : FeatureFlagState) (s t : FeatureFlagStore)
    → t.states ≡ put name new s.states
    → (state_of t.states notifications).enabled ≡ (
        if nat_eq (index name) (index notifications)
        then new.enabled
        else (state_of s.states notifications).enabled)
enabled-put name new s t e = rw e (
    ap (λ o. (or_default notifications o).enabled) (get-put name notifications new s.states)
    ∙ pick (nat_eq (index name) (index notifications)))
  where
    pick :
        (b : Bool)
        → (or_default notifications (if b then some new else get notifications s.states)).enabled
          ≡ (if b then new.enabled else (state_of s.states notifications).enabled)
    pick true = refl
    pick false = refl

-- A request for another flag keeps the notifications off.
submit-IsOff :
    (s : FeatureFlagStore) (r : Request) → r.name ≢ notifications → IsOff s → IsOff (submit r s).1
submit-IsOff s r other h = elim (submit-cases r s) [
  | inl (e, same) ↦ rw same h
  | inr (event, _, a) ↦ ground (
    arith,
    enabled-put r.name _ s (submit r s).1 a.states,
    same_name_iff r.name notifications,
    other,
  )
]

serve-IsOff :
    (s : FeatureFlagStore) (rs : List Request)
    → LeavesNotifications rs
    → IsOff s
    → IsOff (serve s rs)
unfolding serve
serve-IsOff s [] l h = h
serve-IsOff s (r ∷ rs) l h = serve-IsOff (submit r s).1 rs l.1 (submit-IsOff s r l.0 h)

accepted-IsOff :
    (r : Request) (s : FeatureFlagStore) (event : FeatureFlagAuditEvent)
    → r.name ≡ notifications
    → r.enabled ≡ false
    → (submit r s).0 ≡ ok event
    → IsOff (submit r s).1
accepted-IsOff r s event named off accepted = elim (submit-cases r s) [
  | inl (e, same) ↦ absurd (cc (ap (λ o. o.0) same))
  | inr (event', _, a) ↦ ground (
    arith,
    enabled-put r.name _ s (submit r s).1 a.states,
    same_name_iff r.name notifications,
    a.value,
  )
]

send-IsOff :
    {W A : Type 0} (client : ℕ → String → Exec (FeatureFlagStore × W) A) (chat : ℕ) (text : String)
    (s : FeatureFlagStore) (w : W)
    → IsOff s
    → gated_send_message service_flags client chat text (s, w)
      ≡ (err (runtime_error "notifications feature flag is disabled"), (s, w))
unfolding gated_send_message service_flags as_set
send-IsOff client chat text s w h = rw h

-- After an accepted request that switches the notifications off, and any requests for other flags,
-- a send raises, and neither the store nor the rest of the state is changed, whatever the client is.
pub gated_send-off :
    {W A : Type 0} (client : ℕ → String → Exec (FeatureFlagStore × W) A) (chat : ℕ) (text : String)
    (r : Request) (s : FeatureFlagStore) (event : FeatureFlagAuditEvent) (later : List Request)
    (w : W)
    → r.name ≡ notifications
    → r.enabled ≡ false
    → (submit r s).0 ≡ ok event
    → LeavesNotifications later
    → gated_send_message service_flags client chat text (serve (submit r s).1 later, w) ≡ (
      err (runtime_error "notifications feature flag is disabled"),
      (serve (submit r s).1 later, w),
    )
gated_send-off client chat text r s event later w named off accepted others =
    send-IsOff client chat text (serve (submit r s).1 later) w
      (serve-IsOff (submit r s).1 later others (accepted-IsOff r s event named off accepted))
