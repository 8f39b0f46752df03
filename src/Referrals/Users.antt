-- ===== src/Referrals/Users.antt =====
-- src/estateflow/repositories/users.py: `InMemoryUserRepository`.
use Prim.Native.String.{◌++◌}
use estate_flow.Base.{
  ℕ, ◌+◌, String, Bool, true, false, not, ◌&&◌, ◌||◌, Option, none, some, List, [], ◌∷◌, ltb, leb,
  nat_eq, ◌==◌, String_eq, ℕ_eq, if◌then◌else◌, str, any_of, find_first, Result, ok, err,
  value_error, key_error_id, Exec, pure, raise, raise_if, or_raise, gets, modify, ◌>>=◌, ◌>>◌,
}
use estate_flow.Base as B
use estate_flow.Base.Dict.{Dict, get, put, values}

pub record TelegramUser : Type 0 where
  pub user_id : ℕ
  pub referral_code : String
  pub referred_by : Option ℕ
  pub premium_until : Option ℕ
  pub active_referral_count : ℕ
  pub status : String
  pub created_at : ℕ
  pub updated_at : ℕ

pub data EventStatus : Type 0 where
  pending active rejected : EventStatus

pub record ReferralEvent : Type 0 where
  pub referral_event_id : String
  pub referrer_user_id : ℕ
  pub referred_user_id : ℕ
  pub activation_event_key : String
  pub status : EventStatus
  pub created_at : ℕ
  pub activated_at : Option ℕ

pub record PremiumAward : Type 0 where
  pub referrer_user_id : ℕ
  pub milestone : ℕ
  pub premium_until : ℕ
  pub created : Bool

pub record ReferralActivationResult : Type 0 where
  pub activated : Bool
  pub event : Option ReferralEvent
  pub active_referral_count : Option ℕ
  pub premium_award : Option PremiumAward
  pub skipped_reason : Option String

pub record AuditEntry : Type 0 where
  pub user_id : ℕ
  pub action : String
  pub reason : String
  pub created_at : ℕ

pub record UserRepository : Type 0 where
  pub users : Dict ℕ TelegramUser
  pub referral_events : Dict ℕ ReferralEvent
  pub premium_awards : List (ℕ × ℕ)
  pub audit_events : List AuditEntry

abbrev pub empty_repository : UserRepository
empty_repository = record {
  users = [];
  referral_events = [];
  premium_awards = [];
  audit_events = [];
}

referral_code_of : ℕ → String
referral_code_of user_id = "ef_" ++ str user_id

-- `TelegramUser(user_id=user_id, referral_code=_referral_code(user_id))`
unfoldable pub new_user : ℕ → ℕ → TelegramUser
unfolding referral_code_of
new_user user_id now = record {
  user_id = user_id;
  referral_code = referral_code_of user_id;
  referred_by = none;
  premium_until = none;
  active_referral_count = 0;
  status = "active";
  created_at = now;
  updated_at = now;
}

unfoldable pub touched : ℕ → ℕ → Option TelegramUser → TelegramUser
touched user_id now none = new_user user_id now
touched user_id now (some existing) = record existing { updated_at = now }

unfoldable pub upsert_user : ℕ → ℕ → Exec UserRepository TelegramUser
upsert_user user_id now = do
  user ← gets (λ s. touched user_id now (get user_id s.users))
  modify (λ s. record s { users = put user_id user s.users })
  pure user

unfoldable pub get_user_by_referral_code : String → UserRepository → Option TelegramUser
get_user_by_referral_code code s = find_first (λ user. user.referral_code == code) (values s.users)

abbrev pub unless_rejected : Option ReferralEvent → Option ReferralEvent
unless_rejected none = none
unless_rejected (some event) = elim event.status [ rejected ↦ none | _ ↦ some event ]

unfoldable pub get_pending_or_active_event : ℕ → UserRepository → Option ReferralEvent
get_pending_or_active_event referred_user_id s =
    unless_rejected (get referred_user_id s.referral_events)

-- `referred.referred_by is not None and referred.referred_by != referrer_user_id`
abbrev pub has_other_referrer : Option ℕ → ℕ → Bool
has_other_referrer none referrer = false
has_other_referrer (some r) referrer = not (nat_eq r referrer)

abbrev pub pending_event : ℕ → ℕ → String → String → ℕ → ReferralEvent
pending_event referrer referred key fresh_id now = record {
  referral_event_id = fresh_id;
  referrer_user_id = referrer;
  referred_user_id = referred;
  activation_event_key = key;
  status = pending;
  created_at = now;
  activated_at = none;
}

abbrev create_new :
    (referrer referred : ℕ) (key fresh_id : String) (now : ℕ)
    → Exec UserRepository (ReferralEvent × Bool)
create_new referrer referred key fresh_id now = do
  user ← (λ s. or_raise (key_error_id referred) (get referred s.users) s)
  raise_if (has_other_referrer user.referred_by referrer)
      (value_error "User already has immutable referrer.")
  modify (λ s. record s {
    users = put referred (record user { referred_by = some referrer; updated_at = now }) s.users;
  })
  let event = pending_event referrer referred key fresh_id now
  modify (λ s. record s { referral_events = put referred event s.referral_events })
  pure (event, true)

abbrev or_create :
    Option ReferralEvent
    → Exec UserRepository (ReferralEvent × Bool)
    → Exec UserRepository (ReferralEvent × Bool)
or_create none create = create
or_create (some existing) create = pure (existing, false)

unfoldable pub create_pending_event :
    (referrer referred : ℕ) (key fresh_id : String) (now : ℕ)
    → Exec UserRepository (ReferralEvent × Bool)
create_pending_event referrer referred key fresh_id now = do
  existing ← gets (λ s. get referred s.referral_events)
  or_create existing (create_new referrer referred key fresh_id now)

abbrev skipped : Option ReferralEvent → Option ℕ → String → ReferralActivationResult
skipped event count reason = record {
  activated = false;
  event = event;
  active_referral_count = count;
  premium_award = none;
  skipped_reason = some reason;
}

-- `(referrer, threshold) in self.premium_awards`
abbrev pub has_award : ℕ × ℕ → List (ℕ × ℕ) → Bool
has_award key awards = any_of (λ a. nat_eq a.0 key.0 && nat_eq a.1 key.1) awards

-- `premium_until if premium_until and premium_until > now else now`, and the extension
abbrev pub extended : Option ℕ → ℕ → ℕ → ℕ
extended none now extension = now + extension
extended (some until) now extension = (if ltb now until then until else now) + extension

abbrev pub grants : TelegramUser → ℕ → List (ℕ × ℕ) → Bool
grants referrer threshold awards =
    leb threshold (referrer.active_referral_count + 1)
    && not (has_award (referrer.user_id, threshold) awards)

-- The award and the new `premium_until` of the referrer.
abbrev pub award_for : TelegramUser → ℕ → ℕ → ℕ → List (ℕ × ℕ) → Option PremiumAward
award_for referrer now threshold extension awards =
    if grants referrer threshold awards
    then some (record {
      referrer_user_id = referrer.user_id;
      milestone = threshold;
      premium_until = extended referrer.premium_until now extension;
      created = true;
    })
    else none

abbrev activate_event :
    (referred : ℕ) (key : String) (now threshold extension : ℕ)
    → ReferralEvent
    → Exec UserRepository ReferralActivationResult
activate_event referred key now threshold extension event = do
  referrer ←
      (λ s. or_raise (key_error_id event.referrer_user_id) (get event.referrer_user_id s.users) s)
  let active_count = referrer.active_referral_count + 1
  let updated_event = record event {
    status = active;
    activation_event_key = key;
    activated_at = some now;
  }
  modify (λ s. record s { referral_events = put referred updated_event s.referral_events })
  granted ← gets (λ s. grants referrer threshold s.premium_awards)
  award ← gets (λ s. award_for referrer now threshold extension s.premium_awards)
  let premium_until =
      if granted
      then some (extended referrer.premium_until now extension)
      else referrer.premium_until
  modify (λ s. record s {
    premium_awards =
        if granted then (referrer.user_id, threshold) ∷ s.premium_awards else s.premium_awards;
  })
  modify (λ s. record s {
    users =
        put referrer.user_id
          (record referrer {
            active_referral_count = active_count;
            premium_until = premium_until;
            updated_at = now;
          })
          s.users;
  })
  pure (record {
    activated = true;
    event = some updated_event;
    active_referral_count = some active_count;
    premium_award = award;
    skipped_reason = none;
  })

abbrev dispatch :
    (referred : ℕ) (key : String) (now threshold extension : ℕ)
    → Option ReferralEvent
    → Exec UserRepository ReferralActivationResult
dispatch referred key now threshold extension none = pure (skipped none none "no_referral_event")
dispatch referred key now threshold extension (some event) = elim event.status [
  | active ↦ do
    referrer ←
        (λ s. or_raise (key_error_id event.referrer_user_id) (get event.referrer_user_id s.users) s)
    pure (skipped (some event) (some referrer.active_referral_count) "already_active")
  | pending ↦ activate_event referred key now threshold extension event
  | rejected ↦ pure (skipped (some event) none "event_rejected")
]

-- A set of awards is a list without order; a new award is put in front.
unfoldable pub activate_once :
    (referred : ℕ) (key : String) (now threshold extension : ℕ)
    → Exec UserRepository ReferralActivationResult
activate_once referred key now threshold extension = do
  event ← gets (λ s. get referred s.referral_events)
  dispatch referred key now threshold extension event

unfoldable pub audit :
    (user_id : ℕ) (action reason : String) (now : ℕ) → Exec UserRepository (Unit {0})
audit user_id action reason now = modify (λ s. record s {
  audit_events =
      B.◌++◌ s.audit_events
        (record { user_id = user_id; action = action; reason = reason; created_at = now } ∷ []);
})
