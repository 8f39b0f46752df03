-- ===== src/Referrals/Service.antt =====
-- src/estateflow/services/referrals.py: the rate limiter and `ReferralService`.
use Prim.Native.String.{◌++◌, count}
use Prim.Native.Char.{code}
use estate_flow.Base.{
  ℕ, zero, suc, ◌+◌, String, Bool, true, false, not, ◌&&◌, ◌||◌, Option, none, some, List, [], ◌∷◌,
  ltb, leb, nat_eq, ◌==◌, String_eq, ℕ_eq, if◌then◌else◌, on_option, str, strip, any_of, keep_if,
  length, Result, ok, err, Error, value_error, Exec, pure, raise, raise_if, gets, modify, ◌>>=◌,
  ◌>>◌,
}
use estate_flow.Base as B
use estate_flow.Base.Dict.{Dict, get, put}
use estate_flow.Referrals.Users.{
  TelegramUser, ReferralEvent, ReferralActivationResult, UserRepository, upsert_user,
  get_user_by_referral_code, get_pending_or_active_event, create_pending_event, activate_once,
  audit,
}

pub record RateLimiter : Type 0 where
  pub max_attempts : ℕ
  pub window : ℕ
  pub attempts : Dict ℕ (List ℕ)

abbrev attempts_of : ℕ → RateLimiter → List ℕ
attempts_of user_id l = elim (get user_id l.attempts) [ none ↦ [] | some xs ↦ xs ]

-- `[item for item in attempts if item >= now - window]`
abbrev pub recent : ℕ → ℕ → List ℕ → List ℕ
recent now window xs = keep_if (λ item. leb now (item + window)) xs

unfoldable pub allow : ℕ → ℕ → Exec RateLimiter Bool
allow user_id now = do
  attempts ← gets (λ l. recent now l.window (attempts_of user_id l))
  full ← gets (λ l. leb l.max_attempts (length attempts))
  let kept = if full then attempts else B.◌++◌ attempts (now ∷ [])
  modify (λ l. record l { attempts = put user_id kept l.attempts })
  pure (not full)

pub record PremiumMessage : Type 0 where
  pub user_id : ℕ
  pub premium_until : ℕ
  pub active_referral_count : ℕ

-- The service with its repository and limiter, the messages that were given to the notification
-- publisher, and the keys of the events that were given to the analytics recorder.
pub record ReferralService : Type 0 where
  pub repository : UserRepository
  pub limiter : RateLimiter
  pub messages : List PremiumMessage
  pub recorded : List String
  pub threshold : ℕ
  pub premium_extension : ℕ

pub record ReferralStartResult : Type 0 where
  pub user : TelegramUser
  pub event : Option ReferralEvent
  pub created : Bool
  pub skipped_reason : Option String

module _ {A : Type 0} where
  abbrev pub in_repository : Exec UserRepository A → Exec ReferralService A
  in_repository m s = let r = m s.repository in (r.0, record s { repository = r.1 })

  abbrev pub in_limiter : Exec RateLimiter A → Exec ReferralService A
  in_limiter m s = let r = m s.limiter in (r.0, record s { limiter = r.1 })

abbrev pub record_event : String → Exec ReferralService (Unit {0})
record_event key = modify (λ s. record s { recorded = B.◌++◌ s.recorded (key ∷ []) })

-- One character of REFERRAL_CODE_PATTERN, `[A-Za-z0-9_-]`.
abbrev is_code_char : ℕ → Bool
is_code_char c =
    (leb b'A' c && leb c b'Z')
    || (leb b'a' c && leb c b'z')
    || (leb b'0' c && leb c b'9')
    || nat_eq c b'_'
    || nat_eq c b'-'

all_code_chars : String → Bool
all_code_chars String.[] = true
all_code_chars (String.◌∷◌ c s) = is_code_char (code c) && all_code_chars s

unfoldable pub validate_referral_code : {S : Type 0} → String → Exec S String
unfolding all_code_chars
validate_referral_code value = do
  raise_if (not (all_code_chars value && leb 3 (count value) && leb (count value) 64))
      (value_error "Invalid Telegram start referral code.")
  pure value

unfoldable pub parse_referral_start_parameter : {S : Type 0} → String → Exec S String
unfolding validate_referral_code
parse_referral_start_parameter value = validate_referral_code (strip value)

-- `current_id in visited`
abbrev pub seen : ℕ → List ℕ → Bool
seen id visited = any_of (λ v. nat_eq v id) visited

-- The loop of `_would_create_cycle`; `none` means that the fuel ran out.
unfoldable pub cycle_loop : ℕ → UserRepository → (user_id current_id : ℕ) → List ℕ → Option Bool
cycle_loop zero s user_id current_id visited = none
cycle_loop (suc fuel) s user_id current_id visited = elim (seen current_id visited) [
  | true ↦ some true
  | false ↦ elim (get_pending_or_active_event current_id s) [
    | none ↦ some false
    | some event ↦ elim (nat_eq event.referrer_user_id user_id) [
      | true ↦ some true
      | false ↦ cycle_loop fuel s user_id event.referrer_user_id (current_id ∷ visited)
    ]
  ]
]

-- One round for each stored event, and one more, is enough fuel.
unfoldable pub would_create_cycle : (referrer_user_id user_id : ℕ) → UserRepository → Bool
would_create_cycle referrer_user_id user_id s =
    elim (cycle_loop (suc (length s.referral_events)) s user_id referrer_user_id []) [
      | none ↦ true
      | some answer ↦ answer
    ]

abbrev start_skipped : TelegramUser → Option ReferralEvent → String → ReferralStartResult
start_skipped user event reason = record {
  user = user;
  event = event;
  created = false;
  skipped_reason = some reason;
}

-- The last part of `register_start`: the new link.
unfoldable pub create_link :
    (user_id : ℕ) (user : TelegramUser) (referrer_user_id : ℕ) (fresh_id : String) (now : ℕ)
    → Exec ReferralService ReferralStartResult
create_link user_id user referrer_user_id fresh_id now = do
  made ← in_repository (
      create_pending_event referrer_user_id user_id ("telegram_referral:" ++ str user_id) fresh_id
        now)
  record_event ("referral_accepted:" ++ (made.0).referral_event_id)
  pure (record { user = user; event = some made.0; created = made.1; skipped_reason = none })

-- `register_start`, once the referral code is known to be good: the code's lookup and what follows.
unfoldable pub accept_code :
    (user_id : ℕ) (user : TelegramUser) (code fresh_id : String) (now : ℕ)
    → Exec ReferralService ReferralStartResult
accept_code user_id user code fresh_id now = do
  found ← gets (λ s. get_user_by_referral_code code s.repository)
  on_option found
      (do
        in_repository (audit user_id "referral_start_rejected" "malformed_or_unknown_code" now)
        pure (start_skipped user none "unknown_code"))
      (λ referrer. do
        circular ← gets (λ s. would_create_cycle referrer.user_id user_id s.repository)
        existing ← gets (λ s. get_pending_or_active_event user_id s.repository)
        if nat_eq referrer.user_id user_id
            then (do
              in_repository (audit user_id "referral_start_rejected" "self_referral" now)
              pure (start_skipped user none "self_referral"))
            else if circular
            then (do
              in_repository (audit user_id "referral_start_rejected" "circular_referral" now)
              pure (start_skipped user none "circular_referral"))
            else on_option existing (create_link user_id user referrer.user_id fresh_id now)
                λ event. pure (
                  start_skipped user (some event) (
                    if nat_eq event.referrer_user_id referrer.user_id
                    then "duplicate_referral"
                    else "referrer_immutable")))

abbrev pub given : Option String → String
given none = ""
given (some text) = text

unfoldable pub register_start :
    (user_id : ℕ) (start_parameter : Option String) (fresh_id : String) (now : ℕ)
    → Exec ReferralService ReferralStartResult
register_start user_id start_parameter fresh_id now = do
  raise_if (leb user_id 0) (value_error "Telegram user id must be positive.")
  allowed ← in_limiter (allow user_id now)
  if not allowed
      then (do
        in_repository (audit user_id "referral_start_rejected" "rate_limited" now)
        user ← in_repository (upsert_user user_id now)
        pure (start_skipped user none "rate_limited"))
      else (do
        user ← in_repository (upsert_user user_id now)
        if given start_parameter == ""
            then pure (start_skipped user none "no_referral_code")
            else (do
              code ← parse_referral_start_parameter (given start_parameter)
              accept_code user_id user code fresh_id now))

pub data Action : Type 0 where
  search saved_filter : Action

abbrev action_text : Action → String
action_text search = "search"
action_text saved_filter = "saved_filter"

abbrev or_zero : Option ℕ → ℕ
or_zero none = 0
or_zero (some n) = n

-- The message of a created award. The source asserts that the count is given with it.
unfoldable pub announce : ReferralActivationResult → Exec ReferralService (Unit {0})
announce result = on_option result.premium_award (pure tt) λ award.
    if award.created
    then modify (λ s. record s {
      messages = B.◌++◌ s.messages (
          record {
            user_id = award.referrer_user_id;
            premium_until = award.premium_until;
            active_referral_count = or_zero result.active_referral_count;
          }
          ∷ []);
    })
    else pure tt

unfoldable pub record_activation : ReferralActivationResult → Exec ReferralService (Unit {0})
record_activation result = on_option result.event (pure tt) λ event.
    if result.activated
    then record_event ("referral_activated:" ++ event.referral_event_id)
    else pure tt

unfoldable pub record_qualifying_action :
    (user_id : ℕ) (action : Action) (action_id : String) (now : ℕ)
    → Exec ReferralService ReferralActivationResult
record_qualifying_action user_id action action_id now = do
  raise_if (leb user_id 0) (value_error "Telegram user id must be positive.")
  raise_if (strip action_id == "") (value_error "Referral activation action id is required.")
  threshold ← gets (λ s. s.threshold)
  extension ← gets (λ s. s.premium_extension)
  result ←
      in_repository
        (activate_once user_id (action_text action ++ (":" ++ action_id)) now threshold extension)
  announce result
  record_activation result
  pure result
