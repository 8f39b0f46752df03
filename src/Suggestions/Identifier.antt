-- ===== src/Suggestions/Identifier.antt =====
-- src/estateflow/services/source_suggestions.py: `normalize_source_identifier`. The digits of
-- `str.isdigit`, a table of Unicode, are a parameter.
use Prim.Native.Char.{code}
use Prim.Native.String.{◌∷◌ as cons, [] as empty, ◌++◌ as join, count}
use estate_flow.Base.{
  ℕ, ◌+◌, String, Bool, true, false, not, ◌&&◌, ◌||◌, ◌≡◌, refl, Option, none, some, if◌then◌else◌,
  on_option, nat_eq, leb, ◌==◌, String_eq, strip, Result, ok, err, value_error,
}

-- a letter as `re.IGNORECASE` compares it with an ASCII one: U+017F is an `s` too
abbrev folded : ℕ → ℕ
folded c = if leb b'A' c && leb c b'Z' then c + 32 else if nat_eq c 383 then b's' else c

-- the text behind a prefix that stands in lower case
unfoldable pub after_prefix : String → String → Option String
after_prefix empty s = some s
after_prefix (cons p prefix) empty = none
after_prefix (cons p prefix) (cons c s) =
    let rest = after_prefix prefix s in if nat_eq (folded (code c)) (code p) then rest else none

-- `re.sub(r"^t\.me/", "@", identifier, flags=re.IGNORECASE)`
abbrev mention_for : String → String → String
mention_for prefix s = on_option (after_prefix prefix s) s (λ rest. join "@" rest)

-- the two alternatives of `^https?://t\.me/`
abbrev without_scheme : String → String
without_scheme s =
    on_option (after_prefix "https://t.me/" s) (mention_for "http://t.me/" s)
      (λ rest. join "@" rest)

abbrev is_word : ℕ → Bool
is_word c =
    (leb b'A' c && leb c b'Z')
    || (leb b'a' c && leb c b'z')
    || (leb b'0' c && leb c b'9')
    || nat_eq c b'_'

abbrev all_chars : (ℕ → Bool) → String → Bool
all_chars p empty = true
all_chars p (cons c s) = p (code c) && all_chars p s

-- `re.fullmatch(r"[A-Za-z0-9_]{5,64}", username)`
abbrev is_username : String → Bool
is_username s = all_chars is_word s && leb 5 (count s) && leb (count s) 64

module _ (is_digit : ℕ → Bool) where
  -- `str.isdigit()`
  abbrev all_digits : String → Bool
  all_digits s = not (s == "") && all_chars is_digit s

  abbrev checked_username : Option String → Result String → Result String
  checked_username none other = other
  checked_username (some username) other =
      if is_username username
      then ok (join "@" username)
      else err (value_error "Invalid Telegram source username.")

  abbrev checked_identifier : String → Result String
  checked_identifier identifier = checked_username (after_prefix "@" identifier) (
      if on_option (after_prefix "-100" identifier) false all_digits
      then ok identifier
      else err (value_error "Source must be a Telegram @username, t.me link, or channel id."))

  unfoldable pub normalize_source_identifier : String → Result String
  unfolding after_prefix
  normalize_source_identifier value =
      checked_identifier (mention_for "t.me/" (without_scheme (strip value)))

normalize_link :
    normalize_source_identifier (λ c. leb b'0' c && leb c b'9') " HTTPS://T.me/uy_joy_bozor "
    ≡ ok "@uy_joy_bozor"
unfolding normalize_source_identifier strip
normalize_link = refl

normalize_channel :
    normalize_source_identifier (λ c. leb b'0' c && leb c b'9') "-1001234" ≡ ok "-1001234"
unfolding normalize_source_identifier strip
normalize_channel = refl
