-- ===== src/Tags/Keys.antt =====
-- src/estateflow/services/audience_tags.py: `normalize_tag_key`. `str.casefold`, a table of Unicode, is
-- a parameter.
use Prim.Native.Char.{code}
use Prim.Native.String.{◌∷◌ as cons, [] as empty, ◌++◌ as join, count}
use estate_flow.Base.{
  ℕ, String, Bool, true, false, ◌&&◌, ◌||◌, ◌≡◌, refl, if◌then◌else◌, nat_eq, leb, ◌==◌, String_eq,
  strip, Result, ok, err, value_error,
}

abbrev is_lower : ℕ → Bool
is_lower c = leb b'a' c && leb c b'z'

abbrev is_key_char : ℕ → Bool
is_key_char c = is_lower c || (leb b'0' c && leb c b'9') || nat_eq c b'_'

-- `.replace("-", "_").replace(" ", "_")`, then `re.sub(r"[^a-z0-9_]", "", key)`
abbrev key_chars : String → String
key_chars empty = empty
key_chars (cons c s) =
    let rest = key_chars s in
    if nat_eq (code c) b'-' || nat_eq (code c) b' '
    then cons "_" rest
    else if is_key_char (code c)
    then cons c rest
    else rest

abbrev starts_low : String → Bool
starts_low empty = false
starts_low (cons c s) = nat_eq (code c) b'_'

-- `re.sub(r"_+", "_", key)`
abbrev single_lows : String → String
single_lows empty = empty
single_lows (cons c s) =
    let rest = single_lows s in
    if nat_eq (code c) b'_' && starts_low rest then rest else cons c rest

-- `key.strip("_")`
abbrev without_front : String → String
without_front empty = empty
without_front (cons c s) =
    let rest = without_front s in if nat_eq (code c) b'_' then rest else cons c s

abbrev without_back : String → String
without_back empty = empty
without_back (cons c s) =
    let rest = without_back s in if nat_eq (code c) b'_' && rest == "" then empty else cons c rest

-- TAG_ALIAS_MAP
abbrev pub tag_alias_map : String → String
tag_alias_map key = if key == "young_family" || key == "yosh_oila" then "family" else key

abbrev all_key_chars : String → Bool
all_key_chars empty = true
all_key_chars (cons c s) = is_key_char (code c) && all_key_chars s

-- TAG_KEY_RE
abbrev pub tag_key_re : String → Bool
tag_key_re empty = false
tag_key_re (cons c s) = is_lower (code c) && all_key_chars s && leb 1 (count s) && leb (count s) 63

module _ (casefold : String → String) where
  unfoldable pub normalize_tag_key : String → Result String
  normalize_tag_key value =
      let key =
        tag_alias_map
          (without_back (without_front (single_lows (key_chars (casefold (strip value)))))) in
      if tag_key_re key then ok key else err (value_error (join "Invalid audience tag key: " value))

normalize_spaces : normalize_tag_key (λ s. s) " group - of_girls!" ≡ ok "group_of_girls"
unfolding normalize_tag_key strip
normalize_spaces = refl

normalize_alias : normalize_tag_key (λ s. s) "yosh oila" ≡ ok "family"
unfolding normalize_tag_key strip
normalize_alias = refl

-- `key.replace("_", " ")`
abbrev pub spaced : String → String
spaced empty = empty
spaced (cons c s) =
    let rest = spaced s in if nat_eq (code c) b'_' then cons " " rest else cons c rest
