-- ===== src/Albums/Canonical.antt =====
-- src/estateflow/services/media_buffer.py: `_canonical_album_event`, over the events of
-- src/estateflow/services/telegram_listener.py. `int(text)` is a parameter.
use Prim.Native.String.{◌++◌ as join}
use estate_flow.Base.{
  ℕ, String, Bool, true, ◌&&◌, List, [], ◌∷◌, ◌++◌, Option, none, some, if◌then◌else◌, ltb, ◌==◌,
  ℕ_eq, String_eq, Eq, str_eq_iff, str_leb, any_of, on_option, ◌≡◌, ◌↔◌, arith,
}
use estate_flow.Base.Sort.{sort_by, then_by}

pub record TelegramMediaReference : Type 0 where
  pub media_id : String
  pub media_type : String
  pub mime_type : Option String
  pub size_bytes : Option ℕ
  pub access_hash : Option String
  pub source_channel_id : Option String
  pub source_message_id : Option String

pub record TelegramForwardMetadata : Type 0 where
  pub original_channel_id : Option String
  pub original_message_id : Option String
  pub original_channel_username : Option String

-- The JSON objects of the parser are kept as texts.
pub record RawTelegramEvent : Type 0 where
  pub schema_version : String
  pub event_type : String
  pub idempotency_key : String
  pub account_key : String
  pub source_id : String
  pub source_channel_id : String
  pub source_message_id : String
  pub source_identifier : String
  pub occurred_at : ℕ
  pub correlation_id : String
  pub text : Option String
  pub forward_metadata : Option TelegramForwardMetadata
  pub media : List TelegramMediaReference
  pub media_group_id : Option String
  pub source_message_ids : List String
  pub source_url : Option String
  pub parser_key : Option String
  pub parser_version : Option String
  pub parser_config : String
  pub parser_mode : String
  pub parser_diagnostics : String
  pub parser_provenance : String

abbrev pub build_telegram_album_idempotency_key : String → String → String → String
build_telegram_album_idempotency_key event_type channel group =
    join "telegram:" (join channel (join ":album:" (join group (join ":" event_type))))

-- `event.source_message_ids or [event.source_message_id]`
abbrev ids_or : String → List String → List String
ids_or id [] = id ∷ []
ids_or id (i ∷ ids) = i ∷ ids

abbrev pub ids_of : RawTelegramEvent → List String
ids_of event = ids_or event.source_message_id event.source_message_ids

unfoldable pub all_ids : List RawTelegramEvent → List String
all_ids [] = []
all_ids (event ∷ events) = ids_of event ++ all_ids events

-- the `media_key` tuple
pub record MediaKey : Type 0 where
  pub media_id : String
  pub media_type : String

abbrev same_media_key : MediaKey → MediaKey → Bool
same_media_key a b = a.media_id == b.media_id && a.media_type == b.media_type

pub same_media_key_iff : (a b : MediaKey) → (same_media_key a b ≡ true) ↔ (a ≡ b)
same_media_key_iff a b =
    ground (arith, str_eq_iff a.media_id b.media_id, str_eq_iff a.media_type b.media_type)

instance abbrev pub MediaKey_eq : Eq MediaKey
MediaKey_eq = record { same = same_media_key; agrees = same_media_key_iff }

abbrev pub media_key : TelegramMediaReference → MediaKey
media_key item = record { media_id = item.media_id; media_type = item.media_type }

unfoldable pub all_media : List RawTelegramEvent → List TelegramMediaReference
all_media [] = []
all_media (event ∷ events) = event.media ++ all_media events

-- the first element of each key, in their order
unfoldable pub firsts {ℓ κ} :
    {K : Type ℓ} {A : Type κ} ⦃e : Eq K⦄ → (A → K) → List K → List A → List A
firsts key seen [] = []
firsts key seen (x ∷ xs) =
    let more = firsts key (seen ++ key x ∷ []) xs in
    let rest = firsts key seen xs in if any_of (λ k. k == key x) seen then rest else x ∷ more

-- `if event.text: text_parts.append(event.text)`
abbrev with_text : Option String → List String → List String
with_text none parts = parts
with_text (some text) parts = if text == "" then parts else text ∷ parts

unfoldable pub texts_of : List RawTelegramEvent → List String
texts_of [] = []
texts_of (event ∷ events) = with_text event.text (texts_of events)

abbrev joined : String → List String → String
joined text [] = text
joined text (t ∷ texts) = joined (join text (join "\n\n" t)) texts

-- `"\n\n".join(...) or None`; no part is empty
abbrev text_or_none : List String → Option String
text_or_none [] = none
text_or_none (t ∷ texts) = some (joined t texts)

unfoldable pub earliest : ℕ → List RawTelegramEvent → ℕ
earliest time [] = time
earliest time (event ∷ events) =
    earliest (if ltb event.occurred_at time then event.occurred_at else time) events

module _ (as_int : String → Option ℕ) where
  abbrev number_of : String → ℕ
  number_of id = on_option (as_int id) 0 (λ n. n)

  -- the order of `_message_sort_key`
  abbrev pub message_leb : String → String → Bool
  message_leb a b =
      then_by (ltb (number_of a) (number_of b)) (number_of a == number_of b) (str_leb a b)

  abbrev pub event_leb : RawTelegramEvent → RawTelegramEvent → Bool
  event_leb a b = message_leb a.source_message_id b.source_message_id

  abbrev pub ordered_events : List RawTelegramEvent → List RawTelegramEvent
  ordered_events = sort_by event_leb

  abbrev pub album_event :
      String → String → RawTelegramEvent → List RawTelegramEvent → RawTelegramEvent
  album_event correlation group first ordered = record first {
    schema_version = "telegram.raw.v1";
    idempotency_key =
        build_telegram_album_idempotency_key first.event_type first.source_channel_id group;
    occurred_at = earliest first.occurred_at ordered;
    correlation_id = correlation;
    text = text_or_none (firsts (λ t. t) [] (texts_of ordered));
    media = firsts media_key [] (all_media ordered);
    source_message_ids = sort_by message_leb (firsts (λ t. t) [] (all_ids ordered));
  }

  -- the event of a list in order; none for the `ValueError` of a missing group
  unfoldable pub of_ordered : String → List RawTelegramEvent → Option RawTelegramEvent
  of_ordered correlation [] = none
  of_ordered correlation (first ∷ rest) =
      on_option first.media_group_id none
        λ group. some (album_event correlation group first (first ∷ rest))

  abbrev pub canonical_album_event : String → List RawTelegramEvent → Option RawTelegramEvent
  canonical_album_event correlation events = of_ordered correlation (ordered_events events)
