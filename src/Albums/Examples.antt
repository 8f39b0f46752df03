-- ===== src/Albums/Examples.antt =====
-- src/estateflow/services/media_buffer.py: an album of two messages, and the tests.
use estate_flow.Base.{
  ℕ, String, true, false, ◌+◌, ◌≡◌, refl, List, [], ◌∷◌, Option, none, some, if◌then◌else◌, ◌==◌,
  String_eq,
}
use estate_flow.Base.Sort.{sort_by, insert}
use estate_flow.Base.Dict.{get, put}
use estate_flow.Albums.Canonical.{
  RawTelegramEvent, TelegramMediaReference, firsts, all_ids, all_media, texts_of, of_ordered,
  canonical_album_event,
}
use estate_flow.Albums.Whole.{IsInGroup, IsAlbumOf, canonical_album_event-IsAlbumOf}
use estate_flow.Albums.Buffer.{
  AlbumBufferKey, AlbumBufferKey_eq, AlbumBuffer, Step, publishes, begins, ends, cancels, step, run,
  publish, begin_flush, end_flush, without_key, nth_flight, without_nth,
}
use estate_flow.Albums.Sound.{IsSound}
use estate_flow.Albums.Kept.{held, run-held}

-- `int` on the ids of the example
abbrev as_int : String → Option ℕ
as_int text = if text == "9" then some 9 else if text == "10" then some 10 else none

abbrev photo : String → TelegramMediaReference
photo id = record {
  media_id = id;
  media_type = "photo";
  mime_type = none;
  size_bytes = none;
  access_hash = none;
  source_channel_id = some "c";
  source_message_id = none;
}

abbrev message : String → ℕ → Option String → RawTelegramEvent
message id time words = record {
  schema_version = "telegram.raw.v1";
  event_type = "created";
  idempotency_key = id;
  account_key = "a";
  source_id = "s";
  source_channel_id = "c";
  source_message_id = id;
  source_identifier = "flats";
  occurred_at = time;
  correlation_id = "x";
  text = words;
  forward_metadata = none;
  media = photo "p" ∷ photo id ∷ [];
  media_group_id = some "g";
  source_message_ids = [];
  source_url = none;
  parser_key = none;
  parser_version = none;
  parser_config = "";
  parser_mode = "";
  parser_diagnostics = "";
  parser_provenance = "";
}

abbrev album_of : AlbumBufferKey
album_of = record { source_channel_id = "c"; media_group_id = "g"; event_type = "created" }

abbrev ninth : RawTelegramEvent
ninth = message "9" 5 none

abbrev tenth : RawTelegramEvent
tenth = message "10" 4 (some "a flat")

ninth-IsInGroup : IsInGroup album_of ninth
ninth-IsInGroup = record { channel = refl; group = refl; type = refl }

tenth-IsInGroup : IsInGroup album_of tenth
tenth-IsInGroup = record { channel = refl; group = refl; type = refl }

canonical_album_event-IsAlbumOf_example :
    (album : RawTelegramEvent) × (canonical_album_event as_int "y" (tenth ∷ ninth ∷ [])
      ≡ some album)
    × IsAlbumOf album_of (tenth ∷ ninth ∷ []) album
canonical_album_event-IsAlbumOf_example =
    canonical_album_event-IsAlbumOf as_int "y" album_of tenth (ninth ∷ [])
      (tenth-IsInGroup, (ninth-IsInGroup, tt))

-- the ids are in the order of their numbers, the shared photo is kept once
abbrev ids_and_media : Option RawTelegramEvent → List String × List TelegramMediaReference
ids_and_media none = ([], [])
ids_and_media (some album) = (album.source_message_ids, album.media)

makes_an_album :
    ids_and_media (canonical_album_event as_int "y" (tenth ∷ ninth ∷ []))
    ≡ ("9" ∷ "10" ∷ [], photo "p" ∷ photo "9" ∷ photo "10" ∷ [])
unfolding of_ordered sort_by insert firsts all_ids all_media texts_of
makes_an_album = refl

abbrev empty_buffer : AlbumBuffer
empty_buffer = record { groups = []; flush_tasks = []; flights = []; sent = [] }

empty_buffer-IsSound : IsSound empty_buffer
empty_buffer-IsSound = record { apart = tt; own = tt; flying = tt; told = tt }

-- a message arrives while the flush of an earlier one fails
abbrev interrupted : List Step
interrupted =
    publishes tenth true ∷ begins album_of "y" ∷ publishes ninth true ∷ ends 0 false ∷ cancels ∷ []

puts_back : get album_of (run as_int empty_buffer interrupted).groups ≡ some (tenth ∷ ninth ∷ [])
unfolding run step publish begin_flush end_flush of_ordered sort_by insert without_key nth_flight
    without_nth get put
puts_back = refl

run-held_example :
    (held (λ e. true) (run as_int empty_buffer interrupted) ≡ 0 + 2)
    × IsSound (run as_int empty_buffer interrupted)
run-held_example = run-held as_int (λ e. true) interrupted empty_buffer empty_buffer-IsSound
